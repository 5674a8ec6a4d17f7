-- ===== src/Driver.antt =====
-- pkg/driver/driver.go: the driver that the command makes, its validation, and the servers it runs.
pub mod Frame
pub mod Registered
pub mod Survival
use nexentastor_csi_driver.Common.{
  if◌then◌else◌, ltb, ◌<>◌, length, Dict, path_join, String, Bool, not, none, some, List, [], ◌∷◌,
  ◌++◌, ◌==◌,
}
use nexentastor_csi_driver.Errors.{plain, foreign, value, failure}
use nexentastor_csi_driver.External.{External}
use nexentastor_csi_driver.External.Params.{
  Url, Service, identity_service, controller_service, node_service,
}
use nexentastor_csi_driver.Process.{
  Exec, ◌>>=◌, ◌>>◌, catch, pure, raise, call, fail_with, fault_text, deref,
}
use nexentastor_csi_driver.Role.{Role, is_controller, is_node}
use nexentastor_csi_driver.Config.Data.{NsData}
use nexentastor_csi_driver.Controller.Resolvers.{resolver_args, new_controller_server}
use nexentastor_csi_driver.Node.Server.{new_node_server}
use nexentastor_csi_driver.Serve.{Call, serve_calls}

-- `Driver`, without its config, which is the one of the process, its logger and its gRPC server.
pub record Driver : Type 0 where
  pub role : Role
  pub node_id : String
  pub endpoint : String

-- `Args`: whether its config and its logger are not nil.
pub record Args : Type 0 where
  pub driver : Driver
  pub has_config : Bool
  pub has_log : Bool

-- The socket of a parsed endpoint. `filepath.FromSlash` changes nothing on Unix.
unfoldable pub socket_of : Url → String
socket_of url = if not (url.host == "") then path_join url.host url.path else url.path

module _ (X : External) where
  -- `NewDriver`.
  unfoldable pub new_driver : Args → Exec X Driver
  new_driver args =
      if not args.has_config
      then raise (plain "args.Config is required")
      else if not args.has_log
      then raise (plain "args.Log is required")
      else pure args.driver

  -- The licenses of the nodes are asked for, and what comes of it goes to the log only.
  unfoldable pub check_licenses : List X.Provider → Exec X (Unit {0})
  check_licenses [] = pure tt
  check_licenses (provider ∷ providers) = do
    _ ← call (X.get_license provider)
    check_licenses providers

  -- The question whether the nodes are one cluster, for two nodes or more.
  unfoldable pub check_cluster : X.Resolver → Exec X (Unit {0})
  check_cluster resolver =
      if ltb 1 (length (X.nodes resolver))
      then (do _ ← call (X.is_cluster resolver); pure tt)
      else pure tt

  -- The loop of `Validate`.
  unfoldable pub validate_entries : Dict NsData → Exec X (Unit {0})
  validate_entries [] = pure tt
  validate_entries ((name, cfg) ∷ rest) = do
    skip ← deref cfg.insecure_skip_verify
    made ← call (X.new_resolver (resolver_args cfg skip))
    fail_with made.1 λ f.
        plain
          ("Driver validation failed, cannot create NexentaStor(s) resolver: " <> fault_text X f)
    resolver ← deref made.0
    check_licenses (X.nodes resolver)
    check_cluster resolver
    validate_entries rest

  -- `Validate`.
  unfoldable pub validate_driver : Exec X (Unit {0})
  validate_driver s = validate_entries s.config.ns_map s

  -- An old socket is removed, and the new one listened to.
  unfoldable pub open_socket : String → String → Exec X (Unit {0})
  open_socket scheme socket = do
    removed ← call (X.remove socket)
    fail_with
        (elim removed [
          | none ↦ none
          | some f ↦ if X.os_is_not_exist (foreign f) then none else some f
        ])
        λ f. plain ("Cannot remove unix domain socket: " <> socket)
    listening ← call (X.listen scheme socket)
    fail_with listening λ f. plain ("Failed to create socket listener: " <> fault_text X f)

  -- `NewControllerServer` and `NewNodeServer` where the role asks for them: what is registered.
  unfoldable pub register_controller : Role → Exec X (List Service)
  register_controller role =
      if is_controller role
      then (do
        catch (new_controller_server X)
            (λ e. raise (plain ("Failed to create ControllerServer: " <> X.error_text e)))
        pure (controller_service ∷ []))
      else pure []

  unfoldable pub register_node : Role → Exec X (List Service)
  register_node role =
      if is_node role
      then (do
        catch (new_node_server X)
            (λ e. raise (plain ("Failed to create NodeServer: " <> X.error_text e)))
        pure (node_service ∷ []))
      else pure []

  -- The services of `Run`, in the order of their registration. The identity server needs nothing but
  -- the config.
  unfoldable pub register : Role → Exec X (List Service)
  register role = do
    controller ← register_controller role
    node ← register_node role
    pure (identity_service ∷ controller ++ node)

  -- `Run` up to the call of `Serve`.
  unfoldable pub prepare : Driver → Exec X (List Service)
  prepare driver = elim (X.parse_url driver.endpoint) [
    | failure f ↦ raise (plain ("Failed to parse endpoint: " <> driver.endpoint))
    | value url ↦
        if not (url.scheme == "unix")
        then raise (plain "Only unix domain sockets are supported")
        else (do open_socket url.scheme (socket_of url); register driver.role)
  ]

  -- `Run`, with the calls that `Serve` runs the handlers for before it ends.
  unfoldable pub run : Driver → List (Call X) → Exec X (Unit {0})
  run driver calls = do
    services ← prepare driver
    serve_calls X services calls
    ended ← call (X.serve services)
    fail_with ended foreign
