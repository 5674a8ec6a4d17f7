-- ===== src/Serve.antt =====
-- The calls that `Serve` of the gRPC server hands to the driver's handlers, behind `grpcErrorHandler`
-- (pkg/driver/driver.go), one after the other.
use nexentastor_csi_driver.Common.{if◌then◌else◌, any, String, Bool, true, false, List, [], ◌∷◌}
use nexentastor_csi_driver.External.{External}
use nexentastor_csi_driver.Errors.{ok}
use nexentastor_csi_driver.External.Params.{
  Service, identity_service, controller_service, node_service,
}
use nexentastor_csi_driver.Process.{Exec, ◌>>◌, handle, pure}
use nexentastor_csi_driver.Identity.{get_plugin_info, get_plugin_capabilities, probe}
use nexentastor_csi_driver.Controller.Service.{Request, serve_request}
use nexentastor_csi_driver.Node.Service.{NodeRequest, serve_node_request}

-- A call of a client, by its service, or a change of the world between two calls. `GetPluginInfo`
-- carries the version that the build sets.
pub data Call (X : External) : Type 0 where
  world_changes : X.World → Call X
  to_probe to_plugin_capabilities : Call X
  to_plugin_info : String → Call X
  to_controller : Request → Call X
  to_node : NodeRequest → Call X

-- Whether a service is among the registered ones.
same_service : Service → Service → Bool
same_service identity_service identity_service = true
same_service controller_service controller_service = true
same_service node_service node_service = true
same_service _ _ = false

unfoldable pub is_registered : Service → List Service → Bool
unfolding same_service
is_registered service services = any (same_service service) services

module _ (X : External) where
  -- `grpcErrorHandler`: the answer of the handler, whose error is logged.
  unfoldable pub grpc_error_handler : {A : Type 0} → Exec X A → Exec X A
  grpc_error_handler handler = handler

  -- What a handler answers goes to the client, an error too; a panic ends the process.
  unfoldable pub answer : {A : Type 0} → Exec X A → Exec X (Unit {0})
  answer handler = handle (grpc_error_handler handler) (λ e. pure tt) (λ a. pure tt)

  -- A call reaches the handler if its service is registered; else gRPC itself answers Unimplemented.
  unfoldable pub dispatch : {A : Type 0} → Service → List Service → Exec X A → Exec X (Unit {0})
  dispatch service services handler =
      if is_registered service services then answer handler else pure tt

  unfoldable pub serve_call : List Service → Call X → Exec X (Unit {0})
  serve_call services (world_changes w) s = (ok tt, record s { world = w })
  serve_call services to_probe s = dispatch identity_service services (probe X) s
  serve_call services to_plugin_capabilities s =
      dispatch identity_service services (pure get_plugin_capabilities) s
  serve_call services (to_plugin_info version) s =
      dispatch identity_service services (pure (get_plugin_info version)) s
  serve_call services (to_controller q) s =
      dispatch controller_service services (serve_request X q) s
  serve_call services (to_node q) s = dispatch node_service services (serve_node_request X q) s

  -- The calls that come in while `Serve` runs.
  unfoldable pub serve_calls : List Service → List (Call X) → Exec X (Unit {0})
  serve_calls services [] = pure tt
  serve_calls services (c ∷ calls) = do serve_call services c; serve_calls services calls
