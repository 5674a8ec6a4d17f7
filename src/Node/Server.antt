-- ===== src/Node/Server.antt =====
-- The node server of pkg/driver/nodeServer.go: its map of resolvers and its resolving of volumes.
pub mod Frame
pub mod Effects
pub mod Stale
use nexentastor_csi_driver.Common.{
  if◌then◌else◌, ◌<>◌, Dict, lookup, insert, ℤ, String, Option, none, some, [], ◌∷◌, ◌==◌,
}
use nexentastor_csi_driver.Errors.{
  invalid_argument, not_found, failed_precondition, internal, status, foreign, ok, err,
}
use nexentastor_csi_driver.External.{External}
use nexentastor_csi_driver.Process.{
  Exec, ◌>>=◌, ◌>>◌, catch, pure, raise_status, gets, call, fail_with, fault_text, value_or, deref,
}
use nexentastor_csi_driver.VolumeId.{VolumeInfo, parse_volume_id, volume_id}
use nexentastor_csi_driver.Config.Data.{NsData}
use nexentastor_csi_driver.Config.Refresh.{refresh}
use nexentastor_csi_driver.Controller.Resolvers.{resolver_args, resolver_error}

module _ (X : External) where
  -- `s.nsResolverMap[name], err = ns.NewResolver(...)`
  abbrev set_node_resolver : String → Option X.Resolver → Exec X (Unit {0})
  set_node_resolver name r s = (ok tt, record s { node_resolvers = insert name r s.node_resolvers })

  -- The loop over the entries of the config.
  unfoldable pub update_node_resolvers : Dict NsData → Exec X (Unit {0})
  update_node_resolvers [] = pure tt
  update_node_resolvers ((name, cfg) ∷ rest) = do
    skip ← deref cfg.insecure_skip_verify
    made ← call (X.new_resolver (resolver_args cfg skip))
    set_node_resolver name made.0
    fail_with made.1 (resolver_error X)
    update_node_resolvers rest

  -- `refreshConfig` of the node server.
  unfoldable pub refresh_node_config : String → Exec X (Unit {0})
  refresh_node_config secret = do
    changed ← refresh X secret
    ns_map ← gets λ s. s.config.ns_map
    if changed then update_node_resolvers ns_map else pure tt

  -- The loop of `NewNodeServer`.
  unfoldable pub new_node_resolvers : Dict NsData → Exec X (Unit {0})
  new_node_resolvers [] = pure tt
  new_node_resolvers ((name, cfg) ∷ rest) = do
    skip ← deref cfg.insecure_skip_verify
    made ← call (X.new_resolver (resolver_args cfg skip))
    fail_with made.1 (resolver_error X)
    set_node_resolver name made.0
    new_node_resolvers rest

  -- `NewNodeServer`.
  unfoldable pub new_node_server : Exec X (Unit {0})
  new_node_server s = new_node_resolvers s.config.ns_map (record s { node_resolvers = [] })

  -- `resolver.Resolve(datasetPath)` on the pointer that the map holds, nil where it holds none.
  resolve_pointer :
      Option (Option X.Resolver) → String → Exec X (Option X.Provider × Option X.Fault)
  resolve_pointer (some (some resolver)) path s = call (X.resolve resolver path) s
  resolve_pointer (some none) path s =
      let (found, w) = X.resolve_nil path s.world in (found, record s { world = w })
  resolve_pointer none path s =
      let (found, w) = X.resolve_nil path s.world in (found, record s { world = w })

  -- `resolveNS` of the node server: the provider, which is nil for `none`.
  unfoldable pub resolve_node_ns : String → String → Exec X (Option X.Provider)
  unfolding resolve_pointer
  resolve_node_ns config_name dataset_path = do
    resolver ← gets λ s. lookup config_name s.node_resolvers
    found ← resolve_pointer resolver dataset_path
    fail_with found.1 λ f.
        status (if X.is_not_exist_nef_error (foreign f) then not_found else internal)
          ("Cannot resolve '" <> dataset_path <> "' on any NexentaStor(s): " <> fault_text X f)
    pure found.0

  v13_name : Dict NsData → Option String
  v13_name [] = none
  v13_name ((config_name, cfg) ∷ rest) =
      let later = v13_name rest in if cfg.v13_compatibility then some config_name else later

  -- `GetV13CompatibleConfigName`.
  unfoldable pub get_v13_compatible_config_name : Exec X String
  unfolding v13_name
  get_v13_compatible_config_name s = elim (v13_name s.config.ns_map) [
    | some config_name ↦ (ok config_name, s)
    | none ↦ (err (status invalid_argument "V13Compatible configuration not found"), s)
  ]

  -- The config that a parsed volume identifier names.
  abbrev pub config_name_of : VolumeInfo → Exec X String
  config_name_of i =
      if i.is_v13_volume_id_version then get_v13_compatible_config_name else pure i.config_name

  -- The steps that `NodePublishVolume` and `NodeGetVolumeStats` share: `refreshConfig`,
  -- `ParseVolumeID`, and their errors.
  unfoldable pub node_volume_info : String → String → Exec X VolumeInfo
  node_volume_info volume_id secret = do
    catch (refresh_node_config secret)
        (λ e. raise_status failed_precondition ("Cannot use config file: " <> X.error_text e))
    catch (λ s. (parse_volume_id volume_id, s))
        (λ e. raise_status not_found ("VolumeId is in wrong format: " <> volume_id))

  -- `NodeGetVolumeStats`, from the request's volume path and identifier: the available bytes.
  unfoldable pub node_get_volume_stats : String → String → Exec X ℤ
  node_get_volume_stats volume_path volume_id =
      if volume_path == ""
      then raise_status invalid_argument "req.VolumePath must be provided"
      else if volume_id == ""
      then raise_status invalid_argument "req.VolumeId must be provided"
      else do
        i ← node_volume_info volume_id ""
        config_name ← config_name_of i
        found ← resolve_node_ns config_name i.path
        provider ← deref found
        reply ← call (X.get_filesystem_available_capacity provider i.path)
        value_or reply λ f.
            status not_found ("Cannot find filesystem '" <> volume_id <> "': " <> fault_text X f)
