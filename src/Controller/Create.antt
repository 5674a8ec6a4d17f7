-- ===== src/Controller/Create.antt =====
-- `CreateVolume` of pkg/driver/controllerServer.go and what it calls.
pub mod Frame
pub mod Asked
pub mod Answer
pub mod Success
use nexentastor_csi_driver.Common.{
  if◌then◌else◌, get_or, ◌<>◌, lookup, ℤ, path_join, String, false, not, Option, none, some, List,
  [], ◌∷◌, ◌==◌,
}
use nexentastor_csi_driver.Errors.{
  invalid_argument, not_found, failed_precondition, status, ok, err, panic,
}
use nexentastor_csi_driver.External.{External}
use nexentastor_csi_driver.Process.{Exec, ◌>>=◌, ◌>>◌, catch, pure, raise_status, gets, deref}
use nexentastor_csi_driver.VolumeId.{VolumeInfo, parse_volume_id, volume_id}
use nexentastor_csi_driver.Config.Data.{NsData}
use nexentastor_csi_driver.Controller.Requests.{
  VolumeCapability, ContentSource, from_snapshot, from_volume, from_nothing, CreateVolumeRequest,
  Volume, last_secret,
}
use nexentastor_csi_driver.Controller.Resolve.{
  ResolveNsParams, ns_data_at, ResolveNsResponse, resolve_ns,
}
use nexentastor_csi_driver.Controller.NewVolume.{
  create_new_volume, create_new_volume_from_snapshot, create_cloned_volume,
}
use nexentastor_csi_driver.Controller.Resolvers.{refresh_config}
use nexentastor_csi_driver.Controller.Share.{create_nfs_share}
use nexentastor_csi_driver.Controller.Capability.{
  validate_volume_capability, pick_availability_zone,
}

module _ (X : External) where
  -- The checks on the requested capabilities.
  check_capabilities : List VolumeCapability → Exec X (Unit {0})
  check_capabilities [] = pure tt
  check_capabilities (c ∷ capabilities) =
      if validate_volume_capability c
      then check_capabilities capabilities
      else raise_status failed_precondition
          ("Driver does not support volume capability mode: " <> X.access_mode_name c.mode)

  -- The source of the content: the identifiers of a snapshot and of a volume, empty if not given.
  pub source_ids : Option ContentSource → Exec X (String × String)
  source_ids none = pure ("", "")
  source_ids (some (from_snapshot id)) = pure (id, "")
  source_ids (some (from_volume id)) = pure ("", id)
  source_ids (some from_nothing) =
      raise_status invalid_argument
        "Only snapshots and volumes are supported as volume content source, but got type: %!s(<nil>)"

  -- `ParseVolumeID` of a source, whose error is answered by another.
  parse_source : String → String → Exec X VolumeInfo
  parse_source what id s = elim (parse_volume_id {F = X.Fault} id) [
    | ok i ↦ (ok i, s)
    | err e ↦ (err (status not_found (what <> " is in wrong format: " <> id)), s)
    | panic ↦ (panic, s)
  ]

  -- What the three branches share: `resolveNS`, the path of the volume, and the call that creates it.
  -- The answer of `resolveNS` and the path go on.
  unfoldable pub create_at :
      ResolveNsParams
      → String
      → (X.Provider → String → Exec X (Unit {0}))
      → Exec X (ResolveNsResponse X × String)
  create_at params volume_name create = do
    response ← resolve_ns X params
    let volume_path = path_join response.dataset_path volume_name
    provider ← deref response.ns_provider
    create provider volume_path
    pure (response, volume_path)

  -- A branch with a source: the config of the source is the one to resolve by.
  unfoldable pub create_from :
      String
      → String
      → ResolveNsParams
      → String
      → (String → X.Provider → String → Exec X (Unit {0}))
      → Exec X (ResolveNsResponse X × String)
  unfolding parse_source
  create_from what id params volume_name create = do
    i ← parse_source what id
    create_at
        (record params {
          config_name = i.config_name;
          is_v13_compatible = i.is_v13_volume_id_version;
        })
        volume_name (create i.path)

  -- The three branches that create the filesystem, by the source of the content.
  pub create_filesystem_for :
      String → String → String → ResolveNsParams → ℤ → Exec X (ResolveNsResponse X × String)
  create_filesystem_for volume_name snapshot_id source_volume_id params capacity_bytes =
      if not (snapshot_id == "")
      then create_from "SnapshotId" snapshot_id params volume_name (λ path provider volume_path.
        create_new_volume_from_snapshot X provider path volume_path capacity_bytes)
      else if not (source_volume_id == "")
      then create_from "VolumeId" source_volume_id params volume_name (λ path provider volume_path.
        create_cloned_volume X provider path volume_path volume_name capacity_bytes)
      else create_at params volume_name
          (λ provider volume_path. create_new_volume X provider volume_path capacity_bytes)

  -- The response of `CreateVolume`.
  unfoldable pub volume_response : CreateVolumeRequest → String → String → NsData → String → Volume
  volume_response req zone config_name cfg volume_path = record {
    volume_id = volume_id config_name volume_path;
    capacity_bytes = req.required_bytes;
    content_source = req.volume_content_source;
    volume_context =
        ("dataIp", get_or (lookup "dataIp" req.parameters) "")
        ∷ ("mountOptions", get_or (lookup "mountOptions" req.parameters) "")
        ∷ ("mountFsType", get_or (lookup "mountFsType" req.parameters) "")
        ∷ (
          "mountPointPermissions",
          get_or (lookup "mountPointPermissions" req.parameters) cfg.mount_point_permissions,
        )
        ∷ [];
    accessible_topology =
        if not (zone == "") then (("topology.kubernetes.io/zone", zone) ∷ []) ∷ [] else [];
  }

  -- The end of `CreateVolume`: the share for the access list, if there is one.
  unfoldable pub with_share :
      CreateVolumeRequest → ResolveNsResponse X → String → Volume → Exec X Volume
  with_share req response volume_path res = elim (lookup "nfsAccessList" req.parameters) [
    | none ↦ pure res
    | some rules ↦ do
      provider ← deref response.ns_provider
      create_nfs_share X volume_path rules provider
      pure res
  ]

  -- `CreateVolume`, from its check of the capabilities on.
  unfoldable pub create_volume_with : CreateVolumeRequest → List VolumeCapability → Exec X Volume
  unfolding check_capabilities source_ids create_filesystem_for
  create_volume_with req capabilities = do
    check_capabilities capabilities
    ids ← source_ids req.volume_content_source
    let zone = pick_availability_zone req.accessibility_requirements
    created ←
        create_filesystem_for req.name ids.0 ids.1
          (record {
            dataset_path = get_or (lookup "dataset" req.parameters) "";
            zone = zone;
            config_name = get_or (lookup "configName" req.parameters) "";
            is_v13_compatible = false;
          })
          req.required_bytes
    cfg ← gets λ s. ns_data_at created.0.config_name s.config
    with_share req created.0 created.1
        (volume_response req zone created.0.config_name cfg created.1)

  -- `CreateVolume`.
  unfoldable pub create_volume : CreateVolumeRequest → Exec X Volume
  create_volume req =
      if req.name == "" then raise_status invalid_argument "req.Name must be provided" else do
        catch (refresh_config X (last_secret req.secrets))
            (λ e. raise_status failed_precondition ("Cannot use config file: " <> X.error_text e))
        elim req.volume_capabilities [
          | none ↦ raise_status invalid_argument "req.VolumeCapabilities must be provided"
          | some capabilities ↦ create_volume_with req capabilities
        ]
