-- ===== src/Node/Publish.antt =====
-- `NodePublishVolume` and `NodeUnpublishVolume` of pkg/driver/nodeServer.go.
pub mod Outcomes
use nexentastor_csi_driver.Common.{
  if◌then◌else◌, ◌<>◌, contains, Dict, String, Bool, true, false, Option, none, some, List, ◌==◌,
}
use nexentastor_csi_driver.Errors.{
  invalid_argument, not_found, failed_precondition, internal, status, foreign, value, failure,
}
use nexentastor_csi_driver.External.{External}
use nexentastor_csi_driver.External.Params.{Filesystem}
use nexentastor_csi_driver.Process.{
  Exec, ◌>>=◌, ◌>>◌, catch, pure, raise, raise_status, gets, call, fail_with, fault_text, value_or,
  deref,
}
use nexentastor_csi_driver.Arrays.{contains_string}
use nexentastor_csi_driver.Config.Data.{NsData}
use nexentastor_csi_driver.Config.Validate.{fs_type_nfs, fs_type_cifs}
use nexentastor_csi_driver.Controller.Requests.{last_secret}
use nexentastor_csi_driver.Controller.Resolve.{ns_data_at}
use nexentastor_csi_driver.Node.Options.{
  publish_options, data_ip, fs_type, get_mount_point_permissions,
}
use nexentastor_csi_driver.Node.Server.{
  resolve_node_ns, get_v13_compatible_config_name, config_name_of, node_volume_info,
}
use nexentastor_csi_driver.Node.Mount.{mount_nfs, mount_cifs}

-- `volume_capability` holds the mount flags, and is `none` where the request has no capability.
pub record PublishRequest : Type 0 where
  pub volume_id : String
  pub target_path : String
  pub volume_capability : Option (List String)
  pub readonly : Bool
  pub volume_context : Dict String
  pub secrets : Dict String

module _ (X : External) where
  -- The mount by the filesystem type. A target that is a mount point already is good.
  unfoldable pub mount_by_type :
      PublishRequest → X.Provider → Filesystem → NsData → List String → Exec X (Unit {0})
  mount_by_type req provider filesystem cfg mount_options =
      let kind = fs_type req.volume_context cfg in
      let ip = data_ip req.volume_context cfg in
      catch
        (if kind == fs_type_nfs
          then mount_nfs X req.readonly req.target_path provider filesystem ip mount_options
          else if kind == fs_type_cifs
          then mount_cifs X req.readonly req.target_path provider filesystem ip mount_options
          else raise_status failed_precondition
              ("Unsupported mount filesystem type: '" <> kind <> "'"))
        (λ e. if contains (X.error_text e) "already a mount point" then pure tt else raise e)

  -- The permissions of the mount point, which a read-only mount does not get.
  unfoldable pub set_permissions : PublishRequest → List String → Exec X (Unit {0})
  set_permissions req mount_options = do
    permissions ← λ s. (get_mount_point_permissions req.volume_context, s)
    if contains_string mount_options "ro" then pure tt else do
      error ← call (X.chmod req.target_path permissions)
      elim error [
        | none ↦ pure tt
        | some f ↦ if contains (fault_text X f) "read-only" then pure tt else raise (foreign f)
      ]

  -- `NodePublishVolume`, behind the checks of its request.
  unfoldable pub publish : PublishRequest → List String → Exec X (Unit {0})
  publish req flags = do
    i ← node_volume_info X req.volume_id (last_secret req.secrets)
    config_name ← config_name_of X i
    found ← resolve_node_ns X config_name i.path
    cfg ← gets λ s. ns_data_at config_name s.config
    provider ← deref found
    reply ← call (X.get_filesystem provider i.path)
    filesystem ←
        value_or reply
          λ f. status not_found ("Cannot find filesystem '" <> i.path <> "': " <> fault_text X f)
    let mount_options = publish_options req.readonly flags req.volume_context cfg
    mount_by_type req provider filesystem cfg mount_options
    set_permissions req mount_options

  -- `NodePublishVolume`.
  unfoldable pub node_publish_volume : PublishRequest → Exec X (Unit {0})
  node_publish_volume req =
      if req.volume_id == ""
      then raise_status invalid_argument "req.VolumeId must be provided"
      else if req.target_path == ""
      then raise_status invalid_argument "req.TargetPath must be provided"
      else elim req.volume_capability [
        | none ↦ raise_status invalid_argument "req.VolumeCapability must be provided"
        | some flags ↦ publish req flags
      ]

  -- The removal of an unmounted target.
  remove_target : String → Exec X (Unit {0})
  remove_target target_path = do
    removed ← call (X.remove target_path)
    elim removed [
      | none ↦ pure tt
      | some f ↦
          if X.os_is_not_exist (foreign f)
          then pure tt
          else raise_status internal
              ("Cannot remove unmounted target path '" <> target_path <> "': " <> fault_text X f)
    ]

  -- `NodeUnpublishVolume`, behind the checks of its request.
  unfoldable pub unpublish : String → Exec X (Unit {0})
  unfolding remove_target
  unpublish target_path = do
    reply ← call (X.is_likely_not_mount_point target_path)
    elim reply [
      | failure f ↦
          if X.os_is_not_exist (foreign f)
          then pure tt
          else raise_status internal (
              "Cannot ensure that target path '"
              <> target_path
              <> "' is a mount point: '"
              <> fault_text X f
              <> "'")
      | value true ↦ (do _ ← call (X.remove target_path); pure tt)
      | value false ↦ (do
        error ← call (X.unmount target_path)
        fail_with error λ f.
            status internal
              ("Failed to unmount target path '" <> target_path <> "': " <> fault_text X f)
        remove_target target_path)
    ]

  -- `NodeUnpublishVolume`, from the request's volume identifier and target path.
  unfoldable pub node_unpublish_volume : String → String → Exec X (Unit {0})
  node_unpublish_volume volume_id target_path =
      if volume_id == ""
      then raise_status invalid_argument "Volume ID must be provided"
      else if target_path == ""
      then raise_status invalid_argument "Target path must be provided"
      else unpublish target_path
