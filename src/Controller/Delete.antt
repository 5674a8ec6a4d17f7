-- ===== src/Controller/Delete.antt =====
-- `DeleteVolume`, `ControllerExpandVolume` and `GetCapacity` of pkg/driver/controllerServer.go.
pub mod Outcomes
pub mod Frame
pub mod Twice
use nexentastor_csi_driver.Common.{
  if◌then◌else◌, get_or, ◌<>◌, Dict, lookup, ℤ, pos, int_eq, code, String, true, false, Option,
  none, some, ◌==◌,
}
use nexentastor_csi_driver.Errors.{
  Code, invalid_argument, failed_precondition, internal, Error, plain, foreign,
}
use nexentastor_csi_driver.External.{External}
use nexentastor_csi_driver.Process.{
  Exec, ◌>>=◌, ◌>>◌, catch, handle, pure, raise, raise_status, call, fail_with, fault_text,
  value_or, deref, is_not_found,
}
use nexentastor_csi_driver.VolumeId.{VolumeInfo, parse_volume_id}
use nexentastor_csi_driver.Controller.Requests.{
  DeleteVolumeRequest, ExpandVolumeRequest, last_secret,
}
use nexentastor_csi_driver.Controller.Resolvers.{refresh_config}
use nexentastor_csi_driver.Controller.Resolve.{volume_params, resolve_ns}

module _ (X : External) where
  -- `s.refreshConfig(secret)`, answered by a status if it fails.
  unfoldable pub refreshed : Code → String → Exec X (Unit {0})
  refreshed code secret =
      catch (refresh_config X secret)
        (λ e. raise_status code ("Cannot use config file: " <> X.error_text e))

  -- `ParseVolumeID(volumeId)`, with its own error.
  unfoldable pub parsed_id : String → Exec X VolumeInfo
  parsed_id id s = (parse_volume_id id, s)

  -- The call of `DestroyFilesystem`: a filesystem that does not exist is as good as deleted.
  unfoldable pub destroy_volume : String → Option X.Provider → Exec X (Unit {0})
  destroy_volume path ns_provider = do
    provider ← deref ns_provider
    error ← call (
        X.destroy_filesystem provider path
          (record { destroy_snapshots = true; promote_most_recent_clone_if_exists = true }))
    elim error [
      | none ↦ pure tt
      | some f ↦
          if X.is_not_exist_nef_error (foreign f)
          then pure tt
          else raise_status internal ("Cannot delete '" <> path <> "' volume: " <> fault_text X f)
    ]

  -- `if status.Code(err) == codes.NotFound`: done, or else the error goes on.
  abbrev pub unless_not_found : {A : Type 0} → A → Error X.Fault → Exec X A
  unless_not_found a e = if is_not_found (X.status_code e) then pure a else raise e

  -- `DeleteVolume`, from the parsed identifier on.
  unfoldable pub delete_by_info : VolumeInfo → Exec X (Unit {0})
  delete_by_info i =
      handle (resolve_ns X (volume_params i)) (unless_not_found tt)
        (λ response. destroy_volume i.path response.ns_provider)

  -- `DeleteVolume`.
  unfoldable pub delete_volume : DeleteVolumeRequest → Exec X (Unit {0})
  delete_volume req = do
    refreshed failed_precondition (last_secret req.secrets)
    if req.volume_id == ""
        then raise_status invalid_argument "Volume ID must be provided"
        else handle (parsed_id req.volume_id) (λ e. pure tt) delete_by_info

  -- `ControllerExpandVolume`: the new capacity.
  unfoldable pub controller_expand_volume : ExpandVolumeRequest → Exec X ℤ
  controller_expand_volume req = do
    refreshed failed_precondition (last_secret req.secrets)
    if int_eq req.required_bytes (pos 0)
        then raise_status invalid_argument "GetRequiredBytes must be >0"
        else if req.volume_id == ""
        then raise_status invalid_argument "Volume ID must be provided"
        else do
          i ← parsed_id req.volume_id
          response ← resolve_ns X (volume_params i)
          provider ← deref response.ns_provider
          error ← call (X.update_filesystem provider i.path req.required_bytes)
          fail_with error
              λ f. plain ("Failed to expand volume volume " <> i.path <> ": " <> fault_text X f)
          pure req.required_bytes

  -- `GetCapacity`, from the parameters of its request: the quota of the dataset.
  unfoldable pub get_capacity : Dict String → Exec X ℤ
  get_capacity parameters = do
    response ← resolve_ns X (record {
      dataset_path = get_or (lookup "dataset" parameters) "";
      zone = "";
      config_name = "";
      is_v13_compatible = false;
    })
    provider ← deref response.ns_provider
    reply ← call (X.get_filesystem provider response.dataset_path)
    filesystem ← value_or reply foreign
    pure filesystem.referenced_quota_size
