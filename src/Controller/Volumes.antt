-- ===== src/Controller/Volumes.antt =====
-- `ListVolumes` and `ValidateVolumeCapabilities` of pkg/driver/controllerServer.go.
pub mod Frame
use nexentastor_csi_driver.Common.{
  if◌then◌else◌, ◌<>◌, Dict, is_neg, show_int, String, false, none, some, List, [], ◌∷◌, ◌++◌, ◌==◌,
}
use nexentastor_csi_driver.Errors.{invalid_argument, not_found, failed_precondition, aborted}
use nexentastor_csi_driver.External.{External}
use nexentastor_csi_driver.External.Params.{Filesystem}
use nexentastor_csi_driver.Process.{Exec, ◌>>=◌, ◌>>◌, catch, pure, raise_status, gets, call, deref}
use nexentastor_csi_driver.VolumeId.{volume_id}
use nexentastor_csi_driver.Config.Data.{NsData}
use nexentastor_csi_driver.Controller.Requests.{
  VolumeCapability, ListVolumesRequest, ListVolumesResponse, ValidateCapabilitiesRequest,
  ValidateCapabilitiesResponse, confirmed, unconfirmed, last_secret,
}
use nexentastor_csi_driver.Controller.Capability.{
  supported_volume_capabilities, validate_volume_capability,
}
use nexentastor_csi_driver.Controller.Resolve.{volume_params, resolve_ns}
use nexentastor_csi_driver.Controller.Delete.{refreshed, parsed_id}

-- The identifiers of the filesystems of one config.
unfoldable pub volume_ids : String → List Filesystem → List String
volume_ids config_name [] = []
volume_ids config_name (item ∷ filesystems) =
    volume_id config_name item.path ∷ volume_ids config_name filesystems

module _ (X : External) where
  -- The loop of `ListVolumes`, with the entries and the token so far. The error of the listing is a
  -- variable of the loop's body, which nothing reads.
  unfoldable pub list_from :
      ListVolumesRequest → List String → String → Dict NsData → Exec X ListVolumesResponse
  list_from req entries next_token [] = pure (record { entries = entries; next_token = next_token })
  list_from req entries next_token ((config_name, cfg) ∷ rest) = do
    response ← resolve_ns X (record {
      dataset_path = "";
      zone = "";
      config_name = config_name;
      is_v13_compatible = false;
    })
    provider ← deref response.ns_provider
    listed ← call (
        X.get_filesystems_with_starting_token provider response.dataset_path req.starting_token
          req.max_entries)
    list_from req (entries ++ volume_ids config_name listed.0) listed.1 rest

  -- The tests after the loop; the error that they print is nil. The second repeats the condition of
  -- the first, which returns, so nothing is left of it.
  abbrev pub finish_list :
      ListVolumesRequest → ListVolumesResponse → List String → Exec X ListVolumesResponse
  finish_list req res [] = raise_status aborted "Cannot get filesystems: %!s(<nil>)"
  finish_list req res (entry ∷ entries) = pure res

  -- `ListVolumes`.
  unfoldable pub list_volumes : ListVolumesRequest → Exec X ListVolumesResponse
  list_volumes req =
      if is_neg req.max_entries
      then raise_status invalid_argument
          ("req.MaxEntries must be 0 or greater, got: " <> show_int req.max_entries)
      else do
        refreshed X aborted ""
        ns_map ← gets λ s. s.config.ns_map
        res ← list_from req [] "" ns_map
        finish_list req res res.entries

  -- The loop of `ValidateVolumeCapabilities`.
  pub confirm : Dict String → List VolumeCapability → ValidateCapabilitiesResponse
  confirm volume_context [] = confirmed supported_volume_capabilities volume_context
  confirm volume_context (c ∷ capabilities) =
      if validate_volume_capability c
      then confirm volume_context capabilities
      else unconfirmed
          ("Driver does not support volume capability mode: " <> X.access_mode_name c.mode)

  -- `ValidateVolumeCapabilities`.
  unfoldable pub validate_volume_capabilities :
      ValidateCapabilitiesRequest → Exec X ValidateCapabilitiesResponse
  unfolding confirm
  validate_volume_capabilities req =
      if req.volume_id == "" then raise_status invalid_argument "Volume ID must be provided" else do
        i ←
            catch (parsed_id X req.volume_id)
              (λ e. raise_status not_found ("VolumeId is in wrong format: " <> req.volume_id))
        elim req.volume_capabilities [
          | none ↦ raise_status invalid_argument "req.VolumeCapabilities must be provided"
          | some capabilities ↦ do
            refreshed X failed_precondition (last_secret req.secrets)
            _ ← resolve_ns X (volume_params i)
            pure (confirm req.volume_context capabilities)
        ]
