-- ===== src/Controller/Snapshots.antt =====
-- `CreateSnapshot`, `DeleteSnapshot` and `ListSnapshots` of pkg/driver/controllerServer.go.
pub mod Frame
use nexentastor_csi_driver.Common.{
  if◌then◌else◌, ◌<>◌, split, Dict, String, true, not, Option, none, some, List, [], ◌∷◌, ◌++◌,
  ◌==◌,
}
use nexentastor_csi_driver.Errors.{
  invalid_argument, failed_precondition, internal, foreign, value, failure,
}
use nexentastor_csi_driver.External.{External}
use nexentastor_csi_driver.Process.{
  Exec, ◌>>=◌, ◌>>◌, catch, handle, pure, raise_status, crash, gets, call, fault_text, deref,
}
use nexentastor_csi_driver.VolumeId.{volume_id}
use nexentastor_csi_driver.Config.Data.{NsData}
use nexentastor_csi_driver.Controller.Requests.{
  CreateSnapshotRequest, SnapshotEntry, ListSnapshotsRequest, ListSnapshotsResponse,
}
use nexentastor_csi_driver.Controller.Resolve.{volume_params, ResolveNsResponse, resolve_ns}
use nexentastor_csi_driver.Controller.SnapshotOnNs.{create_snapshot_on_ns}
use nexentastor_csi_driver.Controller.Delete.{refreshed, parsed_id, unless_not_found}
use nexentastor_csi_driver.Controller.Page.{
  convert_snapshot, empty_list, get_filesystem_snapshot_list,
}

module _ (X : External) where
  -- `CreateSnapshot`. The test for an existing snapshot at its end reads a nil error.
  unfoldable pub create_snapshot : CreateSnapshotRequest → Exec X SnapshotEntry
  create_snapshot req = do
    refreshed X failed_precondition ""
    if req.source_volume_id == ""
        then raise_status invalid_argument "Snapshot source volume ID must be provided"
        else do
          i ← parsed_id X req.source_volume_id
          if req.name == ""
              then raise_status invalid_argument "Snapshot name must be provided"
              else do
                response ← resolve_ns X (volume_params i)
                provider ← deref response.ns_provider
                created ← create_snapshot_on_ns X provider i.path req.name
                pure (record {
                  snapshot_id = volume_id response.config_name (i.path <> "@" <> req.name);
                  source_volume_id = req.source_volume_id;
                  creation_time = created.creation_time;
                  ready_to_use = true;
                })

  -- The call of `DestroySnapshot`.
  unfoldable pub destroy_snapshot_at : String → Option X.Provider → Exec X (Unit {0})
  destroy_snapshot_at snapshot_path ns_provider = do
    provider ← deref ns_provider
    error ← call (X.destroy_snapshot provider snapshot_path)
    elim error [
      | none ↦ pure tt
      | some f ↦
          if X.is_not_exist_nef_error (foreign f)
          then pure tt
          else raise_status internal (
              "Failed to delete snapshot '"
              <> snapshot_path
              <> "'"
              <> (if X.is_busy_nef_error (foreign f) then ", it has dependent filesystem" else "")
              <> ": "
              <> fault_text X f)
    ]

  -- `DeleteSnapshot`, from the parts of the identifier at "@".
  unfoldable pub delete_snapshot_parts : List String → Exec X (Unit {0})
  delete_snapshot_parts (volume ∷ snapshot ∷ []) = do
    i ← parsed_id X volume
    handle (resolve_ns X (volume_params i)) (unless_not_found X tt)
        (λ response. destroy_snapshot_at (i.path <> "@" <> snapshot) response.ns_provider)
  delete_snapshot_parts _ = pure tt

  -- `DeleteSnapshot`.
  unfoldable pub delete_snapshot : String → Exec X (Unit {0})
  delete_snapshot snapshot_id = do
    refreshed X failed_precondition ""
    if snapshot_id == ""
        then raise_status invalid_argument "Snapshot ID must be provided"
        else delete_snapshot_parts (split "@" snapshot_id)

  -- The end of `getSnapshotListWithSingleSnapshot`, at a resolved volume.
  single_entry : String → ResolveNsResponse X → Exec X ListSnapshotsResponse
  single_entry snapshot_path response = do
    provider ← deref response.ns_provider
    reply ← call (X.get_snapshot provider snapshot_path)
    elim reply [
      | value s ↦
          pure (record { entries = convert_snapshot response.config_name s ∷ []; next_token = "" })
      | failure f ↦
          if X.is_not_exist_nef_error (foreign f)
          then pure empty_list
          else raise_status internal (
              "Cannot get snapshot '" <> snapshot_path <> "' for snapshot list: " <> fault_text X f)
    ]

  -- `getSnapshotListWithSingleSnapshot`, from the parts of the identifier at "@".
  unfoldable pub single_snapshot_list : List String → Exec X ListSnapshotsResponse
  unfolding single_entry
  single_snapshot_list (volume ∷ snapshot ∷ []) = do
    i ← parsed_id X volume
    handle (resolve_ns X (volume_params i)) (unless_not_found X empty_list)
        (single_entry (i.path <> "@" <> snapshot))
  single_snapshot_list _ = pure empty_list

  -- The loop of `ListSnapshots` over the default datasets. The error of a list is dropped and its
  -- response, then a nil pointer, is read.
  unfoldable pub list_all :
      ListSnapshotsRequest → List SnapshotEntry → Dict NsData → Exec X ListSnapshotsResponse
  list_all req entries [] = pure (record { entries = entries; next_token = "" })
  list_all req entries ((name, cfg) ∷ rest) = do
    resp ← catch (get_filesystem_snapshot_list X cfg.default_dataset req) (λ e. crash)
    let longer = entries ++ resp.entries
    if not (resp.next_token == "")
        then pure (record { entries = longer; next_token = resp.next_token })
        else list_all req longer rest

  -- `ListSnapshots`.
  unfoldable pub list_snapshots : ListSnapshotsRequest → Exec X ListSnapshotsResponse
  list_snapshots req = do
    refreshed X failed_precondition ""
    ns_map ← gets λ s. s.config.ns_map
    if not (req.snapshot_id == "")
        then single_snapshot_list (split "@" req.snapshot_id)
        else if not (req.source_volume_id == "")
        then get_filesystem_snapshot_list X req.source_volume_id req
        else list_all req [] ns_map
