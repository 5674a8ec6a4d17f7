-- ===== src/Controller/Page.antt =====
-- `getFilesystemSnapshotList` of pkg/driver/controllerServer.go: one page of a list of snapshots.
pub mod Frame
pub mod Paging
pub mod Walk
use nexentastor_csi_driver.Common.{
  if◌then◌else◌, ◌<>◌, split, length, ℤ, pos, int_eq, to_int32, String, Bool, true, false, not,
  ◌&&◌, List, [], ◌∷◌, ◌++◌, ◌==◌,
}
use nexentastor_csi_driver.Errors.{internal, status}
use nexentastor_csi_driver.External.{External}
use nexentastor_csi_driver.External.Params.{Snapshot}
use nexentastor_csi_driver.Process.{Exec, ◌>>=◌, handle, pure, call, fault_text, value_or, deref}
use nexentastor_csi_driver.VolumeId.{volume_id}
use nexentastor_csi_driver.Controller.Requests.{
  SnapshotEntry, ListSnapshotsRequest, ListSnapshotsResponse,
}
use nexentastor_csi_driver.Controller.Resolve.{ResolveNsParams, resolve_ns}

-- `convertNSSnapshotToCSISnapshot`.
unfoldable pub convert_snapshot : String → Snapshot → SnapshotEntry
convert_snapshot config_name s = record {
  snapshot_id = volume_id config_name s.path;
  source_volume_id = volume_id config_name s.parent;
  creation_time = s.creation_time;
  ready_to_use = true;
}

-- The token of the page behind this one: the path of the next snapshot, if there is one.
abbrev pub next_path : List Snapshot → String
next_path [] = ""
next_path (s ∷ snapshots) = s.path

-- `maxEntries != 0 && int32(len(response.Entries)) == maxEntries`
abbrev pub is_full : ℤ → List SnapshotEntry → Bool
is_full max_entries entries =
    not (int_eq max_entries (pos 0)) && int_eq (to_int32 (length entries)) max_entries

-- The loop, with the token that it still looks for and the entries so far.
unfoldable pub page_from :
    String → ℤ → String → List SnapshotEntry → List Snapshot → ListSnapshotsResponse
page_from config_name max_entries token entries [] = record { entries = entries; next_token = "" }
page_from config_name max_entries token entries (s ∷ snapshots) =
    let left = if s.path == token then "" else token in
    let longer = entries ++ convert_snapshot config_name s ∷ [] in
    let skipped = page_from config_name max_entries left entries snapshots in
    let more = page_from config_name max_entries left longer snapshots in
    if not (left == "")
    then skipped
    else if is_full max_entries longer
    then record { entries = longer; next_token = next_path snapshots }
    else more

-- The parameters and the path of `volumeId`, which need not name a config.
list_params : String → List String → ResolveNsParams
list_params volume_id (config_name ∷ path ∷ []) = record {
  dataset_path = path;
  zone = "";
  config_name = config_name;
  is_v13_compatible = false;
}
list_params volume_id _ = record {
  dataset_path = volume_id;
  zone = "";
  config_name = "";
  is_v13_compatible = false;
}

abbrev pub empty_list : ListSnapshotsResponse
empty_list = record { entries = []; next_token = "" }

module _ (X : External) where
  -- A volume that cannot be resolved has no snapshots.
  unfoldable pub get_filesystem_snapshot_list :
      String → ListSnapshotsRequest → Exec X ListSnapshotsResponse
  unfolding list_params
  get_filesystem_snapshot_list id req =
      let params = list_params id (split ":" id) in
      handle (resolve_ns X params) (λ e. pure empty_list)
        λ response. do
          provider ← deref response.ns_provider
          reply ← call (X.get_snapshots provider params.dataset_path true)
          snapshots ← value_or reply λ f.
              status internal
                ("Cannot get snapshot list for '" <> params.dataset_path <> "': " <> fault_text X f)
          pure (page_from response.config_name req.max_entries req.starting_token [] snapshots)
