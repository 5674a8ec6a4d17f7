-- ===== src/Controller/SnapshotOnNs.antt =====
-- `CreateSnapshotOnNS` of pkg/driver/controllerServer.go.
pub mod Frame
pub mod Conflict
use nexentastor_csi_driver.Common.{
  if◌then◌else◌, ◌<>◌, path_dir, String, true, not, ◌&&◌, Option, none, some, List, [], ◌∷◌, ◌==◌,
}
use nexentastor_csi_driver.Errors.{not_found, already_exists, internal, status, foreign}
use nexentastor_csi_driver.External.{External}
use nexentastor_csi_driver.External.Params.{Snapshot}
use nexentastor_csi_driver.Process.{
  Exec, ◌>>=◌, ◌>>◌, pure, raise_status, call, fault_text, value_or,
}

-- The first snapshot with the name that is of another volume.
unfoldable pub find_conflict : String → String → List Snapshot → Option Snapshot
find_conflict snap_name volume_path [] = none
find_conflict snap_name volume_path (s ∷ snapshots) =
    let rest = find_conflict snap_name volume_path snapshots in
    if s.name == snap_name && not (s.parent == volume_path) then some s else rest

module _ (X : External) where
  -- The end of the function, with the path of the new snapshot.
  abbrev read_back : X.Provider → String → Exec X Snapshot
  read_back provider snapshot_path = do
    reply ← call (X.get_snapshot provider snapshot_path)
    value_or reply λ f. status internal (
        "Snapshot '"
        <> snapshot_path
        <> "' has been created, but snapshot properties request failed: "
        <> fault_text X f)

  -- `err != nil && !ns.IsAlreadyExistNefError(err)`
  abbrev check_created : String → Option X.Fault → Exec X (Unit {0})
  check_created snapshot_path none = pure tt
  check_created snapshot_path (some f) =
      if X.is_already_exist_nef_error (foreign f)
      then pure tt
      else raise_status internal
          ("Cannot create snapshot '" <> snapshot_path <> "': " <> fault_text X f)

  unfoldable pub create_snapshot_on_ns : X.Provider → String → String → Exec X Snapshot
  create_snapshot_on_ns provider volume_path snap_name = do
    listed ← call (X.get_snapshots provider (path_dir volume_path) true)
    existing ←
        value_or listed λ f. status not_found ("Cannot get snapshots list: " <> fault_text X f)
    elim (find_conflict snap_name volume_path existing) [
      | some s ↦
          raise_status already_exists
            ("Snapshot '" <> snap_name <> "' already exists for filesystem: " <> s.path)
      | none ↦ do
        let snapshot_path = volume_path <> "@" <> snap_name
        error ← call (X.create_snapshot provider snapshot_path)
        check_created snapshot_path error
        read_back provider snapshot_path
    ]
