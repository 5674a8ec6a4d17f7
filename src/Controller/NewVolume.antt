-- ===== src/Controller/NewVolume.antt =====
-- The three ways in which `CreateVolume` of pkg/driver/controllerServer.go makes a filesystem.
pub mod Frame
pub mod Existing
pub mod Twice
use nexentastor_csi_driver.Common.{
  if◌then◌else◌, ◌<>◌, ℤ, pos, int_eq, show_int, String, not, ◌&&◌, none, some,
}
use nexentastor_csi_driver.Errors.{not_found, already_exists, internal, status, foreign}
use nexentastor_csi_driver.External.{External}
use nexentastor_csi_driver.Process.{
  Exec, ◌>>=◌, ◌>>◌, pure, raise_status, call, fault_text, value_or,
}
use nexentastor_csi_driver.Controller.SnapshotOnNs.{create_snapshot_on_ns}

module _ (X : External) where
  -- What `createNewVolume` does where the filesystem exists.
  existing_volume : X.Provider → String → ℤ → Exec X (Unit {0})
  existing_volume provider volume_path capacity_bytes = do
    reply ← call (X.get_filesystem provider volume_path)
    existing ← value_or reply λ f. status internal (
        "Volume '"
        <> volume_path
        <> "' already exists, but volume properties request failed: "
        <> fault_text X f)
    let size = existing.referenced_quota_size
    if not (int_eq capacity_bytes (pos 0)) && not (int_eq size capacity_bytes)
        then raise_status already_exists (
            "Volume '"
            <> volume_path
            <> "' already exists, but with a different size: requested="
            <> show_int capacity_bytes
            <> ", existing="
            <> show_int size)
        else pure tt

  -- `createNewVolume`.
  unfoldable pub create_new_volume : X.Provider → String → ℤ → Exec X (Unit {0})
  unfolding existing_volume
  create_new_volume provider volume_path capacity_bytes = do
    error ← call (
        X.create_filesystem provider
          (record { path = volume_path; referenced_quota_size = capacity_bytes }))
    elim error [
      | none ↦ pure tt
      | some f ↦
          if X.is_already_exist_nef_error (foreign f)
          then existing_volume provider volume_path capacity_bytes
          else raise_status internal
              ("Cannot create volume '" <> volume_path <> "': " <> fault_text X f)
    ]

  -- `createNewVolumeFromSnapshot`. Both branches on the error of `GetSnapshot` give the same status.
  unfoldable pub create_new_volume_from_snapshot :
      X.Provider → String → String → ℤ → Exec X (Unit {0})
  create_new_volume_from_snapshot provider source_snapshot_id volume_path capacity_bytes = do
    reply ← call (X.get_snapshot provider source_snapshot_id)
    snapshot ← value_or reply λ f.
        status not_found
          ("Failed to find snapshot '" <> source_snapshot_id <> "': " <> fault_text X f)
    error ← call (
        X.clone_snapshot provider snapshot.path
          (record { target_path = volume_path; referenced_quota_size = capacity_bytes }))
    elim error [
      | none ↦ pure tt
      | some f ↦
          if X.is_already_exist_nef_error (foreign f)
          then pure tt
          else raise_status internal (
              "Cannot create volume '"
              <> volume_path
              <> "' using snapshot '"
              <> snapshot.path
              <> "': "
              <> fault_text X f)
    ]

  -- `createClonedVolume`.
  unfoldable pub create_cloned_volume :
      X.Provider → String → String → String → ℤ → Exec X (Unit {0})
  create_cloned_volume provider source_volume_id volume_path volume_name capacity_bytes = do
    let snap_name = "k8s-clone-snapshot-" <> volume_name
    let snapshot_path = source_volume_id <> "@" <> snap_name
    _ ← create_snapshot_on_ns X provider source_volume_id snap_name
    error ← call (
        X.clone_snapshot provider snapshot_path
          (record { target_path = volume_path; referenced_quota_size = capacity_bytes }))
    elim error [
      | none ↦ pure tt
      | some f ↦
          if X.is_already_exist_nef_error (foreign f)
          then pure tt
          else raise_status not_found (
              "Cannot create volume '"
              <> volume_path
              <> "' using snapshot '"
              <> snapshot_path
              <> "': "
              <> fault_text X f)
    ]
