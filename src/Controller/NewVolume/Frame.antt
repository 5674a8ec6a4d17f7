-- ===== src/Controller/NewVolume/Frame.antt =====
-- The three ways to make a filesystem in pkg/driver/controllerServer.go change the storage only.
use nexentastor_csi_driver.Common.{◌<>◌, ℤ, String, arith}
use nexentastor_csi_driver.External.{External}
use nexentastor_csi_driver.Process.Frames.{KeepsServers, bind-KeepsServers}
use nexentastor_csi_driver.Controller.NewVolume.{
  create_new_volume, create_new_volume_from_snapshot, create_cloned_volume,
}
use nexentastor_csi_driver.Controller.SnapshotOnNs.{create_snapshot_on_ns}
use nexentastor_csi_driver.Controller.SnapshotOnNs.Frame.{create_snapshot_on_ns-KeepsServers}

module _ (X : External) where
  pub create_new_volume-KeepsServers :
      (provider : X.Provider) (path : String) (capacity : ℤ)
      → KeepsServers (create_new_volume X provider path capacity)
  unfolding create_new_volume
  create_new_volume-KeepsServers provider path capacity s = ground arith

  pub create_new_volume_from_snapshot-KeepsServers :
      (provider : X.Provider) (snapshot path : String) (capacity : ℤ)
      → KeepsServers (create_new_volume_from_snapshot X provider snapshot path capacity)
  unfolding create_new_volume_from_snapshot
  create_new_volume_from_snapshot-KeepsServers provider snapshot path capacity s = ground arith

  pub create_cloned_volume-KeepsServers :
      (provider : X.Provider) (source path name : String) (capacity : ℤ)
      → KeepsServers (create_cloned_volume X provider source path name capacity)
  unfolding create_cloned_volume
  create_cloned_volume-KeepsServers provider source path name capacity =
      let snap_name = "k8s-clone-snapshot-" <> name in
      bind-KeepsServers (create_snapshot_on_ns X provider source snap_name) _
        (create_snapshot_on_ns-KeepsServers X provider source snap_name) (λ made s. ground arith)
