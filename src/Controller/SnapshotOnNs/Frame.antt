-- ===== src/Controller/SnapshotOnNs/Frame.antt =====
-- `CreateSnapshotOnNS` of pkg/driver/controllerServer.go changes the storage only.
use nexentastor_csi_driver.Common.{String, arith}
use nexentastor_csi_driver.External.{External}
use nexentastor_csi_driver.Process.Frames.{KeepsServers}
use nexentastor_csi_driver.Controller.SnapshotOnNs.{create_snapshot_on_ns}

module _ (X : External) where
  pub create_snapshot_on_ns-KeepsServers :
      (provider : X.Provider) (path name : String)
      → KeepsServers (create_snapshot_on_ns X provider path name)
  unfolding create_snapshot_on_ns
  create_snapshot_on_ns-KeepsServers provider path name s = ground arith
