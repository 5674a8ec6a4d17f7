-- ===== src/Controller/Page/Frame.antt =====
-- `getFilesystemSnapshotList` of pkg/driver/controllerServer.go changes the storage only.
use nexentastor_csi_driver.Common.{split, String, refl, arith}
use nexentastor_csi_driver.External.{External}
use nexentastor_csi_driver.Process.Frames.{KeepsServers, handle-KeepsServers}
use nexentastor_csi_driver.Controller.Requests.{ListSnapshotsRequest}
use nexentastor_csi_driver.Controller.Resolve.{resolve_ns}
use nexentastor_csi_driver.Controller.Resolve.Frame.{resolve_ns-KeepsServers}
use nexentastor_csi_driver.Controller.Page.{get_filesystem_snapshot_list, list_params}

module _ (X : External) where
  pub get_filesystem_snapshot_list-KeepsServers :
      (id : String) (req : ListSnapshotsRequest)
      → KeepsServers (get_filesystem_snapshot_list X id req)
  unfolding get_filesystem_snapshot_list
  get_filesystem_snapshot_list-KeepsServers id req =
      let params = list_params id (split ":" id) in
      handle-KeepsServers (resolve_ns X params) _ _ (resolve_ns-KeepsServers X params) (λ e s. refl)
        (λ r s. ground arith)
