-- ===== src/Controller/Delete/Frame.antt =====
-- `DeleteVolume`, `ControllerExpandVolume` and `GetCapacity` of pkg/driver/controllerServer.go after
-- their refresh.
use nexentastor_csi_driver.Common.{Dict, String, refl, Option, arith}
use nexentastor_csi_driver.Errors.{Error}
use nexentastor_csi_driver.External.{External}
use nexentastor_csi_driver.Process.Frames.{KeepsServers, bind-KeepsServers, handle-KeepsServers}
use nexentastor_csi_driver.VolumeId.{VolumeInfo}
use nexentastor_csi_driver.Controller.Resolve.{volume_params, resolve_ns}
use nexentastor_csi_driver.Controller.Resolve.Frame.{resolve_ns-KeepsServers}
use nexentastor_csi_driver.Controller.Delete.{
  parsed_id, destroy_volume, unless_not_found, delete_by_info, get_capacity,
}

module _ (X : External) where
  pub unless_not_found-KeepsServers :
      {A : Type 0} (a : A) (e : Error X.Fault) → KeepsServers (unless_not_found X a e)
  unless_not_found-KeepsServers a e s = ground arith

  destroy_volume-KeepsServers :
      (path : String) (p : Option X.Provider) → KeepsServers (destroy_volume X path p)
  unfolding destroy_volume
  destroy_volume-KeepsServers path p s = ground arith

  pub delete_by_info-KeepsServers : (i : VolumeInfo) → KeepsServers (delete_by_info X i)
  unfolding delete_by_info
  delete_by_info-KeepsServers i =
      handle-KeepsServers (resolve_ns X (volume_params i)) _ _
        (resolve_ns-KeepsServers X (volume_params i)) (unless_not_found-KeepsServers tt)
        (λ r. destroy_volume-KeepsServers i.path r.ns_provider)

  pub parsed_id-KeepsServers : (id : String) → KeepsServers (parsed_id X id)
  unfolding parsed_id
  parsed_id-KeepsServers id s = refl

  pub get_capacity-KeepsServers :
      (parameters : Dict String) → KeepsServers (get_capacity X parameters)
  unfolding get_capacity
  get_capacity-KeepsServers parameters =
      bind-KeepsServers (resolve_ns X _) _ (resolve_ns-KeepsServers X _) (λ r s. ground arith)
