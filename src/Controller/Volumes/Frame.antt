-- ===== src/Controller/Volumes/Frame.antt =====
-- The loop of `ListVolumes` in pkg/driver/controllerServer.go changes the storage only.
use nexentastor_csi_driver.Common.{Dict, String, refl, List, [], ◌∷◌, ◌++◌, arith}
use nexentastor_csi_driver.External.{External}
use nexentastor_csi_driver.Process.{deref}
use nexentastor_csi_driver.Process.Frames.{KeepsServers, bind-KeepsServers}
use nexentastor_csi_driver.Config.Data.{NsData}
use nexentastor_csi_driver.Controller.Requests.{ListVolumesRequest}
use nexentastor_csi_driver.Controller.Resolve.{resolve_ns}
use nexentastor_csi_driver.Controller.Resolve.Frame.{resolve_ns-KeepsServers}
use nexentastor_csi_driver.Controller.Volumes.{volume_ids, list_from}

module _ (X : External) where
  pub list_from-KeepsServers :
      (req : ListVolumesRequest) (entries : List String) (token : String) (ns_map : Dict NsData)
      → KeepsServers (list_from X req entries token ns_map)
  unfolding list_from
  list_from-KeepsServers req entries token [] s = refl
  list_from-KeepsServers req entries token ((name, cfg) ∷ rest) s =
      bind-KeepsServers (resolve_ns X _) _ (resolve_ns-KeepsServers X _)
        (λ r.
          bind-KeepsServers (deref r.ns_provider) _ (λ s. ground arith)
            (λ provider s.
              let listed =
                X.get_filesystems_with_starting_token provider r.dataset_path req.starting_token
                  req.max_entries s.world in
              list_from-KeepsServers req (entries ++ volume_ids name listed.0.0) listed.0.1 rest
                (record s { world = listed.1 })))
        s
