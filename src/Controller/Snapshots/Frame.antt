-- ===== src/Controller/Snapshots/Frame.antt =====
-- The snapshot handlers of pkg/driver/controllerServer.go after their refresh.
use nexentastor_csi_driver.Common.{
  ◌<>◌, Dict, String, refl, not, Option, List, [], ◌∷◌, ◌++◌, arith, ◌==◌,
}
use nexentastor_csi_driver.External.{External}
use nexentastor_csi_driver.Process.{catch, crash}
use nexentastor_csi_driver.Process.Frames.{
  KeepsServers, bind-KeepsServers, handle-KeepsServers, catch-KeepsServers, if-KeepsServers,
}
use nexentastor_csi_driver.Config.Data.{NsData}
use nexentastor_csi_driver.Controller.Requests.{SnapshotEntry, ListSnapshotsRequest}
use nexentastor_csi_driver.Controller.Resolve.{volume_params, ResolveNsResponse, resolve_ns}
use nexentastor_csi_driver.Controller.Resolve.Frame.{resolve_ns-KeepsServers}
use nexentastor_csi_driver.Controller.Snapshots.{
  destroy_snapshot_at, delete_snapshot_parts, single_snapshot_list, list_all, single_entry,
}
use nexentastor_csi_driver.Controller.Delete.{parsed_id}
use nexentastor_csi_driver.Controller.Delete.Frame.{
  unless_not_found-KeepsServers, parsed_id-KeepsServers,
}
use nexentastor_csi_driver.Controller.Page.{empty_list, get_filesystem_snapshot_list}
use nexentastor_csi_driver.Controller.Page.Frame.{get_filesystem_snapshot_list-KeepsServers}

module _ (X : External) where
  destroy_snapshot_at-KeepsServers :
      (path : String) (p : Option X.Provider) → KeepsServers (destroy_snapshot_at X path p)
  unfolding destroy_snapshot_at
  destroy_snapshot_at-KeepsServers path p s = ground arith

  single_entry-KeepsServers :
      (path : String) (r : ResolveNsResponse X) → KeepsServers (single_entry X path r)
  unfolding single_entry
  single_entry-KeepsServers path r s = ground arith

  pub delete_snapshot_parts-KeepsServers :
      (parts : List String) → KeepsServers (delete_snapshot_parts X parts)
  unfolding delete_snapshot_parts
  delete_snapshot_parts-KeepsServers (volume ∷ snapshot ∷ []) s =
      bind-KeepsServers (parsed_id X volume) _ (parsed_id-KeepsServers X volume)
        (λ i.
          handle-KeepsServers (resolve_ns X (volume_params i)) _ _
            (resolve_ns-KeepsServers X (volume_params i)) (unless_not_found-KeepsServers X tt)
            (λ r. destroy_snapshot_at-KeepsServers (i.path <> "@" <> snapshot) r.ns_provider))
        s
  delete_snapshot_parts-KeepsServers [] s = refl
  delete_snapshot_parts-KeepsServers (volume ∷ []) s = refl
  delete_snapshot_parts-KeepsServers (volume ∷ snapshot ∷ more ∷ parts) s = refl

  pub single_snapshot_list-KeepsServers :
      (parts : List String) → KeepsServers (single_snapshot_list X parts)
  unfolding single_snapshot_list
  single_snapshot_list-KeepsServers (volume ∷ snapshot ∷ []) s =
      bind-KeepsServers (parsed_id X volume) _ (parsed_id-KeepsServers X volume)
        (λ i.
          handle-KeepsServers (resolve_ns X (volume_params i)) _ _
            (resolve_ns-KeepsServers X (volume_params i))
            (unless_not_found-KeepsServers X empty_list)
            (single_entry-KeepsServers (i.path <> "@" <> snapshot)))
        s
  single_snapshot_list-KeepsServers [] s = refl
  single_snapshot_list-KeepsServers (volume ∷ []) s = refl
  single_snapshot_list-KeepsServers (volume ∷ snapshot ∷ more ∷ parts) s = refl

  pub list_all-KeepsServers :
      (req : ListSnapshotsRequest) (entries : List SnapshotEntry) (ns_map : Dict NsData)
      → KeepsServers (list_all X req entries ns_map)
  unfolding list_all
  list_all-KeepsServers req entries [] s = refl
  list_all-KeepsServers req entries ((name, cfg) ∷ rest) s =
      bind-KeepsServers
        (catch (get_filesystem_snapshot_list X cfg.default_dataset req) (λ e. crash)) _
        (catch-KeepsServers (get_filesystem_snapshot_list X cfg.default_dataset req) _
          (get_filesystem_snapshot_list-KeepsServers X cfg.default_dataset req) (λ e s. refl))
        (λ r.
          if-KeepsServers (not (r.next_token == "")) _ _ (λ s. refl)
            (list_all-KeepsServers req (entries ++ r.entries) rest))
        s
