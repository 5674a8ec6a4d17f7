-- ===== src/Controller/Service/Frame.antt =====
-- The handlers of pkg/driver/controllerServer.go write to what the servers hold in their refresh only.
use nexentastor_csi_driver.Common.{
  ◌≡◌, ◌⊎◌, inr, ◌<>◌, split, pos, int_eq, is_neg, String, refl, inl, not, Option, none, some, List,
  [], ◌∷◌, arith, ◌==◌,
}
use nexentastor_csi_driver.Errors.{
  invalid_argument, not_found, failed_precondition, Outcome, ok, err, panic,
}
use nexentastor_csi_driver.External.{External}
use nexentastor_csi_driver.Process.{
  Process, Exec, after, ◌>>=◌, ◌>>◌, or_else, pure, raise_status, deref,
}
use nexentastor_csi_driver.Process.Frames.{
  servers, KeepsServers, bind-KeepsServers, handle-KeepsServers, if-KeepsServers,
}
use nexentastor_csi_driver.VolumeId.{VolumeInfo, parse_volume_id}
use nexentastor_csi_driver.Controller.Resolvers.{refresh_config}
use nexentastor_csi_driver.Controller.Requests.{
  VolumeCapability, CreateVolumeRequest, Volume, DeleteVolumeRequest, CreateSnapshotRequest,
  ListSnapshotsRequest, ListVolumesRequest, ListVolumesResponse, ExpandVolumeRequest,
  ValidateCapabilitiesRequest, ValidateCapabilitiesResponse, last_secret,
}
use nexentastor_csi_driver.Controller.Resolve.{volume_params, resolve_ns}
use nexentastor_csi_driver.Controller.Resolve.Frame.{resolve_ns-KeepsServers}
use nexentastor_csi_driver.Controller.SnapshotOnNs.{create_snapshot_on_ns}
use nexentastor_csi_driver.Controller.SnapshotOnNs.Frame.{create_snapshot_on_ns-KeepsServers}
use nexentastor_csi_driver.Controller.Create.{create_volume_with, create_volume}
use nexentastor_csi_driver.Controller.Create.Frame.{create_volume_with-KeepsServers}
use nexentastor_csi_driver.Controller.Delete.{
  refreshed, parsed_id, delete_volume, controller_expand_volume,
}
use nexentastor_csi_driver.Controller.Delete.Frame.{
  delete_by_info-KeepsServers, parsed_id-KeepsServers, get_capacity-KeepsServers,
}
use nexentastor_csi_driver.Controller.Page.Frame.{get_filesystem_snapshot_list-KeepsServers}
use nexentastor_csi_driver.Controller.Snapshots.{create_snapshot, delete_snapshot, list_snapshots}
use nexentastor_csi_driver.Controller.Snapshots.Frame.{
  delete_snapshot_parts-KeepsServers, single_snapshot_list-KeepsServers, list_all-KeepsServers,
}
use nexentastor_csi_driver.Controller.Service.{
  Request, of_create_volume, of_delete_volume, of_expand_volume, of_get_capacity,
  of_create_snapshot, of_delete_snapshot, of_list_snapshots, of_list_volumes, of_validate,
  of_get_capabilities, of_get_volume, of_publish_volume, of_unpublish_volume, secret_of,
  serve_request,
}
use nexentastor_csi_driver.Process.Refreshed.{Refreshes, if-Refreshes, refresh-Refreshes}
use nexentastor_csi_driver.Controller.Fixed.{
  controller_get_capabilities, controller_get_volume, controller_publish_volume,
  controller_unpublish_volume,
}
use nexentastor_csi_driver.Controller.Volumes.{
  list_from, finish_list, list_volumes, confirm, validate_volume_capabilities,
}
use nexentastor_csi_driver.Controller.Volumes.Frame.{list_from-KeepsServers}

module _ (X : External) where
  create_with-KeepsServers :
      (req : CreateVolumeRequest) (c : Option (List VolumeCapability))
      → KeepsServers (
          let m : Exec X Volume = elim c [
            | none ↦ raise_status invalid_argument "req.VolumeCapabilities must be provided"
            | some capabilities ↦ create_volume_with X req capabilities
          ] in
          m)
  create_with-KeepsServers req none s = refl
  create_with-KeepsServers req (some capabilities) s =
      create_volume_with-KeepsServers X req capabilities s

  create_volume-Refreshes :
      (req : CreateVolumeRequest)
      → Refreshes (refresh_config X (last_secret req.secrets)) (create_volume X req)
  unfolding create_volume
  create_volume-Refreshes req =
      if-Refreshes (refresh_config X _) (req.name == "") _ _ (λ s. inl refl)
        (refresh-Refreshes (refresh_config X _) _ _
          (λ u. create_with-KeepsServers req req.volume_capabilities))

  delete_volume-Refreshes :
      (req : DeleteVolumeRequest)
      → Refreshes (refresh_config X (last_secret req.secrets)) (delete_volume X req)
  unfolding delete_volume refreshed
  delete_volume-Refreshes req = refresh-Refreshes (refresh_config X _) _ _ (λ u.
      if-KeepsServers (req.volume_id == "") _ _ (λ s. refl)
        (handle-KeepsServers (parsed_id X req.volume_id) _ _
          (parsed_id-KeepsServers X req.volume_id) (λ e s. refl) (delete_by_info-KeepsServers X)))

  expand-Refreshes :
      (req : ExpandVolumeRequest)
      → Refreshes (refresh_config X (last_secret req.secrets)) (controller_expand_volume X req)
  unfolding controller_expand_volume refreshed
  expand-Refreshes req = refresh-Refreshes (refresh_config X _) _ _ (λ u.
      if-KeepsServers (int_eq req.required_bytes (pos 0)) _ _ (λ s. refl)
        (if-KeepsServers (req.volume_id == "") _ _ (λ s. refl)
          (bind-KeepsServers (parsed_id X req.volume_id) _ (parsed_id-KeepsServers X req.volume_id)
            (λ i.
              bind-KeepsServers (resolve_ns X (volume_params i)) _
                (resolve_ns-KeepsServers X (volume_params i)) (λ r s. ground arith)))))

  create_snapshot-Refreshes :
      (req : CreateSnapshotRequest) → Refreshes (refresh_config X "") (create_snapshot X req)
  unfolding create_snapshot refreshed
  create_snapshot-Refreshes req = refresh-Refreshes (refresh_config X _) _ _ (λ u.
      if-KeepsServers (req.source_volume_id == "") _ _ (λ s. refl)
        (bind-KeepsServers (parsed_id X req.source_volume_id) _
          (parsed_id-KeepsServers X req.source_volume_id)
          (λ i.
            if-KeepsServers (req.name == "") _ _ (λ s. refl)
              (bind-KeepsServers (resolve_ns X (volume_params i)) _
                (resolve_ns-KeepsServers X (volume_params i))
                (λ r.
                  bind-KeepsServers (deref r.ns_provider) _ (λ s. ground arith)
                    (λ provider.
                      bind-KeepsServers (create_snapshot_on_ns X provider i.path req.name) _
                        (create_snapshot_on_ns-KeepsServers X provider i.path req.name)
                        (λ c s. refl)))))))

  delete_snapshot-Refreshes : (id : String) → Refreshes (refresh_config X "") (delete_snapshot X id)
  unfolding delete_snapshot refreshed
  delete_snapshot-Refreshes id = refresh-Refreshes (refresh_config X _) _ _ (λ u.
      if-KeepsServers (id == "") _ _ (λ s. refl)
        (delete_snapshot_parts-KeepsServers X (split "@" id)))

  list_snapshots-Refreshes :
      (req : ListSnapshotsRequest) → Refreshes (refresh_config X "") (list_snapshots X req)
  unfolding list_snapshots refreshed
  list_snapshots-Refreshes req = refresh-Refreshes (refresh_config X _) _ _ (λ u s.
      if-KeepsServers (not (req.snapshot_id == "")) _ _
        (single_snapshot_list-KeepsServers X (split "@" req.snapshot_id))
        (if-KeepsServers (not (req.source_volume_id == "")) _ _
          (get_filesystem_snapshot_list-KeepsServers X req.source_volume_id req)
          (list_all-KeepsServers X req [] s.config.ns_map))
        s)

  finish_list-KeepsServers :
      (req : ListVolumesRequest) (res : ListVolumesResponse) (entries : List String)
      → KeepsServers (finish_list X req res entries)
  finish_list-KeepsServers req res [] s = refl
  finish_list-KeepsServers req res (e ∷ entries) s = refl

  list_volumes-Refreshes :
      (req : ListVolumesRequest) → Refreshes (refresh_config X "") (list_volumes X req)
  unfolding list_volumes refreshed
  list_volumes-Refreshes req =
      if-Refreshes (refresh_config X _) (is_neg req.max_entries) _ _ (λ s. inl refl)
        (refresh-Refreshes (refresh_config X _) _ _ (λ u s.
          bind-KeepsServers (list_from X req [] "" s.config.ns_map) _
            (list_from-KeepsServers X req [] "" s.config.ns_map)
            (λ res. finish_list-KeepsServers req res res.entries) s))

  -- `ValidateVolumeCapabilities` behind the parsing of its identifier, which may be refused.
  checked-Refreshes :
      (req : ValidateCapabilitiesRequest) (c : Option (List VolumeCapability))
      (i : Outcome X.Fault VolumeInfo)
      → Refreshes (refresh_config X (last_secret req.secrets)) (
          let m : Exec X ValidateCapabilitiesResponse = (λ s.
            after
              (or_else
                (i, s)
                (λ e. raise_status not_found ("VolumeId is in wrong format: " <> req.volume_id)))
              (λ i. elim c [
                | none ↦ raise_status invalid_argument "req.VolumeCapabilities must be provided"
                | some capabilities ↦ do
                  refreshed X failed_precondition (last_secret req.secrets)
                  _ ← resolve_ns X (volume_params i)
                  pure (confirm X req.volume_context capabilities)
              ])) in
          m)
  unfolding refreshed
  checked-Refreshes req c (err e) s = inl refl
  checked-Refreshes req c panic s = inl refl
  checked-Refreshes req none (ok i) s = inl refl
  checked-Refreshes req (some capabilities) (ok i) s =
      refresh-Refreshes (refresh_config X _) _ _
        (λ u.
          bind-KeepsServers (resolve_ns X (volume_params i)) _
            (resolve_ns-KeepsServers X (volume_params i)) (λ r s. refl))
        s

  validate-Refreshes :
      (req : ValidateCapabilitiesRequest)
      → Refreshes (refresh_config X (last_secret req.secrets)) (validate_volume_capabilities X req)
  unfolding validate_volume_capabilities parsed_id
  validate-Refreshes req =
      if-Refreshes (refresh_config X _) (req.volume_id == "") _ _ (λ s. inl refl)
        (λ s. checked-Refreshes req req.volume_capabilities (parse_volume_id req.volume_id) s)

  pub serve_request-Refreshes :
      (q : Request) → Refreshes (refresh_config X (secret_of q)) (serve_request X q)
  unfolding serve_request secret_of controller_get_capabilities controller_get_volume
      controller_publish_volume controller_unpublish_volume
  serve_request-Refreshes (of_create_volume req) s = create_volume-Refreshes req s
  serve_request-Refreshes (of_delete_volume req) s = delete_volume-Refreshes req s
  serve_request-Refreshes (of_expand_volume req) s = expand-Refreshes req s
  serve_request-Refreshes (of_get_capacity parameters) s =
      inl (get_capacity-KeepsServers X parameters s)
  serve_request-Refreshes (of_create_snapshot req) s = create_snapshot-Refreshes req s
  serve_request-Refreshes (of_delete_snapshot id) s = delete_snapshot-Refreshes id s
  serve_request-Refreshes (of_list_snapshots req) s = list_snapshots-Refreshes req s
  serve_request-Refreshes (of_list_volumes req) s = list_volumes-Refreshes req s
  serve_request-Refreshes (of_validate req) s = validate-Refreshes req s
  serve_request-Refreshes of_get_capabilities s = inl refl
  serve_request-Refreshes (of_get_volume id) s = inl refl
  serve_request-Refreshes (of_publish_volume id) s = inl refl
  serve_request-Refreshes (of_unpublish_volume id) s = inl refl

  -- Each request of the controller service, however it ends, leaves the config and both maps of
  -- resolvers as they were, or exactly as the `refreshConfig` with the request's own secret leaves them.
  pub serve_request-servers :
      (q : Request) (s : Process X)
      → (servers (serve_request X q s).1 ≡ servers s)
        ⊎ (servers (serve_request X q s).1 ≡ servers (refresh_config X (secret_of q) s).1)
  serve_request-servers q s = elim (serve_request-Refreshes q s) [
    | inl same ↦ inl same
    | inr (same, v) ↦ inr same
  ]
