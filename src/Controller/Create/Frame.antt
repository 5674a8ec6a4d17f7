-- ===== src/Controller/Create/Frame.antt =====
-- `CreateVolume` of pkg/driver/controllerServer.go after its refresh.
use nexentastor_csi_driver.Common.{
  ◌≡◌, lookup, ℤ, path_join, String, refl, not, Option, none, some, List, [], ◌∷◌, arith, ◌==◌,
}
use nexentastor_csi_driver.External.{External}
use nexentastor_csi_driver.Process.{Exec, deref, pure, ◌>>=◌, ◌>>◌}
use nexentastor_csi_driver.Controller.Share.{create_nfs_share}
use nexentastor_csi_driver.Controller.Share.Frame.{create_nfs_share-KeepsServers}
use nexentastor_csi_driver.Process.Frames.{
  servers, KeepsServers, bind-KeepsServers, if-KeepsServers,
}
use nexentastor_csi_driver.Controller.Requests.{
  VolumeCapability, ContentSource, from_snapshot, from_volume, from_nothing, CreateVolumeRequest,
  Volume,
}
use nexentastor_csi_driver.Controller.Resolve.{ResolveNsParams, ResolveNsResponse, resolve_ns}
use nexentastor_csi_driver.Controller.Resolve.Frame.{resolve_ns-KeepsServers}
use nexentastor_csi_driver.Controller.Create.{
  create_at, create_from, with_share, create_volume_with, check_capabilities, source_ids,
  parse_source, create_filesystem_for,
}
use nexentastor_csi_driver.Controller.NewVolume.Frame.{
  create_new_volume-KeepsServers, create_new_volume_from_snapshot-KeepsServers,
  create_cloned_volume-KeepsServers,
}
use nexentastor_csi_driver.Controller.Capability.{validate_volume_capability}

module _ (X : External) where
  check_capabilities-KeepsServers :
      (capabilities : List VolumeCapability) → KeepsServers (check_capabilities X capabilities)
  unfolding check_capabilities
  check_capabilities-KeepsServers [] s = refl
  check_capabilities-KeepsServers (c ∷ capabilities) s =
      if-KeepsServers (validate_volume_capability c) _ _
        (check_capabilities-KeepsServers capabilities) (λ s. refl) s

  source_ids-KeepsServers : (source : Option ContentSource) → KeepsServers (source_ids X source)
  unfolding source_ids
  source_ids-KeepsServers none s = refl
  source_ids-KeepsServers (some (from_snapshot id)) s = refl
  source_ids-KeepsServers (some (from_volume id)) s = refl
  source_ids-KeepsServers (some from_nothing) s = refl

  create_at-KeepsServers :
      (params : ResolveNsParams) (name : String) (create : X.Provider → String → Exec X (Unit {0}))
      → ((provider : X.Provider) (path : String) → KeepsServers (create provider path))
      → KeepsServers (create_at X params name create)
  unfolding create_at
  create_at-KeepsServers params name create k =
      bind-KeepsServers (resolve_ns X params) _ (resolve_ns-KeepsServers X params) (λ r.
        bind-KeepsServers (deref r.ns_provider) _ (λ s. ground arith)
          (λ provider.
            bind-KeepsServers (create provider (path_join r.dataset_path name)) _
              (k provider (path_join r.dataset_path name)) (λ u s. refl)))

  create_from-KeepsServers :
      (what id : String) (params : ResolveNsParams) (name : String)
      (create : String → X.Provider → String → Exec X (Unit {0}))
      → ((source : String) (provider : X.Provider) (path : String)
          → KeepsServers (create source provider path))
      → KeepsServers (create_from X what id params name create)
  unfolding create_from parse_source
  create_from-KeepsServers what id params name create k =
      bind-KeepsServers (parse_source X what id) _ (λ s. ground arith)
        (λ i. create_at-KeepsServers _ name (create i.path) (k i.path))

  create_filesystem_for-KeepsServers :
      (name snapshot_id source_id : String) (params : ResolveNsParams) (capacity : ℤ)
      → KeepsServers (create_filesystem_for X name snapshot_id source_id params capacity)
  unfolding create_filesystem_for
  create_filesystem_for-KeepsServers name snapshot_id source_id params capacity =
      if-KeepsServers (not (snapshot_id == "")) _ _
        (create_from-KeepsServers "SnapshotId" snapshot_id params name _ (λ source provider path.
          create_new_volume_from_snapshot-KeepsServers X provider source path capacity))
        (if-KeepsServers (not (source_id == "")) _ _
          (create_from-KeepsServers "VolumeId" source_id params name _ (λ source provider path.
            create_cloned_volume-KeepsServers X provider source path name capacity))
          (create_at-KeepsServers params name _
            (λ provider path. create_new_volume-KeepsServers X provider path capacity)))

  with_share-KeepsServers :
      (req : CreateVolumeRequest) (r : ResolveNsResponse X) (path : String) (v : Volume)
      → KeepsServers (with_share X req r path v)
  unfolding with_share
  with_share-KeepsServers req r path v s = go (lookup "nfsAccessList" req.parameters)
    where
      go :
          (rules : Option String)
          → servers
              ((let m : Exec X Volume = elim rules [
                | none ↦ pure v
                | some rules ↦ do
                  provider ← deref r.ns_provider
                  create_nfs_share X path rules provider
                  pure v
              ] in
                  m)
                s).1
            ≡ servers s
      go none = refl
      go (some rules) =
          bind-KeepsServers (deref r.ns_provider) _ (λ s. ground arith)
            (λ provider.
              bind-KeepsServers (create_nfs_share X path rules provider) _
                (create_nfs_share-KeepsServers X path rules provider) (λ u s. refl))
            s

  pub create_volume_with-KeepsServers :
      (req : CreateVolumeRequest) (capabilities : List VolumeCapability)
      → KeepsServers (create_volume_with X req capabilities)
  unfolding create_volume_with
  create_volume_with-KeepsServers req capabilities =
      bind-KeepsServers (check_capabilities X capabilities) _
        (check_capabilities-KeepsServers capabilities)
        (λ u.
          bind-KeepsServers (source_ids X req.volume_content_source) _
            (source_ids-KeepsServers req.volume_content_source)
            (λ ids.
              bind-KeepsServers (create_filesystem_for X req.name ids.0 ids.1 _ req.required_bytes)
                _ (create_filesystem_for-KeepsServers req.name ids.0 ids.1 _ req.required_bytes)
                (λ created s. with_share-KeepsServers req created.0 created.1 _ s)))
