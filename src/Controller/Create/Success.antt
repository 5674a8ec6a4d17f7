-- ===== src/Controller/Create/Success.antt =====
-- When `CreateVolume` of pkg/driver/controllerServer.go succeeds.
use nexentastor_csi_driver.Common.{
  get_or, All, lookup, ℤ, path_join, String, ◌≡◌, refl, ◌≢◌, true, false, none, some, List, [], ◌∷◌,
  arith, ◌==◌, eq_iff,
}
use nexentastor_csi_driver.Errors.{ok}
use nexentastor_csi_driver.External.{External}
use nexentastor_csi_driver.Process.{Process}
use nexentastor_csi_driver.Controller.Requests.{
  VolumeCapability, CreateVolumeRequest, Volume, last_secret,
}
use nexentastor_csi_driver.Controller.Resolve.{
  ns_data_at, dataset_or_default, ResolveNsResponse, resolve_on, resolve_named, resolve_ns_no_zone,
  resolve_ns,
}
use nexentastor_csi_driver.Controller.Capability.{
  validate_volume_capability, pick_availability_zone,
}
use nexentastor_csi_driver.Controller.Resolvers.{refresh_config}
use nexentastor_csi_driver.Controller.NewVolume.{create_new_volume}
use nexentastor_csi_driver.Controller.Create.{
  create_at, volume_response, with_share, create_volume_with, create_volume, check_capabilities,
  source_ids, create_filesystem_for,
}

module _ (X : External) where
  check_capabilities-supported :
      (capabilities : List VolumeCapability) (s : Process X)
      → All (λ c. validate_volume_capability c ≡ true) capabilities
      → check_capabilities X capabilities s ≡ (ok tt, s)
  unfolding check_capabilities
  check_capabilities-supported [] s h = refl
  check_capabilities-supported (c ∷ capabilities) s (supported, h) =
      rw supported (check_capabilities-supported capabilities s h)

  resolve_named-answer :
      (dataset name : String) (s : Process X) (resolver : X.Resolver) (provider : X.Provider)
      (w : X.World)
      → name ≢ ""
      → lookup name s.controller_resolvers ≡ some resolver
      → X.resolve resolver (dataset_or_default dataset (ns_data_at name s.config)) s.world
        ≡ ((some provider, none), w)
      → resolve_ns X
          (record {
            dataset_path = dataset;
            zone = "";
            config_name = name;
            is_v13_compatible = false;
          })
          s
        ≡ (
          ok (record {
            dataset_path = dataset_or_default dataset (ns_data_at name s.config);
            ns_provider = some provider;
            config_name = name;
          }),
          record s { world = w },
        )
  unfolding resolve_ns resolve_ns_no_zone resolve_named resolve_on
  resolve_named-answer dataset name s resolver provider w given held found =
      ground (arith, eq_iff name "")

  create_new_volume-fresh :
      (provider : X.Provider) (path : String) (capacity : ℤ) (s : Process X) (w : X.World)
      → X.create_filesystem provider
          (record { path = path; referenced_quota_size = capacity })
          s.world
        ≡ (none, w)
      → create_new_volume X provider path capacity s ≡ (ok tt, record s { world = w })
  unfolding create_new_volume
  create_new_volume-fresh provider path capacity s w made = ground arith

  create_at-fresh :
      (dataset name volume_name : String) (capacity : ℤ) (s : Process X) (resolver : X.Resolver)
      (provider : X.Provider) (v w : X.World)
      → name ≢ ""
      → lookup name s.controller_resolvers ≡ some resolver
      → let path = dataset_or_default dataset (ns_data_at name s.config) in
        X.resolve resolver path s.world ≡ ((some provider, none), v)
        → X.create_filesystem provider
            (record { path = path_join path volume_name; referenced_quota_size = capacity })
            v
          ≡ (none, w)
        → create_at X
            (record {
              dataset_path = dataset;
              zone = "";
              config_name = name;
              is_v13_compatible = false;
            })
            volume_name
            (λ p q. create_new_volume X p q capacity)
            s
          ≡ (
            ok (
              record { dataset_path = path; ns_provider = some provider; config_name = name },
              path_join path volume_name,
            ),
            record s { world = w },
          )
  unfolding create_at
  create_at-fresh dataset name volume_name capacity s resolver provider v w given held found made =
      let path = dataset_or_default dataset (ns_data_at name s.config) in
      rw
        (
          resolve_named-answer dataset name s resolver provider v given held found,
          create_new_volume-fresh provider (path_join path volume_name) capacity
              (record s { world = v }) w made,
        )
        refl

  with_share-none :
      (req : CreateVolumeRequest) (r : ResolveNsResponse X) (path : String) (v : Volume)
      (s : Process X)
      → lookup "nfsAccessList" req.parameters ≡ none
      → with_share X req r path v s ≡ (ok v, s)
  unfolding with_share
  with_share-none req r path v s h = ground arith

  -- `CreateVolume` succeeds where a new volume is asked for by the name of a config, without a zone, a
  -- source and an access list, the config can be refreshed, the capabilities are supported, the
  -- resolver of that config finds its storage, and the storage creates the filesystem: it answers the
  -- volume of that config at the dataset's path, and the process is changed by those calls only.
  pub create_volume-succeeds :
      (req : CreateVolumeRequest) (capabilities : List VolumeCapability) (name : String)
      (resolver : X.Resolver) (provider : X.Provider) (s t : Process X) (v w : X.World)
      → req.name ≢ ""
      → name ≢ ""
      → req.volume_capabilities ≡ some capabilities
      → All (λ c. validate_volume_capability c ≡ true) capabilities
      → req.volume_content_source ≡ none
      → pick_availability_zone req.accessibility_requirements ≡ ""
      → get_or (lookup "configName" req.parameters) "" ≡ name
      → lookup "nfsAccessList" req.parameters ≡ none
      → refresh_config X (last_secret req.secrets) s ≡ (ok tt, t)
      → lookup name t.controller_resolvers ≡ some resolver
      → let dataset =
          dataset_or_default
            (get_or (lookup "dataset" req.parameters) "")
            (ns_data_at name t.config) in
        X.resolve resolver dataset t.world ≡ ((some provider, none), v)
        → X.create_filesystem provider
            (record {
              path = path_join dataset req.name;
              referenced_quota_size = req.required_bytes;
            })
            v
          ≡ (none, w)
        → create_volume X req s ≡ (
          ok (
              volume_response X req "" name
                (ns_data_at name t.config)
                (path_join dataset req.name)),
          record t { world = w },
        )
  unfolding create_volume create_volume_with source_ids create_filesystem_for
  create_volume-succeeds req capabilities name resolver provider s t v w named given asked supported
        plain_source no_zone at no_list refreshed held found made =
      let e : (req.name == "") ≡ false = ground (arith, eq_iff req.name "") in
      let fresh =
        create_at-fresh (get_or (lookup "dataset" req.parameters) "") name req.name
          req.required_bytes t resolver provider v w given held found made in
      simp
        (
          e,
          refreshed,
          asked,
          check_capabilities-supported capabilities t supported,
          plain_source,
          no_zone,
          at,
          fresh,
        )
        (with_share-none req _ _ _ _ no_list)
