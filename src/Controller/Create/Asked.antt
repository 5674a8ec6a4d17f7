-- ===== src/Controller/Create/Asked.antt =====
-- What `CreateVolume` of pkg/driver/controllerServer.go asks `resolveNS` for, and what its volume is made
-- on.
use nexentastor_csi_driver.VolumeId.{VolumeInfo, parse_volume_id}
use nexentastor_csi_driver.Common.{
  get_or, Bool-cases, ◌<>◌, lookup, path_join, String, ◌≡◌, refl, sym, ap, ◌∙◌, ◌⊎◌, inl, inr, Bool,
  false, Option, none, some, arith, ◌==◌, eq_iff,
}
use nexentastor_csi_driver.Errors.{not_found, status, Outcome, ok, err, panic}
use nexentastor_csi_driver.Process.Runs.{bind-eq-ok}
use nexentastor_csi_driver.External.{External}
use nexentastor_csi_driver.Process.{Process, Exec, deref}
use nexentastor_csi_driver.Controller.Requests.{
  ContentSource, from_snapshot, from_volume, from_nothing, CreateVolumeRequest,
}
use nexentastor_csi_driver.Controller.Resolve.{ResolveNsParams, ResolveNsResponse, resolve_ns}
use nexentastor_csi_driver.Controller.Capability.{pick_availability_zone}
use nexentastor_csi_driver.Controller.NewVolume.{
  create_new_volume, create_new_volume_from_snapshot, create_cloned_volume,
}
use nexentastor_csi_driver.Controller.Create.{
  create_at, create_from, source_ids, parse_source, create_filesystem_for,
}

-- The identifier of the source of the content, empty where none is given.
unfoldable pub source_id : Option ContentSource → String
source_id (some (from_snapshot id)) = id
source_id (some (from_volume id)) = id
source_id _ = ""

-- The parameters of a request to resolve by the name of a config, empty for any config.
abbrev pub asked_params : CreateVolumeRequest → String → Bool → ResolveNsParams
asked_params req config_name is_v13_compatible = record {
  dataset_path = get_or (lookup "dataset" req.parameters) "";
  zone = pick_availability_zone req.accessibility_requirements;
  config_name = config_name;
  is_v13_compatible = is_v13_compatible;
}

module _ (X : External) where
  -- The config that a request is resolved by: that of its source, or else that of its parameters.
  abbrev pub IsAsked : CreateVolumeRequest → String → ResolveNsParams → Type 0
  IsAsked req id p =
      ((id ≡ "") × (p ≡ asked_params req (get_or (lookup "configName" req.parameters) "") false))
      ⊎ ((i : VolumeInfo) × (parse_volume_id {F = X.Fault} id ≡ ok i)
          × (p ≡ asked_params req i.config_name i.is_v13_volume_id_version))

  pub source_ids-ok :
      (source : Option ContentSource) (s t : Process X) (ids : String × String)
      → source_ids X source s ≡ (ok ids, t)
      → (s ≡ t)
        × (((ids.0 ≡ source_id source) × (ids.1 ≡ ""))
            ⊎ ((ids.0 ≡ "") × (ids.1 ≡ source_id source)))
  unfolding source_ids source_id
  source_ids-ok none s t ids h = ground arith
  source_ids-ok (some (from_snapshot id)) s t ids h = ground arith
  source_ids-ok (some (from_volume id)) s t ids h = ground arith
  source_ids-ok (some from_nothing) s t ids h = absurd (ground arith)

  parse_source-ok :
      (what id : String) (s t : Process X) (i : VolumeInfo)
      → parse_source X what id s ≡ (ok i, t)
      → (parse_volume_id {F = X.Fault} id ≡ ok i) × (s ≡ t)
  unfolding parse_source
  parse_source-ok what id s t i h = go (parse_volume_id id) refl h
    where
      go :
          (o : Outcome X.Fault VolumeInfo)
          → parse_volume_id id ≡ o
          → ◌≡◌ {A = Outcome X.Fault VolumeInfo × Process X}
              (elim o [
                | ok j ↦ (ok j, s)
                | err e ↦ (err (status not_found (what <> " is in wrong format: " <> id)), s)
                | panic ↦ (panic, s)
              ])
              (ok i, t)
          → (parse_volume_id {F = X.Fault} id ≡ ok i) × (s ≡ t)
      go (ok j) e h = (ground arith, ground arith)
      go (err f) e h = absurd (ground arith)
      go panic e h = absurd (ground arith)

  -- `resolveNS` answers what the volume is made on, and its path is its name joined to the dataset.
  abbrev ResolvedBy :
      String → ResolveNsParams → Process X → ResolveNsResponse X × String → Process X → Type 0
  ResolvedBy volume_name p s r w =
      (resolve_ns X p s ≡ (ok r.0, w)) × (r.1 ≡ path_join r.0.dataset_path volume_name)

  create_at-ResolvedBy :
      (params : ResolveNsParams) (volume_name : String)
      (create : X.Provider → String → Exec X (Unit {0})) (s t : Process X)
      (r : ResolveNsResponse X × String)
      → create_at X params volume_name create s ≡ (ok r, t)
      → (w : Process X) × ResolvedBy volume_name params s r w
  unfolding create_at
  create_at-ResolvedBy params volume_name create s t r h =
      let (response, u, resolved, later) = bind-eq-ok (resolve_ns X params) _ s h in
      let volume_path = path_join response.dataset_path volume_name in
      let (provider, v, _, made) = bind-eq-ok (deref response.ns_provider) _ u later in
      let (_, w, _, e) = bind-eq-ok (create provider volume_path) _ v made in
      (u, (ground arith, ground arith))

  create_from-ResolvedBy :
      (what id : String) (params : ResolveNsParams) (volume_name : String)
      (create : String → X.Provider → String → Exec X (Unit {0})) (s t : Process X)
      (r : ResolveNsResponse X × String)
      → create_from X what id params volume_name create s ≡ (ok r, t)
      → (i : VolumeInfo) × (parse_volume_id {F = X.Fault} id ≡ ok i)
        × (w : Process X) × ResolvedBy volume_name
            (record params {
              config_name = i.config_name;
              is_v13_compatible = i.is_v13_volume_id_version;
            })
            s
            r
            w
  unfolding create_from
  create_from-ResolvedBy what id params volume_name create s t r h =
      let (i, u, read, later) = bind-eq-ok (parse_source X what id) _ s h in
      let (info, same) = parse_source-ok what id s u i read in
      let of_source : ResolveNsParams = record params {
        config_name = i.config_name;
        is_v13_compatible = i.is_v13_volume_id_version;
      } in
      let (w, resolved) = create_at-ResolvedBy of_source volume_name (create i.path) u t r later in
      (i, info, w, (ap (resolve_ns X of_source) same ∙ resolved.0, resolved.1))

  source-ResolvedBy :
      (req : CreateVolumeRequest) (what given id : String)
      (create : String → X.Provider → String → Exec X (Unit {0})) (s t : Process X)
      (r : ResolveNsResponse X × String)
      → given ≡ id
      → create_from X what given
          (asked_params req (get_or (lookup "configName" req.parameters) "") false)
          req.name
          create
          s
        ≡ (ok r, t)
      → (p : ResolveNsParams) × IsAsked req id p × (w : Process X) × ResolvedBy req.name p s r w
  source-ResolvedBy req what given id create s t r same h =
      let (i, read, w, resolved) = create_from-ResolvedBy what given _ req.name create s t r h in
      (
        asked_params req i.config_name i.is_v13_volume_id_version,
        inr (i, ap (parse_volume_id {F = X.Fault}) (sym same) ∙ read, refl),
        w,
        resolved,
      )

  -- What the volume is made on comes from `resolveNS` for the config that is asked for.
  pub created-ResolvedBy :
      (req : CreateVolumeRequest) (id : String) (ids : String × String) (s t : Process X)
      (r : ResolveNsResponse X × String)
      → ((ids.0 ≡ id) × (ids.1 ≡ "")) ⊎ ((ids.0 ≡ "") × (ids.1 ≡ id))
      → create_filesystem_for X req.name ids.0 ids.1
          (asked_params req (get_or (lookup "configName" req.parameters) "") false)
          req.required_bytes
          s
        ≡ (ok r, t)
      → (p : ResolveNsParams) × IsAsked req id p × (w : Process X) × ResolvedBy req.name p s r w
  unfolding create_filesystem_for
  created-ResolvedBy req id ids s t r source h =
      let params = asked_params req (get_or (lookup "configName" req.parameters) "") false in
      let run = create_filesystem_for X req.name ids.0 ids.1 params req.required_bytes s in
      let of_snapshot : String → X.Provider → String → Exec X (Unit {0}) =
        λ path provider volume_path.
          create_new_volume_from_snapshot X provider path volume_path req.required_bytes in
      let of_volume : String → X.Provider → String → Exec X (Unit {0}) =
        λ path provider volume_path.
          create_cloned_volume X provider path volume_path req.name req.required_bytes in
      let fresh : X.Provider → String → Exec X (Unit {0}) =
        λ provider volume_path. create_new_volume X provider volume_path req.required_bytes in
      elim (Bool-cases (ids.0 == "")) [
        | inr snapshot ↦
            let direct : run ≡ create_from X "SnapshotId" ids.0 params req.name of_snapshot s =
              rw snapshot refl in
            source-ResolvedBy req "SnapshotId" ids.0 id of_snapshot s t r
              (ground (arith, eq_iff ids.0 "")) (sym direct ∙ h)
        | inl no_snapshot ↦ elim (Bool-cases (ids.1 == "")) [
          | inr volume ↦
              let direct : run ≡ create_from X "VolumeId" ids.1 params req.name of_volume s =
                rw (no_snapshot, volume) refl in
              source-ResolvedBy req "VolumeId" ids.1 id of_volume s t r
                (ground (arith, eq_iff ids.1 "")) (sym direct ∙ h)
          | inl no_volume ↦
              let nothing : id ≡ "" = ground (arith, eq_iff ids.0 "", eq_iff ids.1 "") in
              let direct : run ≡ create_at X params req.name fresh s =
                rw (no_snapshot, no_volume) refl in
              let (w, resolved) =
                create_at-ResolvedBy params req.name fresh s t r (sym direct ∙ h) in
              (params, inl (nothing, refl), w, resolved)
        ]
      ]
