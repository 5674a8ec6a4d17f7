-- ===== src/Controller/Resolve/Answers.antt =====
-- What `resolveNS` of pkg/driver/controllerServer.go answers: the right config and zone, the codes of
-- its errors, and the requests that it panics on.
use nexentastor_csi_driver.Common.{
  if◌then◌else◌, get_or, ◌<>◌, All, Dict, lookup, String, ◌≡◌, refl, ◌≢◌, inl, inr, true, false,
  Option, none, some, [], ◌∷◌, arith, ◌==◌, eq_iff,
}
use nexentastor_csi_driver.Errors.{Code, not_found, internal, Error, status, ok, err, panic}
use nexentastor_csi_driver.External.{External}
use nexentastor_csi_driver.External.Laws.{IsLawful}
use nexentastor_csi_driver.Process.{Process, Exec, catch}
use nexentastor_csi_driver.Process.Runs.{catch-eq-ok, err-ne-ok, panic-ne-ok}
use nexentastor_csi_driver.Config.Data.{NsData}
use nexentastor_csi_driver.VolumeId.{VolumeInfo}
use nexentastor_csi_driver.Controller.Resolve.{
  ResolveNsParams, volume_params, show_params, ns_data_at, dataset_or_default, ResolveNsResponse,
  resolve_on, compatible_from, resolve_compatibility_config, resolve_named, give_up,
  resolve_ns_no_zone, zone_from, resolve_ns_with_zone, recode, resolve_ns,
}

-- The parsed form of an identifier of version 1.3.
abbrev pub v13_info : String → VolumeInfo
v13_info path = record { config_name = ""; path = path; is_v13_volume_id_version = true }

abbrev pub no_v13_message : String → String
no_v13_message path =
    "No nsProvider found with backward compatability flag for params: "
    <> show_params (volume_params (v13_info path))

module _ (X : External) where
  -- The way of resolving that `resolveNS` takes.
  abbrev pub resolve_inner : ResolveNsParams → Exec X (ResolveNsResponse X)
  resolve_inner p = if p.zone == "" then resolve_ns_no_zone X p else resolve_ns_with_zone X p

  -- Where the tests of errors are lawful, a status that the way of resolving chose (a zone that does
  -- not match, a certificate that is not trusted, no provider found) is answered as an internal
  -- error.
  pub resolve_ns-status :
      IsLawful X
      → (p : ResolveNsParams) (s t : Process X) (c : Code) (m : String)
      → resolve_inner p s ≡ (err (status c m), t)
      → resolve_ns X p s ≡ (
        err (
            status internal (
              "Cannot resolve '"
              <> p.dataset_path
              <> "' on any NexentaStor(s): "
              <> X.error_text (status c m))),
        t,
      )
  unfolding resolve_ns
  resolve_ns-status L p s t c m h = rw (h, catch) (rw L.is_not_exist-status)

  resolve_ns-ok :
      (p : ResolveNsParams) (s t : Process X) (r : ResolveNsResponse X)
      → resolve_ns X p s ≡ (ok r, t)
      → resolve_inner p s ≡ (ok r, t)
  unfolding resolve_ns
  resolve_ns-ok p s t r h = elim (catch-eq-ok (resolve_inner p) _ s h) [
    | inl e ↦ e
    | inr (e, u, _, raised) ↦ absurd (err-ne-ok _ u raised)
  ]

  -- Any error of the way of resolving, recoded.
  pub resolve_ns-err :
      (p : ResolveNsParams) (s t : Process X) (e : Error X.Fault)
      → resolve_inner p s ≡ (err e, t)
      → resolve_ns X p s ≡ (err (recode X p.dataset_path e), t)
  unfolding resolve_ns
  resolve_ns-err p s t e h = rw (h, catch)

  -- With no config of the compatibility flag an identifier of version 1.3 is not found.
  compatible_from-none :
      (p : ResolveNsParams) (ns_map : Dict NsData) (s : Process X)
      → All (λ e. e.1.v13_compatibility ≡ false) ns_map
      → compatible_from X p ns_map s ≡ (
        err (
            status not_found (
              "No nsProvider found with backward compatability flag for params: "
              <> show_params p)),
        s,
      )
  unfolding compatible_from
  compatible_from-none p [] s h = refl
  compatible_from-none p ((name, cfg) ∷ rest) s (off, h) = rw off (compatible_from-none p rest s h)

  pub resolve_inner-no_v13 :
      (path : String) (s : Process X)
      → All (λ e. e.1.v13_compatibility ≡ false) s.config.ns_map
      → resolve_inner (volume_params (v13_info path)) s
        ≡ (err (status not_found (no_v13_message path)), s)
  unfolding resolve_ns_no_zone resolve_compatibility_config
  resolve_inner-no_v13 path s h =
      compatible_from-none (volume_params (v13_info path)) s.config.ns_map s h

  resolve_on-ok :
      (resolver : X.Resolver) (path name : String) (s t : Process X) (r : ResolveNsResponse X)
      → resolve_on X resolver path name s ≡ (ok r, t)
      → (r.config_name ≡ name) × (r.dataset_path ≡ path)
  unfolding resolve_on
  resolve_on-ok resolver path name s t r h = ground arith

  give_up-ok :
      (p : ResolveNsParams) (last : Option X.Fault) (s t : Process X) (r : ResolveNsResponse X)
      → give_up X p last s ≢ (ok r, t)
  unfolding give_up
  give_up-ok p none s t r h = panic-ne-ok s h
  give_up-ok p (some f) s t r h = ground arith

  zone_from-zone :
      (p : ResolveNsParams) (resolvers : Dict X.Resolver) (last : Option X.Fault) (s t : Process X)
      (r : ResolveNsResponse X)
      → zone_from X p resolvers last s ≡ (ok r, t)
      → (ns_data_at r.config_name s.config).zone ≡ p.zone
  unfolding zone_from
  zone_from-zone p [] last s t r h = absurd (give_up-ok p last s t r h)
  zone_from-zone p ((name, resolver) ∷ rest) last s t r h =
      let found =
        X.resolve resolver (dataset_or_default p.dataset_path (ns_data_at name s.config)) s.world in
      ground (
        arith,
        eq_iff p.zone (ns_data_at name s.config).zone,
        zone_from-zone p rest last s t r,
        zone_from-zone p rest found.0.1 (record s { world = found.1 }) t r,
      )

  zone_from-other :
      (p : ResolveNsParams) (resolvers : Dict X.Resolver) (s : Process X)
      → All (λ e. (ns_data_at e.0 s.config).zone ≢ p.zone) resolvers
      → zone_from X p resolvers none s ≡ (panic, s)
  unfolding zone_from
  zone_from-other p [] s h = unfold give_up in refl
  zone_from-other p ((name, resolver) ∷ rest) s (differs, h) =
      ground (arith, eq_iff p.zone (ns_data_at name s.config).zone, zone_from-other p rest s h)

  -- A request with a zone that is resolved is answered by a config of that zone.
  pub resolve_ns-zone :
      (p : ResolveNsParams) (s t : Process X) (r : ResolveNsResponse X)
      → p.zone ≢ ""
      → resolve_ns X p s ≡ (ok r, t)
      → (ns_data_at r.config_name s.config).zone ≡ p.zone
  unfolding resolve_ns_with_zone resolve_named
  resolve_ns-zone p s t r zoned h =
      let cfg = ns_data_at p.config_name s.config in
      let resolver = get_or (lookup p.config_name s.controller_resolvers) X.zero_resolver in
      ground (
        arith,
        resolve_ns-ok p s t r h,
        eq_iff p.zone "",
        eq_iff cfg.zone p.zone,
        zone_from-zone p s.controller_resolvers none s t r,
        resolve_on-ok resolver (dataset_or_default p.dataset_path cfg) p.config_name s t r,
      )

  -- A request that names a config, has no identifier of version 1.3 and is resolved is answered by
  -- that config, with the dataset that it asks for or else the default dataset of the config.
  pub resolve_ns-named :
      (p : ResolveNsParams) (s t : Process X) (r : ResolveNsResponse X)
      → p.config_name ≢ ""
      → p.is_v13_compatible ≡ false
      → resolve_ns X p s ≡ (ok r, t)
      → (r.config_name ≡ p.config_name)
        × (r.dataset_path ≡ dataset_or_default p.dataset_path (ns_data_at p.config_name s.config))
  unfolding resolve_ns_no_zone resolve_ns_with_zone resolve_named
  resolve_ns-named p s t r named modern h =
      let cfg = ns_data_at p.config_name s.config in
      let resolver = get_or (lookup p.config_name s.controller_resolvers) X.zero_resolver in
      ground (
        arith,
        resolve_ns-ok p s t r h,
        eq_iff p.config_name "",
        resolve_on-ok resolver (dataset_or_default p.dataset_path cfg) p.config_name s t r,
      )

  -- A request that names no config and asks for a zone that no config of the controller's map has
  -- ends in a panic: the error that is read after the loop is nil.
  pub resolve_ns-unknown_zone :
      (p : ResolveNsParams) (s : Process X)
      → p.zone ≢ ""
      → p.config_name ≡ ""
      → All (λ e. (ns_data_at e.0 s.config).zone ≢ p.zone) s.controller_resolvers
      → resolve_ns X p s ≡ (panic, s)
  unfolding resolve_ns resolve_ns_with_zone
  resolve_ns-unknown_zone p s zoned unnamed others = ground (
    arith,
    eq_iff p.zone "",
    eq_iff p.config_name "",
    zone_from-other p s.controller_resolvers s others,
  )
