-- ===== src/Config/Refresh/Effects.antt =====
-- What a refresh of the config (`Refresh` of pkg/config/config.go) leaves behind, errors included.
use nexentastor_csi_driver.Common.{
  Bool-cases, Option-cases, All, ℕ, String, ◌≡◌, sym, ap, ◌∙◌, subst, ◌≢◌, inl, inr, Bool, true,
  false, arith, eq_iff,
}
use nexentastor_csi_driver.Errors.{Outcome, ok, value}
use nexentastor_csi_driver.External.{External}
use nexentastor_csi_driver.Process.Runs.{Reply-cases, bind-eq-ok}
use nexentastor_csi_driver.Process.{Process}
use nexentastor_csi_driver.Process.Frames.{servers}
use nexentastor_csi_driver.Process.Survival.{Survives}
use nexentastor_csi_driver.Config.Validate.Accepts.{IsUsable, validate-none}
use nexentastor_csi_driver.Config.Validate.{validate}
use nexentastor_csi_driver.Config.Refresh.{
  is_changed, validate_config, reload, refresh, load_content, parse_content,
}

module _ (X : External) where
  -- A config that has not changed is left as it is: the file is looked at, and nothing else is done.
  pub refresh-unchanged :
      (secret : String) (s : Process X) (t : ℕ) (w : X.World)
      → s.config.file_path ≢ ""
      → X.stat_mod_time s.config.file_path s.world ≡ (value t, w)
      → is_changed secret t s.config ≡ false
      → refresh X secret s ≡ (ok false, record s { world = w })
  unfolding refresh
  refresh-unchanged secret s t w named found same = ground (arith, eq_iff s.config.file_path "")

  refresh-changed :
      (secret : String) (s : Process X) (t : ℕ) (w : X.World)
      → s.config.file_path ≢ ""
      → X.stat_mod_time s.config.file_path s.world ≡ (value t, w)
      → is_changed secret t s.config ≡ true
      → refresh X secret s ≡ reload X secret t (record s { world = w })
  unfolding refresh
  refresh-changed secret s t w named found changed = ground (arith, eq_iff s.config.file_path "")

  -- Whatever comes of reading the file, the config then counts as read at that time.
  reload-file :
      (t : ℕ) (s : Process X)
      → let c = (reload X "" t s).1.config in
        (c.last_mod_time ≡ t) × (c.temporary ≡ false) × (c.file_path ≡ s.config.file_path)
  unfolding reload validate_config
  reload-file t s = ground arith

  -- The config after a refresh from the file: read at the time of the file.
  pub settled :
      (s s' : Process X) (r : Outcome X.Fault Bool) (t : ℕ) (w : X.World)
      → s.config.file_path ≢ ""
      → X.stat_mod_time s.config.file_path s.world ≡ (value t, w)
      → refresh X "" s ≡ (r, s')
      → (s'.config.last_mod_time ≡ t)
        × (s'.config.temporary ≡ false)
        × (s'.config.file_path ≡ s.config.file_path)
  settled s s' r t w named found first = elim (Bool-cases (is_changed "" t s.config)) [
    | inl changed ↦
        let read = sym (refresh-changed "" s t w named found changed) ∙ first in
        subst
          (λ (u : Process X).
            (u.config.last_mod_time ≡ t)
            × (u.config.temporary ≡ false)
            × (u.config.file_path ≡ s.config.file_path))
          (ap (λ o. o.1) read) (reload-file t (record s { world = w }))
    | inr same ↦
        subst
          (λ (u : Process X).
            (u.config.last_mod_time ≡ t)
            × (u.config.temporary ≡ false)
            × (u.config.file_path ≡ s.config.file_path))
          (ap (λ o. o.1) (sym (refresh-unchanged "" s t w named found same) ∙ first)) (ground arith)
  ]

  reload-secret :
      (secret : String) (t : ℕ) (s : Process X)
      → secret ≢ ""
      → (reload X secret t s).1.config.temporary ≡ true
  unfolding reload validate_config
  reload-secret secret t s given = ground (arith, eq_iff secret "")

  pub refresh_settles :
      (s s' : Process X) (r : Outcome X.Fault Bool) (t : ℕ) (w w' : X.World)
      → s.config.file_path ≢ ""
      → X.stat_mod_time s.config.file_path s.world ≡ (value t, w)
      → refresh X "" s ≡ (r, s')
      → X.stat_mod_time s.config.file_path s'.world ≡ (value t, w')
      → refresh X "" s' ≡ (ok false, record s' { world = w' })
  refresh_settles s s' r t w w' named found first again =
      let (time, fixed, path) = settled s s' r t w named found first in
      refresh-unchanged "" s' t w' (λ p. named (sym path ∙ p)) (rw path again)
        (rw fixed (ground arith))

  -- After a refresh with a secret, of a config whose file can be looked at, the next refresh without
  -- one takes the config as changed, whatever the time of the file.
  is_changed-secret :
      (secret : String) (s : Process X) (t t' : ℕ) (w : X.World)
      → secret ≢ ""
      → s.config.file_path ≢ ""
      → X.stat_mod_time s.config.file_path s.world ≡ (value t, w)
      → is_changed "" t' (refresh X secret s).1.config ≡ true
  is_changed-secret secret s t t' w given named found =
      let changed : is_changed secret t s.config ≡ true = ground (arith, eq_iff secret "") in
      rw (refresh-changed secret s t w named found changed)
        (ground (arith, reload-secret secret t (record s { world = w }) given))

  validate_config-IsUsable :
      (s s' : Process X) (u : Unit {0})
      → validate_config X s ≡ (ok u, s')
      → All (λ e. IsUsable e.1) s'.config.ns_map
  unfolding validate_config
  validate_config-IsUsable s s' u h = elim (Option-cases (validate s.config.ns_map).1) [
    | inl fine ↦
        let same : s'.config.ns_map ≡ (validate s.config.ns_map).0 = ground arith in
        rw same (validate-none s.config.ns_map fine).1
    | inr (message, e) ↦ absurd (ground arith)
  ]

  reload-IsUsable :
      (secret : String) (t : ℕ) (s : Process X) (b : Bool) (s' : Process X)
      → reload X secret t s ≡ (ok b, s')
      → All (λ e. IsUsable e.1) s'.config.ns_map
  unfolding reload
  reload-IsUsable secret t s b s' h =
      let (text, s₁, loaded, h₁) = bind-eq-ok (load_content X secret t) _ s h in
      let (u₂, s₂, parsed_it, h₂) = bind-eq-ok (parse_content X text) _ s₁ h₁ in
      let (u₃, s₃, checked, h₃) = bind-eq-ok (validate_config X) _ s₂ h₂ in
      rw (sym (ap (λ r. r.1) h₃)) (validate_config-IsUsable s₂ s₃ u₃ checked)

  refresh-named :
      (secret : String) (s s' : Process X) (b : Bool)
      → refresh X secret s ≡ (ok b, s')
      → s.config.file_path ≢ ""
  unfolding refresh
  refresh-named secret s s' b h = ground (arith, eq_iff s.config.file_path "")

  refresh-stat :
      (secret : String) (s s' : Process X) (b : Bool)
      → refresh X secret s ≡ (ok b, s')
      → (t : ℕ) × (w : X.World) × (X.stat_mod_time s.config.file_path s.world ≡ (value t, w))
  unfolding refresh
  refresh-stat secret s s' b h =
      let info = X.stat_mod_time s.config.file_path s.world in
      elim (Reply-cases info.0) [
        | inl (t, e) ↦ (t, info.1, ap (λ r. (r, info.1)) e)
        | inr (f, e) ↦ absurd (ground (arith, eq_iff s.config.file_path ""))
      ]

  -- After a refresh that changed the config without an error, every entry is usable.
  pub refresh-IsUsable :
      (secret : String) (s s' : Process X)
      → refresh X secret s ≡ (ok true, s')
      → All (λ e. IsUsable e.1) s'.config.ns_map
  refresh-IsUsable secret s s' h =
      let named = refresh-named secret s s' true h in
      let (t, w, found) = refresh-stat secret s s' true h in
      elim (Bool-cases (is_changed secret t s.config)) [
        | inl changed ↦
            reload-IsUsable secret t (record s { world = w }) true s'
              (sym (refresh-changed secret s t w named found changed) ∙ h)
        | inr same ↦ cc (refresh-unchanged secret s t w named found same)
      ]

  reload-true :
      (secret : String) (t : ℕ) (s : Process X) (b : Bool) (s' : Process X)
      → reload X secret t s ≡ (ok b, s')
      → b ≡ true
  unfolding reload
  reload-true secret t s b s' h =
      let (text, s₁, loaded, h₁) = bind-eq-ok (load_content X secret t) _ s h in
      let (u₂, s₂, parsed_it, h₂) = bind-eq-ok (parse_content X text) _ s₁ h₁ in
      let (u₃, s₃, checked, h₃) = bind-eq-ok (validate_config X) _ s₂ h₂ in cc

  -- A refresh that reports no change leaves all that the servers hold as it was.
  pub refresh-false :
      (secret : String) (s s' : Process X)
      → refresh X secret s ≡ (ok false, s')
      → servers s' ≡ servers s
  refresh-false secret s s' h =
      let named = refresh-named secret s s' false h in
      let (t, w, found) = refresh-stat secret s s' false h in
      elim (Bool-cases (is_changed secret t s.config)) [
        | inl changed ↦ absurd (
            ground (
              arith,
              reload-true secret t (record s { world = w }) false s'
                  (sym (refresh-changed secret s t w named found changed) ∙ h),
            ))
        | inr same ↦ ap (λ o. servers o.1) (sym h ∙ refresh-unchanged secret s t w named found same)
      ]

  -- A refresh ends with a value or an error, whatever the file holds.
  pub refresh-Survives : (secret : String) (s : Process X) → Survives (refresh X secret) s
  unfolding refresh reload load_content parse_content validate_config
  refresh-Survives secret s = ground arith
