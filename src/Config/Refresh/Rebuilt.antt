-- ===== src/Config/Refresh/Rebuilt.antt =====
-- What the two `refreshConfig` of pkg/driver share: a loop over the entries of the config behind a
-- refresh that has changed it, here any loop that leaves the config alone and does good to a map.
use nexentastor_csi_driver.Common.{
  if◌then◌else◌, All, Dict, String, ◌≡◌, refl, sym, ap, ◌∙◌, subst, inl, inr, Bool, true, false,
  Option,
}
use nexentastor_csi_driver.Errors.{Outcome, ok, err, panic}
use nexentastor_csi_driver.External.{External}
use nexentastor_csi_driver.Process.{Process, Exec, ◌>>=◌, pure, gets}
use nexentastor_csi_driver.Process.Frames.{servers, IsValue}
use nexentastor_csi_driver.Process.Runs.{bind-eq-ok}
use nexentastor_csi_driver.Process.Refreshed.{Refreshes}
use nexentastor_csi_driver.Config.Data.{NsData, Config}
use nexentastor_csi_driver.Config.Validate.Accepts.{IsUsable}
use nexentastor_csi_driver.Config.Refresh.{refresh}
use nexentastor_csi_driver.Config.Refresh.Effects.{refresh-IsUsable, refresh-false}

-- What the servers of a process hold.
abbrev pub Held : External → Type 0
Held X = Config × Dict X.Resolver × Dict (Option X.Resolver)

module _ (X : External) (loop : Dict NsData → Exec X (Unit {0}))
    (Good : Dict NsData → Held X → Type 0)
    (law : (ns_map : Dict NsData) (s t : Process X) (u : Unit {0})
      → loop ns_map s ≡ (ok u, t)
      → (t.config ≡ s.config) × Good ns_map (servers t)) where
  -- Every entry of the config is usable, and the loop has been good to it.
  abbrev pub ReadyBy : Held X → Type 0
  ReadyBy v = All (λ e. IsUsable e.1) v.0.ns_map × Good v.0.ns_map v

  abbrev pub rebuild : String → Exec X (Unit {0})
  rebuild secret = do
    changed ← refresh X secret
    ns_map ← gets λ s. s.config.ns_map
    if changed then loop ns_map else pure tt

  rebuilt_to :
      (secret : String) (s t u : Process X) (b : Bool) (v : Unit {0})
      → refresh X secret s ≡ (ok b, u)
      → (let m : Exec X (Unit {0}) = if b then loop u.config.ns_map else pure tt in m) u ≡ (ok v, t)
      → ReadyBy (servers s)
      → ReadyBy (servers t)
  rebuilt_to secret s t u true v read h r =
      let (same, good) = law u.config.ns_map u t v h in
      subst (λ (c : Config). All (λ e. IsUsable e.1) c.ns_map × Good c.ns_map (servers t))
        (sym same) (refresh-IsUsable X secret s u read, good)
  rebuilt_to secret s t u false v read h r =
      subst ReadyBy (sym (refresh-false X secret s u read) ∙ ap (λ o. servers o.1) h) r

  rebuild-ReadyBy_from :
      (secret : String) (s : Process X) (o : Outcome X.Fault (Unit {0}) × Process X)
      → rebuild secret s ≡ o
      → IsValue o.0
      → ReadyBy (servers s)
      → ReadyBy (servers o.1)
  rebuild-ReadyBy_from secret s (ok v, t) h i r =
      let (b, u, read, later) = bind-eq-ok (refresh X secret) _ s h in
      rebuilt_to secret s t u b v read later r
  rebuild-ReadyBy_from secret s (err e, t) h i r = elim i [ ]
  rebuild-ReadyBy_from secret s (panic, t) h i r = elim i [ ]

  -- A handler that changes what the servers hold by such a refresh only, keeps them ready.
  pub handler-ReadyBy :
      {A : Type 0} (secret : String) (m : Exec X A)
      → Refreshes (rebuild secret) m
      → (s : Process X) → IsValue (rebuild secret s).0
      → ReadyBy (servers s)
      → ReadyBy (servers (m s).1)
  handler-ReadyBy secret m f s i r = elim (f s) [
    | inl same ↦ subst ReadyBy (sym same) r
    | inr (same, v) ↦
        subst ReadyBy (sym same) (rebuild-ReadyBy_from secret s (rebuild secret s) refl i r)
  ]
