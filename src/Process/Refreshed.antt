-- ===== src/Process/Refreshed.antt =====
-- Handlers that run a refresh once and change nothing else of the process but the world.
use nexentastor_csi_driver.Common.{◌∙◌, if◌then◌else◌, ◌≡◌, refl, ◌⊎◌, inl, inr, Bool, true, false}
use nexentastor_csi_driver.Errors.{Error, Outcome, ok, err, panic}
use nexentastor_csi_driver.External.{External}
use nexentastor_csi_driver.Process.{Process, Exec, after, ◌>>=◌, or_else, catch, raise}
use nexentastor_csi_driver.Process.Frames.{servers, KeepsServers, IsValue}

-- What the servers hold behind the program is what they held before it, or what the refresh left
-- there; the refresh did not fail where the program ends with a value.
abbrev pub Refreshes : {X : External} {A : Type 0} → Exec X (Unit {0}) → Exec X A → Type 0
Refreshes {X} refresh m =
    (s : Process X)
    → (servers (m s).1 ≡ servers s)
      ⊎ ((servers (m s).1 ≡ servers (refresh s).1) × (IsValue (m s).0 → IsValue (refresh s).0))

module _ {X : External} {A : Type 0} where
  pub keeps-Refreshes :
      (refresh : Exec X (Unit {0})) (m : Exec X A) → KeepsServers m → Refreshes refresh m
  keeps-Refreshes refresh m k s = inl (k s)

  pub if-Refreshes :
      (refresh : Exec X (Unit {0})) (b : Bool) (m n : Exec X A)
      → Refreshes refresh m
      → Refreshes refresh n
      → Refreshes refresh (if b then m else n)
  if-Refreshes refresh true m n km kn = km
  if-Refreshes refresh false m n km kn = kn

module _ {X : External} {A B : Type 0} where
  refreshed_first :
      (r : Outcome X.Fault A × Process X) (g : Error X.Fault → Error X.Fault) (f : A → Exec X B)
      → ((a : A) → KeepsServers (f a))
      → (servers (after (or_else r (λ e. raise (g e))) f).1 ≡ servers r.1)
        × (IsValue (after (or_else r (λ e. raise (g e))) f).0 → IsValue r.0)
  refreshed_first (ok a, t) g f k = (k a t, λ v. tt)
  refreshed_first (err e, t) g f k = (refl, λ v. v)
  refreshed_first (panic, t) g f k = (refl, λ v. v)

module _ {X : External} {B : Type 0} where
  -- A handler begins with its refresh, whose error it answers by one of its own.
  pub refresh-Refreshes :
      (refresh : Exec X (Unit {0})) (g : Error X.Fault → Error X.Fault) (f : Unit {0} → Exec X B)
      → ((u : Unit {0}) → KeepsServers (f u))
      → Refreshes refresh (catch refresh (λ e. raise (g e)) >>= f)
  refresh-Refreshes refresh g f k s = inr (refreshed_first (refresh s) g f k)

module _ {X : External} {A B : Type 0} where
  after-IsValue :
      (r : Outcome X.Fault A × Process X) (f : A → Exec X B) → IsValue (after r f).0 → IsValue r.0
  after-IsValue (ok a, t) f v = tt
  after-IsValue (err e, t) f v = v
  after-IsValue (panic, t) f v = v

  after-kept :
      (r : Outcome X.Fault A × Process X) (f : A → Exec X B)
      → ((a : A) → KeepsServers (f a))
      → servers (after r f).1 ≡ servers r.1
  after-kept (ok a, t) f k = k a t
  after-kept (err e, t) f k = refl
  after-kept (panic, t) f k = refl

  pub bind-Refreshes :
      (refresh : Exec X (Unit {0})) (m : Exec X A) (f : A → Exec X B)
      → Refreshes refresh m
      → ((a : A) → KeepsServers (f a))
      → Refreshes refresh (m >>= f)
  bind-Refreshes refresh m f r k s = elim (r s) [
    | inl e ↦ inl (after-kept (m s) f k ∙ e)
    | inr (e, v) ↦ inr (after-kept (m s) f k ∙ e, λ w. v (after-IsValue (m s) f w))
  ]
