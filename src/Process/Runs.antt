-- ===== src/Process/Runs.antt =====
-- Taking a run apart that ended with a value.
use nexentastor_csi_driver.Common.{◌≡◌, refl, ◌⊎◌, inl, inr}
use nexentastor_csi_driver.Errors.{Error, Outcome, ok, err, panic, Reply, value, failure}
use nexentastor_csi_driver.External.{External}
use nexentastor_csi_driver.Process.{Process, Exec, ◌>>=◌, catch, after, or_else, either, handle}

pub Reply-cases :
    {F A : Type 0} (r : Reply F A) → ((a : A) × (r ≡ value a)) ⊎ ((f : F) × (r ≡ failure f))
Reply-cases (value a) = inl (a, refl)
Reply-cases (failure f) = inr (f, refl)

module _ {X : External} {A B : Type 0} where
  after-eq-ok :
      (r : Outcome X.Fault A × Process X) (f : A → Exec X B) {b : B} {u : Process X}
      → after r f ≡ (ok b, u)
      → (a : A) × (t : Process X) × (r ≡ (ok a, t)) × (f a t ≡ (ok b, u))
  after-eq-ok (ok a, t) f h = (a, t, refl, h)
  after-eq-ok (err e, t) f h = cc
  after-eq-ok (panic, t) f h = cc

  -- Where a sequence ends with a value, so does its first part.
  pub bind-eq-ok :
      (m : Exec X A) (f : A → Exec X B) (s : Process X) {b : B} {u : Process X}
      → (m >>= f) s ≡ (ok b, u)
      → (a : A) × (t : Process X) × (m s ≡ (ok a, t)) × (f a t ≡ (ok b, u))
  bind-eq-ok m f s h = after-eq-ok (m s) f h

  handle-eq-ok_from :
      (r : Outcome X.Fault A × Process X) (h : Error X.Fault → Exec X B) (f : A → Exec X B) {b : B}
      {u : Process X}
      → either r h f ≡ (ok b, u)
      → ((a : A) × (t : Process X) × (r ≡ (ok a, t)) × (f a t ≡ (ok b, u)))
        ⊎ ((e : Error X.Fault) × (t : Process X) × (r ≡ (err e, t)) × (h e t ≡ (ok b, u)))
  handle-eq-ok_from (ok a, t) h f e = inl (a, t, refl, e)
  handle-eq-ok_from (err x, t) h f e = inr (x, t, refl, e)
  handle-eq-ok_from (panic, t) h f e = cc

  -- A value behind `handle` is that of what follows the value, or that of the handler of the error.
  pub handle-eq-ok :
      (m : Exec X A) (h : Error X.Fault → Exec X B) (f : A → Exec X B) (s : Process X) {b : B}
      {u : Process X}
      → handle m h f s ≡ (ok b, u)
      → ((a : A) × (t : Process X) × (m s ≡ (ok a, t)) × (f a t ≡ (ok b, u)))
        ⊎ ((e : Error X.Fault) × (t : Process X) × (m s ≡ (err e, t)) × (h e t ≡ (ok b, u)))
  handle-eq-ok m h f s e = handle-eq-ok_from (m s) h f e

module _ {X : External} {A : Type 0} where
  catch-eq-ok_from :
      (r : Outcome X.Fault A × Process X) (h : Error X.Fault → Exec X A) {a : A} {u : Process X}
      → or_else r h ≡ (ok a, u)
      → (r ≡ (ok a, u))
        ⊎ ((e : Error X.Fault) × (t : Process X) × (r ≡ (err e, t)) × (h e t ≡ (ok a, u)))
  catch-eq-ok_from (ok b, t) h e = inl e
  catch-eq-ok_from (err f, t) h e = inr (f, t, refl, e)
  catch-eq-ok_from (panic, t) h e = cc

  -- A value behind `catch` is that of the call, or that of the handler of its error.
  pub catch-eq-ok :
      (m : Exec X A) (h : Error X.Fault → Exec X A) (s : Process X) {a : A} {u : Process X}
      → catch m h s ≡ (ok a, u)
      → (m s ≡ (ok a, u))
        ⊎ ((e : Error X.Fault) × (t : Process X) × (m s ≡ (err e, t)) × (h e t ≡ (ok a, u)))
  catch-eq-ok m h s e = catch-eq-ok_from (m s) h e

  pub err-ne-ok :
      (e : Error X.Fault) (s : Process X) {a : A} {u : Process X}
      → ◌≡◌ {A = Outcome X.Fault A × Process X} (err e, s) (ok a, u)
      → ⊥
  err-ne-ok e s h = cc

  pub panic-ne-ok :
      (s : Process X) {a : A} {u : Process X}
      → ◌≡◌ {A = Outcome X.Fault A × Process X} (panic, s) (ok a, u)
      → ⊥
  panic-ne-ok s h = cc
