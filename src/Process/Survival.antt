-- ===== src/Process/Survival.antt =====
-- Programs that do not panic, with a rule for each sequence.
use nexentastor_csi_driver.Common.{◌≡◌, refl, ◌≢◌, Option, none, some}
use nexentastor_csi_driver.Errors.{Error, Outcome, ok, err, panic}
use nexentastor_csi_driver.External.{External}
use nexentastor_csi_driver.Process.{
  Process, Exec, after, ◌>>=◌, or_else, catch, either, handle, fail_with, deref,
}

-- Run on this process, the program ends with a value or an error.
abbrev pub Survives : {X : External} {A : Type 0} → Exec X A → Process X → Type 0
Survives m s = (m s).0 ≢ panic

module _ {X : External} {A B : Type 0} where
  after-Survives :
      (r : Outcome X.Fault A × Process X) (f : A → Exec X B)
      → r.0 ≢ panic
      → ((a : A) (t : Process X) → r ≡ (ok a, t) → Survives (f a) t)
      → (after r f).0 ≢ panic
  after-Survives (ok a, t) f h k = k a t refl
  after-Survives (err e, t) f h k = λ p. cc
  after-Survives (panic, t) f h k = absurd (h refl)

  pub bind-Survives :
      (m : Exec X A) (f : A → Exec X B) (s : Process X)
      → Survives m s
      → ((a : A) (t : Process X) → m s ≡ (ok a, t) → Survives (f a) t)
      → Survives (m >>= f) s
  bind-Survives m f s h k = after-Survives (m s) f h k

  either-Survives :
      (r : Outcome X.Fault A × Process X) (h : Error X.Fault → Exec X B) (f : A → Exec X B)
      → r.0 ≢ panic
      → ((e : Error X.Fault) (t : Process X) → Survives (h e) t)
      → ((a : A) (t : Process X) → r ≡ (ok a, t) → Survives (f a) t)
      → (either r h f).0 ≢ panic
  either-Survives (ok a, t) h f c kh kf = kf a t refl
  either-Survives (err e, t) h f c kh kf = kh e t
  either-Survives (panic, t) h f c kh kf = absurd (c refl)

  pub handle-Survives :
      (m : Exec X A) (h : Error X.Fault → Exec X B) (f : A → Exec X B) (s : Process X)
      → Survives m s
      → ((e : Error X.Fault) (t : Process X) → Survives (h e) t)
      → ((a : A) (t : Process X) → m s ≡ (ok a, t) → Survives (f a) t)
      → Survives (handle m h f) s
  handle-Survives m h f s c kh kf = either-Survives (m s) h f c kh kf

module _ {X : External} {A : Type 0} where
  or_else-Survives :
      (r : Outcome X.Fault A × Process X) (h : Error X.Fault → Exec X A)
      → r.0 ≢ panic
      → ((e : Error X.Fault) (t : Process X) → Survives (h e) t)
      → (or_else r h).0 ≢ panic
  or_else-Survives (ok a, t) h c k = λ p. cc
  or_else-Survives (err e, t) h c k = k e t
  or_else-Survives (panic, t) h c k = c

  pub catch-Survives :
      (m : Exec X A) (h : Error X.Fault → Exec X A) (s : Process X)
      → Survives m s
      → ((e : Error X.Fault) (t : Process X) → Survives (h e) t)
      → Survives (catch m h) s
  catch-Survives m h s c k = or_else-Survives (m s) h c k

  pub deref-Survives : (o : Option A) (s : Process X) → o ≢ none → Survives (deref o) s
  deref-Survives none s h e = h refl
  deref-Survives (some a) s h e = cc

  -- A failed call ends the program, so what follows it may take the error as nil.
  pub unless_failed-Survives :
      (o : Option X.Fault) (g : X.Fault → Error X.Fault) (m : Exec X A) (s : Process X)
      → (o ≡ none → Survives m s)
      → Survives (fail_with o g >>= λ _. m) s
  unless_failed-Survives none g m s k = k refl
  unless_failed-Survives (some f) g m s k = λ p. cc
