-- ===== src/Process/Frames.antt =====
-- Programs that change nothing of the process but the world, with a rule for each sequence.
use nexentastor_csi_driver.Common.{
  if◌then◌else◌, Dict, ◌≡◌, ◌∙◌, sym, ap, Bool, true, false, Option, none, some, refl,
}
use nexentastor_csi_driver.Errors.{Error, Outcome, ok, err, panic, Reply, value, failure}
use nexentastor_csi_driver.External.{External}
use nexentastor_csi_driver.Config.Data.{Config}
use nexentastor_csi_driver.Process.{
  Process, Exec, after, ◌>>=◌, or_else, catch, either, handle, deref, fail_with, value_or,
}

-- What the servers of the process hold.
abbrev pub servers :
    {X : External} → Process X → Config × Dict X.Resolver × Dict (Option X.Resolver)
servers s = (s.config, s.controller_resolvers, s.node_resolvers)

-- However the program ends, the servers hold what they held.
abbrev pub KeepsServers : {X : External} {A : Type 0} → Exec X A → Type 0
KeepsServers {X} m = (s : Process X) → servers (m s).1 ≡ servers s

-- The program has given a value, not an error or a panic.
abbrev pub IsValue : {F A : Type 0} → Outcome F A → Type 0
IsValue (ok a) = Unit {0}
IsValue _ = ⊥

module _ {X : External} {A B : Type 0} where
  after-servers :
      (s : Process X) (r : Outcome X.Fault A × Process X) (f : A → Exec X B)
      → servers r.1 ≡ servers s
      → ((a : A) → KeepsServers (f a))
      → servers (after r f).1 ≡ servers s
  after-servers s (ok a, t) f e k = k a t ∙ e
  after-servers s (err x, t) f e k = e
  after-servers s (panic, t) f e k = e

  pub bind-KeepsServers :
      (m : Exec X A) (f : A → Exec X B)
      → KeepsServers m
      → ((a : A) → KeepsServers (f a))
      → KeepsServers (m >>= f)
  bind-KeepsServers m f km kf s = after-servers s (m s) f (km s) kf

  either-servers :
      (s : Process X) (r : Outcome X.Fault A × Process X) (h : Error X.Fault → Exec X B)
      (f : A → Exec X B)
      → servers r.1 ≡ servers s
      → ((e : Error X.Fault) → KeepsServers (h e))
      → ((a : A) → KeepsServers (f a))
      → servers (either r h f).1 ≡ servers s
  either-servers s (ok a, t) h f e kh kf = kf a t ∙ e
  either-servers s (err x, t) h f e kh kf = kh x t ∙ e
  either-servers s (panic, t) h f e kh kf = e

  pub handle-KeepsServers :
      (m : Exec X A) (h : Error X.Fault → Exec X B) (f : A → Exec X B)
      → KeepsServers m
      → ((e : Error X.Fault) → KeepsServers (h e))
      → ((a : A) → KeepsServers (f a))
      → KeepsServers (handle m h f)
  handle-KeepsServers m h f km kh kf s = either-servers s (m s) h f (km s) kh kf

module _ {X : External} {A : Type 0} where
  or_else-servers :
      (s : Process X) (r : Outcome X.Fault A × Process X) (h : Error X.Fault → Exec X A)
      → servers r.1 ≡ servers s
      → ((e : Error X.Fault) → KeepsServers (h e))
      → servers (or_else r h).1 ≡ servers s
  or_else-servers s (ok a, t) h e k = e
  or_else-servers s (err x, t) h e k = k x t ∙ e
  or_else-servers s (panic, t) h e k = e

  pub catch-KeepsServers :
      (m : Exec X A) (h : Error X.Fault → Exec X A)
      → KeepsServers m
      → ((e : Error X.Fault) → KeepsServers (h e))
      → KeepsServers (catch m h)
  catch-KeepsServers m h km kh s = or_else-servers s (m s) h (km s) kh

  pub if-KeepsServers :
      (b : Bool) (m n : Exec X A)
      → KeepsServers m
      → KeepsServers n
      → KeepsServers (if b then m else n)
  if-KeepsServers true m n km kn = km
  if-KeepsServers false m n km kn = kn

  pub value_or-KeepsServers :
      (r : Reply X.Fault A) (g : X.Fault → Error X.Fault) → KeepsServers (value_or {X = X} r g)
  value_or-KeepsServers (value a) g s = refl
  value_or-KeepsServers (failure f) g s = refl

  pub deref-KeepsServers : (o : Option A) → KeepsServers {X = X} (deref o)
  deref-KeepsServers none s = refl
  deref-KeepsServers (some a) s = refl

module _ {X : External} where
  pub fail_with-KeepsServers :
      (o : Option X.Fault) (g : X.Fault → Error X.Fault) → KeepsServers (fail_with {X = X} o g)
  fail_with-KeepsServers none g s = refl
  fail_with-KeepsServers (some f) g s = refl

  -- The config behind such a run.
  pub kept_config :
      {A : Type 0} (m : Exec X A) (s t : Process X) (o : Outcome X.Fault A)
      → KeepsServers m
      → m s ≡ (o, t)
      → t.config ≡ s.config
  kept_config m s t o k h = ap (λ r. r.1.config) (sym h) ∙ ap (λ p. p.0) (k s)
