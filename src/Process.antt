-- ===== src/Process.antt =====
-- The state of one driver process and the programs over it. The identity, controller and node
-- servers share one `*config.Config`; the controller and the node server each keep their own map of
-- resolvers (pkg/driver/controllerServer.go and nodeServer.go). Log lines are not modelled.
pub mod Runs
pub mod Frames
pub mod Survival
pub mod Refreshed
use nexentastor_csi_driver.Common.{Dict, code, String, Bool, true, false, Option, none, some}
use nexentastor_csi_driver.Errors.{
  Code, not_found, Error, status, foreign, Outcome, ok, err, panic, Reply, value, failure,
}
use nexentastor_csi_driver.Config.Data.{Config}
use nexentastor_csi_driver.External.{External}

pub record Process (X : External) : Type 0 where
  pub config : Config
  pub controller_resolvers : Dict X.Resolver
  pub node_resolvers : Dict (Option X.Resolver)
  pub world : X.World

abbrev pub Exec : External → Type 0 → Type 0
Exec X A = Process X → Outcome X.Fault A × Process X

-- What follows a call: only a value goes on.
abbrev pub after :
    {X : External} {A B : Type 0}
    → Outcome X.Fault A × Process X
    → (A → Exec X B)
    → Outcome X.Fault B × Process X
after (ok a, t) f = f a t
after (err e, t) f = (err e, t)
after (panic, t) f = (panic, t)

infixl 5 ◌>>=◌ ◌>>◌
abbrev pub ◌>>=◌ : {X : External} {A B : Type 0} → Exec X A → (A → Exec X B) → Exec X B
◌>>=◌ m f s = after (m s) f

abbrev pub ◌>>◌ : {X : External} {B : Type 0} → Exec X (Unit {0}) → Exec X B → Exec X B
◌>>◌ m k = m >>= λ _. k

-- What follows a call whose error is looked at; a value and a panic go through.
abbrev pub or_else :
    {X : External} {A : Type 0}
    → Outcome X.Fault A × Process X
    → (Error X.Fault → Exec X A)
    → Outcome X.Fault A × Process X
or_else (ok a, t) h = (ok a, t)
or_else (err e, t) h = h e t
or_else (panic, t) h = (panic, t)

abbrev pub catch : {X : External} {A : Type 0} → Exec X A → (Error X.Fault → Exec X A) → Exec X A
catch m h s = or_else (m s) h

-- What follows a call whose value and whose error are both looked at.
abbrev pub either :
    {X : External} {A B : Type 0}
    → Outcome X.Fault A × Process X
    → (Error X.Fault → Exec X B)
    → (A → Exec X B)
    → Outcome X.Fault B × Process X
either (ok a, t) h f = f a t
either (err e, t) h f = h e t
either (panic, t) h f = (panic, t)

abbrev pub handle :
    {X : External} {A B : Type 0}
    → Exec X A
    → (Error X.Fault → Exec X B)
    → (A → Exec X B)
    → Exec X B
handle m h f s = either (m s) h f

module _ {X : External} {A : Type 0} where
  abbrev pub pure : A → Exec X A
  pure a s = (ok a, s)

  abbrev pub raise : Error X.Fault → Exec X A
  raise e s = (err e, s)

  -- `return nil, status.Error(code, message)`.
  abbrev pub raise_status : Code → String → Exec X A
  raise_status code message s = (err (status code message), s)

  -- A nil pointer is dereferenced.
  abbrev pub crash : Exec X A
  crash s = (panic, s)

  abbrev pub gets : (Process X → A) → Exec X A
  gets f s = (ok (f s), s)

  -- A call of a library.
  abbrev pub call : (X.World → A × X.World) → Exec X A
  call f s = let (a, w) = f s.world in (ok a, record s { world = w })

-- `if err != nil { return ... }` for the error of a library.
abbrev pub fail_with :
    {X : External} → Option X.Fault → (X.Fault → Error X.Fault) → Exec X (Unit {0})
fail_with none f = pure tt
fail_with (some e) f = raise (f e)

-- The text of a library's error, `%s`.
abbrev pub fault_text : (X : External) → X.Fault → String
fault_text X f = X.error_text (foreign f)

module _ {X : External} {A : Type 0} where
  -- The value of a reply, or the error made from its failure.
  abbrev pub value_or : Reply X.Fault A → (X.Fault → Error X.Fault) → Exec X A
  value_or (value a) f = pure a
  value_or (failure e) f = raise (f e)

  -- A method call on an interface value, which is nil for `none`.
  abbrev pub deref : Option A → Exec X A
  deref none = crash
  deref (some a) = pure a

abbrev pub is_not_found : Code → Bool
is_not_found not_found = true
is_not_found _ = false
