-- ===== src/Common/Maps.antt =====
-- Go's maps with text keys, as association lists. `range` visits a map in an order that Go leaves
-- open: the list's order stands for it, and what is proved holds for every list.
use Prim.Native.String.{String}
use mathlib.Core.Path.{◌≡◌, refl}
use mathlib.Core.Option.{Option, none, some}
use mathlib.Core.List.{List, [], ◌∷◌}
use native.Mathlib.Omega.{arith}
use text.Mathlib.Text.{◌==◌}
use text.Mathlib.TextEquality.{eq_iff}
use package.nexentastor_csi_driver.Common.Flow.{if◌then◌else◌}

abbrev pub Dict {ℓ} : Type ℓ → Type ℓ
Dict V = List (String × V)

module _ {ℓ} {Value : Type ℓ} where
  unfoldable pub lookup : String → Dict Value → Option Value
  lookup key [] = none
  lookup key (entry ∷ rest) =
      let later = lookup key rest in if entry.0 == key then some entry.1 else later

  -- `m[key] = value`.
  unfoldable pub insert : String → Value → Dict Value → Dict Value
  insert key value [] = (key, value) ∷ []
  insert key value (entry ∷ rest) =
      let later = insert key value rest in
      if entry.0 == key then (key, value) ∷ rest else entry ∷ later

  -- A map holds what was put into it last, and at other keys what it held before.
  pub lookup-insert :
      (key other : String) (value : Value) (dict : Dict Value)
      → lookup other (insert key value dict)
        ≡ (if key == other then some value else lookup other dict)
  unfolding insert lookup
  lookup-insert key other value [] = refl
  lookup-insert key other value (entry ∷ rest) =
      let later = lookup-insert key other value rest in
      ground (arith, later, eq_iff entry.0 key, eq_iff entry.0 other, eq_iff key other)
