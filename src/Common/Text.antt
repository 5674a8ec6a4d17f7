-- ===== src/Common/Text.antt =====
-- Go's `strings` functions that the driver calls, over the native text. Every separator that the
-- driver splits by is one ASCII character, so code points and bytes split alike.
use Prim.Native.Nat.{ℕ}
use Prim.Native.Char.{Char, code}
use Prim.Native.String
use Prim.Native.String.{String}
use mathlib.Core.Path.{◌≡◌, refl, ap, ap₂, ◌∙◌}
use mathlib.Core.Logic.{◌≢◌, inl, inr}
use mathlib.Core.Bool.{Bool, true, false, ◌&&◌, ◌||◌}
use mathlib.Core.List.{List, [], ◌∷◌}
use native.Mathlib.Omega.{arith}
use text.Mathlib.TextLemmas as Lemmas
use text.Mathlib.TextEquality.{Char-path}
use package.nexentastor_csi_driver.Common.Flow.{if◌then◌else◌, nat_eq, leb, Bool-cases}

infixr 65 ◌<>◌
abbrev pub ◌<>◌ : String → String → String
s <> t = String.◌++◌ s t

infixr 67 ◌∷ᶜ◌
abbrev pub ◌∷ᶜ◌ : Char → String → String
c ∷ᶜ s = String.◌∷◌ c s

-- Puts a character before the first part of a split.
abbrev cons_first : Char → List String → List String
cons_first c [] = (c ∷ᶜ "") ∷ []
cons_first c (p ∷ ps) = (c ∷ᶜ p) ∷ ps

-- `strings.Split(s, sep)` for a separator of one character.
unfoldable pub split : Char → String → List String
split sep String.[] = "" ∷ []
split sep (String.◌∷◌ c s) =
    let rest = split sep s in if nat_eq (code c) (code sep) then "" ∷ rest else cons_first c rest

-- `strings.Join(parts, sep)`.
unfoldable pub join : String → List String → String
join sep [] = ""
join sep (p ∷ []) = p
join sep (p ∷ q ∷ ps) = p <> sep <> join sep (q ∷ ps)

-- `strings.HasPrefix(s, t)`.
unfoldable pub has_prefix : String → String → Bool
has_prefix s String.[] = true
has_prefix String.[] (String.◌∷◌ d t) = false
has_prefix (String.◌∷◌ c s) (String.◌∷◌ d t) = nat_eq (code c) (code d) && has_prefix s t

-- `strings.Contains(s, t)`.
unfoldable pub contains : String → String → Bool
unfolding has_prefix
contains String.[] t = has_prefix "" t
contains (String.◌∷◌ c s) t = has_prefix (c ∷ᶜ s) t || contains s t

-- `unicode.IsSpace`, the White_Space property.
unfoldable pub is_space : ℕ → Bool
is_space c =
    (leb 0x09 c && leb c 0x0d)
    || nat_eq c 0x20
    || nat_eq c 0x85
    || nat_eq c 0xa0
    || nat_eq c 0x1680
    || (leb 0x2000 c && leb c 0x200a)
    || nat_eq c 0x2028
    || nat_eq c 0x2029
    || nat_eq c 0x202f
    || nat_eq c 0x205f
    || nat_eq c 0x3000

abbrev pub is_empty : String → Bool
is_empty String.[] = true
is_empty (String.◌∷◌ c s) = false

trim_left : String → String
trim_left String.[] = ""
trim_left (String.◌∷◌ c s) = let rest = trim_left s in if is_space (code c) then rest else (c ∷ᶜ s)

trim_right : String → String
trim_right String.[] = ""
trim_right (String.◌∷◌ c s) =
    let rest = trim_right s in if is_space (code c) && is_empty rest then "" else (c ∷ᶜ rest)

-- `strings.TrimSpace`.
unfoldable pub trim_space : String → String
unfolding trim_left trim_right is_space
trim_space s = trim_right (trim_left s)

-- The character does not occur in the text.
abbrev pub Lacks : Char → String → Type 0
Lacks sep String.[] = Unit
Lacks sep (String.◌∷◌ c s) = (code c ≢ code sep) × Lacks sep s

pub split_of_Lacks : (sep : Char) (s : String) → Lacks sep s → split sep s ≡ s ∷ []
unfolding split
split_of_Lacks sep String.[] h = refl
split_of_Lacks sep (String.◌∷◌ c s) (p, h) = rw (split_of_Lacks sep s h) (ground arith)

pub nil-append : (s : String) → "" <> s ≡ s
nil-append s = Lemmas.nil-append s

pub cons-append : (c : Char) (s t : String) → (c ∷ᶜ s) <> t ≡ c ∷ᶜ (s <> t)
cons-append c s t = Lemmas.cons-append c s t

-- The first separator ends the first part.
pub split-append :
    (sep : Char) (s t : String) → Lacks sep s → split sep (s <> (sep ∷ᶜ "") <> t) ≡ s ∷ split sep t
unfolding split
split-append sep String.[] t h = rw (nil-append, cons-append, nil-append) (ground arith)
split-append sep (String.◌∷◌ c s) t (p, h) =
    rw (cons-append c s (sep ∷ᶜ "" <> t)) (rw (split-append sep s t h) (ground arith))

join-cons_first :
    (sep : String) (c : Char) (ps : List String) → join sep (cons_first c ps) ≡ c ∷ᶜ join sep ps
unfolding join
join-cons_first sep c [] = refl
join-cons_first sep c (p ∷ []) = refl
join-cons_first sep c (p ∷ q ∷ ps) = cons-append c p _

-- A split has a first part.
split-cons : (sep : Char) (s : String) → (p : String) × (ps : List String) × (split sep s ≡ p ∷ ps)
unfolding split
split-cons sep String.[] = ("", [], refl)
split-cons sep (String.◌∷◌ c s) = elim (Bool-cases (nat_eq (code c) (code sep))) [
  | inl same ↦ ("", split sep s, rw same)
  | inr other ↦ let (p, ps, e) = split-cons sep s in (c ∷ᶜ p, ps, rw (other, e))
]

join-nil-cons :
    (sep : Char) (s : String)
    → join (sep ∷ᶜ "") ("" ∷ split sep s) ≡ sep ∷ᶜ join (sep ∷ᶜ "") (split sep s)
unfolding join
join-nil-cons sep s =
    let (p, ps, e) = split-cons sep s in rw e (nil-append _ ∙ cons-append sep "" _ ∙ rw nil-append)

-- Joining what was split gives the text back.
pub join-split : (sep : Char) (s : String) → join (sep ∷ᶜ "") (split sep s) ≡ s
unfolding split
join-split sep String.[] = unfold join in refl
join-split sep (String.◌∷◌ c s) = elim (Bool-cases (nat_eq (code c) (code sep))) [
  | inl same ↦ rw same (
      join-nil-cons sep s ∙ ap₂ (λ d t. d ∷ᶜ t) (Char-path sep c (ground arith)) (join-split sep s))
  | inr other ↦ rw other (join-cons_first _ c _ ∙ ap (λ t. c ∷ᶜ t) (join-split sep s))
]

-- A text that is put in front does not hide a part.
pub contains-append : (s t part : String) → contains t part ≡ true → contains (s <> t) part ≡ true
unfolding contains
contains-append String.[] t part h = rw nil-append h
contains-append (String.◌∷◌ c s) t part h =
    rw (cons-append c s t) (ground (arith, contains-append s t part h))
