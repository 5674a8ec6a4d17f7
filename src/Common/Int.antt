-- ===== src/Common/Int.antt =====
-- Go's signed integers, over the native numbers: sizes and counts that the driver compares and
-- passes on, and the parsing of `strconv`.
use Prim.Native.Nat.{ℕ, zero, suc, ◌+◌, ◌-◌, ◌*◌, ◌%◌, ◌^◌, ◌<◌}
use Prim.Native.Char.{code}
use Prim.Native.String.{String}
use mathlib.Core.Path.{◌≡◌, refl}
use mathlib.Core.Logic.{◌⊎◌, inl, inr}
use native.Mathlib.Omega.{arith}
use mathlib.Core.Bool.{Bool, true, false, ◌&&◌}
use package.nexentastor_csi_driver.Common.Flow.{if◌then◌else◌, nat_eq, leb, ltb}

-- `negsuc n` is -(n + 1).
pub data ℤ : Type 0 where
  pos : ℕ → ℤ
  negsuc : ℕ → ℤ

abbrev pub int_eq : ℤ → ℤ → Bool
int_eq (pos a) (pos b) = nat_eq a b
int_eq (negsuc a) (negsuc b) = nat_eq a b
int_eq _ _ = false

abbrev pub is_neg : ℤ → Bool
is_neg (pos n) = false
is_neg (negsuc n) = true

-- The conversion of a non-negative `int` to `int32`, which keeps the low 32 bits.
abbrev pub to_int32 : ℕ → ℤ
to_int32 n = let low = n % 2 ^ 32 in if ltb low (2 ^ 31) then pos low else negsuc (2 ^ 32 - 1 - low)

-- The two failures of `strconv`.
pub data NumFailure : Type 0 where
  syntax_failure range_failure : NumFailure

pub data Parsed : Type 0 where
  parsed : ℤ → Parsed
  refused : NumFailure → Parsed

-- The loop of `strconv.ParseUint`: it stops at the first character that is no digit of the base,
-- and as soon as the number passes the limit.
scan_digits : ℕ → ℕ → ℕ → String → Parsed
scan_digits limit base acc String.[] = parsed (pos acc)
scan_digits limit base acc (String.◌∷◌ c s) =
    let next : ℕ = acc * base + (code c - 48) in
    let rest = scan_digits limit base next s in
    if leb 48 (code c) && ltb (code c) (48 + base)
    then (if leb next limit then rest else refused range_failure)
    else refused syntax_failure

-- `strconv.ParseUint(s, base, bits)`.
parse_uint : String → ℕ → ℕ → Parsed
unfolding scan_digits
parse_uint String.[] base bits = refused syntax_failure
parse_uint (String.◌∷◌ c s) base bits = scan_digits (2 ^ bits - 1) base 0 (String.◌∷◌ c s)

-- A magnitude with its sign, held to the range of a signed integer of `bits` bits.
abbrev signed : ℕ → Bool → Parsed → Parsed
signed bits false (parsed (pos n)) =
    if ltb n (2 ^ (bits - 1)) then parsed (pos n) else refused range_failure
signed bits true (parsed (pos zero)) = parsed (pos 0)
signed bits true (parsed (pos (suc n))) =
    if ltb n (2 ^ (bits - 1)) then parsed (negsuc n) else refused range_failure
signed bits negative (parsed (negsuc n)) = refused range_failure
signed bits negative (refused e) = refused e

-- `strconv.ParseInt(s, base, bits)` for a base from two to ten.
unfoldable pub parse_int : String → ℕ → ℕ → Parsed
unfolding parse_uint
parse_int String.[] base bits = refused syntax_failure
parse_int (String.◌∷◌ c s) base bits =
    if nat_eq (code c) b'+'
    then signed bits false (parse_uint s base bits)
    else if nat_eq (code c) b'-'
    then signed bits true (parse_uint s base bits)
    else signed bits false (parse_uint (String.◌∷◌ c s) base bits)

-- `strconv.Atoi`, where `int` has 64 bits.
unfoldable pub atoi : String → Parsed
unfolding parse_int
atoi s = parse_int s 10 64

-- The integer is in the range of a signed integer of `bits` bits.
abbrev pub InRange : ℕ → ℤ → Type 0
InRange bits (pos n) = n < 2 ^ (bits - 1)
InRange bits (negsuc n) = n < 2 ^ (bits - 1)

signed-InRange :
    (bits : ℕ) (negative : Bool) (p : Parsed) (n : ℤ)
    → signed bits negative p ≡ parsed n
    → 0 < 2 ^ (bits - 1)
    → InRange bits n
signed-InRange bits false (parsed (pos m)) (pos n) e h = ground arith
signed-InRange bits false (parsed (pos m)) (negsuc n) e h = absurd (ground arith)
signed-InRange bits false (parsed (negsuc m)) n e h = cc
signed-InRange bits true (parsed (pos zero)) (pos n) e h = ground arith
signed-InRange bits true (parsed (pos zero)) (negsuc n) e h = cc
signed-InRange bits true (parsed (pos (suc m))) (pos n) e h = absurd (ground arith)
signed-InRange bits true (parsed (pos (suc m))) (negsuc n) e h = ground arith
signed-InRange bits true (parsed (negsuc m)) n e h = cc
signed-InRange bits false (refused r) n e h = cc
signed-InRange bits true (refused r) n e h = cc

-- What `strconv.ParseInt` accepts is in the range of its width.
pub parse_int-InRange :
    (s : String) (base bits : ℕ) (n : ℤ)
    → parse_int s base bits ≡ parsed n
    → 0 < 2 ^ (bits - 1)
    → InRange bits n
unfolding parse_int
parse_int-InRange String.[] base bits n e h = cc
parse_int-InRange (String.◌∷◌ c s) base bits n e h = ground (
  arith,
  signed-InRange bits false (parse_uint s base bits) n,
  signed-InRange bits true (parse_uint s base bits) n,
  signed-InRange bits false (parse_uint (String.◌∷◌ c s) base bits) n,
)

pub Parsed-cases : (p : Parsed) → ((n : ℤ) × (p ≡ parsed n)) ⊎ ((e : NumFailure) × (p ≡ refused e))
Parsed-cases (parsed n) = inl (n, refl)
Parsed-cases (refused e) = inr (e, refl)
