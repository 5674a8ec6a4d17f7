-- ===== src/Common/Show.antt =====
-- `%d` and `%t` of Go's `fmt`.
use Prim.Native.Nat.{ℕ, zero, suc, ◌+◌, ◌/◌, ◌%◌}
use Prim.Native.String.{String}
use mathlib.Core.Bool.{Bool, true, false}
use package.nexentastor_csi_driver.Common.Flow.{if◌then◌else◌, ltb, nat_eq}
use package.nexentastor_csi_driver.Common.Text.{◌<>◌}
use package.nexentastor_csi_driver.Common.Int.{ℤ, pos, negsuc}

show_digit : ℕ → String
show_digit d =
    if nat_eq d 0
    then "0"
    else if nat_eq d 1
    then "1"
    else if nat_eq d 2
    then "2"
    else if nat_eq d 3
    then "3"
    else if nat_eq d 4
    then "4"
    else if nat_eq d 5
    then "5"
    else if nat_eq d 6
    then "6"
    else if nat_eq d 7
    then "7"
    else if nat_eq d 8
    then "8"
    else "9"

-- At most `fuel` digits.
show_upto : ℕ → ℕ → String
unfolding show_digit
show_upto zero n = ""
show_upto (suc fuel) n =
    let front = show_upto fuel (n / 10) in
    if ltb n 10 then show_digit n else front <> show_digit (n % 10)

-- A number of 64 bits has twenty digits at most.
unfoldable pub show_nat : ℕ → String
unfolding show_upto
show_nat n = show_upto 20 n

unfoldable pub show_int : ℤ → String
unfolding show_nat
show_int (pos n) = show_nat n
show_int (negsuc n) = "-" <> show_nat (n + 1)

abbrev pub show_bool : Bool → String
show_bool true = "true"
show_bool false = "false"
