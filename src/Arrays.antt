-- ===== src/Arrays.antt =====
-- pkg/arrays/arrays.go, and the mount option patterns of pkg/driver/nodeServer.go. A compiled
-- regular expression is its match function, `re.MatchString`.
pub mod Laws
use nexentastor_csi_driver.Common.{
  if◌then◌else◌, ℕ, ◌+◌, String, Bool, true, false, List, [], ◌∷◌, ◌++◌, ◌==◌,
}

abbrev pub Regexp : Type 0
Regexp = String → Bool

-- `ContainsString`.
unfoldable pub contains_string : List String → String → Bool
contains_string [] value = false
contains_string (v ∷ array) value = if v == value then true else contains_string array value

-- The loop of `FindRegexpIndexesString` from the index `i`.
find_from : ℕ → List String → Regexp → List ℕ
find_from i [] re = []
find_from i (v ∷ array) re =
    let indexes = find_from (i + 1) array re in if re v then i ∷ indexes else indexes

-- `FindRegexpIndexesString`.
unfoldable pub find_regexp_indexes_string : List String → Regexp → List ℕ
unfolding find_from
find_regexp_indexes_string array re = find_from 0 array re

abbrev pub is_nil : List ℕ → Bool
is_nil [] = true
is_nil (i ∷ indexes) = false

-- `AppendIfRegexpNotExistString`.
unfoldable pub append_if_regexp_not_exist_string : List String → Regexp → String → List String
unfolding find_regexp_indexes_string
append_if_regexp_not_exist_string array re value =
    if is_nil (find_regexp_indexes_string array re) then array ++ value ∷ [] else array
