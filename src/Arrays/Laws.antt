-- ===== src/Arrays/Laws.antt =====
-- The array functions against plain descriptions of them.
use nexentastor_csi_driver.Common.{
  if◌then◌else◌, Bool-cases, any, ℕ, ◌+◌, String, ◌≡◌, refl, inl, inr, true, false, ◌||◌, List, [],
  ◌∷◌, ◌++◌, arith, ◌==◌,
}
use nexentastor_csi_driver.Arrays.{
  Regexp, contains_string, is_nil, find_regexp_indexes_string, append_if_regexp_not_exist_string,
  find_from,
}

contains_string-any :
    (array : List String) (v : String) → contains_string array v ≡ any (λ x. x == v) array
unfolding contains_string
contains_string-any [] v = refl
contains_string-any (x ∷ array) v = ground (arith, contains_string-any array v)

is_nil-find_from :
    (i : ℕ) (array : List String) (re : Regexp)
    → is_nil (find_from i array re) ≡ (if any re array then false else true)
unfolding find_from
is_nil-find_from i [] re = refl
is_nil-find_from i (v ∷ array) re = ground (arith, is_nil-find_from (i + 1) array re)

-- The regular expression matches no element exactly if no index is found.
pub is_nil-find_regexp_indexes_string :
    (array : List String) (re : Regexp)
    → is_nil (find_regexp_indexes_string array re) ≡ (if any re array then false else true)
unfolding find_regexp_indexes_string
is_nil-find_regexp_indexes_string array re = is_nil-find_from 0 array re

-- The value is appended exactly when no element matches, and nothing else changes.
pub append_if_regexp_not_exist_string_lem :
    (array : List String) (re : Regexp) (value : String)
    → append_if_regexp_not_exist_string array re value
      ≡ (if any re array then array else array ++ value ∷ [])
unfolding append_if_regexp_not_exist_string
append_if_regexp_not_exist_string_lem array re value = ground (arith, is_nil-find_from 0 array re)

pub any-append : (re : Regexp) (xs ys : List String) → any re (xs ++ ys) ≡ (any re xs || any re ys)
any-append re [] ys = refl
any-append re (x ∷ xs) ys = ground (arith, any-append re xs ys)

-- After the call some element matches, if the value itself does.
pub any-append_if_regexp_not_exist_string :
    (array : List String) (re : Regexp) (value : String)
    → re value ≡ true
    → any re (append_if_regexp_not_exist_string array re value) ≡ true
any-append_if_regexp_not_exist_string array re value h =
    rw append_if_regexp_not_exist_string_lem (elim (Bool-cases (any re array)) [
      | inl found ↦ rw (found, if◌then◌else◌) found
      | inr missing ↦ rw (missing, if◌then◌else◌, any-append) (ground arith)
    ])
