-- ===== src/Node/Options/Nfs.antt =====
-- The options of an NFS mount (`mountNFS` of pkg/driver/nodeServer.go).
use nexentastor_csi_driver.Common.{
  if◌then◌else◌, Bool-cases, any, String, ◌≡◌, refl, sym, ap, ◌∙◌, inl, inr, true, false, List, [],
  ◌∷◌, ◌++◌, append_assoc, append-nil, arith,
}
use nexentastor_csi_driver.Arrays.{Regexp, contains_string, append_if_regexp_not_exist_string}
use nexentastor_csi_driver.Arrays.Laws.{
  append_if_regexp_not_exist_string_lem, any-append, any-append_if_regexp_not_exist_string,
}
use nexentastor_csi_driver.Config.Address.{drop_prefix}
use nexentastor_csi_driver.Node.Options.{
  one_line, match_any_after, match_some_after, match_vers, match_timeo, match_nolock, nfs_options,
}

-- The second list begins with the first.
abbrev pub Extends : List String → List String → Type 0
Extends xs ys = (added : List String) × (ys ≡ xs ++ added)

append-Extends :
    (array : List String) (re : Regexp) (value : String)
    → Extends array (append_if_regexp_not_exist_string array re value)
append-Extends array re value = elim (Bool-cases (any re array)) [
  | inl found ↦ ([], append_if_regexp_not_exist_string_lem array re value ∙ rw (found, append-nil))
  | inr absent ↦ (value ∷ [], append_if_regexp_not_exist_string_lem array re value ∙ rw absent)
]

Extends-trans : (xs ys zs : List String) → Extends xs ys → Extends ys zs → Extends xs zs
Extends-trans xs ys zs (a, p) (b, q) = (a ++ b, q ∙ ap (λ l. l ++ b) p ∙ append_assoc xs a b)

any-Extends :
    (re : Regexp) (xs ys : List String) → Extends xs ys → any re xs ≡ true → any re ys ≡ true
any-Extends re xs ys (added, e) h = rw (e, any-append re xs added) (ground arith)

-- The options after the step that adds "nolock".
abbrev locked : List String → List String
locked versioned =
    if contains_string versioned "vers=3"
    then append_if_regexp_not_exist_string versioned match_nolock "nolock"
    else versioned

locked-Extends : (versioned : List String) → Extends versioned (locked versioned)
locked-Extends versioned = elim (Bool-cases (contains_string versioned "vers=3")) [
  | inl three ↦ rw three (append-Extends versioned match_nolock "nolock")
  | inr other ↦ rw other ([], sym (append-nil versioned))
]

-- An NFS mount gets the options that were asked for, in their order, and behind them what is added;
-- some option then fixes the version of the protocol and some option the timeout.
pub nfs_options_lem :
    (options : List String)
    → Extends options (nfs_options options)
      × (any match_vers (nfs_options options) ≡ true)
      × (any match_timeo (nfs_options options) ≡ true)
unfolding nfs_options
nfs_options_lem options =
    let versioned = append_if_regexp_not_exist_string options match_vers "vers=3" in
    let all = append_if_regexp_not_exist_string (locked versioned) match_timeo "timeo=100" in
    let first = append-Extends options match_vers "vers=3" in
    let later =
      Extends-trans versioned (locked versioned) all (locked-Extends versioned)
        (append-Extends (locked versioned) match_timeo "timeo=100") in
    (
      Extends-trans options versioned all first later,
      any-Extends match_vers versioned all later (
          any-append_if_regexp_not_exist_string options match_vers "vers=3"
            (unfold match_vers match_any_after drop_prefix one_line in refl)),
      any-append_if_regexp_not_exist_string (locked versioned) match_timeo "timeo=100"
          (unfold match_timeo match_any_after drop_prefix one_line in refl),
    )

-- Where the options have the version 3 and a timeout, and no option that goes on behind "nolock", the
-- option "nolock" is appended, whether the options hold it or not: its pattern does not match it.
pub nfs_options-nolock :
    (options : List String)
    → contains_string options "vers=3" ≡ true
    → any match_vers options ≡ true
    → any match_timeo options ≡ true
    → any match_nolock options ≡ false
    → (match_nolock "nolock" ≡ false) × (nfs_options options ≡ options ++ "nolock" ∷ [])
unfolding nfs_options
nfs_options-nolock options three versioned timed unlocked =
    let same : append_if_regexp_not_exist_string options match_vers "vers=3" ≡ options =
      append_if_regexp_not_exist_string_lem options match_vers "vers=3" ∙ rw versioned in
    let longer : append_if_regexp_not_exist_string options match_nolock "nolock"
        ≡ options ++ "nolock" ∷ [] =
      append_if_regexp_not_exist_string_lem options match_nolock "nolock" ∙ rw unlocked in
    (
      unfold match_nolock match_some_after drop_prefix one_line in refl,
      rw (same, three, longer)
          (append_if_regexp_not_exist_string_lem (options ++ "nolock" ∷ []) match_timeo "timeo=100"
            ∙ rw (
                any-Extends match_timeo options (options ++ "nolock" ∷ []) ("nolock" ∷ [], refl)
                  timed)),
    )
