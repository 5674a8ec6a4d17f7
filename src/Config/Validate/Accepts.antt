-- ===== src/Config/Validate/Accepts.antt =====
-- What `Validate` of pkg/config/config.go accepts, and what it leaves in the map.
use nexentastor_csi_driver.Common.{
  if◌then◌else◌, split, All, Dict, String, ◌≡◌, refl, ap, ◌≢◌, ◌↔◌, ◌⊎◌, Bool, true, false, not,
  ◌&&◌, none, some, List, [], ◌∷◌, ◌++◌, map, arith, ◌==◌, eq_iff,
}
use nexentastor_csi_driver.Arrays.{contains_string}
use nexentastor_csi_driver.Config.Data.{NsData}
use nexentastor_csi_driver.Config.Address.{match_address}
use nexentastor_csi_driver.Config.Validate.{
  supported_fs_type_list, entry_errors, with_default, bad_format, validate, when_bad,
  address_errors,
}

-- An entry as the documentation of the config file asks for it.
pub record IsWellFormed (d : NsData) : Type 0 where
  pub has_address : d.address ≢ ""
  pub addresses : All (λ a. match_address a ≡ true) (split "," d.address)
  pub has_username : d.username ≢ ""
  pub has_password : d.password ≢ ""
  pub fs_type_known :
      (d.default_mount_fs_type ≡ "")
      ⊎ (d.default_mount_fs_type ≡ "nfs")
      ⊎ (d.default_mount_fs_type ≡ "cifs")

address_errors-eq-nil_iff :
    (name : String) (addresses : List String)
    → (address_errors name addresses ≡ []) ↔ All (λ a. match_address a ≡ true) addresses
unfolding address_errors
address_errors-eq-nil_iff name [] = ground arith
address_errors-eq-nil_iff name (a ∷ addresses) =
    ground (arith, address_errors-eq-nil_iff name addresses)

when_bad-eq-nil_iff : (b : Bool) (m : String) → (when_bad b m ≡ []) ↔ (b ≡ false)
when_bad-eq-nil_iff b m = ground arith

append-eq-nil_iff : (xs ys : List String) → (xs ++ ys ≡ []) ↔ ((xs ≡ []) × (ys ≡ []))
append-eq-nil_iff [] ys = ground arith
append-eq-nil_iff (x ∷ xs) ys = ground arith

-- The four checks of a round.
abbrev address_part : String → NsData → List String
address_part name d =
    if d.address == ""
    then "parameter 'restIp' is missed" ∷ []
    else address_errors name (split "," d.address)

address_part-eq-nil_iff :
    (name : String) (d : NsData)
    → (address_part name d ≡ [])
      ↔ ((d.address ≢ "") × All (λ a. match_address a ≡ true) (split "," d.address))
address_part-eq-nil_iff name d =
    ground (arith, eq_iff d.address "", address_errors-eq-nil_iff name (split "," d.address))

fs_type-known_iff :
    (t : String)
    → ((not (t == "") && not (contains_string supported_fs_type_list t)) ≡ false)
      ↔ ((t ≡ "") ⊎ (t ≡ "nfs") ⊎ (t ≡ "cifs"))
unfolding contains_string
fs_type-known_iff t = ground (arith, eq_iff t "", eq_iff "nfs" t, eq_iff "cifs" t)

entry_errors-eq-nil_iff : (name : String) (d : NsData) → (entry_errors name d ≡ []) ↔ IsWellFormed d
unfolding entry_errors
entry_errors-eq-nil_iff name d = grind (
  arith,
  append-eq-nil_iff,
  when_bad-eq-nil_iff,
  address_part-eq-nil_iff name d,
  fs_type-known_iff d.default_mount_fs_type,
  eq_iff d.username "",
  eq_iff d.password "",
)

-- A validation succeeds exactly when every entry is well formed.
pub validate_iff :
    (ns_map : Dict NsData) → ((validate ns_map).1 ≡ none) ↔ All (λ e. IsWellFormed e.1) ns_map
unfolding validate
validate_iff [] = ground arith
validate_iff ((name, d) ∷ rest) = ground (arith, entry_errors-eq-nil_iff name d, validate_iff rest)

-- An entry that a process can be run with: well formed, and with the flag set.
pub record IsUsable (d : NsData) : Type 0 where
  pub well_formed : IsWellFormed d
  pub flag_set : d.insecure_skip_verify ≢ none

with_default-IsUsable : (d : NsData) → IsWellFormed d → IsUsable (with_default d)
unfolding with_default
with_default-IsUsable d h = record {
  well_formed = record {
    has_address = h.has_address;
    addresses = h.addresses;
    has_username = h.has_username;
    has_password = h.has_password;
    fs_type_known = h.fs_type_known;
  };
  flag_set = λ e. cc;
}

-- A validation that succeeds leaves the keys and only sets the missing flags, after which every entry
-- is usable.
pub validate-none :
    (ns_map : Dict NsData)
    → (validate ns_map).1 ≡ none
    → ((validate ns_map).0 ≡ map (λ e. (e.0, with_default e.1)) ns_map)
      × All (λ e. IsUsable e.1) (validate ns_map).0
unfolding validate
validate-none [] h = (refl, tt)
validate-none ((name, d) ∷ rest) h =
    let (fine, others) = (validate_iff ((name, d) ∷ rest)).0 h in
    let e : entry_errors name d ≡ [] = (entry_errors-eq-nil_iff name d).1 fine in
    let (same, usable) = validate-none rest ((validate_iff rest).1 others) in
    rw (e, validate)
      (ap (λ m. (name, with_default d) ∷ m) same, (with_default-IsUsable d fine, usable))

-- A validation stops at the first entry that is not well formed, and names it with all its errors.
pub validate-first_bad :
    (before : Dict NsData) (name : String) (d : NsData) (rest : Dict NsData)
    → All (λ e. IsWellFormed e.1) before
    → ¬ IsWellFormed d
    → (validate (before ++ (name, d) ∷ rest)).1 ≡ some (bad_format name (entry_errors name d))
unfolding validate
validate-first_bad [] name d rest h bad =
    let some_error : entry_errors name d ≢ [] = λ e. bad ((entry_errors-eq-nil_iff name d).0 e) in
    ground arith
validate-first_bad ((n, c) ∷ before) name d rest (p, h) bad =
    ground (arith, entry_errors-eq-nil_iff n c, validate-first_bad before name d rest h bad)
