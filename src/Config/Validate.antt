-- ===== src/Config/Validate.antt =====
-- `Validate` of pkg/config/config.go.
pub mod Accepts
use nexentastor_csi_driver.Common.{
  if◌then◌else◌, get_or, ◌<>◌, split, join, Dict, String, Bool, true, false, not, ◌&&◌, Option,
  none, some, List, [], ◌∷◌, ◌++◌, ◌==◌,
}
use nexentastor_csi_driver.Arrays.{contains_string}
use nexentastor_csi_driver.Config.Data.{NsData}
use nexentastor_csi_driver.Config.Address.{match_address}

abbrev pub fs_type_nfs : String
fs_type_nfs = "nfs"

abbrev pub fs_type_cifs : String
fs_type_cifs = "cifs"

-- `SuppertedFsTypeList`.
abbrev pub supported_fs_type_list : List String
supported_fs_type_list = fs_type_nfs ∷ fs_type_cifs ∷ []

abbrev pub default_insecure_skip_verify : Bool
default_insecure_skip_verify = true

abbrev when_bad : Bool → String → List String
when_bad true message = message ∷ []
when_bad false message = []

-- The inner loop, over the comma-separated addresses.
address_errors : String → List String → List String
unfolding match_address
address_errors name [] = []
address_errors name (address ∷ addresses) =
    when_bad (not (match_address address)) (
      "[NS: " <> name <> "] parameter 'restIp' has invalid address: '" <> address
      <> "', should be 'schema://host:port'")
    ++ address_errors name addresses

-- What one round of the loop adds to `errors`, in the order of the code.
unfoldable pub entry_errors : String → NsData → List String
unfolding address_errors contains_string split
entry_errors name ns_data =
    (if ns_data.address == ""
      then "parameter 'restIp' is missed" ∷ []
      else address_errors name (split "," ns_data.address))
    ++ when_bad (ns_data.username == "") "parameter 'username' is missed"
    ++ when_bad (ns_data.password == "") "parameter 'password' is missed"
    ++ when_bad
        (not (ns_data.default_mount_fs_type == "")
          && not (contains_string supported_fs_type_list ns_data.default_mount_fs_type))
        "parameter 'defaultMountFsType' must be omitted or one of: [nfs, cifs]"

-- The default of `InsecureSkipVerify`, which a round writes back into the map.
unfoldable pub with_default : NsData → NsData
with_default ns_data = record ns_data {
  insecure_skip_verify = some (get_or ns_data.insecure_skip_verify default_insecure_skip_verify);
}

unfoldable pub bad_format : String → List String → String
unfolding join
bad_format name errors =
    "[NS: " <> name <> "] Bad format, fix following issues: " <> join "; " errors

-- The map after the loop, and its error text. Before each round `errors` is empty, since a round
-- that adds to it returns.
unfoldable pub validate : Dict NsData → Dict NsData × Option String
validate [] = ([], none)
validate ((name, ns_data) ∷ rest) =
    let (later, error) = validate rest in
    elim (entry_errors name ns_data) [
      | [] ↦ ((name, with_default ns_data) ∷ later, error)
      | e ∷ errors ↦ ((name, with_default ns_data) ∷ rest, some (bad_format name (e ∷ errors)))
    ]
