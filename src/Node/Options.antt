-- ===== src/Node/Options.antt =====
-- The mount options, their patterns and the mount point's permissions in pkg/driver/nodeServer.go.
pub mod Permissions
pub mod Nfs
pub mod Handover
use nexentastor_csi_driver.Common.{
  if◌then◌else◌, nat_eq, get_or, split, is_empty, Dict, lookup, ℤ, pos, negsuc, parsed, refused,
  parse_int, ℕ, ◌-◌, ◌%◌, ◌^◌, code, String, Bool, true, false, not, ◌&&◌, none, some, List, [],
  ◌∷◌, ◌==◌,
}
use nexentastor_csi_driver.Errors.{number, Outcome, ok, err}
use nexentastor_csi_driver.Arrays.{Regexp, contains_string, append_if_regexp_not_exist_string}
use nexentastor_csi_driver.Config.Data.{NsData}
use nexentastor_csi_driver.Config.Address.{drop_prefix}
use nexentastor_csi_driver.Config.Validate.{fs_type_nfs}

-- What `.` matches: any character but a newline.
unfoldable pub one_line : String → Bool
one_line String.[] = true
one_line (String.◌∷◌ c s) = not (nat_eq (code c) 0x0a) && one_line s

-- ^prefix.*$
unfoldable pub match_any_after : String → Regexp
match_any_after prefix s = elim (drop_prefix prefix s) [ none ↦ false | some rest ↦ one_line rest ]

-- ^prefix.+$
unfoldable pub match_some_after : String → Regexp
match_some_after prefix s = elim (drop_prefix prefix s) [
  | none ↦ false
  | some rest ↦ not (is_empty rest) && one_line rest
]

-- `regexpMountOptionRo`
unfoldable pub match_ro : Regexp
match_ro s = s == "ro"

-- `regexpMountOptionVers`
unfoldable pub match_vers : Regexp
match_vers = match_any_after "vers="

-- `regexpMountOptionTimeo`
unfoldable pub match_timeo : Regexp
match_timeo = match_any_after "timeo="

-- `regexpMountOptionUsername`
unfoldable pub match_username : Regexp
match_username = match_some_after "username="

-- `regexpMountOptionPassword`
unfoldable pub match_password : Regexp
match_password = match_some_after "password="

-- `regexpMountOptionNolock`
unfoldable pub match_nolock : Regexp
match_nolock = match_some_after "nolock"

-- `v, ok := volumeContext[key]; ok && v != ""`, or else the value of the config.
abbrev pub context_or : String → Dict String → String → String
context_or key volume_context default =
    let v = get_or (lookup key volume_context) "" in if not (v == "") then v else default

-- The loop over the options of a text, which leaves empty ones out.
unfoldable pub drop_empty : List String → List String
drop_empty [] = []
drop_empty (option ∷ options) =
    let rest = drop_empty options in if not (option == "") then option ∷ rest else rest

-- The options by their priority: those of the request, of the volume, of the config.
unfoldable pub base_options : List String → Dict String → NsData → List String
base_options [] volume_context cfg =
    drop_empty (split "," (context_or "mountOptions" volume_context cfg.default_mount_options))
base_options (flag ∷ flags) volume_context cfg = flag ∷ flags

-- The options with "ro" where the request is read-only.
unfoldable pub publish_options : Bool → List String → Dict String → NsData → List String
publish_options readonly flags volume_context cfg =
    let options = base_options flags volume_context cfg in
    if readonly then append_if_regexp_not_exist_string options match_ro "ro" else options

-- The options of an NFS mount (`mountNFS`).
unfoldable pub nfs_options : List String → List String
nfs_options options =
    let versioned = append_if_regexp_not_exist_string options match_vers "vers=3" in
    let locked =
      if contains_string versioned "vers=3"
      then append_if_regexp_not_exist_string versioned match_nolock "nolock"
      else versioned in
    append_if_regexp_not_exist_string locked match_timeo "timeo=100"

-- The data address of the volume, else of the config.
unfoldable pub data_ip : Dict String → NsData → String
data_ip volume_context cfg = context_or "dataIP" volume_context cfg.default_data_ip

-- The filesystem type of the volume, else of the config, else NFS.
unfoldable pub fs_type : Dict String → NsData → String
fs_type volume_context cfg =
    context_or "mountFsType" volume_context
      (if not (cfg.default_mount_fs_type == "") then cfg.default_mount_fs_type else fs_type_nfs)

-- `DefaultMountPointPermissions`, 0777.
abbrev pub default_mount_point_permissions : ℕ
default_mount_point_permissions = 0o777

-- `os.FileMode(octalPerm)`: the conversion of an `int64` to `uint32`.
abbrev pub to_file_mode : ℤ → ℕ
to_file_mode (pos n) = n % 2 ^ 32
to_file_mode (negsuc n) = 2 ^ 32 - 1 - n % 2 ^ 32

-- `GetMountPointPermissions`.
unfoldable pub get_mount_point_permissions : {F : Type 0} → Dict String → Outcome F ℕ
get_mount_point_permissions volume_context =
    let permissions = get_or (lookup "mountPointPermissions" volume_context) "" in
    if permissions == ""
    then ok default_mount_point_permissions
    else elim (parse_int permissions 8 16) [
      | parsed n ↦ ok (to_file_mode n)
      | refused failed ↦ err (number "ParseInt" permissions failed)
    ]
