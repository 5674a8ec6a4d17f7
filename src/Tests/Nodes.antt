-- ===== src/Tests/Nodes.antt =====
-- The node server and the roles at concrete inputs.
use nexentastor_csi_driver.Common.{
  get_or, any, Dict, lookup, pos, negsuc, parsed, parse_int, ℕ, ◌+◌, ◌^◌, ◌<◌, String, ◌≡◌, refl,
  ◌↔◌, ◌⊎◌, true, false, none, some, List, [], ◌∷◌, ◌++◌,
}
use nexentastor_csi_driver.Errors.{ok}
use nexentastor_csi_driver.External.Params.{Filesystem}
use nexentastor_csi_driver.Config.Address.{drop_prefix}
use nexentastor_csi_driver.Arrays.{contains_string, find_regexp_indexes_string}
use nexentastor_csi_driver.Controller.Requests.{CreateVolumeRequest}
use nexentastor_csi_driver.Controller.Create.{volume_response}
use nexentastor_csi_driver.Role.{is_controller, is_node, parse_role}
use nexentastor_csi_driver.Role.Laws.{parse_role_lem}
use nexentastor_csi_driver.Node.Options.{
  one_line, match_any_after, match_some_after, match_vers, match_timeo, match_username,
  match_password, match_nolock, publish_options, nfs_options, data_ip, fs_type,
  get_mount_point_permissions,
}
use nexentastor_csi_driver.Node.Options.Nfs.{Extends, nfs_options_lem, nfs_options-nolock}
use nexentastor_csi_driver.Node.Options.Handover.{
  publish_options-volume_response, data_ip-volume_response,
}
use nexentastor_csi_driver.Node.Publish.{PublishRequest, mount_by_type, set_permissions, unpublish}
use nexentastor_csi_driver.Node.Publish.Outcomes.{set_permissions-readonly, mount_by_type-mounted}
use nexentastor_csi_driver.Node.Mount.{do_mount, mount_cifs}
use nexentastor_csi_driver.Node.Mount.Credentials.{mount_cifs-credentials}
use nexentastor_csi_driver.Node.Options.Permissions.{get_mount_point_permissions-range}
use nexentastor_csi_driver.Tests.Toy.{Fault, World, toy, toy-IsLawful, entry, host, started}

abbrev named : String
named = "node"

parse_role_lem_example :
    (((parse_role named).failed ≡ false)
      ↔ ((named ≡ "all") ⊎ (named ≡ "controller") ⊎ (named ≡ "node")))
    × ((parse_role named).failed ≡ false → (parse_role named).role ≡ named)
    × ((parse_role named).failed ≡ true
        → (is_controller (parse_role named).role ≡ true) × (is_node (parse_role named).role ≡ true))
parse_role_lem_example = parse_role_lem named

-- A duplicate: the request has "nolock" already.
abbrev asked : List String
asked = "nolock" ∷ "vers=3" ∷ "timeo=50" ∷ []

nfs_options_lem_example :
    Extends asked (nfs_options asked)
    × (any match_vers (nfs_options asked) ≡ true)
    × (any match_timeo (nfs_options asked) ≡ true)
nfs_options_lem_example = nfs_options_lem asked

has_version : contains_string asked "vers=3" ≡ true
unfolding contains_string
has_version = refl

matched_version : any match_vers asked ≡ true
unfolding match_vers match_any_after drop_prefix one_line
matched_version = refl

matched_timeout : any match_timeo asked ≡ true
unfolding match_timeo match_any_after drop_prefix one_line
matched_timeout = refl

unmatched_lock : any match_nolock asked ≡ false
unfolding match_nolock match_some_after drop_prefix one_line
unmatched_lock = refl

nfs_options-nolock_example :
    (match_nolock "nolock" ≡ false) × (nfs_options asked ≡ asked ++ "nolock" ∷ [])
nfs_options-nolock_example =
    nfs_options-nolock asked has_version matched_version matched_timeout unmatched_lock

abbrev request : CreateVolumeRequest
request = record {
  name = "v";
  secrets = [];
  volume_capabilities = none;
  volume_content_source = none;
  parameters = ("dataIp", "20.20.20.253") ∷ ("mountOptions", "ro") ∷ [];
  accessibility_requirements = none;
  required_bytes = pos 1;
}

data_ip-volume_response_example :
    data_ip (volume_response toy request "" "ns1" entry "pool/v").volume_context entry ≡ "10.1.1.9"
data_ip-volume_response_example = data_ip-volume_response toy request "" "ns1" "pool/v" entry entry

publish_options-volume_response_example :
    let context = (volume_response toy request "" "ns1" entry "pool/v").volume_context in
    (publish_options true [] context entry ≡ publish_options true [] request.parameters entry)
    × (fs_type context entry ≡ fs_type request.parameters entry)
publish_options-volume_response_example =
    publish_options-volume_response toy request "" "ns1" "pool/v" entry true [] entry

abbrev publishing : PublishRequest
publishing = record {
  volume_id = "ns1:pool/v";
  target_path = "/target";
  volume_capability = some [];
  readonly = true;
  volume_context = [];
  secrets = [];
}

set_permissions-readonly_example :
    let options = publish_options true ("hard" ∷ []) [] entry in
    (contains_string options "ro" ≡ true)
    × ((set_permissions toy publishing options started).1 ≡ started)
set_permissions-readonly_example =
    set_permissions-readonly toy publishing ("hard" ∷ []) entry started refl

abbrev exported : Filesystem
exported = record {
  path = "pool/v";
  mount_point = "/pool/v";
  shared_over_nfs = true;
  shared_over_smb = false;
  referenced_quota_size = pos 0;
  default_smb_share_name = "share";
}

nfs_default : fs_type publishing.volume_context entry ≡ "nfs"
unfolding fs_type lookup
nfs_default = refl

mount_by_type-mounted_example :
    mount_by_type toy
      (record publishing { target_path = "/taken" })
      "10.1.1.1"
      exported
      entry
      []
      started
    ≡ (ok tt, started)
mount_by_type-mounted_example =
    mount_by_type-mounted toy toy-IsLawful (record publishing { target_path = "/taken" }) "10.1.1.1"
      exported entry [] started host nfs_default refl refl

unpublish_missing : unpublish toy "/missing" started ≡ (ok tt, started)
unfolding unpublish
unpublish_missing = refl

abbrev octal : Dict String
octal = ("mountPointPermissions", "0750") ∷ []

octal_mode : get_mount_point_permissions {F = Fault} octal ≡ ok 488
unfolding get_mount_point_permissions lookup parse_int
octal_mode = refl

negative_mode :
    get_mount_point_permissions {F = Fault} (("mountPointPermissions", "-1") ∷ []) ≡ ok 4294967295
unfolding get_mount_point_permissions lookup parse_int
negative_mode = refl

get_mount_point_permissions-range_example :
    let text = get_or (lookup "mountPointPermissions" octal) "" in
    ((text ≡ "") × (◌≡◌ {A = ℕ} 488 511))
    ⊎ ((k : ℕ) × (parse_int text 8 16 ≡ parsed (pos k)) × (◌≡◌ {A = ℕ} 488 k) × (k < 2 ^ 15))
    ⊎ ((k : ℕ) × (parse_int text 8 16 ≡ parsed (negsuc k))
        × (◌≡◌ {A = ℕ} (488 + k + 1) (2 ^ 32))
        × (k < 2 ^ 15))
get_mount_point_permissions-range_example =
    get_mount_point_permissions-range Fault octal 488 octal_mode

abbrev login : List String
login = "username=admin" ∷ "password=secret" ∷ []

abbrev smb_shared : Filesystem
smb_shared = record exported { shared_over_smb = true }

abbrev mounted_host : World
mounted_host = record host { mounts = "/target" ∷ [] }

mounted_smb :
    mount_cifs toy false "/target" "10.1.1.1" smb_shared "10.1.1.9" login started
    ≡ (ok tt, record started { world = mounted_host })
unfolding mount_cifs do_mount match_username match_password match_some_after drop_prefix one_line
    find_regexp_indexes_string
mounted_smb = refl

mount_cifs-credentials_example :
    (any match_username login ≡ true) × (any match_password login ≡ true)
mount_cifs-credentials_example =
    mount_cifs-credentials toy false "/target" "10.1.1.1" smb_shared "10.1.1.9" login started
      (record started { world = mounted_host }) mounted_smb
