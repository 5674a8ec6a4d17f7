-- ===== src/Tests/Toy.antt =====
-- A storage and a host small enough to run: volumes, snapshots, shares and mount points in lists, and
-- one config file. It is a concrete instance of the interface to the libraries.
use nexentastor_csi_driver.Common.{
  if◌then◌else◌, ◌<>◌, pos, ℕ, String, refl, Bool, true, false, not, Option, none, some, List, [],
  ◌∷◌, ◌==◌,
}
use nexentastor_csi_driver.Errors.{
  Code, unknown, Error, status, plain, number, foreign, panic, Reply, value, failure,
}
use nexentastor_csi_driver.External.{External}
use nexentastor_csi_driver.External.Params.{
  CreateFilesystemParams, Filesystem, Snapshot, CloneSnapshotParams, file, directory, no_info,
  Entries, no_entry, an_entry,
}
use nexentastor_csi_driver.External.Laws.{IsLawful}
use nexentastor_csi_driver.Process.{Process}
use nexentastor_csi_driver.Config.Data.{NsData, Config, zero_ns_data}

pub data Fault : Type 0 where
  exists missing refused_call : Fault

pub record World : Type 0 where
  pub mod_time : ℕ
  pub volumes : List Filesystem
  pub snapshots : List Snapshot
  pub shares : List String
  pub mounts : List String

abbrev is_missing : Error Fault → Bool
is_missing (foreign missing) = true
is_missing _ = false

abbrev is_existing : Error Fault → Bool
is_existing (foreign exists) = true
is_existing _ = false

abbrev text_of : Error Fault → String
text_of (status c m) = m
text_of (plain m) = m
text_of (number f i e) = f
text_of (foreign exists) = "exists"
text_of (foreign missing) = "missing"
text_of (foreign refused_call) = "refused"

abbrev code_of : Error Fault → Code
code_of (status c m) = c
code_of _ = unknown

abbrev pub find_volume : String → List Filesystem → Option Filesystem
find_volume path [] = none
find_volume path (v ∷ volumes) =
    let rest = find_volume path volumes in if v.path == path then some v else rest

abbrev find_snapshot : String → List Snapshot → Option Snapshot
find_snapshot path [] = none
find_snapshot path (v ∷ snapshots) =
    let rest = find_snapshot path snapshots in if v.path == path then some v else rest

abbrev pub drop_volume : String → List Filesystem → List Filesystem
drop_volume path [] = []
drop_volume path (v ∷ volumes) =
    let rest = drop_volume path volumes in if v.path == path then rest else v ∷ rest

abbrev pub reply_of : {A : Type 0} → Option A → Reply Fault A
reply_of none = failure missing
reply_of (some a) = value a

abbrev pub volume_of : CreateFilesystemParams → Filesystem
volume_of p = record {
  path = p.path;
  mount_point = "/" <> p.path;
  shared_over_nfs = false;
  shared_over_smb = false;
  referenced_quota_size = p.referenced_quota_size;
  default_smb_share_name = "share";
}

abbrev clone_of : CloneSnapshotParams → Filesystem
clone_of p =
    volume_of (record { path = p.target_path; referenced_quota_size = p.referenced_quota_size })

abbrev pub add_volume : Filesystem → World → Option Fault × World
add_volume v w = elim (find_volume v.path w.volumes) [
  | none ↦ (none, record w { volumes = v ∷ w.volumes })
  | some other ↦ (some exists, w)
]

-- A mounted secret: the files of a version, and links to the version and to its file.
abbrev pub secret_volume : Entries
secret_volume =
    an_entry "..v1" (directory (an_entry "file.yaml" file no_entry))
      (an_entry "..data" file (an_entry "file.yaml" file no_entry))

abbrev pub toy : External
toy = record {
  World = World;
  Fault = Fault;
  Provider = String;
  Resolver = String;
  error_text = text_of;
  status_code = code_of;
  is_not_exist_nef_error = is_missing;
  is_already_exist_nef_error = is_existing;
  is_bad_arg_nef_error = λ e. false;
  is_busy_nef_error = λ e. false;
  os_is_not_exist = is_missing;
  os_is_permission = λ e. false;
  new_resolver = λ args w.
      if args.address == "" then ((none, some refused_call), w) else ((some args.address, none), w);
  zero_resolver = "";
  resolve = λ r path w.
      if r == ""
      then ((none, some refused_call), w)
      else if path == "gone"
      then ((none, some missing), w)
      else ((some r, none), w);
  resolve_nil = λ path w. (panic, w);
  access_mode_name = λ m. "mode";
  create_filesystem = λ p params w. add_volume (volume_of params) w;
  get_filesystem = λ p path w. (reply_of (find_volume path w.volumes), w);
  get_filesystems_with_starting_token = λ p path token max w. ((w.volumes, "", none), w);
  get_filesystem_available_capacity = λ p path w. (value (pos 7), w);
  update_filesystem = λ p path size w. (none, w);
  destroy_filesystem = λ p path params w. elim (find_volume path w.volumes) [
    | none ↦ (some missing, w)
    | some v ↦ (none, record w { volumes = drop_volume path w.volumes })
  ];
  create_snapshot = λ p path w. (none, w);
  get_snapshot = λ p path w. (reply_of (find_snapshot path w.snapshots), w);
  get_snapshots = λ p path recursive w. (value w.snapshots, w);
  destroy_snapshot = λ p path w. (none, w);
  clone_snapshot = λ p path params w. add_volume (clone_of params) w;
  create_nfs_share = λ p params w. (none, record w { shares = params.filesystem ∷ w.shares });
  delete_nfs_share = λ p path w. (none, w);
  create_smb_share = λ p params w. (none, record w { shares = params.filesystem ∷ w.shares });
  get_smb_share_name = λ p path w. (value "share", w);
  set_filesystem_acl = λ p path acl w. (none, w);
  stat_mod_time = λ path w. (value w.mod_time, w);
  read_file = λ path w. (value "file", w);
  mkdir_all = λ path mode w. (none, w);
  remove = λ path w. (none, w);
  chmod = λ path mode w. (none, w);
  unmarshal = λ text content. (content, if text == "bad" then some refused_call else none);
  is_likely_not_mount_point =
      λ path w. (if path == "/missing" then failure missing else value (not (path == "/taken")), w);
  mount = λ source target kind options w. (none, record w { mounts = target ∷ w.mounts });
  unmount = λ path w. (none, w);
  tree_at = λ path w. if path == "/config" then directory secret_volume else no_info;
  parse_url = λ text.
      if text == "unix:///csi.sock"
      then value (record { scheme = "unix"; host = ""; path = "/csi.sock" })
      else failure refused_call;
  listen = λ network address w. (none, w);
  serve = λ services w. (none, w);
  write_file = λ path text w. (none, w);
  nodes = λ r. r ∷ [];
  is_cluster = λ r w. (value true, w);
  get_license = λ p w. (value true, w);
}

pub toy-IsLawful : IsLawful toy
toy-IsLawful = record {
  status_code-status = λ c m. refl;
  is_not_exist-status = λ c m. refl;
  error_text-status = λ c m part h. h;
}

-- A usable entry, and two states of a process that has it: before and after the resolvers are made.
abbrev pub entry : NsData
entry = record zero_ns_data {
  address = "https://10.1.1.1:8443";
  username = "admin";
  password = "secret";
  zone = "zone1";
  default_dataset = "pool/data";
  default_data_ip = "10.1.1.9";
  insecure_skip_verify = some true;
}

abbrev pub host : World
host = record { mod_time = 5; volumes = []; snapshots = []; shares = []; mounts = [] }

abbrev pub settings : Config
settings = record {
  content = record { ns_map = ("ns1", entry) ∷ []; debug = false };
  file_path = "/config/file.yaml";
  last_mod_time = 0;
  temporary = false;
}

abbrev pub started : Process toy
started = record { config = settings; controller_resolvers = []; node_resolvers = []; world = host }

abbrev pub ready : Process toy
ready = record started { controller_resolvers = ("ns1", "10.1.1.1") ∷ [] }
