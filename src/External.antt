-- ===== src/External.antt =====
-- What the driver calls and does not implement: the NexentaStor client (package `ns` of
-- github.com/Nexenta/go-nexentastor), gRPC's `status`, yaml.v2, k8s.io/mount-utils and the operating
-- system. `World` is all that these calls can change; each takes it and gives it back.
pub mod Params
pub mod Laws
pub mod Storage
use nexentastor_csi_driver.Common.{ℤ, ℕ, String, Bool, Option, List}
use nexentastor_csi_driver.Errors.{Code, Error, Outcome, Reply}
use nexentastor_csi_driver.Config.Data.{Content}
use Params.{
  ResolverArgs, CreateFilesystemParams, Filesystem, Snapshot, CloneSnapshotParams,
  DestroyFilesystemParams, CreateNfsShareParams, CreateSmbShareParams, AclRuleSet, Tree, Url,
  Service,
}

pub record External : Type 1 where
  pub World : Type 0
  pub Fault : Type 0
  pub Provider : Type 0
  pub Resolver : Type 0
  -- `err.Error()`, `status.Code`, the tests of `ns` on errors, and those of `os`.
  pub error_text : Error Fault → String
  pub status_code : Error Fault → Code
  pub is_not_exist_nef_error : Error Fault → Bool
  pub is_already_exist_nef_error : Error Fault → Bool
  pub is_bad_arg_nef_error : Error Fault → Bool
  pub is_busy_nef_error : Error Fault → Bool
  pub os_is_not_exist : Error Fault → Bool
  pub os_is_permission : Error Fault → Bool
  -- `ns.NewResolver`, the zero value of `ns.Resolver`, and `Resolve`, also on a nil pointer.
  pub new_resolver : ResolverArgs → World → (Option Resolver × Option Fault) × World
  pub zero_resolver : Resolver
  pub resolve : Resolver → String → World → (Option Provider × Option Fault) × World
  pub resolve_nil : String → World → Outcome Fault (Option Provider × Option Fault) × World
  -- The name of an access mode, `%s`.
  pub access_mode_name : ℕ → String
  -- The methods of `ns.ProviderInterface`.
  pub create_filesystem : Provider → CreateFilesystemParams → World → Option Fault × World
  pub get_filesystem : Provider → String → World → Reply Fault Filesystem × World
  pub get_filesystems_with_starting_token :
      Provider → String → String → ℤ → World → (List Filesystem × String × Option Fault) × World
  pub get_filesystem_available_capacity : Provider → String → World → Reply Fault ℤ × World
  pub update_filesystem : Provider → String → ℤ → World → Option Fault × World
  pub destroy_filesystem :
      Provider → String → DestroyFilesystemParams → World → Option Fault × World
  pub create_snapshot : Provider → String → World → Option Fault × World
  pub get_snapshot : Provider → String → World → Reply Fault Snapshot × World
  pub get_snapshots : Provider → String → Bool → World → Reply Fault (List Snapshot) × World
  pub destroy_snapshot : Provider → String → World → Option Fault × World
  pub clone_snapshot : Provider → String → CloneSnapshotParams → World → Option Fault × World
  pub create_nfs_share : Provider → CreateNfsShareParams → World → Option Fault × World
  pub delete_nfs_share : Provider → String → World → Option Fault × World
  pub create_smb_share : Provider → CreateSmbShareParams → World → Option Fault × World
  pub get_smb_share_name : Provider → String → World → Reply Fault String × World
  pub set_filesystem_acl : Provider → String → AclRuleSet → World → Option Fault × World
  -- The files of the host: `os.Stat` (the modification time), `ioutil.ReadFile`, `os.MkdirAll`,
  -- `os.Remove`, `os.Chmod`.
  pub stat_mod_time : String → World → Reply Fault ℕ × World
  pub read_file : String → World → Reply Fault String × World
  pub mkdir_all : String → ℕ → World → Option Fault × World
  pub remove : String → World → Option Fault × World
  pub chmod : String → ℕ → World → Option Fault × World
  -- `yaml.Unmarshal` into a config that may hold values: those it has afterwards, and the error.
  pub unmarshal : String → Content → Content × Option Fault
  -- `mount.New("")`.
  pub is_likely_not_mount_point : String → World → Reply Fault Bool × World
  pub mount : String → String → String → List String → World → Option Fault × World
  pub unmount : String → World → Option Fault × World
  -- What `filepath.Walk` meets below a path.
  pub tree_at : String → World → Tree
  -- `url.Parse`, `net.Listen`, and `Serve` of a gRPC server with its services.
  pub parse_url : String → Reply Fault Url
  pub listen : String → String → World → Option Fault × World
  pub serve : List Service → World → Option Fault × World
  -- `ioutil.WriteFile` with all permissions.
  pub write_file : String → String → World → Option Fault × World
  -- The field `Nodes` of a resolver, its `IsCluster`, and whether the license of a node is valid.
  pub nodes : Resolver → List Provider
  pub is_cluster : Resolver → World → Reply Fault Bool × World
  pub get_license : Provider → World → Reply Fault Bool × World
