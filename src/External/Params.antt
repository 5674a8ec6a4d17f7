-- ===== src/External/Params.antt =====
-- The argument and result types of the `ns` package that the driver fills in or reads.
use nexentastor_csi_driver.Common.{ℤ, String, Bool, List}

-- `ns.ResolverArgs`, without the logger.
pub record ResolverArgs : Type 0 where
  pub address : String
  pub username : String
  pub password : String
  pub insecure_skip_verify : Bool

pub record CreateFilesystemParams : Type 0 where
  pub path : String
  pub referenced_quota_size : ℤ

-- The fields and getters of `ns.Filesystem` that the driver reads.
pub record Filesystem : Type 0 where
  pub path : String
  pub mount_point : String
  pub shared_over_nfs : Bool
  pub shared_over_smb : Bool
  pub referenced_quota_size : ℤ
  pub default_smb_share_name : String

-- `creation_time` is `CreationTime.Unix()`.
pub record Snapshot : Type 0 where
  pub path : String
  pub name : String
  pub parent : String
  pub creation_time : ℤ

pub record CloneSnapshotParams : Type 0 where
  pub target_path : String
  pub referenced_quota_size : ℤ

pub record DestroyFilesystemParams : Type 0 where
  pub destroy_snapshots : Bool
  pub promote_most_recent_clone_if_exists : Bool

pub record NfsRuleList : Type 0 where
  pub entity : String
  pub etype : String
  pub mask : ℤ

pub record CreateNfsShareParams : Type 0 where
  pub filesystem : String
  pub read_only_list : List NfsRuleList
  pub read_write_list : List NfsRuleList

pub record CreateSmbShareParams : Type 0 where
  pub filesystem : String
  pub share_name : String

pub data AclRuleSet : Type 0 where
  acl_read_only acl_read_write : AclRuleSet

-- What `filepath.Walk` meets: `os.Lstat` tells a directory from anything else, or fails; a directory
-- is read as its names in their order, or cannot be read.
mutual
  pub data Tree : Type 0 where
    file : Tree
    directory : Entries → Tree
    unreadable : Tree
    no_info : Tree

  pub data Entries : Type 0 where
    no_entry : Entries
    an_entry : String → Tree → Entries → Entries

-- The parts of `url.URL` that the driver reads.
pub record Url : Type 0 where
  pub scheme : String
  pub host : String
  pub path : String

-- The services that are registered with a gRPC server.
pub data Service : Type 0 where
  identity_service controller_service node_service : Service
