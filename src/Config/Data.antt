-- ===== src/Config/Data.antt =====
-- The types of pkg/config/config.go.
use nexentastor_csi_driver.Common.{Dict, ℕ, String, Bool, false, Option, none}

-- `NsData`; a nil `InsecureSkipVerify` is `none`.
pub record NsData : Type 0 where
  pub address : String
  pub username : String
  pub password : String
  pub zone : String
  pub default_dataset : String
  pub default_data_ip : String
  pub default_mount_fs_type : String
  pub default_mount_options : String
  pub v13_compatibility : Bool
  pub mount_point_permissions : String
  pub insecure_skip_verify : Option Bool

-- The fields of `Config` that the YAML text sets.
pub record Content : Type 0 where
  pub ns_map : Dict NsData
  pub debug : Bool

-- `Config`. A modification time is a number; only its equality is read.
pub record Config : Type 0 where
  pub content : Content
  pub open content use *
  pub file_path : String
  pub last_mod_time : ℕ
  pub temporary : Bool

-- The zero `NsData`, which Go gives for a name that the map lacks.
abbrev pub zero_ns_data : NsData
zero_ns_data = record {
  address = "";
  username = "";
  password = "";
  zone = "";
  default_dataset = "";
  default_data_ip = "";
  default_mount_fs_type = "";
  default_mount_options = "";
  v13_compatibility = false;
  mount_point_permissions = "";
  insecure_skip_verify = none;
}
