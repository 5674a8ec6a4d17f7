-- ===== src/VolumeId.antt =====
-- pkg/driver/utils.go: volume identifiers, "name:path", or "path" as drivers up to 1.3 wrote them.
pub mod Laws
use nexentastor_csi_driver.Common.{◌<>◌, split, String, Bool, true, false, List, [], ◌∷◌}
use nexentastor_csi_driver.Errors.{invalid_argument, status, Outcome, ok, err}

pub record VolumeInfo : Type 0 where
  pub config_name : String
  pub path : String
  pub is_v13_volume_id_version : Bool

-- The cases of the switch on the number of parts.
volume_info : {F : Type 0} → String → List String → Outcome F VolumeInfo
volume_info volume_id (config_name ∷ path ∷ []) =
    ok (record { config_name = config_name; path = path; is_v13_volume_id_version = false })
volume_info volume_id (path ∷ []) =
    ok (record { config_name = ""; path = path; is_v13_volume_id_version = true })
volume_info volume_id _ = err (status invalid_argument ("Unknown VolumeId format: " <> volume_id))

-- `ParseVolumeID`.
unfoldable pub parse_volume_id : {F : Type 0} → String → Outcome F VolumeInfo
unfolding volume_info split
parse_volume_id volume_id = volume_info volume_id (split ":" volume_id)

-- `fmt.Sprintf("%s:%s", configName, path)`.
abbrev pub volume_id : String → String → String
volume_id config_name path = config_name <> ":" <> path
