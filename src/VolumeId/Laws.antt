-- ===== src/VolumeId/Laws.antt =====
-- Printing and parsing volume identifiers (pkg/driver/utils.go).
use nexentastor_csi_driver.Common.{
  if◌then◌else◌, split, join, Lacks, split_of_Lacks, split-append, join-split, Char, String, ◌≡◌,
  ap, ◌∙◌, true, false, List, [], ◌∷◌, arith,
}
use nexentastor_csi_driver.Errors.{ok}
use nexentastor_csi_driver.VolumeId.{VolumeInfo, parse_volume_id, volume_id, volume_info}

abbrev colon : Char
colon = ":"

-- The identifier of a volume parses to the config and the path that it was made of, if neither holds
-- a colon.
pub parse_volume_id-volume_id :
    (F : Type 0) (config_name path : String)
    → Lacks colon config_name
    → Lacks colon path
    → parse_volume_id {F = F} (volume_id config_name path)
      ≡ ok (record { config_name = config_name; path = path; is_v13_volume_id_version = false })
unfolding parse_volume_id
parse_volume_id-volume_id F config_name path h k = ap (volume_info (volume_id config_name path)) (
    split-append colon config_name path h
    ∙ ap (λ parts. config_name ∷ parts) (split_of_Lacks colon path k))

-- An identifier with no colon is one of version 1.3, and the whole of it is the path.
parse_volume_id-v13 :
    (F : Type 0) (path : String)
    → Lacks colon path
    → parse_volume_id {F = F} path
      ≡ ok (record { config_name = ""; path = path; is_v13_volume_id_version = true })
unfolding parse_volume_id
parse_volume_id-v13 F path h = rw (split_of_Lacks colon path h)

-- Every identifier that parses is the printed form of its parts.
pub volume_id-parse_volume_id :
    (F : Type 0) (id : String) (i : VolumeInfo)
    → parse_volume_id {F = F} id ≡ ok i
    → (if i.is_v13_volume_id_version then i.path else volume_id i.config_name i.path) ≡ id
unfolding parse_volume_id join
volume_id-parse_volume_id F id i e = printed (split ":" id) e ∙ join-split colon id
  where
    printed :
        (parts : List String)
        → volume_info {F = F} id parts ≡ ok i
        → (if i.is_v13_volume_id_version then i.path else volume_id i.config_name i.path)
          ≡ join ":" parts
    printed [] h = cc
    printed (path ∷ []) h = ground arith
    printed (config_name ∷ path ∷ []) h = ground arith
    printed (a ∷ b ∷ c ∷ parts) h = cc
