-- ===== src/Tests/Identifiers.antt =====
-- Volume identifiers and the array functions at concrete inputs.
use nexentastor_csi_driver.Common.{if◌then◌else◌, ◌≡◌, refl, true, false, arith, ◌==◌}
use nexentastor_csi_driver.Errors.{invalid_argument, status, ok, err}
use nexentastor_csi_driver.VolumeId.{VolumeInfo, parse_volume_id, volume_id}
use nexentastor_csi_driver.VolumeId.Laws.{parse_volume_id-volume_id, volume_id-parse_volume_id}
use nexentastor_csi_driver.Arrays.{Regexp}
use nexentastor_csi_driver.Tests.Toy.{Fault}

two_colons :
    parse_volume_id {F = Fault} "a:b:c"
    ≡ err (status invalid_argument "Unknown VolumeId format: a:b:c")
unfolding parse_volume_id
two_colons = refl

no_name :
    parse_volume_id {F = Fault} ""
    ≡ ok (record { config_name = ""; path = ""; is_v13_volume_id_version = true })
unfolding parse_volume_id
no_name = refl

parse_volume_id-volume_id_example :
    parse_volume_id {F = Fault} (volume_id "ns" "p/v")
    ≡ ok (record { config_name = "ns"; path = "p/v"; is_v13_volume_id_version = false })
parse_volume_id-volume_id_example =
    parse_volume_id-volume_id Fault "ns" "p/v" (omega arith, (omega arith, tt))
      (omega arith, (omega arith, (omega arith, tt)))

abbrev parsed : VolumeInfo
parsed = record { config_name = "ns"; path = "p/v"; is_v13_volume_id_version = false }

volume_id-parse_volume_id_example :
    (if parsed.is_v13_volume_id_version
      then parsed.path
      else volume_id parsed.config_name parsed.path)
    ≡ "ns:p/v"
volume_id-parse_volume_id_example =
    volume_id-parse_volume_id Fault "ns:p/v" parsed (unfold parse_volume_id in refl)

abbrev is_nolock : Regexp
is_nolock s = s == "nolock"
