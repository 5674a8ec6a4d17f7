-- ===== src/Controller/Capability.antt =====
-- Volume capabilities and topology in pkg/driver/controllerServer.go.
pub mod Support
use nexentastor_csi_driver.Common.{
  if◌then◌else◌, nat_eq, get_or, Dict, lookup, String, Bool, true, false, Option, none, some, List,
  [], ◌∷◌,
}
use nexentastor_csi_driver.Controller.Requests.{
  AccessMode, single_node_writer, single_node_reader_only, multi_node_reader_only,
  multi_node_single_writer, multi_node_multi_writer, VolumeCapability, TopologyRequirement,
}

-- `supportedVolumeCapabilities`, by their access modes.
abbrev pub supported_volume_capabilities : List AccessMode
supported_volume_capabilities =
    single_node_reader_only ∷ single_node_writer ∷ multi_node_reader_only ∷ multi_node_single_writer
    ∷ multi_node_multi_writer ∷ []

is_supported : AccessMode → List AccessMode → Bool
is_supported requested [] = false
is_supported requested (mode ∷ modes) =
    if nat_eq mode requested then true else is_supported requested modes

-- `validateVolumeCapability`.
unfoldable pub validate_volume_capability : VolumeCapability → Bool
unfolding is_supported
validate_volume_capability c =
    if c.is_block then false else is_supported c.mode supported_volume_capabilities

first_zone : List (Dict String) → Option String
first_zone [] = none
first_zone (segments ∷ topologies) =
    let rest = first_zone topologies in
    elim (lookup "topology.kubernetes.io/zone" segments) [ none ↦ rest | some zone ↦ some zone ]

-- `pickAvailabilityZone`.
unfoldable pub pick_availability_zone : Option TopologyRequirement → String
unfolding first_zone
pick_availability_zone none = ""
pick_availability_zone (some requirement) = elim (first_zone requirement.preferred) [
  | some zone ↦ zone
  | none ↦ get_or (first_zone requirement.requisite) ""
]
