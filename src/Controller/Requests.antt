-- ===== src/Controller/Requests.antt =====
-- The requests and responses of the CSI controller service, with the fields that the driver reads or
-- sets. A getter of a nil message gives the zero value, so such a message is its zero fields; where
-- the code tells nil from empty, the field is an `Option`.
use nexentastor_csi_driver.Common.{Dict, ℤ, ℕ, String, Bool, Option, List, [], ◌∷◌}

-- `csi.VolumeCapability_AccessMode_Mode`, a protobuf enumeration.
abbrev pub AccessMode : Type 0
AccessMode = ℕ

abbrev pub single_node_writer : AccessMode
single_node_writer = 1

abbrev pub single_node_reader_only : AccessMode
single_node_reader_only = 2

abbrev pub multi_node_reader_only : AccessMode
multi_node_reader_only = 3

abbrev pub multi_node_single_writer : AccessMode
multi_node_single_writer = 4

abbrev pub multi_node_multi_writer : AccessMode
multi_node_multi_writer = 5

-- `is_block` is `GetBlock() != nil`.
pub record VolumeCapability : Type 0 where
  pub is_block : Bool
  pub mode : AccessMode

-- `csi.VolumeContentSource`: its type is a snapshot, a volume or nil.
pub data ContentSource : Type 0 where
  from_snapshot : String → ContentSource
  from_volume : String → ContentSource
  from_nothing : ContentSource

-- The segments of each topology.
pub record TopologyRequirement : Type 0 where
  pub preferred : List (Dict String)
  pub requisite : List (Dict String)

pub record CreateVolumeRequest : Type 0 where
  pub name : String
  pub secrets : Dict String
  pub volume_capabilities : Option (List VolumeCapability)
  pub volume_content_source : Option ContentSource
  pub parameters : Dict String
  pub accessibility_requirements : Option TopologyRequirement
  pub required_bytes : ℤ

pub record Volume : Type 0 where
  pub volume_id : String
  pub capacity_bytes : ℤ
  pub content_source : Option ContentSource
  pub volume_context : Dict String
  pub accessible_topology : List (Dict String)

pub record DeleteVolumeRequest : Type 0 where
  pub volume_id : String
  pub secrets : Dict String

pub record CreateSnapshotRequest : Type 0 where
  pub source_volume_id : String
  pub name : String

-- `csi.Snapshot`.
pub record SnapshotEntry : Type 0 where
  pub snapshot_id : String
  pub source_volume_id : String
  pub creation_time : ℤ
  pub ready_to_use : Bool

pub record ListSnapshotsRequest : Type 0 where
  pub snapshot_id : String
  pub source_volume_id : String
  pub starting_token : String
  pub max_entries : ℤ

pub record ListSnapshotsResponse : Type 0 where
  pub entries : List SnapshotEntry
  pub next_token : String

pub record ListVolumesRequest : Type 0 where
  pub starting_token : String
  pub max_entries : ℤ

-- The volume identifiers and the next token.
pub record ListVolumesResponse : Type 0 where
  pub entries : List String
  pub next_token : String

pub record ExpandVolumeRequest : Type 0 where
  pub volume_id : String
  pub secrets : Dict String
  pub required_bytes : ℤ

pub record ValidateCapabilitiesRequest : Type 0 where
  pub volume_id : String
  pub volume_capabilities : Option (List VolumeCapability)
  pub volume_context : Dict String
  pub secrets : Dict String

-- Confirmed modes and context, or the message why not.
pub data ValidateCapabilitiesResponse : Type 0 where
  confirmed : List AccessMode → Dict String → ValidateCapabilitiesResponse
  unconfirmed : String → ValidateCapabilitiesResponse

-- `for _, v := range secrets { secret = v }`: the last value that the loop visits.
unfoldable pub last_secret : Dict String → String
last_secret [] = ""
last_secret ((k, v) ∷ []) = v
last_secret (p ∷ q ∷ secrets) = last_secret (q ∷ secrets)
