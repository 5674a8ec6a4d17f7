-- ===== src/Controller/Service.antt =====
-- The requests of the controller service in pkg/driver/controllerServer.go, as gRPC hands them to the
-- server one after the other.
pub mod Frame
pub mod Ready
use nexentastor_csi_driver.Common.{Dict, ℤ, String, List}
use nexentastor_csi_driver.External.{External}
use nexentastor_csi_driver.Process.{Process, Exec}
use nexentastor_csi_driver.Process.Frames.{IsValue}
use nexentastor_csi_driver.Controller.Resolvers.{refresh_config}
use nexentastor_csi_driver.Controller.Requests.{
  CreateVolumeRequest, Volume, DeleteVolumeRequest, CreateSnapshotRequest, SnapshotEntry,
  ListSnapshotsRequest, ListSnapshotsResponse, ListVolumesRequest, ListVolumesResponse,
  ExpandVolumeRequest, ValidateCapabilitiesRequest, ValidateCapabilitiesResponse, last_secret,
}
use nexentastor_csi_driver.Controller.Create.{create_volume}
use nexentastor_csi_driver.Controller.Delete.{delete_volume, controller_expand_volume, get_capacity}
use nexentastor_csi_driver.Controller.Snapshots.{create_snapshot, delete_snapshot, list_snapshots}
use nexentastor_csi_driver.Controller.Fixed.{
  ControllerCapability, controller_get_capabilities, controller_get_volume,
  controller_publish_volume, controller_unpublish_volume,
}
use nexentastor_csi_driver.Controller.Volumes.{list_volumes, validate_volume_capabilities}

-- A request of each method. `GetCapacity` carries its parameters; the requests of which only the
-- identifier matters carry that.
pub data Request : Type 0 where
  of_create_volume : CreateVolumeRequest → Request
  of_delete_volume : DeleteVolumeRequest → Request
  of_expand_volume : ExpandVolumeRequest → Request
  of_get_capacity : Dict String → Request
  of_create_snapshot : CreateSnapshotRequest → Request
  of_delete_snapshot : String → Request
  of_list_snapshots : ListSnapshotsRequest → Request
  of_list_volumes : ListVolumesRequest → Request
  of_validate : ValidateCapabilitiesRequest → Request
  of_get_capabilities : Request
  of_get_volume : String → Request
  of_publish_volume : String → Request
  of_unpublish_volume : String → Request

-- What a request is answered with where it succeeds.
unfoldable pub Answer : Request → Type 0
Answer (of_create_volume req) = Volume
Answer (of_expand_volume req) = ℤ
Answer (of_get_capacity parameters) = ℤ
Answer (of_create_snapshot req) = SnapshotEntry
Answer (of_list_snapshots req) = ListSnapshotsResponse
Answer (of_list_volumes req) = ListVolumesResponse
Answer (of_validate req) = ValidateCapabilitiesResponse
Answer of_get_capabilities = List ControllerCapability
Answer _ = Unit {0}

-- The secret that the handler refreshes the config with, the empty text where it has none.
unfoldable pub secret_of : Request → String
secret_of (of_create_volume req) = last_secret req.secrets
secret_of (of_delete_volume req) = last_secret req.secrets
secret_of (of_expand_volume req) = last_secret req.secrets
secret_of (of_validate req) = last_secret req.secrets
secret_of _ = ""

module _ (X : External) where
  -- The handler of a request.
  unfoldable pub serve_request : (q : Request) → Exec X (Answer q)
  unfolding Answer
  serve_request (of_create_volume req) = create_volume X req
  serve_request (of_delete_volume req) = delete_volume X req
  serve_request (of_expand_volume req) = controller_expand_volume X req
  serve_request (of_get_capacity parameters) = get_capacity X parameters
  serve_request (of_create_snapshot req) = create_snapshot X req
  serve_request (of_delete_snapshot id) = delete_snapshot X id
  serve_request (of_list_snapshots req) = list_snapshots X req
  serve_request (of_list_volumes req) = list_volumes X req
  serve_request (of_validate req) = validate_volume_capabilities X req
  serve_request of_get_capabilities = controller_get_capabilities X
  serve_request (of_get_volume id) = controller_get_volume X id
  serve_request (of_publish_volume id) = controller_publish_volume X id
  serve_request (of_unpublish_volume id) = controller_unpublish_volume X id

-- What happens to the process between its start and a request: the world, its files included, changes
-- by itself, or a request is served whose handler could refresh the config.
pub data Runs (X : External) : Process X → Process X → Type 0 where
  still : {s : Process X} → Runs X s s
  elsewhere : {s t : Process X} → (w : X.World) → Runs X (record s { world = w }) t → Runs X s t
  served :
      {s t : Process X}
      → (q : Request) → IsValue (refresh_config X (secret_of q) s).0
      → Runs X (serve_request X q s).1 t
      → Runs X s t
