-- ===== src/Node/Service.antt =====
-- The requests of the node service in pkg/driver/nodeServer.go, as gRPC hands them to the server one
-- after the other.
pub mod Frame
pub mod Ready
use nexentastor_csi_driver.Common.{ℤ, String, ◌≡◌, false, List}
use nexentastor_csi_driver.External.{External}
use nexentastor_csi_driver.Process.{Process, Exec}
use nexentastor_csi_driver.Process.Frames.{IsValue}
use nexentastor_csi_driver.Controller.Requests.{last_secret}
use nexentastor_csi_driver.Errors.{ok}
use nexentastor_csi_driver.Config.Refresh.{refresh}
use nexentastor_csi_driver.Identity.{probe}
use nexentastor_csi_driver.Node.Server.{refresh_node_config, node_get_volume_stats}
use nexentastor_csi_driver.Node.Publish.{PublishRequest, node_publish_volume, node_unpublish_volume}
use nexentastor_csi_driver.Node.Fixed.{
  NodeInfo, node_get_info, node_get_capabilities, node_stage_volume, node_unstage_volume,
  node_expand_volume,
}

-- A request of each method, with what its handler reads.
pub data NodeRequest : Type 0 where
  of_publish : PublishRequest → NodeRequest
  of_unpublish : String → String → NodeRequest
  of_volume_stats : String → String → NodeRequest
  of_node_info : String → NodeRequest
  of_node_capabilities : NodeRequest
  of_stage of_unstage of_node_expand : String → NodeRequest

-- What a request is answered with where it succeeds.
unfoldable pub NodeAnswer : NodeRequest → Type 0
NodeAnswer (of_volume_stats path id) = ℤ
NodeAnswer (of_node_info id) = NodeInfo
NodeAnswer of_node_capabilities = List (Unit {0})
NodeAnswer _ = Unit {0}

-- The secret that the handler refreshes the config with, the empty text where it has none.
unfoldable pub node_secret_of : NodeRequest → String
node_secret_of (of_publish req) = last_secret req.secrets
node_secret_of _ = ""

module _ (X : External) where
  -- The handler of a request.
  unfoldable pub serve_node_request : (q : NodeRequest) → Exec X (NodeAnswer q)
  unfolding NodeAnswer
  serve_node_request (of_publish req) = node_publish_volume X req
  serve_node_request (of_unpublish id target) = node_unpublish_volume X id target
  serve_node_request (of_volume_stats path id) = node_get_volume_stats X path id
  serve_node_request (of_node_info id) = node_get_info X id
  serve_node_request of_node_capabilities = node_get_capabilities X
  serve_node_request (of_stage id) = node_stage_volume X id
  serve_node_request (of_unstage id) = node_unstage_volume X id
  serve_node_request (of_node_expand id) = node_expand_volume X id

-- What happens to a process whose servers are the identity and the node server: the world changes by
-- itself, a request of the node service is served whose handler could refresh the config, or a probe of
-- the identity server, which shares the config, is served that finds it unchanged. The other requests of
-- the identity server do not read or change the process.
pub data NodeRuns (X : External) : Process X → Process X → Type 0 where
  node_still : {s : Process X} → NodeRuns X s s
  node_elsewhere :
      {s t : Process X} → (w : X.World) → NodeRuns X (record s { world = w }) t → NodeRuns X s t
  node_served :
      {s t : Process X}
      → (q : NodeRequest) → IsValue (refresh_node_config X (node_secret_of q) s).0
      → NodeRuns X (serve_node_request X q s).1 t
      → NodeRuns X s t
  node_probed :
      {s t : Process X}
      → (refresh X "" s).0 ≡ ok false
      → NodeRuns X (probe X s).1 t
      → NodeRuns X s t
