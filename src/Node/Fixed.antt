-- ===== src/Node/Fixed.antt =====
-- The answers of pkg/driver/nodeServer.go that read nothing but the node's identifier.
use nexentastor_csi_driver.Common.{String, Dict, List, []}
use nexentastor_csi_driver.Errors.{unimplemented}
use nexentastor_csi_driver.External.{External}
use nexentastor_csi_driver.Process.{Exec, pure, raise_status}

-- `csi.NodeGetInfoResponse`: the identifier and the segments of the topology.
pub record NodeInfo : Type 0 where
  pub node_id : String
  pub segments : Dict String

module _ (X : External) where
  -- `NodeGetInfo`, from `s.nodeID`.
  unfoldable pub node_get_info : String → Exec X NodeInfo
  node_get_info node_id = pure (record { node_id = node_id; segments = [] })

  -- `NodeGetCapabilities`: none of them.
  unfoldable pub node_get_capabilities : Exec X (List (Unit {0}))
  node_get_capabilities = pure []

  -- `NodeStageVolume`, `NodeUnstageVolume` and `NodeExpandVolume`, from the volume identifier of their
  -- requests.
  unfoldable pub node_stage_volume : String → Exec X (Unit {0})
  node_stage_volume volume_id = raise_status unimplemented ""

  unfoldable pub node_unstage_volume : String → Exec X (Unit {0})
  node_unstage_volume volume_id = raise_status unimplemented ""

  unfoldable pub node_expand_volume : String → Exec X (Unit {0})
  node_expand_volume volume_id = raise_status unimplemented ""
