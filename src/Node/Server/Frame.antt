-- ===== src/Node/Server/Frame.antt =====
-- `resolveNS` of pkg/driver/nodeServer.go changes nothing of the process but the world.
use nexentastor_csi_driver.Common.{lookup, String, refl, Option, none, some, arith}
use nexentastor_csi_driver.External.{External}
use nexentastor_csi_driver.Process.Frames.{KeepsServers, bind-KeepsServers}
use nexentastor_csi_driver.VolumeId.{VolumeInfo}
use nexentastor_csi_driver.Node.Server.{
  resolve_node_ns, get_v13_compatible_config_name, config_name_of, resolve_pointer,
}

module _ (X : External) where
  resolve_pointer-KeepsServers :
      (r : Option (Option X.Resolver)) (path : String) → KeepsServers (resolve_pointer X r path)
  unfolding resolve_pointer
  resolve_pointer-KeepsServers none path s = refl
  resolve_pointer-KeepsServers (some none) path s = refl
  resolve_pointer-KeepsServers (some (some r)) path s = refl

  pub resolve_node_ns-KeepsServers :
      (config_name path : String) → KeepsServers (resolve_node_ns X config_name path)
  unfolding resolve_node_ns
  resolve_node_ns-KeepsServers config_name path s =
      bind-KeepsServers (resolve_pointer X (lookup config_name s.node_resolvers) path) _
        (resolve_pointer-KeepsServers (lookup config_name s.node_resolvers) path)
        (λ found s. ground arith) s

  pub config_name_of-KeepsServers : (i : VolumeInfo) → KeepsServers (config_name_of X i)
  unfolding get_v13_compatible_config_name
  config_name_of-KeepsServers i s = ground arith
