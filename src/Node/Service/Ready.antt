-- ===== src/Node/Service/Ready.antt =====
-- What every request of the node service finds: usable entries, and a resolver for each of them
-- (`refreshConfig` of pkg/driver/nodeServer.go).
use nexentastor_csi_driver.Common.{All, Dict, ◌≡◌, sym, ap, ◌∙◌, subst, ◌≢◌, false, none}
use nexentastor_csi_driver.External.{External}
use nexentastor_csi_driver.External.Laws.{MakesResolvers}
use nexentastor_csi_driver.Process.{Process}
use nexentastor_csi_driver.Identity.{probe}
use nexentastor_csi_driver.Identity.Effects.{probe-refresh}
use nexentastor_csi_driver.Config.Refresh.{refresh}
use nexentastor_csi_driver.Config.Refresh.Effects.{refresh-false}
use nexentastor_csi_driver.Errors.{ok}
use nexentastor_csi_driver.Process.Frames.{servers, IsValue}
use nexentastor_csi_driver.Config.Data.{NsData}
use nexentastor_csi_driver.Config.Refresh.Rebuilt.{Held, handler-ReadyBy}
use nexentastor_csi_driver.Config.Validate.Accepts.{IsUsable}
use nexentastor_csi_driver.Node.Server.{update_node_resolvers, refresh_node_config}
use nexentastor_csi_driver.Node.Server.Effects.{pointer_at, update_node_resolvers-pointers}
use nexentastor_csi_driver.Node.Service.{
  NodeRequest, node_secret_of, serve_node_request, NodeRuns, node_still, node_elsewhere,
  node_served, node_probed,
}
use nexentastor_csi_driver.Node.Service.Frame.{serve_node_request-Refreshes}

-- The pointers of the names are not nil.
abbrev Pointed : (X : External) → Dict NsData → Held X → Type 0
Pointed X ns_map v = All (λ e. pointer_at e.0 v.2 ≢ none) ns_map

-- Every entry of the config is usable, and the node server has a pointer to a resolver for its name.
abbrev pub NodeReady : (X : External) → Process X → Type 0
NodeReady X s =
    All (λ e. IsUsable e.1) s.config.ns_map
    × All (λ e. pointer_at e.0 s.node_resolvers ≢ none) s.config.ns_map

module _ (X : External) (L : MakesResolvers X) where
  serve_node_request-NodeReady :
      (q : NodeRequest) (s : Process X)
      → IsValue (refresh_node_config X (node_secret_of q) s).0
      → NodeReady X s
      → NodeReady X (serve_node_request X q s).1
  unfolding refresh_node_config
  serve_node_request-NodeReady q s i r =
      handler-ReadyBy X (update_node_resolvers X) (Pointed X) (update_node_resolvers-pointers X L)
        (node_secret_of q) (serve_node_request X q) (serve_node_request-Refreshes X q) s i r

  probe-NodeReady :
      (s : Process X) → (refresh X "" s).0 ≡ ok false → NodeReady X s → NodeReady X (probe X s).1
  probe-NodeReady s unchanged r =
      let same =
        refresh-false X "" s (refresh X "" s).1 (ap (λ o. (o, (refresh X "" s).1)) unchanged) in
      let kept : servers (probe X s).1 ≡ servers s = ap servers (probe-refresh X s) ∙ same in
      subst
        (λ (h : Held X).
          All (λ e. IsUsable e.1) h.0.ns_map × All (λ e. pointer_at e.0 h.2 ≢ none) h.0.ns_map)
        (sym kept) r

  -- However many requests of the node service and probes a process gets whose servers are the identity
  -- and the node server alone, and however the files and the storages change in between, it stays ready
  -- while no `refreshConfig` fails and no probe fails or finds the config changed, if the client library
  -- makes a resolver whenever it gives no error: every entry of the config is usable and has a resolver
  -- that is no nil pointer.
  pub NodeRuns-NodeReady : (s t : Process X) → NodeRuns X s t → NodeReady X s → NodeReady X t
  NodeRuns-NodeReady s t node_still r = r
  NodeRuns-NodeReady s t (node_elsewhere w later) r = NodeRuns-NodeReady _ t later r
  NodeRuns-NodeReady s t (node_served q i later) r =
      NodeRuns-NodeReady _ t later (serve_node_request-NodeReady q s i r)
  NodeRuns-NodeReady s t (node_probed unchanged later) r =
      NodeRuns-NodeReady _ t later (probe-NodeReady s unchanged r)
