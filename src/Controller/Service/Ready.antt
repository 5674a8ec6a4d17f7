-- ===== src/Controller/Service/Ready.antt =====
-- What every request of the controller service finds: usable entries, and a resolver for each of them
-- (`refreshConfig` of pkg/driver/controllerServer.go).
use nexentastor_csi_driver.Common.{All, Dict, lookup, ◌≡◌, ◌≢◌, none}
use nexentastor_csi_driver.Errors.{ok}
use nexentastor_csi_driver.External.{External}
use nexentastor_csi_driver.Process.{Process}
use nexentastor_csi_driver.Process.Frames.{servers, IsValue}
use nexentastor_csi_driver.Config.Data.{NsData}
use nexentastor_csi_driver.Config.Refresh.Rebuilt.{Held, handler-ReadyBy}
use nexentastor_csi_driver.Config.Validate.Accepts.{IsUsable}
use nexentastor_csi_driver.Controller.Resolvers.{update_resolvers, refresh_config}
use nexentastor_csi_driver.Controller.Resolvers.Effects.{
  update_resolvers-kept, AllResolved, update_resolvers-kept, update_resolvers-AllResolved,
}
use nexentastor_csi_driver.Controller.Service.{
  Request, secret_of, serve_request, Runs, still, elsewhere, served,
}
use nexentastor_csi_driver.Controller.Service.Frame.{serve_request-Refreshes}

module _ (X : External) where
  -- The names of the entries have resolvers.
  abbrev Resolved : Dict NsData → Held X → Type 0
  Resolved ns_map v = All (λ e. lookup e.0 v.1 ≢ none) ns_map

  -- Every entry of the config is usable, and the controller server has a resolver for its name.
  abbrev pub Ready : Process X → Type 0
  Ready s = All (λ e. IsUsable e.1) s.config.ns_map × AllResolved X s.config.ns_map s

  update_resolvers-Resolved :
      (ns_map : Dict NsData) (s t : Process X) (u : Unit {0})
      → update_resolvers X ns_map s ≡ (ok u, t)
      → (t.config ≡ s.config) × Resolved ns_map (servers t)
  update_resolvers-Resolved ns_map s t u h =
      ((update_resolvers-kept X ns_map s t u h).0, update_resolvers-AllResolved X ns_map s t u h)

  serve_request-Ready :
      (q : Request) (s : Process X)
      → IsValue (refresh_config X (secret_of q) s).0
      → Ready s
      → Ready (serve_request X q s).1
  unfolding refresh_config
  serve_request-Ready q s i r =
      handler-ReadyBy X (update_resolvers X) Resolved update_resolvers-Resolved (secret_of q)
        (serve_request X q) (serve_request-Refreshes X q) s i r

  pub Runs-Ready : (s t : Process X) → Runs X s t → Ready s → Ready t
  Runs-Ready s t still r = r
  Runs-Ready s t (elsewhere w later) r = Runs-Ready _ t later r
  Runs-Ready s t (served q i later) r = Runs-Ready _ t later (serve_request-Ready q s i r)
