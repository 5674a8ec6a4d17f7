-- ===== src/Node/Server/Stale.antt =====
-- The node server of pkg/driver/nodeServer.go where another server of its process has refreshed the
-- config that they share.
use nexentastor_csi_driver.Common.{
  if◌then◌else◌, Dict, ℕ, String, ◌≡◌, refl, sym, ap, ◌∙◌, ◌≢◌, Bool, true, false, arith,
}
use nexentastor_csi_driver.Errors.{ok, value}
use nexentastor_csi_driver.External.{External}
use nexentastor_csi_driver.Process.{Process, Exec, ◌>>=◌, pure}
use nexentastor_csi_driver.Process.Runs.{bind-eq-ok}
use nexentastor_csi_driver.Config.Data.{NsData, Config}
use nexentastor_csi_driver.Config.Refresh.{validate_config, reload, refresh}
use nexentastor_csi_driver.Config.Refresh.Effects.{refresh-unchanged, settled}
use nexentastor_csi_driver.Controller.Resolvers.{update_resolvers, refresh_config}
use nexentastor_csi_driver.Controller.Resolvers.Effects.{update_resolvers-kept}
use nexentastor_csi_driver.Node.Server.{refresh_node_config}

module _ (X : External) where
  pub refresh_node_config-unchanged :
      (s t : Process X) → refresh X "" s ≡ (ok false, t) → refresh_node_config X "" s ≡ (ok tt, t)
  unfolding refresh_node_config
  refresh_node_config-unchanged s t h = rw (h, ◌>>=◌)

  pub resolvers-refresh :
      (secret : String) (s : Process X)
      → ((refresh X secret s).1.controller_resolvers ≡ s.controller_resolvers)
        × ((refresh X secret s).1.node_resolvers ≡ s.node_resolvers)
  unfolding refresh reload validate_config
  resolvers-refresh secret s = (ground arith, ground arith)

  rebuilt-kept :
      (ns_map : Dict NsData) (b : Bool) (s t : Process X) (u : Unit {0})
      → (let m : Exec X (Unit {0}) = if b then update_resolvers X ns_map else pure tt in m) s
        ≡ (ok u, t)
      → (t.config ≡ s.config) × (t.node_resolvers ≡ s.node_resolvers)
  rebuilt-kept ns_map true s t u h = update_resolvers-kept X ns_map s t u h
  rebuilt-kept ns_map false s t u h =
      (ap (λ o. o.1.config) (sym h), ap (λ o. o.1.node_resolvers) (sym h))

  refresh_config-kept :
      (s t : Process X)
      → refresh_config X "" s ≡ (ok tt, t)
      → (t.config ≡ (refresh X "" s).1.config) × (t.node_resolvers ≡ s.node_resolvers)
  unfolding refresh_config
  refresh_config-kept s t h =
      let (b, v, read, later) = bind-eq-ok (refresh X "") _ s h in
      let (same, kept) = rebuilt-kept v.config.ns_map b v t tt later in
      (
        same ∙ ap (λ o. o.1.config) (sym read),
        kept ∙ ap (λ o. o.1.node_resolvers) (sym read) ∙ (resolvers-refresh "" s).1,
      )

  -- A refresh without a secret of the controller server that succeeds, in a process that is a node too
  -- and of a config whose file can be looked at, takes a change of the file away from the node server:
  -- whatever the change was, the node's map of resolvers is the old one, and a refresh without a secret
  -- of the node server that follows, while the time of the file stays the same, leaves it so and reports
  -- no error.
  pub refresh_config-hides_change :
      (s t : Process X) (n : ℕ) (w w' : X.World)
      → s.config.file_path ≢ ""
      → X.stat_mod_time s.config.file_path s.world ≡ (value n, w)
      → refresh_config X "" s ≡ (ok tt, t)
      → X.stat_mod_time s.config.file_path t.world ≡ (value n, w')
      → (t.node_resolvers ≡ s.node_resolvers)
        × (refresh_node_config X "" t ≡ (ok tt, record t { world = w' }))
  refresh_config-hides_change s t n w w' named found refreshed again =
      let (same, kept) = refresh_config-kept s t refreshed in
      let r = refresh X "" s in
      let (time, fixed, path) = settled X s r.1 r.0 n w named found refl in
      let path' : t.config.file_path ≡ s.config.file_path =
        ap (λ (c : Config). c.file_path) same ∙ path in
      (
        kept,
        refresh_node_config-unchanged t _ (
            refresh-unchanged X "" t n w' (λ p. named (sym path' ∙ p)) (rw path' again)
              (rw same (rw (time, fixed) (ground arith)))),
      )
