-- ===== src/Identity/Effects.antt =====
-- A probe and the resolvers of the other servers, which share its config.
use nexentastor_csi_driver.Common.{ℕ, ◌≡◌, sym, ap, ◌∙◌, ◌≢◌, false, arith}
use nexentastor_csi_driver.Errors.{ok, value}
use nexentastor_csi_driver.External.{External}
use nexentastor_csi_driver.Process.{Process, ◌>>=◌}
use nexentastor_csi_driver.Config.Refresh.{refresh}
use nexentastor_csi_driver.Config.Refresh.Effects.{refresh_settles}
use nexentastor_csi_driver.Controller.Resolvers.{refresh_config}
use nexentastor_csi_driver.Node.Server.{refresh_node_config}
use nexentastor_csi_driver.Node.Server.Stale.{refresh_node_config-unchanged, resolvers-refresh}
use nexentastor_csi_driver.Identity.{probe}

module _ (X : External) where
  refresh_config-unchanged :
      (s t : Process X) → refresh X "" s ≡ (ok false, t) → refresh_config X "" s ≡ (ok tt, t)
  unfolding refresh_config
  refresh_config-unchanged s t h = rw (h, ◌>>=◌)

  pub probe-refresh : (s : Process X) → (probe X s).1 ≡ (refresh X "" s).1
  unfolding probe
  probe-refresh s = ground arith

  -- A probe of a config whose file can be looked at takes its change away from the other servers:
  -- the probe leaves their maps of resolvers alone, and a refresh that follows it without a secret,
  -- while the time of the file stays the same, builds no resolvers anew, neither that of the
  -- controller server nor that of the node server.
  pub probe-hides_change :
      (s : Process X) (t : ℕ) (w w' : X.World)
      → let s' = (probe X s).1 in
        s.config.file_path ≢ ""
        → X.stat_mod_time s.config.file_path s.world ≡ (value t, w)
        → X.stat_mod_time s.config.file_path s'.world ≡ (value t, w')
        → (s'.controller_resolvers ≡ s.controller_resolvers)
          × (s'.node_resolvers ≡ s.node_resolvers)
          × (refresh_config X "" s' ≡ (ok tt, record s' { world = w' }))
          × (refresh_node_config X "" s' ≡ (ok tt, record s' { world = w' }))
  probe-hides_change s t w w' named found again =
      let s' = (probe X s).1 in
      let same = probe-refresh s in
      let (kept, kept_node) = resolvers-refresh X "" s in
      let settled =
        refresh_settles X s s' (refresh X "" s).0 t w w' named found
          (λ i. ((refresh X "" s).0, sym same i)) again in
      (
        ap (λ (u : Process X). u.controller_resolvers) same ∙ kept,
        ap (λ (u : Process X). u.node_resolvers) same ∙ kept_node,
        refresh_config-unchanged s' _ settled,
        refresh_node_config-unchanged X s' _ settled,
      )
