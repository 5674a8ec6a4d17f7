-- ===== src/Driver/Frame.antt =====
-- `Validate` of pkg/driver/driver.go and the opening of its socket change nothing of the process but
-- the world.
use nexentastor_csi_driver.Common.{Dict, String, refl, List, [], ◌∷◌, arith}
use nexentastor_csi_driver.External.{External}
use nexentastor_csi_driver.Process.{fail_with, deref}
use nexentastor_csi_driver.Process.Frames.{
  deref-KeepsServers, fail_with-KeepsServers, KeepsServers, bind-KeepsServers,
}
use nexentastor_csi_driver.Config.Data.{NsData}
use nexentastor_csi_driver.Controller.Resolvers.{resolver_args}
use nexentastor_csi_driver.Driver.{
  open_socket, check_licenses, check_cluster, validate_entries, validate_driver,
}

module _ (X : External) where
  check_licenses-KeepsServers :
      (providers : List X.Provider) → KeepsServers (check_licenses X providers)
  unfolding check_licenses
  check_licenses-KeepsServers [] s = refl
  check_licenses-KeepsServers (p ∷ providers) s =
      check_licenses-KeepsServers providers (record s { world = (X.get_license p s.world).1 })

  check_cluster-KeepsServers : (resolver : X.Resolver) → KeepsServers (check_cluster X resolver)
  unfolding check_cluster
  check_cluster-KeepsServers resolver s = ground arith

  validate_entries-KeepsServers : (ns_map : Dict NsData) → KeepsServers (validate_entries X ns_map)
  unfolding validate_entries
  validate_entries-KeepsServers [] s = refl
  validate_entries-KeepsServers ((name, cfg) ∷ rest) s =
      bind-KeepsServers (deref cfg.insecure_skip_verify) _
        (deref-KeepsServers cfg.insecure_skip_verify)
        (λ skip s.
          let made = X.new_resolver (resolver_args cfg skip) s.world in
          bind-KeepsServers (fail_with made.0.1 _) _ (fail_with-KeepsServers made.0.1 _)
            (λ u. bind-KeepsServers (deref made.0.0) _ (deref-KeepsServers made.0.0) (λ resolver.
              bind-KeepsServers (check_licenses X (X.nodes resolver)) _
                (check_licenses-KeepsServers (X.nodes resolver))
                (λ u.
                  bind-KeepsServers (check_cluster X resolver) _
                    (check_cluster-KeepsServers resolver)
                    (λ u. validate_entries-KeepsServers rest))))
            (record s { world = made.1 }))
        s

  pub validate_driver-KeepsServers : KeepsServers (validate_driver X)
  unfolding validate_driver
  validate_driver-KeepsServers s = validate_entries-KeepsServers s.config.ns_map s

  pub open_socket-KeepsServers :
      (scheme socket : String) → KeepsServers (open_socket X scheme socket)
  unfolding open_socket
  open_socket-KeepsServers scheme socket s = ground arith
