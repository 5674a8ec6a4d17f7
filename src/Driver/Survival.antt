-- ===== src/Driver/Survival.antt =====
-- `Validate` and `Run` of pkg/driver/driver.go do not panic on a config whose flags are set, `Run` where
-- no handler does that it serves.
use nexentastor_csi_driver.Common.{
  Option-cases, All, Dict, insert, String, ◌≡◌, ◌≢◌, inl, inr, none, List, [], ◌∷◌, arith,
}
use nexentastor_csi_driver.Errors.{ok}
use nexentastor_csi_driver.External.{External}
use nexentastor_csi_driver.External.Laws.{MakesResolvers}
use nexentastor_csi_driver.Process.{Process, ◌>>=◌, deref}
use nexentastor_csi_driver.Process.Frames.{kept_config}
use nexentastor_csi_driver.Process.Survival.{
  Survives, bind-Survives, deref-Survives, unless_failed-Survives,
}
use nexentastor_csi_driver.Process.Runs.{Reply-cases}
use nexentastor_csi_driver.Role.{Role}
use nexentastor_csi_driver.Config.Data.{NsData}
use nexentastor_csi_driver.Controller.Resolvers.{
  resolver_args, new_resolvers, new_controller_server,
}
use nexentastor_csi_driver.Node.Server.{new_node_resolvers, new_node_server}
use nexentastor_csi_driver.External.Params.{Service}
use nexentastor_csi_driver.Serve.{Call, serve_calls}
use nexentastor_csi_driver.Driver.{
  Driver, socket_of, check_licenses, check_cluster, validate_entries, validate_driver, open_socket,
  register_controller, register_node, register, prepare, run,
}
use nexentastor_csi_driver.Driver.Frame.{open_socket-KeepsServers}
use nexentastor_csi_driver.Driver.Registered.{register_controller-AllResolved}

-- The flag `InsecureSkipVerify` of every entry is set.
abbrev pub FlagsSet : Dict NsData → Type 0
FlagsSet ns_map = All (λ e. e.1.insecure_skip_verify ≢ none) ns_map

module _ (X : External) (L : MakesResolvers X) where
  check_licenses-Survives :
      (providers : List X.Provider) (s : Process X) → Survives (check_licenses X providers) s
  unfolding check_licenses
  check_licenses-Survives [] s = λ e. cc
  check_licenses-Survives (p ∷ providers) s =
      check_licenses-Survives providers (record s { world = (X.get_license p s.world).1 })

  check_cluster-Survives :
      (resolver : X.Resolver) (s : Process X) → Survives (check_cluster X resolver) s
  unfolding check_cluster
  check_cluster-Survives resolver s = ground arith

  validate_entries-Survives :
      (ns_map : Dict NsData) (s : Process X)
      → FlagsSet ns_map
      → Survives (validate_entries X ns_map) s
  unfolding validate_entries
  validate_entries-Survives [] s h = λ e. cc
  validate_entries-Survives ((name, cfg) ∷ rest) s h =
      bind-Survives (deref cfg.insecure_skip_verify) _ s
        (deref-Survives cfg.insecure_skip_verify s h.0)
        (λ skip t e.
          let made = X.new_resolver (resolver_args cfg skip) t.world in
          unless_failed-Survives made.0.1 _ _ (record t { world = made.1 })
            (λ fine.
              bind-Survives (deref made.0.0) _ _
                (deref-Survives made.0.0 _ (L (resolver_args cfg skip) t.world fine))
                (λ resolver t e.
                  bind-Survives (check_licenses X (X.nodes resolver)) _ t
                    (check_licenses-Survives (X.nodes resolver) t)
                    (λ u t e.
                      bind-Survives (check_cluster X resolver) _ t
                        (check_cluster-Survives resolver t)
                        (λ u t e. validate_entries-Survives rest t h.1)))))

  pub validate_driver-Survives :
      (s : Process X) → FlagsSet s.config.ns_map → Survives (validate_driver X) s
  unfolding validate_driver
  validate_driver-Survives s h = validate_entries-Survives s.config.ns_map s h

  new_resolvers-Survives :
      (ns_map : Dict NsData) (s : Process X) → FlagsSet ns_map → Survives (new_resolvers X ns_map) s
  unfolding new_resolvers
  new_resolvers-Survives [] s h = λ e. cc
  new_resolvers-Survives ((name, cfg) ∷ rest) s h =
      bind-Survives (deref cfg.insecure_skip_verify) _ s
        (deref-Survives cfg.insecure_skip_verify s h.0)
        (λ skip t e.
          let made = X.new_resolver (resolver_args cfg skip) t.world in
          unless_failed-Survives made.0.1 _ _ (record t { world = made.1 })
            (λ fine. elim (Option-cases made.0.0) [
              | inl nil_pointer ↦ absurd (L (resolver_args cfg skip) t.world fine nil_pointer)
              | inr (r, pointer) ↦ rw pointer (
                  new_resolvers-Survives rest
                    (record t {
                      controller_resolvers = insert name r t.controller_resolvers;
                      world = made.1;
                    })
                    h.1)
            ]))

  new_node_resolvers-Survives :
      (ns_map : Dict NsData) (s : Process X)
      → FlagsSet ns_map
      → Survives (new_node_resolvers X ns_map) s
  unfolding new_node_resolvers
  new_node_resolvers-Survives [] s h = λ e. cc
  new_node_resolvers-Survives ((name, cfg) ∷ rest) s h =
      bind-Survives (deref cfg.insecure_skip_verify) _ s
        (deref-Survives cfg.insecure_skip_verify s h.0)
        (λ skip t e.
          let made = X.new_resolver (resolver_args cfg skip) t.world in
          unless_failed-Survives made.0.1 _ _ (record t { world = made.1 })
            (λ fine.
              new_node_resolvers-Survives rest
                (record t {
                  node_resolvers = insert name made.0.0 t.node_resolvers;
                  world = made.1;
                })
                h.1))

  register_controller-Survives :
      (role : Role) (s : Process X)
      → FlagsSet s.config.ns_map
      → Survives (register_controller X role) s
  unfolding register_controller new_controller_server
  register_controller-Survives role s h =
      let made =
        new_resolvers-Survives s.config.ns_map (record s { controller_resolvers = [] }) h in
      ground arith

  register_node-Survives :
      (role : Role) (s : Process X) → FlagsSet s.config.ns_map → Survives (register_node X role) s
  unfolding register_node new_node_server
  register_node-Survives role s h =
      let made = new_node_resolvers-Survives s.config.ns_map (record s { node_resolvers = [] }) h in
      ground arith

  register-Survives :
      (role : Role) (s : Process X) → FlagsSet s.config.ns_map → Survives (register X role) s
  unfolding register
  register-Survives role s h =
      bind-Survives (register_controller X role) _ s (register_controller-Survives role s h)
        (λ c t e.
          let same = (register_controller-AllResolved X role c s t e).1 in
          bind-Survives (register_node X role) _ t (register_node-Survives role t (rw same h))
            (λ n u e p. cc))

  open_socket-Survives :
      (scheme socket : String) (s : Process X) → Survives (open_socket X scheme socket) s
  unfolding open_socket
  open_socket-Survives scheme socket s = ground arith

  prepare-Survives :
      (driver : Driver) (s : Process X) → FlagsSet s.config.ns_map → Survives (prepare X driver) s
  unfolding prepare
  prepare-Survives driver s h = elim (Reply-cases (X.parse_url driver.endpoint)) [
    | inr (f, bad_endpoint) ↦ ground arith
    | inl (url, parsed_url) ↦
        let opened = open_socket X url.scheme (socket_of url) in
        let going : Survives (opened >>= λ _. register X driver.role) s =
          bind-Survives opened _ s (open_socket-Survives url.scheme (socket_of url) s) (λ u t e.
            let kept =
              kept_config opened s t (ok u) (open_socket-KeepsServers X url.scheme (socket_of url))
                e in
            register-Survives driver.role t (rw kept h)) in
        ground arith
  ]

  -- On such a config, `Run` panics only where a handler does that `Serve` runs.
  pub run-Survives :
      (driver : Driver) (calls : List (Call X)) (s : Process X)
      → FlagsSet s.config.ns_map
      → ((services : List Service) (t : Process X)
          → prepare X driver s ≡ (ok services, t)
          → Survives (serve_calls X services calls) t)
      → Survives (run X driver calls) s
  unfolding run
  run-Survives driver calls s h handlers =
      bind-Survives (prepare X driver) _ s (prepare-Survives driver s h) (λ services t e.
        bind-Survives (serve_calls X services calls) _ t (handlers services t e)
          (λ u v served. ground arith))
