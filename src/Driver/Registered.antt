-- ===== src/Driver/Registered.antt =====
-- What `Run` of pkg/driver/driver.go has set up when it begins to serve.
use nexentastor_csi_driver.Common.{
  if◌then◌else◌, Bool-cases, Option-cases, ◌<>◌, Dict, lookup, insert, lookup-insert, String, ◌≡◌,
  refl, sym, ap, ◌∙◌, subst, ◌≢◌, inl, inr, true, none, List, [], ◌∷◌, ◌++◌, arith, ◌==◌, eq_refl,
}
use nexentastor_csi_driver.Errors.{Error, plain, ok}
use nexentastor_csi_driver.External.{External}
use nexentastor_csi_driver.External.Params.{
  Service, identity_service, controller_service, node_service,
}
use nexentastor_csi_driver.Process.{Process, ◌>>=◌, catch, pure, raise}
use nexentastor_csi_driver.Process.Runs.{Reply-cases, bind-eq-ok, catch-eq-ok, err-ne-ok}
use nexentastor_csi_driver.Driver.Frame.{open_socket-KeepsServers}
use nexentastor_csi_driver.Driver.{
  Driver, socket_of, open_socket, register_controller, register_node, register, prepare,
}
use nexentastor_csi_driver.Driver.Frame.{open_socket-KeepsServers}
use nexentastor_csi_driver.Process.Frames.{kept_config}
use nexentastor_csi_driver.Role.{Role, is_controller, is_node}
use nexentastor_csi_driver.Config.Data.{NsData}
use nexentastor_csi_driver.Controller.Resolvers.{
  resolver_args, new_resolvers, new_controller_server,
}
use nexentastor_csi_driver.Controller.Resolvers.Effects.{AllResolved}
use nexentastor_csi_driver.Node.Server.{new_node_resolvers, new_node_server}

-- The services in the order of their registration.
abbrev pub services_of : Role → List Service
services_of role =
    identity_service ∷ (if is_controller role then controller_service ∷ [] else [])
    ++ (if is_node role then node_service ∷ [] else [])

module _ (X : External) where
  -- One round of the loop of `NewControllerServer` ends with a value only if a resolver was made.
  new_resolvers-cons :
      (name : String) (cfg : NsData) (rest : Dict NsData) (s t : Process X) (u : Unit {0})
      → new_resolvers X ((name, cfg) ∷ rest) s ≡ (ok u, t)
      → (r : X.Resolver) × (v : X.World) × (new_resolvers X rest
            (record s { controller_resolvers = insert name r s.controller_resolvers; world = v })
          ≡ (ok u, t))
  unfolding new_resolvers
  new_resolvers-cons name cfg rest s t u h = elim (Option-cases cfg.insecure_skip_verify) [
    | inl unset ↦ absurd (ground arith)
    | inr (skip, set) ↦
        let made = X.new_resolver (resolver_args cfg skip) s.world in
        elim (Option-cases made.0.0) [
          | inl nil_pointer ↦ absurd (ground arith)
          | inr (r, pointer) ↦ (r, made.1, ground arith)
        ]
  ]

  new_resolvers-keeps_key :
      (k : String) (ns_map : Dict NsData) (s t : Process X) (u : Unit {0})
      → new_resolvers X ns_map s ≡ (ok u, t)
      → lookup k s.controller_resolvers ≢ none
      → lookup k t.controller_resolvers ≢ none
  unfolding new_resolvers
  new_resolvers-keeps_key k [] s t u h there =
      subst (λ (v : Process X). lookup k v.controller_resolvers ≢ none) (ap (λ o. o.1) h) there
  new_resolvers-keeps_key k ((name, cfg) ∷ rest) s t u h there =
      let (r, v, later) = new_resolvers-cons name cfg rest s t u h in
      new_resolvers-keeps_key k rest _ t u later (rw lookup-insert (ground arith))

  new_resolvers-AllResolved :
      (ns_map : Dict NsData) (s t : Process X) (u : Unit {0})
      → new_resolvers X ns_map s ≡ (ok u, t)
      → (t.config ≡ s.config) × AllResolved X ns_map t
  unfolding new_resolvers
  new_resolvers-AllResolved [] s t u h = (ap (λ o. o.1.config) (sym h), tt)
  new_resolvers-AllResolved ((name, cfg) ∷ rest) s t u h =
      let (r, v, later) = new_resolvers-cons name cfg rest s t u h in
      let (same, resolved) = new_resolvers-AllResolved rest _ t u later in
      (
        same,
        (
          new_resolvers-keeps_key name rest _ t u later
              (rw (lookup-insert, eq_refl) (ground arith)),
          resolved,
        ),
      )

  -- The loop of `NewNodeServer` leaves the config and the controller server alone.
  new_node_resolvers-controller :
      (ns_map : Dict NsData) (s : Process X)
      → let t = (new_node_resolvers X ns_map s).1 in
        (t.config ≡ s.config) × (t.controller_resolvers ≡ s.controller_resolvers)
  unfolding new_node_resolvers
  new_node_resolvers-controller [] s = (refl, refl)
  new_node_resolvers-controller ((name, cfg) ∷ rest) s =
      elim (Option-cases cfg.insecure_skip_verify) [
        | inl unset ↦ ground arith
        | inr (skip, set) ↦
            let made = X.new_resolver (resolver_args cfg skip) s.world in
            let later = new_node_resolvers-controller rest (record s {
              node_resolvers = insert name made.0.0 s.node_resolvers;
              world = made.1;
            }) in
            ground arith
      ]

  -- `NewControllerServer` with its error put into words.
  begun-AllResolved :
      (g : Error X.Fault → Error X.Fault) (services : List Service) (s t : Process X)
      → (catch (new_controller_server X) (λ e. raise (g e)) >>= λ _. pure (controller_service ∷ []))
          s
        ≡ (ok services, t)
      → (services ≡ controller_service ∷ [])
        × (t.config ≡ s.config)
        × AllResolved X s.config.ns_map t
  unfolding new_controller_server
  begun-AllResolved g services s t h =
      let (u, v, made, h₁) =
        bind-eq-ok (catch (new_controller_server X) (λ e. raise (g e))) _ s h in
      elim (catch-eq-ok (new_controller_server X) (λ e. raise (g e)) s made) [
        | inl e ↦
            let (same, resolved) = new_resolvers-AllResolved s.config.ns_map _ v u e in
            let ends : v ≡ t = ap (λ o. o.1) h₁ in
            (
              cc,
              sym (ap (λ (p : Process X). p.config) ends) ∙ same,
              subst (λ p. AllResolved X s.config.ns_map p) ends resolved,
            )
        | inr (e, w, failed, raised) ↦ absurd (err-ne-ok (g e) w raised)
      ]

  pub register_controller-AllResolved :
      (role : Role) (services : List Service) (s t : Process X)
      → register_controller X role s ≡ (ok services, t)
      → (services ≡ (if is_controller role then controller_service ∷ [] else []))
        × (t.config ≡ s.config)
        × (is_controller role ≡ true → AllResolved X s.config.ns_map t)
  unfolding register_controller new_controller_server
  register_controller-AllResolved role services s t h = elim (Bool-cases (is_controller role)) [
    | inl here ↦
        let (a, b, c) =
          begun-AllResolved (λ e. plain ("Failed to create ControllerServer: " <> X.error_text e))
            services s t (ground arith) in
        (rw here a, b, λ e. c)
    | inr not_here ↦ ground arith
  ]

  register_node-controller :
      (role : Role) (services : List Service) (s t : Process X)
      → register_node X role s ≡ (ok services, t)
      → (services ≡ (if is_node role then node_service ∷ [] else []))
        × (t.config ≡ s.config)
        × (t.controller_resolvers ≡ s.controller_resolvers)
  unfolding register_node new_node_server
  register_node-controller role services s t h =
      let kept = new_node_resolvers-controller s.config.ns_map (record s { node_resolvers = [] }) in
      ground arith

  register_lem :
      (role : Role) (services : List Service) (s t : Process X)
      → register X role s ≡ (ok services, t)
      → (services ≡ services_of role)
        × (t.config ≡ s.config)
        × (is_controller role ≡ true → AllResolved X t.config.ns_map t)
  unfolding register
  register_lem role services s t h =
      let (c, s₁, h₁, k₁) = bind-eq-ok (register_controller X role) _ s h in
      let (n, s₂, h₂, k₂) = bind-eq-ok (register_node X role) _ s₁ k₁ in
      let (these, config₁, resolved) = register_controller-AllResolved role c s s₁ h₁ in
      let (those, config₂, kept) = register_node-controller role n s₁ s₂ h₂ in
      subst
        (λ (p : Process X).
          (services ≡ services_of role)
          × (p.config ≡ s.config)
          × (is_controller role ≡ true → AllResolved X p.config.ns_map p))
        (ap (λ o. o.1) k₂) (cc, config₂ ∙ config₁, rw (config₂, kept, config₁) resolved)

  opened-register :
      (role : Role) (scheme socket : String) (services : List Service) (s v t : Process X)
      (u : Unit {0})
      → open_socket X scheme socket s ≡ (ok u, v)
      → register X role v ≡ (ok services, t)
      → (services ≡ services_of role)
        × (t.config ≡ s.config)
        × (is_controller role ≡ true → AllResolved X t.config.ns_map t)
  opened-register role scheme socket services s v t u opened registered =
      let (these, same, resolved) = register_lem role services v t registered in
      let kept =
        kept_config (open_socket X scheme socket) s v (ok u)
          (open_socket-KeepsServers X scheme socket) opened in
      (these, same ∙ kept, resolved)

  pub prepare_lem :
      (driver : Driver) (services : List Service) (s t : Process X)
      → prepare X driver s ≡ (ok services, t)
      → (services ≡ services_of driver.role)
        × (t.config ≡ s.config)
        × (is_controller driver.role ≡ true → AllResolved X t.config.ns_map t)
  unfolding prepare
  prepare_lem driver services s t h = elim (Reply-cases (X.parse_url driver.endpoint)) [
    | inr (f, bad_endpoint) ↦ absurd (ground arith)
    | inl (url, parsed_url) ↦ elim (Bool-cases (url.scheme == "unix")) [
      | inr other ↦ absurd (ground arith)
      | inl unix ↦
          let (u, v, opened, registered) =
            bind-eq-ok (open_socket X url.scheme (socket_of url)) (λ _. register X driver.role) s
              (ground arith) in
          opened-register driver.role url.scheme (socket_of url) services s v t u opened registered
    ]
  ]

  -- Where `Run` begins to serve, it serves the identity service, and behind it the controller and the
  -- node service, each exactly where the role asks for it, and the config is the one it was given.
  pub prepare-services :
      (driver : Driver) (services : List Service) (s t : Process X)
      → prepare X driver s ≡ (ok services, t)
      → (services ≡ services_of driver.role) × (t.config ≡ s.config)
  prepare-services driver services s t h =
      let (these, same, resolved) = prepare_lem driver services s t h in (these, same)
