-- ===== src/Controller/Resolvers/Effects.antt =====
-- The maps of resolvers after `refreshConfig` of the controller server and of the node server.
use nexentastor_csi_driver.Common.{
  Option-cases, All, Dict, lookup, insert, lookup-insert, String, ◌≡◌, sym, ap, subst, ◌≢◌, inl,
  inr, Bool, none, some, [], ◌∷◌, arith, eq_refl,
}
use nexentastor_csi_driver.Errors.{ok, err, panic}
use nexentastor_csi_driver.External.{External}
use nexentastor_csi_driver.Process.{Process}
use nexentastor_csi_driver.Config.Data.{NsData}
use nexentastor_csi_driver.Controller.Resolvers.{resolver_args, resolver_error, update_resolvers}
use nexentastor_csi_driver.Node.Server.{update_node_resolvers}

module _ (X : External) where
  -- Every name of a config has a resolver in the controller's map.
  abbrev pub AllResolved : Dict NsData → Process X → Type 0
  AllResolved ns_map s = All (λ e. lookup e.0 s.controller_resolvers ≢ none) ns_map

  -- One round of the loop ends with a value only if a resolver was made without an error.
  pub update_resolvers-cons :
      (name : String) (cfg : NsData) (rest : Dict NsData) (s t : Process X) (u : Unit {0})
      → update_resolvers X ((name, cfg) ∷ rest) s ≡ (ok u, t)
      → (r : X.Resolver) × (v : X.World) × (update_resolvers X rest
            (record s { controller_resolvers = insert name r s.controller_resolvers; world = v })
          ≡ (ok u, t))
  unfolding update_resolvers
  update_resolvers-cons name cfg rest s t u h = elim (Option-cases cfg.insecure_skip_verify) [
    | inl unset ↦ absurd (ground arith)
    | inr (skip, set) ↦
        let made = X.new_resolver (resolver_args cfg skip) s.world in
        elim (Option-cases made.0.0) [
          | inl nil_pointer ↦ absurd (ground arith)
          | inr (r, pointer) ↦ (r, made.1, ground arith)
        ]
  ]

  -- The loop writes to the controller's map only.
  pub update_resolvers-kept :
      (ns_map : Dict NsData) (s t : Process X) (u : Unit {0})
      → update_resolvers X ns_map s ≡ (ok u, t)
      → (t.config ≡ s.config) × (t.node_resolvers ≡ s.node_resolvers)
  unfolding update_resolvers
  update_resolvers-kept [] s t u h =
      (ap (λ o. o.1.config) (sym h), ap (λ o. o.1.node_resolvers) (sym h))
  update_resolvers-kept ((name, cfg) ∷ rest) s t u h =
      let (r, v, later) = update_resolvers-cons name cfg rest s t u h in
      update_resolvers-kept rest _ t u later

  keeps_key :
      (k : String) (ns_map : Dict NsData) (s t : Process X) (u : Unit {0})
      → update_resolvers X ns_map s ≡ (ok u, t)
      → lookup k s.controller_resolvers ≢ none
      → lookup k t.controller_resolvers ≢ none
  unfolding update_resolvers
  keeps_key k [] s t u h there =
      subst (λ (v : Process X). lookup k v.controller_resolvers ≢ none) (ap (λ o. o.1) h) there
  keeps_key k ((name, cfg) ∷ rest) s t u h there =
      let (r, v, later) = update_resolvers-cons name cfg rest s t u h in
      keeps_key k rest _ t u later (rw lookup-insert (ground arith))

  -- After the loop over a config that ends with a value, every name of the config has a resolver.
  pub update_resolvers-AllResolved :
      (ns_map : Dict NsData) (s t : Process X) (u : Unit {0})
      → update_resolvers X ns_map s ≡ (ok u, t)
      → AllResolved ns_map t
  update_resolvers-AllResolved [] s t u h = tt
  update_resolvers-AllResolved ((name, cfg) ∷ rest) s t u h =
      let (r, v, later) = update_resolvers-cons name cfg rest s t u h in
      (
        keeps_key name rest _ t u later (rw (lookup-insert, eq_refl) (ground arith)),
        update_resolvers-AllResolved rest _ t u later,
      )

  -- Where the client library cannot make the resolver of the first entry, whose flag is set, and
  -- gives a nil pointer with its error, the controller server panics at the pointer, and the node
  -- server returns the error.
  pub update_resolvers-failed :
      (name : String) (cfg : NsData) (rest : Dict NsData) (s : Process X) (skip : Bool)
      (f : X.Fault) (w : X.World)
      → cfg.insecure_skip_verify ≡ some skip
      → X.new_resolver (resolver_args cfg skip) s.world ≡ ((none, some f), w)
      → ((update_resolvers X ((name, cfg) ∷ rest) s).0 ≡ panic)
        × ((update_node_resolvers X ((name, cfg) ∷ rest) s).0 ≡ err (resolver_error X f))
  unfolding update_resolvers update_node_resolvers
  update_resolvers-failed name cfg rest s skip f w set failed = (ground arith, ground arith)
