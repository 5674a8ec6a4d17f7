-- ===== src/Node/Server/Effects.antt =====
-- The map of resolvers after `refreshConfig` of pkg/driver/nodeServer.go.
use nexentastor_csi_driver.Common.{
  get_or, Option-cases, All, Dict, lookup, insert, lookup-insert, String, ◌≡◌, sym, ap, subst, ◌≢◌,
  inl, inr, Option, none, [], ◌∷◌, arith, eq_refl,
}
use nexentastor_csi_driver.Errors.{ok}
use nexentastor_csi_driver.External.{External}
use nexentastor_csi_driver.External.Laws.{MakesResolvers}
use nexentastor_csi_driver.Process.{Process}
use nexentastor_csi_driver.Config.Data.{NsData}
use nexentastor_csi_driver.Controller.Resolvers.{resolver_args}
use nexentastor_csi_driver.Node.Server.{update_node_resolvers}

-- The pointer that the map holds for a name, which is nil also where it holds none.
abbrev pub pointer_at : {R : Type 0} → String → Dict (Option R) → Option R
pointer_at name resolvers = get_or (lookup name resolvers) none

module _ (X : External) (L : MakesResolvers X) where
  -- One round of the loop ends with a value only if a resolver was made.
  update_node_resolvers-cons :
      (name : String) (cfg : NsData) (rest : Dict NsData) (s t : Process X) (u : Unit {0})
      → update_node_resolvers X ((name, cfg) ∷ rest) s ≡ (ok u, t)
      → (r : Option X.Resolver) × (v : X.World) × (r ≢ none)
        × (update_node_resolvers X rest
              (record s { node_resolvers = insert name r s.node_resolvers; world = v })
            ≡ (ok u, t))
  unfolding update_node_resolvers
  update_node_resolvers-cons name cfg rest s t u h = elim (Option-cases cfg.insecure_skip_verify) [
    | inl unset ↦ absurd (ground arith)
    | inr (skip, set) ↦
        let made = X.new_resolver (resolver_args cfg skip) s.world in
        elim (Option-cases made.0.1) [
          | inl fine ↦ (made.0.0, made.1, L (resolver_args cfg skip) s.world fine, ground arith)
          | inr (f, failed) ↦ absurd (ground arith)
        ]
  ]

  keeps_pointer :
      (k : String) (ns_map : Dict NsData) (s t : Process X) (u : Unit {0})
      → update_node_resolvers X ns_map s ≡ (ok u, t)
      → pointer_at k s.node_resolvers ≢ none
      → pointer_at k t.node_resolvers ≢ none
  unfolding update_node_resolvers
  keeps_pointer k [] s t u h there =
      subst (λ (v : Process X). pointer_at k v.node_resolvers ≢ none) (ap (λ o. o.1) h) there
  keeps_pointer k ((name, cfg) ∷ rest) s t u h there =
      let (r, v, made, later) = update_node_resolvers-cons name cfg rest s t u h in
      keeps_pointer k rest _ t u later (rw lookup-insert (ground arith))

  -- After the loop over a config that ends with a value, the config is the same, and the map holds a
  -- pointer for every name of it.
  pub update_node_resolvers-pointers :
      (ns_map : Dict NsData) (s t : Process X) (u : Unit {0})
      → update_node_resolvers X ns_map s ≡ (ok u, t)
      → (t.config ≡ s.config) × All (λ e. pointer_at e.0 t.node_resolvers ≢ none) ns_map
  unfolding update_node_resolvers
  update_node_resolvers-pointers [] s t u h = (ap (λ o. o.1.config) (sym h), tt)
  update_node_resolvers-pointers ((name, cfg) ∷ rest) s t u h =
      let (r, v, made, later) = update_node_resolvers-cons name cfg rest s t u h in
      let (same, others) = update_node_resolvers-pointers rest _ t u later in
      (same, (keeps_pointer name rest _ t u later (rw (lookup-insert, eq_refl) made), others))
