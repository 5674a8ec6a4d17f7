-- ===== src/Role/Laws.antt =====
-- What `ParseRole` of pkg/driver/role.go accepts.
use nexentastor_csi_driver.Common.{
  Bool-cases, String, ◌≡◌, refl, sym, ap, ◌↔◌, ◌⊎◌, inl, inr, true, false, arith, ◌==◌, eq_iff,
}
use nexentastor_csi_driver.Role.{role_all, is_controller, is_node, parse_role, role_error}

abbrev IsKnown : String → Type 0
IsKnown from = (from ≡ "all") ⊎ (from ≡ "controller") ⊎ (from ≡ "node")

parse_role-cases :
    (from : String)
    → (IsKnown from × (parse_role from ≡ record { role = from; failed = false; message = "" }))
      ⊎ ((¬ IsKnown from)
          × (parse_role from
              ≡ record { role = role_all; failed = true; message = role_error from }))
unfolding parse_role
parse_role-cases from = elim (Bool-cases ("all" == from)) [
  | inl a ↦
      let e = (eq_iff "all" from).0 a in
      inl (inl (sym e), rw a (ap (λ r. record { role = r; failed = false; message = "" }) e))
  | inr not_all ↦ elim (Bool-cases ("controller" == from)) [
    | inl a ↦
        let e = (eq_iff "controller" from).0 a in
        inl (
          inr (inl (sym e)),
          rw (not_all, a) (ap (λ r. record { role = r; failed = false; message = "" }) e),
        )
    | inr not_controller ↦ elim (Bool-cases ("node" == from)) [
      | inl a ↦
          let e = (eq_iff "node" from).0 a in
          inl (
            inr (inr (sym e)),
            rw (not_all, not_controller, a)
                (ap (λ r. record { role = r; failed = false; message = "" }) e),
          )
      | inr not_node ↦ inr (
        ground (arith, eq_iff "all" from, eq_iff "controller" from, eq_iff "node" from),
        rw (not_all, not_controller, not_node),
      )
    ]
  ]
]

-- A role parses without an error exactly if it is one of the three roles, and is then the role that
-- is answered; with an error, the role that is answered is the one that runs both servers.
pub parse_role_lem :
    (from : String)
    → (((parse_role from).failed ≡ false)
        ↔ ((from ≡ "all") ⊎ (from ≡ "controller") ⊎ (from ≡ "node")))
      × ((parse_role from).failed ≡ false → (parse_role from).role ≡ from)
      × ((parse_role from).failed ≡ true
          → (is_controller (parse_role from).role ≡ true) × (is_node (parse_role from).role ≡ true))
unfolding is_controller is_node
parse_role_lem from = elim (parse_role-cases from) [
  | inl (known, e) ↦ rw e (((λ h. known), (λ h. refl)), (λ h. refl), (λ h. cc))
  | inr (unknown_role, e) ↦
      rw e (((λ h. cc), (λ h. absurd (unknown_role h))), (λ h. cc), (λ h. (refl, refl)))
]
