-- ===== src/Controller/Share.antt =====
-- `createNfsShare` of pkg/driver/controllerServer.go.
pub mod Frame
pub mod Rules
use nexentastor_csi_driver.Common.{
  if◌then◌else◌, split, trim_space, pos, int_eq, NumFailure, Parsed, parsed, refused, atoi, String,
  Bool, true, false, none, some, List, [], ◌∷◌, ◌++◌, ◌==◌,
}
use nexentastor_csi_driver.Errors.{number, foreign}
use nexentastor_csi_driver.External.{External}
use nexentastor_csi_driver.External.Params.{NfsRuleList, CreateNfsShareParams}
use nexentastor_csi_driver.Process.{Exec, ◌>>=◌, ◌>>◌, pure, raise, call, fail_with}

-- One rule of the list: whether its mode is "ro", and the rule; or the failure of `strconv.Atoi` and
-- its input.
pub data ParsedRule : Type 0 where
  rule : Bool → NfsRuleList → ParsedRule
  bad_mask : String → NumFailure → ParsedRule

-- The mode and the address of an item, from its parts at ":".
mode_and_address : String → List String → String × String
mode_and_address item (mode ∷ address ∷ parts) = (trim_space mode, trim_space address)
mode_and_address item _ = ("rw", trim_space item)

rule_of_mask : String → String → Parsed → String → ParsedRule
rule_of_mask mode address (refused failed) text = bad_mask text failed
rule_of_mask mode address (parsed mask) text = rule (mode == "ro") (record {
  entity = address;
  etype = if int_eq mask (pos 0) then "fqdn" else "network";
  mask = mask;
})

-- The address at its slashes: the text, and the mask between the first two.
rule_of_address : String → List String → ParsedRule
unfolding rule_of_mask
rule_of_address mode (address ∷ mask ∷ parts) = rule_of_mask mode address (atoi mask) mask
rule_of_address mode (address ∷ []) = rule_of_mask mode address (parsed (pos 0)) ""
rule_of_address mode [] = rule_of_mask mode "" (parsed (pos 0)) ""

-- One round of the loop. A text contains a separator exactly when it splits into two parts or more.
unfoldable pub parse_rule : String → ParsedRule
unfolding mode_and_address rule_of_address
parse_rule item =
    let (mode, address) = mode_and_address item (split ":" item) in
    rule_of_address mode (split "/" address)

abbrev pub add_rule : Bool → NfsRuleList → CreateNfsShareParams → CreateNfsShareParams
add_rule true r p = record p { read_only_list = p.read_only_list ++ r ∷ [] }
add_rule false r p = record p { read_write_list = p.read_write_list ++ r ∷ [] }

module _ (X : External) where
  -- The loop over the items of the list.
  unfoldable pub collect_rules : List String → CreateNfsShareParams → Exec X CreateNfsShareParams
  collect_rules [] params = pure params
  collect_rules (item ∷ items) params = elim (parse_rule item) [
    | rule read_only r ↦ collect_rules items (add_rule read_only r params)
    | bad_mask text failed ↦ raise (number "Atoi" text failed)
  ]

  -- The calls of the storage: a share that exists is replaced.
  unfoldable pub replace_share : X.Provider → CreateNfsShareParams → Exec X (Unit {0})
  replace_share provider params = do
    error ← call (X.create_nfs_share provider params)
    elim error [
      | none ↦ pure tt
      | some f ↦
          if X.is_already_exist_nef_error (foreign f)
          then (do
            deleted ← call (X.delete_nfs_share provider params.filesystem)
            fail_with deleted foreign
            again ← call (X.create_nfs_share provider params)
            fail_with again foreign)
          else raise (foreign f)
    ]

  -- `createNfsShare`.
  unfoldable pub create_nfs_share : String → String → X.Provider → Exec X (Unit {0})
  create_nfs_share volume_path rules provider = do
    params ←
        collect_rules (split "," rules)
          (record { filesystem = volume_path; read_only_list = []; read_write_list = [] })
    replace_share provider params
