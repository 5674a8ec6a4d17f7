-- ===== src/Controller/Share/Rules.antt =====
-- What the loop of `createNfsShare` in pkg/driver/controllerServer.go makes of an access list that is
-- written as the README describes it: items "mode:address/mask", of which mode and mask can be left out.
use nexentastor_csi_driver.Common.{
  if◌then◌else◌, get_or, Bool-cases, ◌<>◌, split, trim_space, Lacks, split_of_Lacks, split-append,
  All, ℤ, pos, int_eq, Parsed, parsed, refused, atoi, Parsed-cases, Char, String, ◌≡◌, refl, ◌∙◌,
  inl, inr, Bool, true, false, Option, none, some, List, [], ◌∷◌, ◌++◌, map, append_assoc,
  append-nil, ◌==◌,
}
use nexentastor_csi_driver.Errors.{Error, number, Outcome, ok, err}
use nexentastor_csi_driver.External.{External}
use nexentastor_csi_driver.External.Params.{NfsRuleList, CreateNfsShareParams}
use nexentastor_csi_driver.Process.{Process}
use nexentastor_csi_driver.Controller.Share.{
  ParsedRule, rule, bad_mask, parse_rule, add_rule, collect_rules, mode_and_address, rule_of_mask,
  rule_of_address,
}

-- An item of a list: its mode, the text behind it with blanks around it or not, and the address and
-- the mask that this text holds.
pub record Item : Type 0 where
  pub mode : Option String
  pub written : String
  pub address : String
  pub mask : Option String

-- The item in the list.
abbrev pub with_mode : Option String → String → String
with_mode none written = written
with_mode (some mode) written = mode <> ":" <> written

abbrev pub text_of : Item → String
text_of i = with_mode i.mode i.written

abbrev pub with_mask : String → Option String → String
with_mask address none = address
with_mask address (some mask) = address <> "/" <> mask

abbrev colon : Char
colon = ":"

abbrev slash : Char
slash = "/"

abbrev LacksIn : Char → Option String → Type 0
LacksIn c none = Unit {0}
LacksIn c (some text) = Lacks c text

-- The parts of an item hold no separators.
pub record IsItem (i : Item) : Type 0 where
  pub of_mode : LacksIn colon i.mode
  pub of_written : Lacks colon i.written
  pub of_address : Lacks slash i.address
  pub of_mask : LacksIn slash i.mask
  pub trimmed : trim_space i.written ≡ with_mask i.address i.mask

-- An item is read-only for the mode "ro" alone, with blanks around it or not.
abbrev pub is_read_only : Option String → Bool
is_read_only none = false
is_read_only (some mode) = trim_space mode == "ro"

-- The mask as a number, 0 where it is left out.
abbrev pub mask_of : Option String → Parsed
mask_of none = parsed (pos 0)
mask_of (some mask) = atoi mask

-- The rule of an item: a host for the mask 0, and else a network.
abbrev pub rule_of : Item → ℤ → NfsRuleList
rule_of i n = record {
  entity = i.address;
  etype = if int_eq n (pos 0) then "fqdn" else "network";
  mask = n;
}

-- The rules of the read-only items, or of the other ones, in the order of the list.
unfoldable pub rules_with : Bool → List Item → List NfsRuleList
rules_with read_only [] = []
rules_with read_only (i ∷ items) =
    let rest = rules_with read_only items in
    elim (mask_of i.mask) [
      | parsed n ↦ elim (is_read_only i.mode) [
        | true ↦ if read_only then rule_of i n ∷ rest else rest
        | false ↦ if read_only then rest else rule_of i n ∷ rest
      ]
      | refused failed ↦ rest
    ]

-- The error of the first item whose mask is no number of 64 bits.
unfoldable pub first_refusal : {F : Type 0} → List Item → Option (Error F)
first_refusal [] = none
first_refusal (i ∷ items) =
    let rest = first_refusal items in
    elim (mask_of i.mask) [
      | parsed n ↦ rest
      | refused failed ↦ some (number "Atoi" (get_or i.mask "") failed)
    ]

-- A value, unless there is an error.
unfoldable pub unless_refused :
    {F : Type 0} → Option (Error F) → CreateNfsShareParams → Outcome F CreateNfsShareParams
unless_refused none p = ok p
unless_refused (some e) p = err e

-- The round of the loop that an item leads to.
abbrev described_by : Item → Parsed → String → ParsedRule
described_by i (parsed n) text = rule (is_read_only i.mode) (rule_of i n)
described_by i (refused failed) text = bad_mask text failed

abbrev described : Item → ParsedRule
described i = described_by i (mask_of i.mask) (get_or i.mask "")

rule_of_mask-described :
    (i : Item) (mode : String) (mask : Parsed) (text : String)
    → (mode == "ro") ≡ is_read_only i.mode
    → rule_of_mask mode i.address mask text ≡ described_by i mask text
unfolding rule_of_mask
rule_of_mask-described i mode (parsed n) text same = rw same refl
rule_of_mask-described i mode (refused failed) text same = refl

rule_of_address-split :
    (i : Item) (mode : String)
    → (mode == "ro") ≡ is_read_only i.mode
    → Lacks slash i.address
    → LacksIn slash i.mask
    → rule_of_address mode (split "/" (with_mask i.address i.mask)) ≡ described i
unfolding rule_of_address
rule_of_address-split i mode same h k = go i.mask k
  where
    go :
        (mask : Option String)
        → LacksIn slash mask
        → rule_of_address mode (split "/" (with_mask i.address mask))
          ≡ described_by i (mask_of mask) (get_or mask "")
    go none k =
        rw (split_of_Lacks slash i.address h)
          (rule_of_mask-described i mode (parsed (pos 0)) "" same)
    go (some mask) k =
        rw (split-append slash i.address mask h, split_of_Lacks slash mask k)
          (rule_of_mask-described i mode (atoi mask) mask same)

parse_rule-text_of : (i : Item) → IsItem i → parse_rule (text_of i) ≡ described i
unfolding parse_rule mode_and_address
parse_rule-text_of i h = go i.mode refl h.of_mode
  where
    go :
        (mode : Option String)
        → i.mode ≡ mode
        → LacksIn colon mode
        → parse_rule (with_mode mode i.written) ≡ described i
    go none e k =
        rw (split_of_Lacks colon i.written h.of_written, h.trimmed)
          (rule_of_address-split i "rw" (rw e refl) h.of_address h.of_mask)
    go (some mode) e k =
        rw
          (
            split-append colon mode i.written k,
            split_of_Lacks colon i.written h.of_written,
            h.trimmed,
          )
          (rule_of_address-split i (trim_space mode) (rw e refl) h.of_address h.of_mask)

module _ (X : External) where
  unfoldable pub collected : List Item → CreateNfsShareParams → Outcome X.Fault CreateNfsShareParams
  collected items p = unless_refused (first_refusal items) (record p {
    read_only_list = p.read_only_list ++ rules_with true items;
    read_write_list = p.read_write_list ++ rules_with false items;
  })

  -- The loop over an access list refuses it with the error of `strconv.Atoi` at its first item whose
  -- mask is no number, and else gives the rules of the items of the mode "ro" as the read-only ones and
  -- those of all other items as the others, each in the order of the list: with the address of the item,
  -- its mask or 0, and the type of a host for the mask 0, else of a network. This holds for a list of
  -- items "mode:address/mask" whose parts hold no separator, where the mode and the mask of each can be
  -- left out, and blanks may stand around the mode and around the address with its mask.
  pub collect_rules_lem :
      (items : List Item) (params : CreateNfsShareParams) (s : Process X)
      → All IsItem items
      → collect_rules X (map text_of items) params s ≡ (collected items params, s)
  unfolding collect_rules collected first_refusal rules_with unless_refused
  collect_rules_lem [] params s h = simp append-nil
  collect_rules_lem (i ∷ items) params s (h, later) =
      let e = parse_rule-text_of i h in
      elim (Parsed-cases (mask_of i.mask)) [
        | inr (failed, unread) ↦ rw (collect_rules, e, collected, first_refusal, unread) refl
        | inl (n, read) ↦
            let next =
              λ (b : Bool). collect_rules_lem items (add_rule b (rule_of i n) params) s later in
            elim (Bool-cases (is_read_only i.mode)) [
              | inl read_only ↦
                  rw (collect_rules, e, collected, first_refusal, rules_with, read, read_only)
                    (next true ∙ simp (append_assoc, collected))
              | inr other ↦
                  rw (collect_rules, e, collected, first_refusal, rules_with, read, other)
                    (next false ∙ simp (append_assoc, collected))
            ]
      ]
