-- ===== src/Tests/Sharing.antt =====
-- Access lists at concrete inputs.
use nexentastor_csi_driver.Common.{
  split, trim_space, pos, syntax_failure, parse_int, atoi, ◌≡◌, refl, none, some, List, [], ◌∷◌,
  map, arith,
}
use nexentastor_csi_driver.Errors.{number, ok, err}
use nexentastor_csi_driver.External.Params.{CreateNfsShareParams}
use nexentastor_csi_driver.Controller.Share.{parse_rule, collect_rules}
use nexentastor_csi_driver.Controller.Share.Rules.{
  Item, text_of, IsItem, rules_with, first_refusal, unless_refused, collected, collect_rules_lem,
}
use nexentastor_csi_driver.Tests.Toy.{toy, started}

-- "ro:10.1.1.0/24, 10.1.1.7" and a mask that is no number.
abbrev network : Item
network = record {
  mode = some "ro";
  written = "10.1.1.0/24";
  address = "10.1.1.0";
  mask = some "24";
}

abbrev computer : Item
computer = record { mode = none; written = " 10.1.1.7"; address = "10.1.1.7"; mask = none }

abbrev unread : Item
unread = record { mode = some "rw"; written = "a/b"; address = "a"; mask = some "b" }

network-IsItem : IsItem network
unfolding trim_space
network-IsItem = record {
  of_mode = ground arith;
  of_written = ground arith;
  of_address = ground arith;
  of_mask = ground arith;
  trimmed = refl;
}

computer-IsItem : IsItem computer
unfolding trim_space
computer-IsItem = record {
  of_mode = tt;
  of_written = ground arith;
  of_address = ground arith;
  of_mask = tt;
  trimmed = refl;
}

abbrev access_list : List Item
access_list = network ∷ computer ∷ []

abbrev no_rules : CreateNfsShareParams
no_rules = record { filesystem = "pool/v"; read_only_list = []; read_write_list = [] }

collect_rules_lem_example :
    collect_rules toy (map text_of access_list) no_rules started
    ≡ (collected toy access_list no_rules, started)
collect_rules_lem_example =
    collect_rules_lem toy access_list no_rules started (network-IsItem, (computer-IsItem, tt))

one_of_each :
    collected toy access_list no_rules
    ≡ ok (record {
      filesystem = "pool/v";
      read_only_list = record { entity = "10.1.1.0"; etype = "network"; mask = pos 24 } ∷ [];
      read_write_list = record { entity = "10.1.1.7"; etype = "fqdn"; mask = pos 0 } ∷ [];
    })
unfolding collected unless_refused first_refusal rules_with atoi trim_space parse_int
one_of_each = refl

bad_list :
    collect_rules toy (map text_of (unread ∷ network ∷ [])) no_rules started
    ≡ (err (number "Atoi" "b" syntax_failure), started)
unfolding collect_rules parse_rule split trim_space atoi parse_int
bad_list = refl
