-- ===== src/Tests/Configs.antt =====
-- The config and the servers that share it, at concrete inputs.
use nexentastor_csi_driver.Common.{
  All, Dict, insert, ◌≡◌, refl, ◌↔◌, true, false, none, some, [], ◌∷◌, ◌++◌,
}
use nexentastor_csi_driver.Errors.{ok}
use nexentastor_csi_driver.Process.{Process}
use nexentastor_csi_driver.Config.Data.{NsData}
use nexentastor_csi_driver.Config.Address.{match_address}
use nexentastor_csi_driver.Config.Validate.{entry_errors, with_default, bad_format, validate}
use nexentastor_csi_driver.Config.Validate.Accepts.{IsWellFormed, validate_iff, validate-first_bad}
use nexentastor_csi_driver.Config.Refresh.{validate_config, reload, refresh}
use nexentastor_csi_driver.Identity.{probe}
use nexentastor_csi_driver.Identity.Effects.{probe-hides_change}
use nexentastor_csi_driver.Controller.Resolvers.{update_resolvers, refresh_config}
use nexentastor_csi_driver.Node.Server.{refresh_node_config}
use nexentastor_csi_driver.Node.Server.Stale.{refresh_config-hides_change}
use nexentastor_csi_driver.Tests.Toy.{toy, entry, host, settings, started}

address_accepted : match_address "https://10.1.1.1:8443" ≡ true
unfolding match_address
address_accepted = refl

address_long_port : match_address "http://host:123456" ≡ false
unfolding match_address
address_long_port = refl

abbrev entries : Dict NsData
entries = ("ns1", entry) ∷ []

fine : (validate entries).1 ≡ none
unfolding validate entry_errors match_address
fine = refl

abbrev nameless : NsData
nameless = record entry { username = "" }

entry-IsWellFormed : IsWellFormed entry
entry-IsWellFormed = ((validate_iff entries).0 fine).0

nameless-bad : ¬ IsWellFormed nameless
nameless-bad h = h.has_username refl

validate_iff_example : ((validate entries).1 ≡ none) ↔ All (λ e. IsWellFormed e.1) entries
validate_iff_example = validate_iff entries

validate-first_bad_example :
    (validate (entries ++ ("ns2", nameless) ∷ [])).1
    ≡ some (bad_format "ns2" (entry_errors "ns2" nameless))
validate-first_bad_example =
    validate-first_bad entries "ns2" nameless [] (entry-IsWellFormed, tt) nameless-bad

-- The state after the first refresh.
abbrev refreshed_once : Process toy
refreshed_once = record started { config = record settings { last_mod_time = 5 } }

probed : (probe toy started).1 ≡ refreshed_once
unfolding probe refresh reload validate_config validate entry_errors match_address with_default
probed = refl

probe-hides_change_example :
    let s' = (probe toy started).1 in
    (s'.controller_resolvers ≡ started.controller_resolvers)
    × (s'.node_resolvers ≡ started.node_resolvers)
    × (refresh_config toy "" s' ≡ (ok tt, record s' { world = host }))
    × (refresh_node_config toy "" s' ≡ (ok tt, record s' { world = host }))
probe-hides_change_example =
    probe-hides_change toy started 5 host host (λ e. cc) refl (rw probed refl)

-- The state after the first refresh of the controller server.
abbrev rebuilt : Process toy
rebuilt = record refreshed_once { controller_resolvers = ("ns1", "https://10.1.1.1:8443") ∷ [] }

controller_first : refresh_config toy "" started ≡ (ok tt, rebuilt)
unfolding refresh_config update_resolvers insert refresh reload validate_config validate
    entry_errors match_address with_default
controller_first = refl

refresh_config-hides_change_example :
    (rebuilt.node_resolvers ≡ started.node_resolvers)
    × (refresh_node_config toy "" rebuilt ≡ (ok tt, rebuilt))
refresh_config-hides_change_example =
    refresh_config-hides_change toy started rebuilt 5 host host (λ e. cc) refl controller_first refl
