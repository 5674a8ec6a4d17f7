-- ===== src/Tests/Controllers.antt =====
-- The controller server at concrete inputs.
use nexentastor_csi_driver.Common.{
  ◌<>◌, take, drop, Dict, lookup, insert, pos, String, ◌≡◌, refl, ◌≢◌, ◌↔◌, true, false, some, List,
  [], ◌∷◌, map, arith, ◌==◌, eq_iff,
}
use nexentastor_csi_driver.Errors.{failed_precondition, internal, status, foreign, ok, err, panic}
use nexentastor_csi_driver.External.Params.{Snapshot}
use nexentastor_csi_driver.Config.Data.{NsData}
use nexentastor_csi_driver.VolumeId.{VolumeInfo}
use nexentastor_csi_driver.Controller.Resolvers.{resolver_error, update_resolvers}
use nexentastor_csi_driver.Controller.Resolvers.Effects.{update_resolvers-failed}
use nexentastor_csi_driver.Controller.Resolve.{
  ResolveNsParams, volume_params, ns_data_at, dataset_or_default, ResolveNsResponse, resolve_on,
  resolve_named, resolve_ns_no_zone, zone_from, resolve_ns_with_zone, resolve_ns,
}
use nexentastor_csi_driver.Controller.Resolve.Answers.{
  v13_info, no_v13_message, resolve_inner, resolve_ns-status, resolve_ns-zone, resolve_ns-named,
  resolve_ns-unknown_zone,
}
use nexentastor_csi_driver.Controller.Delete.{delete_by_info}
use nexentastor_csi_driver.Controller.Delete.Outcomes.{
  delete_by_info-ok_iff, delete_by_info-not_found, delete_by_info-no_v13,
}
use nexentastor_csi_driver.Controller.Page.{convert_snapshot, next_path, page_from}
use nexentastor_csi_driver.Controller.Page.Paging.{rest_from, Distinct, page_from_lem}
use nexentastor_csi_driver.Controller.Page.Walk.{pages, pages_complete}
use nexentastor_csi_driver.Node.Server.{update_node_resolvers}
use nexentastor_csi_driver.Tests.Toy.{
  Fault, missing, refused_call, toy, toy-IsLawful, entry, host, settings, started, ready,
}

abbrev entries : Dict NsData
entries = ("ns1", entry) ∷ []

made :
    update_resolvers toy entries started
    ≡ (ok tt, record started { controller_resolvers = ("ns1", "https://10.1.1.1:8443") ∷ [] })
unfolding update_resolvers insert
made = refl

abbrev homeless : NsData
homeless = record entry { address = "" }

update_resolvers-failed_example :
    ((update_resolvers toy (("ns2", homeless) ∷ []) started).0 ≡ panic)
    × ((update_node_resolvers toy (("ns2", homeless) ∷ []) started).0
        ≡ err (resolver_error toy refused_call))
update_resolvers-failed_example =
    update_resolvers-failed toy "ns2" homeless [] started true refused_call host refl refl

abbrev in_zone : ResolveNsParams
in_zone = record {
  dataset_path = "pool/v";
  zone = "zone1";
  config_name = "";
  is_v13_compatible = false;
}

abbrev by_name : ResolveNsParams
by_name = record { dataset_path = ""; zone = ""; config_name = "ns1"; is_v13_compatible = false }

abbrev elsewhere : ResolveNsParams
elsewhere = record in_zone { zone = "zone9" }

abbrev answer : String → ResolveNsResponse toy
answer path = record { dataset_path = path; ns_provider = some "10.1.1.1"; config_name = "ns1" }

zoned : resolve_ns toy in_zone ready ≡ (ok (answer "pool/v"), ready)
unfolding resolve_ns resolve_ns_with_zone zone_from lookup
zoned = refl

named : resolve_ns toy by_name ready ≡ (ok (answer "pool/data"), ready)
unfolding resolve_ns resolve_ns_no_zone resolve_named resolve_on lookup
named = refl

abbrev mismatched : ResolveNsParams
mismatched = record elsewhere { config_name = "ns1" }

abbrev mismatch : String
mismatch = "requested zone [zone9] does not match requested NexentaStor name [ns1]"

refused_zone :
    resolve_inner toy mismatched ready ≡ (err (status failed_precondition mismatch), ready)
unfolding resolve_ns_with_zone lookup
refused_zone = refl

resolve_ns-status_example : resolve_ns toy mismatched ready ≡ (
  err (status internal ("Cannot resolve '" <> "pool/v" <> "' on any NexentaStor(s): " <> mismatch)),
  ready,
)
resolve_ns-status_example =
    resolve_ns-status toy toy-IsLawful mismatched ready ready failed_precondition mismatch
      refused_zone

resolve_ns-zone_example : (ns_data_at "ns1" settings).zone ≡ "zone1"
resolve_ns-zone_example = resolve_ns-zone toy in_zone ready ready (answer "pool/v") (λ e. cc) zoned

resolve_ns-named_example :
    ((answer "pool/data").config_name ≡ by_name.config_name)
    × ((answer "pool/data").dataset_path
        ≡ dataset_or_default by_name.dataset_path (ns_data_at "ns1" settings))
resolve_ns-named_example =
    resolve_ns-named toy by_name ready ready (answer "pool/data") (λ e. cc) refl named

differs : (ns_data_at "ns1" settings).zone ≢ "zone9"
unfolding lookup
differs e = cc

resolve_ns-unknown_zone_example : resolve_ns toy elsewhere ready ≡ (panic, ready)
resolve_ns-unknown_zone_example =
    resolve_ns-unknown_zone toy elsewhere ready (λ e. cc) refl (differs, tt)

abbrev volume : VolumeInfo
volume = record { config_name = "ns1"; path = "pool/v"; is_v13_volume_id_version = false }

resolved_volume : resolve_ns toy (volume_params volume) ready ≡ (ok (answer "pool/v"), ready)
unfolding resolve_ns resolve_ns_no_zone resolve_named resolve_on lookup
resolved_volume = refl

delete_by_info-ok_iff_example :
    ((delete_by_info toy volume ready).0 ≡ ok tt)
    ↔ ((f : Fault) → some missing ≡ some f → toy.is_not_exist_nef_error (foreign f) ≡ true)
delete_by_info-ok_iff_example =
    delete_by_info-ok_iff toy volume ready ready (answer "pool/v") "10.1.1.1" (some missing) host
      resolved_volume refl refl

abbrev gone : VolumeInfo
gone = record volume { path = "gone" }

unresolved : resolve_inner toy (volume_params gone) ready ≡ (err (foreign missing), ready)
unfolding resolve_ns_no_zone resolve_named resolve_on lookup
unresolved = refl

delete_by_info-not_found_example : delete_by_info toy gone ready ≡ (ok tt, ready)
delete_by_info-not_found_example =
    delete_by_info-not_found toy toy-IsLawful gone ready ready (foreign missing) unresolved refl

delete_by_info-no_v13_example : delete_by_info toy (v13_info "pool/v") ready ≡ (
  err (
      status internal
        ("Cannot resolve '" <> "pool/v" <> "' on any NexentaStor(s): " <> no_v13_message "pool/v")),
  ready,
)
delete_by_info-no_v13_example = delete_by_info-no_v13 toy toy-IsLawful "pool/v" ready (refl, tt)

abbrev snapshot_at : String → Snapshot
snapshot_at name = record {
  path = "pool/v@" <> name;
  name = name;
  parent = "pool/v";
  creation_time = pos 100;
}

apart : {a b : String} → (a == b) ≡ false → a ≢ b
apart {a} {b} h = ground (arith, eq_iff a b)

abbrev three : List Snapshot
three = snapshot_at "a" ∷ snapshot_at "b" ∷ snapshot_at "c" ∷ []

second_page :
    page_from "ns1" (pos 1) "pool/v@b" [] three
    ≡ record { entries = convert_snapshot "ns1" (snapshot_at "b") ∷ []; next_token = "pool/v@c" }
unfolding page_from
second_page = refl

page_from_lem_example : page_from "ns1" (pos 2) "pool/v@b" [] three ≡ record {
  entries = map (convert_snapshot "ns1") (take 2 (rest_from "pool/v@b" three));
  next_token = next_path (drop 2 (rest_from "pool/v@b" three));
}
page_from_lem_example = page_from_lem "ns1" 2 (omega arith) "pool/v@b" three (omega arith)

pages_complete_example : pages 4 "ns1" (pos 2) "" three ≡ map (convert_snapshot "ns1") three
pages_complete_example =
    pages_complete "ns1" 2 4 three (omega arith) (omega arith) distinct (omega arith)
  where
    distinct : Distinct three
    distinct = (
      apart refl,
      (apart refl, (apart refl, tt)),
      (apart refl, (apart refl, tt), (apart refl, tt, tt)),
    )
