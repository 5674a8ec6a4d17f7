-- ===== src/Tests/Startup.antt =====
-- The start of the driver, and the requests after it, at concrete inputs.
use nexentastor_csi_driver.Common.{
  get_or, lookup, insert, path_join, path_ext, String, ◌≡◌, refl, ◌⊎◌, false, none, some, List, [],
  ◌∷◌, arith,
}
use nexentastor_csi_driver.Errors.{ok}
use nexentastor_csi_driver.External.{External}
use nexentastor_csi_driver.External.Params.{
  directory, no_info, Service, identity_service, controller_service, node_service,
}
use nexentastor_csi_driver.External.Laws.{MakesResolvers}
use nexentastor_csi_driver.Process.{Process}
use nexentastor_csi_driver.Process.Frames.{servers, IsValue}
use nexentastor_csi_driver.Identity.{controller_service, probe}
use nexentastor_csi_driver.Role.{role_all, is_controller, is_node}
use nexentastor_csi_driver.Config.Address.{match_address}
use nexentastor_csi_driver.Config.Validate.{entry_errors, with_default, validate}
use nexentastor_csi_driver.Config.Refresh.{validate_config, reload, refresh}
use nexentastor_csi_driver.Config.Discovery.{
  visit, walk, find_config_file, fresh_config, read_new_config, new_config,
}
use nexentastor_csi_driver.Config.Discovery.Choice.{first_file, last_choice, find_config_file_lem}
use nexentastor_csi_driver.Controller.Resolvers.{
  refresh_config, new_resolvers, new_controller_server,
}
use nexentastor_csi_driver.Controller.Fixed.{controller_get_volume}
use nexentastor_csi_driver.Controller.Service.{
  of_get_capacity, of_get_volume, secret_of, serve_request, Runs, still, elsewhere, served,
}
use nexentastor_csi_driver.Controller.Service.Frame.{serve_request-servers}
use nexentastor_csi_driver.Controller.Service.Ready.{Ready}
use nexentastor_csi_driver.Node.Server.{refresh_node_config, new_node_resolvers, new_node_server}
use nexentastor_csi_driver.Node.Fixed.{node_stage_volume}
use nexentastor_csi_driver.Node.Service.{
  of_stage, node_secret_of, serve_node_request, NodeRuns, node_still, node_elsewhere, node_served,
  node_probed,
}
use nexentastor_csi_driver.Node.Service.Ready.{NodeReady, NodeRuns-NodeReady}
use nexentastor_csi_driver.Driver.{
  Driver, socket_of, check_licenses, check_cluster, validate_entries, validate_driver, open_socket,
  register_controller, register_node, register, prepare,
}
use nexentastor_csi_driver.Driver.Registered.{services_of, prepare-services}
use nexentastor_csi_driver.Serve.{Call, world_changes, to_probe, to_controller, to_node}
use nexentastor_csi_driver.Command.{Flags, default_flags}
use nexentastor_csi_driver.Command.Startup.{new_config-IsUsable, serving-Ready}
use nexentastor_csi_driver.Tests.Toy.{secret_volume, toy, host, settings}

-- The small storage with a config file that holds one entry.
abbrev booting : External
booting = record toy { unmarshal = λ text content. (settings.content, none) }

booting-MakesResolvers : MakesResolvers booting
booting-MakesResolvers args w h = ground arith

abbrev empty : Process booting
empty = record {
  config = fresh_config "";
  controller_resolvers = [];
  node_resolvers = [];
  world = host;
}

abbrev loaded : Process booting
loaded = record empty { config = record settings { last_mod_time = 5 } }

abbrev url : String
url = "https://10.1.1.1:8443"

abbrev serving : Process booting
serving = record loaded {
  controller_resolvers = ("ns1", url) ∷ [];
  node_resolvers = ("ns1", some url) ∷ [];
}

abbrev driver : Driver
driver = record { role = role_all; node_id = "node1"; endpoint = "unix:///csi.sock" }

new_read : new_config booting "/config" empty ≡ (ok tt, loaded)
unfolding new_config read_new_config find_config_file walk visit refresh reload validate_config
    validate entry_errors match_address with_default path_ext path_join
new_read = refl

validated : validate_driver booting loaded ≡ (ok tt, loaded)
unfolding validate_driver validate_entries check_licenses check_cluster
validated = refl

abbrev all_services : List Service
all_services = identity_service ∷ controller_service ∷ node_service ∷ []

prepared : prepare booting driver loaded ≡ (ok all_services, serving)
unfolding prepare socket_of open_socket register register_controller register_node
    new_controller_server new_resolvers new_node_server new_node_resolvers is_controller is_node
    insert
prepared = refl

unchanged : refresh_config booting "" serving ≡ (ok tt, serving)
unfolding refresh_config refresh
unchanged = refl

stays : IsValue (refresh_config booting "" serving).0
stays = rw unchanged tt

idle : (serve_request booting (of_get_volume "ns1:pool/v") serving).1 ≡ serving
unfolding serve_request controller_get_volume
idle = refl

changing : Runs booting serving serving
unfolding secret_of
changing = elsewhere host (served (of_get_volume "ns1:pool/v") stays (rw idle still))

serving-Ready_example : Ready booting serving
unfolding is_controller
serving-Ready_example =
    serving-Ready booting "/config" driver all_services empty loaded loaded serving serving new_read
      validated prepared refl changing

serve_request-servers_example :
    let t = (serve_request booting (of_get_capacity []) serving).1 in
    (servers t ≡ servers serving) ⊎ (servers t ≡ servers (refresh_config booting "" serving).1)
unfolding secret_of
serve_request-servers_example = serve_request-servers booting (of_get_capacity []) serving

prepare-services_example : (all_services ≡ services_of role_all) × (serving.config ≡ loaded.config)
prepare-services_example = prepare-services booting driver all_services loaded serving prepared

serving-NodeReady : NodeReady booting serving
unfolding lookup
serving-NodeReady =
    (new_config-IsUsable booting "/config" empty loaded tt new_read, ((λ e. cc), tt))

node_stays : IsValue (refresh_node_config booting "" serving).0
unfolding refresh_node_config refresh
node_stays = tt

node_idle : (serve_node_request booting (of_stage "ns1:pool/v") serving).1 ≡ serving
unfolding serve_node_request node_stage_volume
node_idle = refl

probe_unchanged : refresh booting "" serving ≡ (ok false, serving)
unfolding refresh
probe_unchanged = refl

probed : (probe booting serving).1 ≡ serving
unfolding probe refresh
probed = refl

node_changing : NodeRuns booting serving serving
unfolding node_secret_of
node_changing = node_elsewhere host (
    node_probed (rw probe_unchanged refl)
      (rw probed (node_served (of_stage "ns1:pool/v") node_stays (rw node_idle node_still))))

NodeRuns-NodeReady_example : NodeReady booting serving
NodeRuns-NodeReady_example =
    NodeRuns-NodeReady booting booting-MakesResolvers serving serving node_changing
      serving-NodeReady

-- A probe, a change of the world, and a request of each of the other servers.
abbrev calls : List (Call booting)
calls =
    to_probe
    ∷ world_changes host
    ∷ to_controller (of_get_volume "ns1:pool/v")
    ∷ to_node (of_stage "ns1:pool/v")
    ∷ []

abbrev flags : Flags
flags = record default_flags { node_id = "node1"; endpoint = "unix:///csi.sock" }

find_config_file_lem_example :
    (find_config_file "/config" (directory secret_volume)
      ≡ some (get_or (first_file "/config" secret_volume) (last_choice "/config" secret_volume "")))
    × (find_config_file "/config" no_info ≡ none)
find_config_file_lem_example =
    find_config_file_lem "/config" secret_volume ((tt, tt), (tt, (tt, tt)))
