-- ===== src/Controller/Resolvers.antt =====
-- `refreshConfig` and `NewControllerServer` of pkg/driver/controllerServer.go: the map of resolvers
-- that the controller server keeps.
pub mod Effects
use nexentastor_csi_driver.Common.{
  if◌then◌else◌, ◌<>◌, Dict, insert, String, Bool, Option, none, some, [], ◌∷◌,
}
use nexentastor_csi_driver.Errors.{Error, plain, ok, panic}
use nexentastor_csi_driver.External.{External}
use nexentastor_csi_driver.External.Params.{ResolverArgs}
use nexentastor_csi_driver.Process.{
  Exec, ◌>>=◌, ◌>>◌, pure, gets, call, fail_with, fault_text, deref,
}
use nexentastor_csi_driver.Config.Data.{NsData}
use nexentastor_csi_driver.Config.Refresh.{refresh}

-- The arguments of `ns.NewResolver`.
abbrev pub resolver_args : NsData → Bool → ResolverArgs
resolver_args cfg skip = record {
  address = cfg.address;
  username = cfg.username;
  password = cfg.password;
  insecure_skip_verify = skip;
}

module _ (X : External) where
  -- The error of a resolver that cannot be created.
  abbrev pub resolver_error : X.Fault → Error X.Fault
  resolver_error f = plain ("Cannot create NexentaStor resolver: " <> fault_text X f)

  -- `s.nsResolverMap[name] = *resolver`: the pointer is nil where no resolver was made.
  abbrev set_resolver : String → Option X.Resolver → Exec X (Unit {0})
  set_resolver name none s = (panic, s)
  set_resolver name (some r) s =
      (ok tt, record s { controller_resolvers = insert name r s.controller_resolvers })

  -- The loop over the entries of the config.
  unfoldable pub update_resolvers : Dict NsData → Exec X (Unit {0})
  update_resolvers [] = pure tt
  update_resolvers ((name, cfg) ∷ rest) = do
    skip ← deref cfg.insecure_skip_verify
    made ← call (X.new_resolver (resolver_args cfg skip))
    set_resolver name made.0
    fail_with made.1 resolver_error
    update_resolvers rest

  -- `refreshConfig`.
  unfoldable pub refresh_config : String → Exec X (Unit {0})
  refresh_config secret = do
    changed ← refresh X secret
    ns_map ← gets λ s. s.config.ns_map
    if changed then update_resolvers ns_map else pure tt

  -- The loop of `NewControllerServer`, which looks at the error before the pointer.
  unfoldable pub new_resolvers : Dict NsData → Exec X (Unit {0})
  new_resolvers [] = pure tt
  new_resolvers ((name, cfg) ∷ rest) = do
    skip ← deref cfg.insecure_skip_verify
    made ← call (X.new_resolver (resolver_args cfg skip))
    fail_with made.1 resolver_error
    set_resolver name made.0
    new_resolvers rest

  -- `NewControllerServer`: the server begins with an empty map.
  unfoldable pub new_controller_server : Exec X (Unit {0})
  new_controller_server s = new_resolvers s.config.ns_map (record s { controller_resolvers = [] })
