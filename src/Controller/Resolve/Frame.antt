-- ===== src/Controller/Resolve/Frame.antt =====
-- `resolveNS` of pkg/driver/controllerServer.go changes nothing but the world of the storage.
use nexentastor_csi_driver.Common.{get_or, Dict, lookup, String, refl, Option, none, [], ◌∷◌, arith}
use nexentastor_csi_driver.External.{External}
use nexentastor_csi_driver.Process.Frames.{KeepsServers}
use nexentastor_csi_driver.Config.Data.{NsData}
use nexentastor_csi_driver.Controller.Resolve.{
  ResolveNsParams, ns_data_at, dataset_or_default, resolve_on, compatible_from,
  resolve_compatibility_config, resolve_named, give_up, any_from, resolve_ns_no_zone, zone_from,
  resolve_ns_with_zone, resolve_ns,
}

module _ (X : External) where
  resolve_on-KeepsServers :
      (resolver : X.Resolver) (path name : String) → KeepsServers (resolve_on X resolver path name)
  unfolding resolve_on
  resolve_on-KeepsServers resolver path name s = ground arith

  give_up-KeepsServers :
      (p : ResolveNsParams) (last : Option X.Fault) → KeepsServers (give_up X p last)
  unfolding give_up
  give_up-KeepsServers p last s = ground arith

  zone_from-KeepsServers :
      (p : ResolveNsParams) (resolvers : Dict X.Resolver) (last : Option X.Fault)
      → KeepsServers (zone_from X p resolvers last)
  unfolding zone_from
  zone_from-KeepsServers p [] last s = give_up-KeepsServers p last s
  zone_from-KeepsServers p ((name, resolver) ∷ rest) last s =
      let found =
        X.resolve resolver (dataset_or_default p.dataset_path (ns_data_at name s.config)) s.world in
      let here = zone_from-KeepsServers p rest last s in
      let later = zone_from-KeepsServers p rest found.0.1 (record s { world = found.1 }) in
      ground arith

  any_from-KeepsServers :
      (p : ResolveNsParams) (resolvers : Dict X.Resolver) (last : Option X.Fault)
      → KeepsServers (any_from X p resolvers last)
  unfolding any_from
  any_from-KeepsServers p [] last s = give_up-KeepsServers p last s
  any_from-KeepsServers p ((name, resolver) ∷ rest) last s =
      let found =
        X.resolve resolver (dataset_or_default p.dataset_path (ns_data_at name s.config)) s.world in
      let later = any_from-KeepsServers p rest found.0.1 (record s { world = found.1 }) in
      ground arith

  compatible_from-KeepsServers :
      (p : ResolveNsParams) (ns_map : Dict NsData) → KeepsServers (compatible_from X p ns_map)
  unfolding compatible_from resolve_on
  compatible_from-KeepsServers p [] s = refl
  compatible_from-KeepsServers p ((name, cfg) ∷ rest) s =
      let later = compatible_from-KeepsServers p rest s in ground arith

  -- Resolving changes no config and no map of resolvers, however it ends.
  pub resolve_ns-KeepsServers : (p : ResolveNsParams) → KeepsServers (resolve_ns X p)
  unfolding resolve_ns resolve_ns_no_zone resolve_ns_with_zone resolve_named
      resolve_compatibility_config
  resolve_ns-KeepsServers p s =
      let cfg = ns_data_at p.config_name s.config in
      let resolver = get_or (lookup p.config_name s.controller_resolvers) X.zero_resolver in
      let one =
        resolve_on-KeepsServers resolver (dataset_or_default p.dataset_path cfg) p.config_name s in
      let any = any_from-KeepsServers p s.controller_resolvers none s in
      let zone = zone_from-KeepsServers p s.controller_resolvers none s in
      let old = compatible_from-KeepsServers p s.config.ns_map s in ground arith
