-- ===== src/Controller/Resolve.antt =====
-- `resolveNS` and the three ways of resolving in pkg/driver/controllerServer.go.
pub mod Answers
pub mod Frame
use nexentastor_csi_driver.Common.{
  if◌then◌else◌, get_or, ◌<>◌, contains, Dict, lookup, show_bool, String, Bool, not, Option, none,
  some, [], ◌∷◌, ◌==◌,
}
use nexentastor_csi_driver.Errors.{
  not_found, failed_precondition, internal, unauthenticated, Error, status, foreign,
}
use nexentastor_csi_driver.External.{External}
use nexentastor_csi_driver.Process.{
  Exec, ◌>>=◌, ◌>>◌, catch, pure, raise, raise_status, crash, gets, call, fail_with, fault_text,
}
use nexentastor_csi_driver.Config.Data.{NsData, Config, zero_ns_data}
use nexentastor_csi_driver.VolumeId.{VolumeInfo}

pub record ResolveNsParams : Type 0 where
  pub dataset_path : String
  pub zone : String
  pub config_name : String
  pub is_v13_compatible : Bool

-- The parameters of the handlers that have a volume identifier.
abbrev pub volume_params : VolumeInfo → ResolveNsParams
volume_params i = record {
  dataset_path = i.path;
  zone = "";
  config_name = i.config_name;
  is_v13_compatible = i.is_v13_volume_id_version;
}

-- The parameters under `%+v`.
unfoldable pub show_params : ResolveNsParams → String
show_params p =
    "{datasetPath:"
    <> p.dataset_path
    <> " zone:"
    <> p.zone
    <> " configName:"
    <> p.config_name
    <> " IsV13Compatible:"
    <> show_bool p.is_v13_compatible
    <> "}"

-- The entry of the config, or the zero value that Go gives for a missing key.
abbrev pub ns_data_at : String → Config → NsData
ns_data_at name c = get_or (lookup name c.ns_map) zero_ns_data

-- `if datasetPath == "" { datasetPath = cfg.DefaultDataset }`
abbrev pub dataset_or_default : String → NsData → String
dataset_or_default dataset_path cfg =
    if dataset_path == "" then cfg.default_dataset else dataset_path

module _ (X : External) where
  -- The provider is nil where the resolver gave none.
  pub record ResolveNsResponse : Type 0 where
    pub dataset_path : String
    pub ns_provider : Option X.Provider
    pub config_name : String

  abbrev pub respond : String → String → Option X.Provider → Exec X ResolveNsResponse
  respond dataset_path config_name provider =
      pure
        (record { dataset_path = dataset_path; ns_provider = provider; config_name = config_name })

  -- `resolver.Resolve(datasetPath)`, where an error ends the function.
  unfoldable pub resolve_on : X.Resolver → String → String → Exec X ResolveNsResponse
  resolve_on resolver dataset_path config_name = do
    found ← call (X.resolve resolver dataset_path)
    fail_with found.1 foreign
    respond dataset_path config_name found.0

  -- The loop of `resolveCompatibilityConfig`.
  unfoldable pub compatible_from : ResolveNsParams → Dict NsData → Exec X ResolveNsResponse
  compatible_from params [] =
      raise_status not_found
        ("No nsProvider found with backward compatability flag for params: " <> show_params params)
  compatible_from params ((name, cfg) ∷ rest) =
      if cfg.v13_compatibility
      then (λ s. elim (lookup name s.controller_resolvers) [
        | none ↦ raise_status not_found ("No nsProvider found for params: " <> show_params params) s
        | some resolver ↦ resolve_on resolver (dataset_or_default params.dataset_path cfg) name s
      ])
      else compatible_from params rest

  unfoldable pub resolve_compatibility_config : ResolveNsParams → Exec X ResolveNsResponse
  resolve_compatibility_config params s = compatible_from params s.config.ns_map s

  -- Both functions, where the request names a config: the map gives the zero resolver for a name
  -- that it lacks.
  unfoldable pub resolve_named : ResolveNsParams → Exec X ResolveNsResponse
  resolve_named params s =
      resolve_on (get_or (lookup params.config_name s.controller_resolvers) X.zero_resolver)
        (dataset_or_default params.dataset_path (ns_data_at params.config_name s.config))
        params.config_name s

  -- Both functions, after a loop that found nothing: `err.Error()` of the last error, or of nil.
  unfoldable pub give_up : ResolveNsParams → Option X.Fault → Exec X ResolveNsResponse
  give_up params none = crash
  give_up params (some f) =
      if contains (fault_text X f) "unknown authority"
      then raise_status unauthenticated ("TLS certificate check error: " <> fault_text X f)
      else raise_status not_found ("No nsProvider found for params: " <> show_params params)

  -- The loop of `resolveNSNoZone` over the resolvers, with the last error.
  unfoldable pub any_from :
      ResolveNsParams → Dict X.Resolver → Option X.Fault → Exec X ResolveNsResponse
  any_from params [] last = give_up params last
  any_from params ((name, resolver) ∷ rest) last = do
    cfg ← gets λ s. ns_data_at name s.config
    let path = dataset_or_default params.dataset_path cfg
    found ← call (X.resolve resolver path)
    elim found.0 [
      | none ↦ any_from params rest found.1
      | some provider ↦ do fail_with found.1 foreign; respond path name (some provider)
    ]

  unfoldable pub resolve_ns_no_zone : ResolveNsParams → Exec X ResolveNsResponse
  resolve_ns_no_zone params =
      if params.is_v13_compatible
      then resolve_compatibility_config params
      else if not (params.config_name == "")
      then resolve_named params
      else (λ s. any_from params s.controller_resolvers none s)

  -- The loop of `resolveNSWithZone`.
  unfoldable pub zone_from :
      ResolveNsParams → Dict X.Resolver → Option X.Fault → Exec X ResolveNsResponse
  zone_from params [] last = give_up params last
  zone_from params ((name, resolver) ∷ rest) last = do
    cfg ← gets λ s. ns_data_at name s.config
    let path = dataset_or_default params.dataset_path cfg
    if not (params.zone == cfg.zone) then zone_from params rest last else do
      found ← call (X.resolve resolver path)
      elim found.0 [
        | none ↦ zone_from params rest found.1
        | some provider ↦ respond path name (some provider)
      ]

  unfoldable pub resolve_ns_with_zone : ResolveNsParams → Exec X ResolveNsResponse
  resolve_ns_with_zone params =
      if not (params.config_name == "")
      then (λ s.
          if not ((ns_data_at params.config_name s.config).zone == params.zone)
          then raise_status failed_precondition
              ("requested zone [" <> params.zone <> "] does not match requested NexentaStor name ["
                <> params.config_name <> "]")
              s
          else resolve_named params s)
      else (λ s. zone_from params s.controller_resolvers none s)

  -- The status that `resolveNS` makes of any error.
  abbrev pub recode : String → Error X.Fault → Error X.Fault
  recode dataset_path e =
      status (if X.is_not_exist_nef_error e then not_found else internal)
        ("Cannot resolve '" <> dataset_path <> "' on any NexentaStor(s): " <> X.error_text e)

  -- `resolveNS`.
  unfoldable pub resolve_ns : ResolveNsParams → Exec X ResolveNsResponse
  resolve_ns params =
      catch (if params.zone == "" then resolve_ns_no_zone params else resolve_ns_with_zone params)
        (λ e. raise (recode params.dataset_path e))
