-- ===== src/Command/Startup.antt =====
-- From the directory of the config file to the servers: `New` of pkg/config/config.go, and `Validate`
-- and `Run` of pkg/driver/driver.go, as cmd/main.go calls them.
use nexentastor_csi_driver.Common.{
  Bool-cases, Option-cases, All, String, ◌≡◌, ap, subst, inl, inr, Bool, true, false, List, arith,
  ◌==◌,
}
use nexentastor_csi_driver.Errors.{ok}
use nexentastor_csi_driver.External.{External}
use nexentastor_csi_driver.External.Params.{Service}
use nexentastor_csi_driver.Process.{Process}
use nexentastor_csi_driver.Process.Frames.{kept_config}
use nexentastor_csi_driver.Process.Runs.{handle-eq-ok}
use nexentastor_csi_driver.Role.{is_controller}
use nexentastor_csi_driver.Config.Data.{}
use nexentastor_csi_driver.Config.Refresh.{refresh}
use nexentastor_csi_driver.Config.Refresh.Effects.{refresh-IsUsable, refresh-false}
use nexentastor_csi_driver.Config.Validate.Accepts.{IsUsable}
use nexentastor_csi_driver.Config.Discovery.{
  find_config_file, fresh_config, read_new_config, new_config,
}
use nexentastor_csi_driver.Controller.Service.{}
use nexentastor_csi_driver.Controller.Service.{Runs}
use nexentastor_csi_driver.Controller.Service.Ready.{Runs-Ready, Ready}
use nexentastor_csi_driver.Driver.{Driver, validate_driver, prepare}
use nexentastor_csi_driver.Driver.Frame.{validate_driver-KeepsServers}
use nexentastor_csi_driver.Driver.Registered.{prepare_lem}

module _ (X : External) where
  read_fresh-IsUsable :
      (s t : Process X) (path : String) (b : Bool)
      → refresh X "" (record s { config = fresh_config path }) ≡ (ok b, t)
      → All (λ e. IsUsable e.1) t.config.ns_map
  read_fresh-IsUsable s t path true h = refresh-IsUsable X "" _ t h
  read_fresh-IsUsable s t path false h = rw (ap (λ v. v.0.ns_map) (refresh-false X "" _ t h)) tt

  read_new_config-IsUsable :
      (path : String) (s t : Process X) (u : Unit {0})
      → read_new_config X path s ≡ (ok u, t)
      → All (λ e. IsUsable e.1) t.config.ns_map
  unfolding read_new_config
  read_new_config-IsUsable path s t u h =
      elim (handle-eq-ok (refresh X "") _ _ (record s { config = fresh_config path }) h) [
        | inl (b, w, read, ended) ↦
            subst (λ (p : Process X). All (λ e. IsUsable e.1) p.config.ns_map) (ap (λ o. o.1) ended)
              (read_fresh-IsUsable s w path b read)
        | inr (e, w, failed, raised) ↦ cc
      ]

  pub new_config-IsUsable :
      (look_up_dir : String) (s t : Process X) (u : Unit {0})
      → new_config X look_up_dir s ≡ (ok u, t)
      → All (λ e. IsUsable e.1) t.config.ns_map
  unfolding new_config
  new_config-IsUsable look_up_dir s t u h =
      elim (Option-cases (find_config_file look_up_dir (X.tree_at look_up_dir s.world))) [
        | inl panicked ↦ absurd (ground arith)
        | inr (path, found) ↦ elim (Bool-cases (path == "")) [
          | inl nameless ↦ absurd (ground arith)
          | inr named ↦ read_new_config-IsUsable path s t u (ground arith)
        ]
      ]

  prepare-Ready :
      (look_up_dir : String) (driver : Driver) (services : List Service) (s t u v : Process X)
      → new_config X look_up_dir s ≡ (ok tt, t)
      → validate_driver X t ≡ (ok tt, u)
      → prepare X driver u ≡ (ok services, v)
      → is_controller driver.role ≡ true
      → Ready X v
  prepare-Ready look_up_dir driver services s t u v read validated prepared controller =
      let usable = new_config-IsUsable look_up_dir s t tt read in
      let (these, same, resolved) = prepare_lem X driver services u v prepared in
      let kept =
        kept_config (validate_driver X) t u (ok tt) (validate_driver-KeepsServers X) validated in
      (rw (same, kept) usable, resolved controller)

  -- A driver with a controller role, whose `New`, `Validate` and first part of `Run` have succeeded, is
  -- ready from its start on: whatever requests the controller server has served since, and however the
  -- config file and the storages have changed, every entry of the config is usable and has a resolver,
  -- as long as no `refreshConfig` has failed and no other server has refreshed the config.
  pub serving-Ready :
      (look_up_dir : String) (driver : Driver) (services : List Service) (s t u v w : Process X)
      → new_config X look_up_dir s ≡ (ok tt, t)
      → validate_driver X t ≡ (ok tt, u)
      → prepare X driver u ≡ (ok services, v)
      → is_controller driver.role ≡ true
      → Runs X v w
      → Ready X w
  serving-Ready look_up_dir driver services s t u v w read validated prepared controller runs =
      Runs-Ready X v w runs
        (prepare-Ready look_up_dir driver services s t u v read validated prepared controller)
