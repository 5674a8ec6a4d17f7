-- ===== src/Command.antt =====
-- cmd/main.go: the command, from its flags on.
pub mod Startup
pub mod Survival
use nexentastor_csi_driver.Config.Discovery.{new_config}
use nexentastor_csi_driver.Errors.{Error}
use nexentastor_csi_driver.Driver.{Driver, Args, new_driver, validate_driver, run}
use nexentastor_csi_driver.Common.{
  if◌then◌else◌, ◌<>◌, Dict, String, Bool, true, false, List, [], ◌∷◌,
}
use nexentastor_csi_driver.External.{External}
use nexentastor_csi_driver.Serve.{Call}
use nexentastor_csi_driver.Process.{Exec, ◌>>=◌, ◌>>◌, handle, pure, gets, call, deref}
use nexentastor_csi_driver.Role.{parse_role}
use nexentastor_csi_driver.Config.Data.{NsData}

-- The flags, with the defaults that `flag` fills in where one is not given.
pub record Flags : Type 0 where
  pub node_id : String
  pub endpoint : String
  pub config_dir : String
  pub role : String
  pub version : Bool

abbrev pub default_flags : Flags
default_flags = record {
  node_id = "";
  endpoint = "unix:///var/lib/kubelet/plugins_registry/nexentastor-csi-driver.nexenta.com/csi.sock";
  config_dir = "/config";
  role = "";
  version = false;
}

-- What the flags say about the driver.
abbrev pub driver_of : Flags → Driver
driver_of flags = record {
  role = (parse_role flags.role).role;
  node_id = flags.node_id;
  endpoint = flags.endpoint;
}

-- How the command ends: it prints its version (status 0), `main` returns, or `l.Fatal` logs a text and
-- exits (status 1).
pub data Exit : Type 0 where
  version_printed returned : Exit
  fatal : String → Exit

module _ (X : External) where
  -- The lines on the config's entries, which read the pointer `InsecureSkipVerify`.
  unfoldable pub show_entries : Dict NsData → Exec X (Unit {0})
  show_entries [] = pure tt
  show_entries ((name, cfg) ∷ rest) = do _ ← deref cfg.insecure_skip_verify; show_entries rest

  -- `writeTerminationMessage`, whose own error is logged.
  unfoldable pub write_termination_message : String → Exec X (Unit {0})
  write_termination_message message = do
    _ ← call (X.write_file "/dev/termination-log" ("\n" <> message <> "\n"))
    pure tt

  -- An error of the driver: the termination message, and the end.
  unfoldable pub stop : Error X.Fault → Exec X Exit
  stop e = do write_termination_message (X.error_text e); pure (fatal (X.error_text e))

  -- `NewDriver`, `Validate` and `Run`, each with its error.
  unfoldable pub drive : Args → List (Call X) → Exec X Exit
  drive args calls = handle (new_driver X args) stop λ driver.
      handle (validate_driver X) stop λ _. handle (run X driver calls) stop λ _. pure returned

  -- `main`, with the calls that come in while the driver serves.
  unfoldable pub main : Flags → List (Call X) → Exec X Exit
  main flags calls =
      if flags.version
      then pure version_printed
      else handle (new_config X flags.config_dir)
          (λ e. pure (fatal ("Cannot use config file: " <> X.error_text e)))
          λ _. do
            ns_map ← gets λ s. s.config.ns_map
            show_entries ns_map
            drive (record { driver = driver_of flags; has_config = true; has_log = true }) calls
