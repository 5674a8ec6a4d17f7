-- ===== src/Identity.antt =====
-- pkg/driver/identityServer.go
pub mod Effects
use nexentastor_csi_driver.Common.{◌<>◌, String, List, [], ◌∷◌}
use nexentastor_csi_driver.Errors.{failed_precondition}
use nexentastor_csi_driver.External.{External}
use nexentastor_csi_driver.Process.{Exec, ◌>>=◌, ◌>>◌, catch, pure, raise_status}
use nexentastor_csi_driver.Config.Refresh.{refresh}

-- `GetPluginInfo`: the name and the version, which the build sets.
unfoldable pub get_plugin_info : String → String × String
get_plugin_info version = ("nexentastor-csi-driver.nexenta.com", version)

pub data PluginCapability : Type 0 where
  controller_service volume_accessibility_constraints : PluginCapability
  volume_expansion_online volume_expansion_offline : PluginCapability

-- `GetPluginCapabilities`.
unfoldable pub get_plugin_capabilities : List PluginCapability
get_plugin_capabilities =
    controller_service ∷ volume_accessibility_constraints ∷ volume_expansion_online
    ∷ volume_expansion_offline ∷ []

-- `Probe`.
unfoldable pub probe : (X : External) → Exec X (Unit {0})
probe X = do
  _ ←
      catch (refresh X "")
        (λ e. raise_status failed_precondition ("Cannot use config file: " <> X.error_text e))
  pure tt
