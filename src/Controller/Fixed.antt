-- ===== src/Controller/Fixed.antt =====
-- The answers of pkg/driver/controllerServer.go that read nothing of the server.
use nexentastor_csi_driver.Common.{String, List, [], ◌∷◌, ◌++◌}
use nexentastor_csi_driver.Errors.{unimplemented}
use nexentastor_csi_driver.External.{External}
use nexentastor_csi_driver.Process.{Exec, pure, raise_status}

-- `csi.ControllerServiceCapability_RPC_Type`, those that the driver names.
pub data ControllerCapability : Type 0 where
  can_list_volumes can_create_delete_volume can_create_delete_snapshot : ControllerCapability
  can_list_snapshots can_clone_volume can_get_capacity can_expand_volume : ControllerCapability

-- `supportedControllerCapabilities`.
unfoldable pub supported_controller_capabilities : List ControllerCapability
supported_controller_capabilities =
    can_list_volumes ∷ can_create_delete_volume ∷ can_create_delete_snapshot ∷ can_list_snapshots
    ∷ can_clone_volume ∷ can_get_capacity ∷ can_expand_volume ∷ []

-- The loop of `ControllerGetCapabilities`: `newControllerServiceCapability` only wraps a capability.
unfoldable pub wrap_capabilities :
    List ControllerCapability → List ControllerCapability → List ControllerCapability
wrap_capabilities capabilities [] = capabilities
wrap_capabilities capabilities (c ∷ rest) = wrap_capabilities (capabilities ++ c ∷ []) rest

module _ (X : External) where
  -- `ControllerGetCapabilities`.
  unfoldable pub controller_get_capabilities : Exec X (List ControllerCapability)
  controller_get_capabilities = pure (wrap_capabilities [] supported_controller_capabilities)

  -- `ControllerGetVolume`, `ControllerPublishVolume` and `ControllerUnpublishVolume`, from the volume
  -- identifier of their requests.
  unfoldable pub controller_get_volume : String → Exec X (Unit {0})
  controller_get_volume volume_id = raise_status unimplemented ""

  unfoldable pub controller_publish_volume : String → Exec X (Unit {0})
  controller_publish_volume volume_id = raise_status unimplemented ""

  unfoldable pub controller_unpublish_volume : String → Exec X (Unit {0})
  controller_unpublish_volume volume_id = raise_status unimplemented ""
