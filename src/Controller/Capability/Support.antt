-- ===== src/Controller/Capability/Support.antt =====
-- The capabilities that `validateVolumeCapability` of pkg/driver/controllerServer.go lets through.
use nexentastor_csi_driver.Common.{◌≤◌, ◌≡◌, ◌↔◌, true, false, arith}
use nexentastor_csi_driver.Controller.Requests.{VolumeCapability}
use nexentastor_csi_driver.Controller.Capability.{validate_volume_capability}

-- A capability is supported exactly if it is no block volume and its access mode is one of the five
-- modes that the protocol numbers from one to five.
pub validate_volume_capability_iff :
    (c : VolumeCapability)
    → (validate_volume_capability c ≡ true) ↔ ((c.is_block ≡ false) × (1 ≤ c.mode) × (c.mode ≤ 5))
unfolding validate_volume_capability
validate_volume_capability_iff c = ground arith
