-- ===== src/Controller/NewVolume/Existing.antt =====
-- The idempotence of `createNewVolume` of pkg/driver/controllerServer.go.
use nexentastor_csi_driver.Common.{ℤ, pos, int_eq, String, ◌≡◌, ◌↔◌, ◌⊎◌, true, some, arith}
use nexentastor_csi_driver.Errors.{foreign, ok, value}
use nexentastor_csi_driver.External.{External}
use nexentastor_csi_driver.External.Params.{Filesystem}
use nexentastor_csi_driver.Process.{Process}
use nexentastor_csi_driver.Controller.NewVolume.{create_new_volume, existing_volume}

int_eq_iff : (a b : ℤ) → (int_eq a b ≡ true) ↔ (a ≡ b)
int_eq_iff a b = ground arith

module _ (X : External) where
  -- Where the storage answers the creation with the error that the filesystem exists and then shows
  -- the filesystem, the creation of a new volume succeeds exactly if no capacity is asked for or the
  -- quota of the filesystem is the capacity asked for.
  pub create_new_volume-existing :
      (provider : X.Provider) (path : String) (capacity : ℤ) (s : Process X) (f : X.Fault)
      (existing : Filesystem) (w w' : X.World)
      → X.create_filesystem provider
          (record { path = path; referenced_quota_size = capacity })
          s.world
        ≡ (some f, w)
      → X.is_already_exist_nef_error (foreign f) ≡ true
      → X.get_filesystem provider path w ≡ (value existing, w')
      → ((create_new_volume X provider path capacity s).0 ≡ ok tt)
        ↔ ((capacity ≡ pos 0) ⊎ (existing.referenced_quota_size ≡ capacity))
  unfolding create_new_volume existing_volume
  create_new_volume-existing provider path capacity s f existing w w' created known found =
      ground
        (arith, int_eq_iff capacity (pos 0), int_eq_iff existing.referenced_quota_size capacity)

  -- Such a creation gives the storage no further call than the two, and leaves the servers alone.
  pub create_new_volume-world :
      (provider : X.Provider) (path : String) (capacity : ℤ) (s : Process X) (f : X.Fault)
      (existing : Filesystem) (w w' : X.World)
      → X.create_filesystem provider
          (record { path = path; referenced_quota_size = capacity })
          s.world
        ≡ (some f, w)
      → X.is_already_exist_nef_error (foreign f) ≡ true
      → X.get_filesystem provider path w ≡ (value existing, w')
      → (create_new_volume X provider path capacity s).1 ≡ record s { world = w' }
  unfolding create_new_volume existing_volume
  create_new_volume-world provider path capacity s f existing w w' created known found =
      ground arith
