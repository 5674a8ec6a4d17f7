-- ===== src/Controller/Delete/Twice.antt =====
-- The end of `DeleteVolume` of pkg/driver/controllerServer.go, on a storage that keeps its word.
use nexentastor_csi_driver.Common.{
  Bool-cases, Option-cases, ℤ, String, ◌≡◌, ap, inl, inr, true, Option, none, some, arith,
}
use nexentastor_csi_driver.Errors.{foreign, ok}
use nexentastor_csi_driver.External.{External}
use nexentastor_csi_driver.External.Params.{DestroyFilesystemParams}
use nexentastor_csi_driver.External.Storage.{IsStorage}
use nexentastor_csi_driver.Process.{Process}
use nexentastor_csi_driver.Controller.Delete.{destroy_volume}

module _ (X : External) (quota : X.Provider → X.World → String → Option ℤ) (L : IsStorage X quota)
    (provider : X.Provider) (path : String) where
  abbrev params : DestroyFilesystemParams
  params = record { destroy_snapshots = true; promote_most_recent_clone_if_exists = true }

  gone :
      (s t : Process X)
      → destroy_volume X path (some provider) s ≡ (ok tt, t)
      → quota provider t.world path ≡ none
  unfolding destroy_volume
  gone s t h =
      let run = X.destroy_filesystem provider path params s.world in
      elim (Option-cases run.0) [
        | inl e ↦
            let there = L.destroyed provider path params s.world run.1 (ap (λ o. (o, run.1)) e) in
            ground arith
        | inr (f, e) ↦ elim (Bool-cases (X.is_not_exist_nef_error (foreign f))) [
          | inl known ↦
              let there =
                L.missing_already provider path params s.world run.1 f (ap (λ o. (o, run.1)) e)
                  known in
              ground arith
          | inr other ↦ absurd (ground arith)
        ]
      ]

  -- On a storage that keeps its promises: after a deletion that succeeds the filesystem is not
  -- there; and the same deletion succeeds again.
  pub destroy_volume-twice :
      (s t : Process X)
      → destroy_volume X path (some provider) s ≡ (ok tt, t)
      → (quota provider t.world path ≡ none) × ((destroy_volume X path (some provider) t).0 ≡ ok tt)
  unfolding destroy_volume
  destroy_volume-twice s t h =
      let absent = gone s t h in
      let (f, w, denied, known) = L.not_there provider path params t.world absent in
      (absent, ground arith)
