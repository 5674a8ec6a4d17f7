-- ===== src/Controller/Delete/Outcomes.antt =====
-- `DeleteVolume` of pkg/driver/controllerServer.go: deleting what is not there succeeds.
use nexentastor_csi_driver.Common.{
  ◌<>◌, All, String, ◌≡◌, refl, ◌↔◌, true, false, Option, none, some, arith,
}
use nexentastor_csi_driver.Errors.{not_found, internal, Error, status, foreign, ok, err}
use nexentastor_csi_driver.External.{External}
use nexentastor_csi_driver.External.Params.{DestroyFilesystemParams}
use nexentastor_csi_driver.External.Laws.{IsLawful}
use nexentastor_csi_driver.Process.{Process, handle}
use nexentastor_csi_driver.VolumeId.{VolumeInfo}
use nexentastor_csi_driver.Controller.Resolve.{volume_params, ResolveNsResponse, resolve_ns}
use nexentastor_csi_driver.Controller.Resolve.Answers.{
  v13_info, no_v13_message, resolve_inner, resolve_ns-status, resolve_ns-err, resolve_inner-no_v13,
}
use nexentastor_csi_driver.Controller.Delete.{destroy_volume, delete_by_info}

module _ (X : External) where
  abbrev destroy_params : DestroyFilesystemParams
  destroy_params = record { destroy_snapshots = true; promote_most_recent_clone_if_exists = true }

  -- A deletion of a resolved volume succeeds exactly if the storage destroys the filesystem or says
  -- that it does not exist.
  pub delete_by_info-ok_iff :
      (i : VolumeInfo) (s t : Process X) (r : ResolveNsResponse X) (provider : X.Provider)
      (error : Option X.Fault) (w : X.World)
      → resolve_ns X (volume_params i) s ≡ (ok r, t)
      → r.ns_provider ≡ some provider
      → X.destroy_filesystem provider i.path destroy_params t.world ≡ (error, w)
      → ((delete_by_info X i s).0 ≡ ok tt)
        ↔ ((f : X.Fault) → error ≡ some f → X.is_not_exist_nef_error (foreign f) ≡ true)
  unfolding delete_by_info destroy_volume
  delete_by_info-ok_iff i s t r provider none w resolved found destroyed =
      rw (resolved, handle, found, destroyed) ((λ h f e. cc), λ h. refl)
  delete_by_info-ok_iff i s t r provider (some f) w resolved found destroyed =
      rw (resolved, handle, found, destroyed) ((λ h g e. ground arith), λ h. rw (h f refl) refl)

  -- Where the tests of errors are lawful, a deletion succeeds if resolving fails because the storage
  -- does not know the path.
  pub delete_by_info-not_found :
      IsLawful X
      → (i : VolumeInfo) (s t : Process X) (e : Error X.Fault)
      → resolve_inner X (volume_params i) s ≡ (err e, t)
      → X.is_not_exist_nef_error e ≡ true
      → delete_by_info X i s ≡ (ok tt, t)
  unfolding delete_by_info
  delete_by_info-not_found L i s t e h missing =
      rw (resolve_ns-err X (volume_params i) s t e h, handle, missing, L.status_code-status)

  -- Where the tests of errors are lawful, a volume of version 1.3 is not deleted if no config has
  -- the compatibility flag: the status that says so is answered as an internal error.
  pub delete_by_info-no_v13 :
      IsLawful X
      → (path : String) (s : Process X) → All (λ e. e.1.v13_compatibility ≡ false) s.config.ns_map
      → delete_by_info X (v13_info path) s ≡ (
        err (
            status internal (
              "Cannot resolve '"
              <> path
              <> "' on any NexentaStor(s): "
              <> X.error_text (status not_found (no_v13_message path)))),
        s,
      )
  unfolding delete_by_info
  delete_by_info-no_v13 L path s h = rw (
    resolve_ns-status X L (volume_params (v13_info path)) s s _ _ (resolve_inner-no_v13 X path s h),
    handle,
    L.status_code-status,
  )
