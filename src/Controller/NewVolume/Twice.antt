-- ===== src/Controller/NewVolume/Twice.antt =====
-- `createNewVolume` of pkg/driver/controllerServer.go, called again, on a storage that keeps its word.
use nexentastor_csi_driver.Common.{
  Bool-cases, Option-cases, ℤ, pos, String, ◌≡◌, refl, ap, ◌∙◌, ◌⊎◌, inl, inr, true, Option, some,
  arith,
}
use nexentastor_csi_driver.Errors.{foreign, ok, value}
use nexentastor_csi_driver.External.{External}
use nexentastor_csi_driver.External.Params.{CreateFilesystemParams}
use nexentastor_csi_driver.External.Storage.{IsStorage}
use nexentastor_csi_driver.Process.{Process}
use nexentastor_csi_driver.Process.Runs.{Reply-cases}
use nexentastor_csi_driver.Controller.NewVolume.{create_new_volume, existing_volume}
use nexentastor_csi_driver.Controller.NewVolume.Existing.{
  create_new_volume-existing, create_new_volume-world,
}

module _ (X : External) (quota : X.Provider → X.World → String → Option ℤ) (L : IsStorage X quota)
    (provider : X.Provider) (path : String) (capacity : ℤ) where
  abbrev params : CreateFilesystemParams
  params = record { path = path; referenced_quota_size = capacity }

  -- The filesystem is there, with the capacity asked for, if one was asked for.
  abbrev pub Exists : Process X → Type 0
  Exists s =
      (q : ℤ) × (quota provider s.world path ≡ some q) × ((capacity ≡ pos 0) ⊎ (q ≡ capacity))

  -- A creation at an existing filesystem of the right quota changes nothing that the storage shows.
  again :
      (s : Process X)
      → Exists s
      → ((create_new_volume X provider path capacity s).0 ≡ ok tt)
        × Exists (create_new_volume X provider path capacity s).1
  again s (q, there, fits) =
      let (f, w, denied, known) = L.exists_already provider params s.world q there in
      let same = L.already provider params s.world w f denied known in
      let (v, w', got) = L.tells provider path w q (same ∙ there) in
      let (before, after) = L.told provider path w w' v got in
      let e : v.referenced_quota_size ≡ q = ground arith in
      let enough : (capacity ≡ pos 0) ⊎ (v.referenced_quota_size ≡ capacity) = ground arith in
      (
        (create_new_volume-existing X provider path capacity s f v w w' denied known got).1 enough,
        rw (create_new_volume-world X provider path capacity s f v w w' denied known got)
            (v.referenced_quota_size, after, enough),
      )

  -- Where the filesystem exists and the creation succeeds, its quota has been found to fit.
  met :
      (s t : Process X) (f : X.Fault) (w : X.World)
      → create_new_volume X provider path capacity s ≡ (ok tt, t)
      → X.create_filesystem provider params s.world ≡ (some f, w)
      → X.is_already_exist_nef_error (foreign f) ≡ true
      → Exists t
  unfolding create_new_volume existing_volume
  met s t f w h denied known =
      let reply = X.get_filesystem provider path w in
      elim (Reply-cases reply.0) [
        | inl (v, e) ↦
            let got : reply ≡ (value v, reply.1) = ap (λ r. (r, reply.1)) e in
            let (before, after) = L.told provider path w reply.1 v got in
            let ends =
              create_new_volume-world X provider path capacity s f v w reply.1 denied known got in
            let fits =
              (create_new_volume-existing X provider path capacity s f v w reply.1 denied known
                  got).0
                (ap (λ o. o.0) h) in
            (v.referenced_quota_size, ground arith, fits)
        | inr (e, failed) ↦ absurd (ground arith)
      ]

  -- A creation that succeeds leaves the filesystem there.
  first : (s t : Process X) → create_new_volume X provider path capacity s ≡ (ok tt, t) → Exists t
  unfolding create_new_volume
  first s t h =
      let run = X.create_filesystem provider params s.world in
      elim (Option-cases run.0) [
        | inl e ↦
            let there = L.created provider params s.world run.1 (ap (λ o. (o, run.1)) e) in
            (capacity, ground arith, inr refl)
        | inr (f, e) ↦
            let denied : run ≡ (some f, run.1) = ap (λ o. (o, run.1)) e in
            elim (Bool-cases (X.is_already_exist_nef_error (foreign f))) [
              | inl known ↦ met s t f run.1 h denied known
              | inr other ↦ absurd (ground arith)
            ]
      ]

  -- On a storage that keeps its promises: after a creation that succeeds the filesystem is there,
  -- with the capacity asked for if one was asked for; and the same creation succeeds again and
  -- leaves it so.
  pub create_new_volume-twice :
      (s t : Process X)
      → create_new_volume X provider path capacity s ≡ (ok tt, t)
      → Exists t
        × ((create_new_volume X provider path capacity t).0 ≡ ok tt)
        × Exists (create_new_volume X provider path capacity t).1
  create_new_volume-twice s t h =
      let there = first s t h in let (fine, still) = again t there in (there, fine, still)
