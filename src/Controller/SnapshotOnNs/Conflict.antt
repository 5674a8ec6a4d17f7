-- ===== src/Controller/SnapshotOnNs/Conflict.antt =====
-- `CreateSnapshotOnNS` of pkg/driver/controllerServer.go: one name, one volume.
use nexentastor_csi_driver.Common.{
  Bool-cases, Option-cases, ◌<>◌, All, path_dir, String, ◌≡◌, sym, ap, ◌∙◌, ◌≢◌, ◌↔◌, ◌⊎◌, inl, inr,
  true, not, ◌&&◌, none, some, List, [], ◌∷◌, ◌++◌, arith, ◌==◌, eq_iff,
}
use nexentastor_csi_driver.Errors.{not_found, already_exists, status, err, value, failure}
use nexentastor_csi_driver.External.{External}
use nexentastor_csi_driver.External.Params.{Snapshot}
use nexentastor_csi_driver.Process.{Process, fault_text}
use nexentastor_csi_driver.Process.Runs.{Reply-cases}
use nexentastor_csi_driver.Controller.SnapshotOnNs.{find_conflict, create_snapshot_on_ns}

-- No conflict is found exactly if every snapshot of the name is one of the volume.
find_conflict_iff :
    (name path : String) (snapshots : List Snapshot)
    → (find_conflict name path snapshots ≡ none)
      ↔ All (λ t. t.name ≡ name → t.parent ≡ path) snapshots
unfolding find_conflict
find_conflict_iff name path [] = ground arith
find_conflict_iff name path (t ∷ snapshots) =
    ground (arith, find_conflict_iff name path snapshots, eq_iff t.name name, eq_iff t.parent path)

-- A conflict that is found is a listed snapshot of the name that is of another volume.
find_conflict-found :
    (name path : String) (snapshots : List Snapshot) (u : Snapshot)
    → find_conflict name path snapshots ≡ some u
    → (front back : List Snapshot) × (snapshots ≡ front ++ u ∷ back)
      × (u.name ≡ name)
      × (u.parent ≢ path)
unfolding find_conflict
find_conflict-found name path [] u h = absurd (ground arith)
find_conflict-found name path (t ∷ snapshots) u h =
    elim (Bool-cases (t.name == name && not (t.parent == path))) [
      | inl taken ↦
          let same : t ≡ u = ground arith in
          let named : t.name ≡ name = ground (arith, eq_iff t.name name) in
          let other : t.parent ≢ path = ground (arith, eq_iff t.parent path) in
          (
            [],
            snapshots,
            ap (λ v. v ∷ snapshots) same,
            ap (λ (v : Snapshot). v.name) (sym same) ∙ named,
            λ p. other (ap (λ (v : Snapshot). v.parent) same ∙ p),
          )
      | inr free ↦
          let (front, back, e, named, other) =
            find_conflict-found name path snapshots u (ground arith) in
          (t ∷ front, back, ap (λ l. t ∷ l) e, named, other)
    ]

module _ (X : External) where
  -- What comes of `CreateSnapshotOnNS`, by what the storage lists below the parent of the volume. Where
  -- it lists a snapshot of the name that another volume has, the request ends with the status
  -- AlreadyExists for such a snapshot, and where it cannot list them, with an error: in both cases
  -- nothing is called behind the listing, so that no snapshot is created. Every other run is one where
  -- all listed snapshots of the name are of the volume.
  pub create_snapshot_on_ns_unique :
      (provider : X.Provider) (path name : String) (s : Process X)
      → let (listed, w) = X.get_snapshots provider (path_dir path) true s.world in
        let run = create_snapshot_on_ns X provider path name s in
        ((snapshots : List Snapshot) × (listed ≡ value snapshots)
          × All (λ u. u.name ≡ name → u.parent ≡ path) snapshots)
        ⊎ ((snapshots : List Snapshot) × (listed ≡ value snapshots)
            × (u : Snapshot) × (front back : List Snapshot) × (snapshots ≡ front ++ u ∷ back)
            × (u.name ≡ name)
            × (u.parent ≢ path)
            × (run ≡ (
              err (
                  status already_exists
                    ("Snapshot '" <> name <> "' already exists for filesystem: " <> u.path)),
              record s { world = w },
            )))
        ⊎ ((f : X.Fault) × (listed ≡ failure f)
            × (run ≡ (
              err (status not_found ("Cannot get snapshots list: " <> fault_text X f)),
              record s { world = w },
            )))
  unfolding create_snapshot_on_ns
  create_snapshot_on_ns_unique provider path name s =
      let reply = X.get_snapshots provider (path_dir path) true s.world in
      elim (Reply-cases reply.0) [
        | inl (listed, e) ↦ elim (Option-cases (find_conflict name path listed)) [
          | inl free ↦ inl (listed, e, (find_conflict_iff name path listed).0 free)
          | inr (u, taken) ↦
              let (front, back, there, named, other) =
                find_conflict-found name path listed u taken in
              inr (inl (listed, e, u, front, back, there, named, other, ground arith))
        ]
        | inr (f, e) ↦ inr (inr (f, e, ground arith))
      ]
