-- ===== src/Controller/Page/Paging.antt =====
-- The pages of a list of snapshots (`getFilesystemSnapshotList`), taken together.
use nexentastor_csi_driver.Common.{
  if◌then◌else◌, nat_eq, Bool-cases, length, take, drop, length-append, All, ℤ, pos, ℕ, zero, suc,
  ◌+◌, ◌-◌, ◌^◌, ◌≤◌, ◌<◌, String, ◌≡◌, refl, sym, ◌∙◌, subst, ◌≢◌, inl, inr, ◌||◌, List, [], ◌∷◌,
  ◌++◌, map, append_assoc, append-nil, arith, ◌==◌, eq_iff,
}
use nexentastor_csi_driver.External.Params.{Snapshot}
use nexentastor_csi_driver.Controller.Requests.{SnapshotEntry}
use nexentastor_csi_driver.Controller.Page.{convert_snapshot, next_path, is_full, page_from}

-- The snapshots that the loop does not skip.
unfoldable pub rest_from : String → List Snapshot → List Snapshot
rest_from token [] = []
rest_from token (s ∷ snapshots) =
    let rest = rest_from token snapshots in
    if token == "" || s.path == token then s ∷ snapshots else rest

-- The paths are not empty and differ.
abbrev pub Distinct : List Snapshot → Type 0
Distinct [] = Unit
Distinct (s ∷ snapshots) = (s.path ≢ "") × All (λ t. t.path ≢ s.path) snapshots × Distinct snapshots

-- One round of the loop, with no token left to look for.
page_from-found :
    (config_name : String) (max_entries : ℤ) (entries : List SnapshotEntry) (s : Snapshot)
    (snapshots : List Snapshot)
    → let longer = entries ++ convert_snapshot config_name s ∷ [] in
      page_from config_name max_entries "" entries (s ∷ snapshots) ≡ (
        if is_full max_entries longer
        then record { entries = longer; next_token = next_path snapshots }
        else page_from config_name max_entries "" longer snapshots)
unfolding page_from
page_from-found config_name max_entries entries s snapshots = elim (Bool-cases (s.path == "")) [
  | inl e ↦ rw e
  | inr e ↦ rw e
]

-- One round of the loop, with any token.
page_from-cons :
    (config_name token : String) (max_entries : ℤ) (entries : List SnapshotEntry) (s : Snapshot)
    (snapshots : List Snapshot)
    → page_from config_name max_entries token entries (s ∷ snapshots) ≡ (
        if token == "" || s.path == token
        then page_from config_name max_entries "" entries (s ∷ snapshots)
        else page_from config_name max_entries token entries snapshots)
unfolding page_from
page_from-cons config_name token max_entries entries s snapshots =
    ground (arith, eq_iff token "", eq_iff s.path token)

page_from-rest_from :
    (config_name token : String) (max_entries : ℤ) (snapshots : List Snapshot)
    → page_from config_name max_entries token [] snapshots
      ≡ page_from config_name max_entries "" [] (rest_from token snapshots)
unfolding rest_from
page_from-rest_from config_name token max_entries [] = unfold page_from in refl
page_from-rest_from config_name token max_entries (s ∷ snapshots) = ground (
  arith,
  page_from-cons config_name token max_entries [] s snapshots,
  page_from-rest_from config_name token max_entries snapshots,
)

module _ (config_name : String) (max : ℕ) (small : max < 2 ^ 31) where
  -- Whether the page is full, at a length up to the maximum.
  is_full-eq :
      (entries : List SnapshotEntry)
      → 0 < length entries
      → length entries ≤ max
      → is_full (pos max) entries ≡ nat_eq (length entries) max
  is_full-eq entries some_there within = ground arith

  page_from-take :
      (k : ℕ) (entries : List SnapshotEntry) (snapshots : List Snapshot)
      → length entries + suc k ≡ max
      → page_from config_name (pos max) "" entries snapshots ≡ record {
        entries = entries ++ map (convert_snapshot config_name) (take (suc k) snapshots);
        next_token = next_path (drop (suc k) snapshots);
      }
  page_from-take k entries [] h = unfold page_from in rw append-nil
  page_from-take zero entries (s ∷ snapshots) h =
      let longer = entries ++ convert_snapshot config_name s ∷ [] in
      let size : length longer ≡ max =
        omega (arith, length-append entries (convert_snapshot config_name s ∷ [])) in
      rw page_from-found (ground (arith, is_full-eq longer))
  page_from-take (suc k) entries (s ∷ snapshots) h =
      let longer = entries ++ convert_snapshot config_name s ∷ [] in
      let size : length longer + suc k ≡ max =
        omega (arith, length-append entries (convert_snapshot config_name s ∷ [])) in
      rw page_from-found (
        ground (
          arith,
          is_full-eq longer,
          page_from-take k longer snapshots size,
          append_assoc entries (convert_snapshot config_name s ∷ [])
              (map (convert_snapshot config_name) (take (suc k) snapshots)),
        ))

  -- For a positive maximum below 2^31, a page holds the first entries from the token's snapshot on,
  -- as many as the maximum, and names the snapshot behind them, if there is one.
  pub page_from_lem :
      (token : String) (snapshots : List Snapshot)
      → 0 < max
      → page_from config_name (pos max) token [] snapshots ≡ record {
        entries = map (convert_snapshot config_name) (take max (rest_from token snapshots));
        next_token = next_path (drop max (rest_from token snapshots));
      }
  page_from_lem token snapshots some_wanted =
      let e : max ≡ suc (max - 1) = omega arith in
      page_from-rest_from config_name token (pos max) snapshots
      ∙ subst
          (λ (m : ℕ). page_from config_name (pos max) "" [] (rest_from token snapshots) ≡ record {
            entries = map (convert_snapshot config_name) (take m (rest_from token snapshots));
            next_token = next_path (drop m (rest_from token snapshots));
          })
          (sym e) (page_from-take (max - 1) [] (rest_from token snapshots) (omega arith))
