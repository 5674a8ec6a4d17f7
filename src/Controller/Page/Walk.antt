-- ===== src/Controller/Page/Walk.antt =====
-- A client's walk over all pages of a list of snapshots (`ListSnapshots` with a next token).
use nexentastor_csi_driver.Common.{
  if◌then◌else◌, Bool-cases, length, take, drop, take-append-drop, length-drop-le, All, ℤ, pos, ℕ,
  zero, suc, ◌^◌, ◌<◌, String, ◌≡◌, refl, sym, ap, ◌∙◌, subst, ◌≢◌, inl, inr, List, [], ◌∷◌, ◌++◌,
  map, append_assoc, append-nil, map-append, arith, ◌==◌, eq_iff,
}
use nexentastor_csi_driver.External.Params.{Snapshot}
use nexentastor_csi_driver.Controller.Requests.{SnapshotEntry}
use nexentastor_csi_driver.Controller.Page.{convert_snapshot, next_path, page_from}
use nexentastor_csi_driver.Controller.Page.Paging.{rest_from, Distinct, page_from_lem}

-- A client that asks for page after page, until a page has no next token.
pub pages : ℕ → String → ℤ → String → List Snapshot → List SnapshotEntry
pages zero config_name max_entries token snapshots = []
pages (suc fuel) config_name max_entries token snapshots =
    let page = page_from config_name max_entries token [] snapshots in
    let later = pages fuel config_name max_entries page.next_token snapshots in
    if page.next_token == "" then page.entries else page.entries ++ later

-- The token of a snapshot finds it again, behind snapshots of other paths.
rest_from-append :
    (before : List Snapshot) (s : Snapshot) (behind : List Snapshot)
    → s.path ≢ ""
    → All (λ t. t.path ≢ s.path) before
    → rest_from s.path (before ++ s ∷ behind) ≡ s ∷ behind
unfolding rest_from
rest_from-append [] s behind h k = ground (arith, eq_iff s.path s.path)
rest_from-append (t ∷ before) s behind h (p, k) =
    ground (arith, eq_iff s.path "", eq_iff t.path s.path, rest_from-append before s behind h k)

rest_from-nil : (snapshots : List Snapshot) → rest_from "" snapshots ≡ snapshots
unfolding rest_from
rest_from-nil [] = refl
rest_from-nil (s ∷ snapshots) = refl

All-append_right {ℓ κ} :
    {A : Type ℓ} (P : A → Type κ) (xs ys : List A) → All P (xs ++ ys) → All P ys
All-append_right P [] ys h = h
All-append_right P (x ∷ xs) ys h = All-append_right P xs ys h.1

Distinct-before :
    (before : List Snapshot) (s : Snapshot) (behind : List Snapshot)
    → Distinct (before ++ s ∷ behind)
    → (s.path ≢ "") × All (λ t. t.path ≢ s.path) before
Distinct-before [] s behind h = (h.0, tt)
Distinct-before (t ∷ before) s behind h =
    let (named, others) = Distinct-before before s behind h.2 in
    let differs = All-append_right (λ u. u.path ≢ t.path) before (s ∷ behind) h.1 in
    (named, (λ e. differs.0 (sym e), others))

length-drop-lt :
    (max : ℕ) (left : List Snapshot) (s : Snapshot) (behind : List Snapshot)
    → 0 < max
    → drop max left ≡ s ∷ behind
    → length (s ∷ behind) < length left
length-drop-lt zero left s behind h e = elim h [ ]
length-drop-lt (suc m) [] s behind h e = cc
length-drop-lt (suc m) (t ∷ left) s behind h e = omega (arith, length-drop-le m left, ap length e)

module _ (config_name : String) (max : ℕ) where
  -- One page of the walk, from the snapshots that it shows and those behind it.
  pages-page :
      (shown behind left : List Snapshot) (later : List SnapshotEntry)
      → shown ++ behind ≡ left
      → ((s : Snapshot) (rest : List Snapshot)
          → behind ≡ s ∷ rest
          → (s.path ≢ "") × (later ≡ map (convert_snapshot config_name) (s ∷ rest)))
      → (if next_path behind == ""
          then map (convert_snapshot config_name) shown
          else map (convert_snapshot config_name) shown ++ later)
        ≡ map (convert_snapshot config_name) left
  pages-page shown [] left later joined h =
      ap (map (convert_snapshot config_name)) (sym (append-nil shown) ∙ joined)
  pages-page shown (s ∷ rest) left later joined h =
      let (named, e) = h s rest refl in
      rw (← joined) (elim (Bool-cases (s.path == "")) [
        | inl same ↦ absurd (named ((eq_iff s.path "").0 same))
        | inr other ↦ rw (other, e, map-append) refl
      ])

  module _ (small : max < 2 ^ 31) (some_wanted : 0 < max) where
    -- From the token that leaves `left`, the walk gives all of `left`.
    pages-rest :
        (fuel : ℕ) (token : String) (before left : List Snapshot)
        → Distinct (before ++ left)
        → rest_from token (before ++ left) ≡ left
        → length left < fuel
        → pages fuel config_name (pos max) token (before ++ left)
          ≡ map (convert_snapshot config_name) left
    unfolding pages
    pages-rest zero token before left d e h = elim h [ ]
    pages-rest (suc fuel) token before left d e h =
        rw (page_from_lem config_name max small token (before ++ left) some_wanted, e)
          (pages-page (take max left) (drop max left) left _ (take-append-drop max left)
            λ s rest split_at.
              let q : before ++ left ≡ (before ++ take max left) ++ s ∷ rest =
                ap (λ l. before ++ l)
                  (sym (take-append-drop max left) ∙ ap (λ l. take max left ++ l) split_at)
                ∙ sym (append_assoc before (take max left) (s ∷ rest)) in
              let d' = subst Distinct q d in
              let (named, others) = Distinct-before (before ++ take max left) s rest d' in
              let later =
                pages-rest fuel s.path (before ++ take max left) (s ∷ rest) d'
                  (rest_from-append (before ++ take max left) s rest named others)
                  (omega (arith, length-drop-lt max left s rest some_wanted split_at)) in
              (named, rw (split_at, q) later))

-- The walk from the first page gives every snapshot once and in order, if the paths are not empty
-- and differ and the maximum of a page is positive and below 2^31; one page more than there are
-- snapshots is enough.
pub pages_complete :
    (config_name : String) (max fuel : ℕ) (snapshots : List Snapshot)
    → 0 < max
    → max < 2 ^ 31
    → Distinct snapshots
    → length snapshots < fuel
    → pages fuel config_name (pos max) "" snapshots ≡ map (convert_snapshot config_name) snapshots
pages_complete config_name max fuel snapshots some_wanted small d h =
    pages-rest config_name max small some_wanted fuel "" [] snapshots d (rest_from-nil snapshots) h
