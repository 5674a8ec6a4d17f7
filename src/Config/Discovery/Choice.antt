-- ===== src/Config/Discovery/Choice.antt =====
-- Which file `findConfigFile` of pkg/config/config.go finds.
use nexentastor_csi_driver.Common.{
  if◌then◌else◌, get_or, Bool-cases, path_join, String, ◌≡◌, refl, ap, ◌∙◌, inl, inr, true, Option,
  none, some,
}
use nexentastor_csi_driver.External.Params.{
  Tree, file, directory, unreadable, no_info, Entries, no_entry, an_entry,
}
use nexentastor_csi_driver.Config.Discovery.{
  Walked, went_on, skipped_dir, crashed, is_config_name, visit, next_entry, walk, walk_entries,
  find_config_file,
}

-- Whether `os.Lstat` tells everything below, so that no visit has a nil `info`.
abbrev mutual
  pub Readable : Tree → Type 0
  Readable file = Unit
  Readable (directory entries) = AllReadable entries
  Readable unreadable = Unit
  Readable no_info = ⊥

  pub AllReadable : Entries → Type 0
  AllReadable no_entry = Unit
  AllReadable (an_entry name tree rest) = Readable tree × AllReadable rest

-- The first file of a directory, in the order of the names, whose name ends in .yaml or .yml.
unfoldable pub first_file : String → Entries → Option String
first_file path no_entry = none
first_file path (an_entry name file rest) =
    let later = first_file path rest in
    let here = path_join path name in if is_config_name here then some here else later
first_file path (an_entry name tree rest) = first_file path rest

-- The choice in a directory: its own first file, or else the choice of the last of its directories
-- that has one, or else what was found before.
unfoldable mutual
  pub choice : String → Tree → String → String
  choice path (directory entries) found =
      get_or (first_file path entries) (last_choice path entries found)
  choice path tree found = found

  pub last_choice : String → Entries → String → String
  last_choice path no_entry found = found
  last_choice path (an_entry name tree rest) found =
      last_choice path rest (choice (path_join path name) tree found)

-- The end of a directory's loop.
abbrev ending : Option String → String → Walked
ending (some own) found = skipped_dir own
ending none found = went_on found

next_entry-ending :
    (go : String → Walked) (own : Option String) (found : String)
    → next_entry true go (ending own found) ≡ go (get_or own found)
next_entry-ending go none found = refl
next_entry-ending go (some own) found = refl

walk_entries-ending :
    (path : String) (entries : Entries) (found : String)
    → AllReadable entries
    → walk_entries path entries found
      ≡ ending (first_file path entries) (last_choice path entries found)
unfolding walk choice visit first_file
walk_entries-ending path no_entry found h = refl
walk_entries-ending path (an_entry name file rest) found (p, h) =
    elim (Bool-cases (is_config_name (path_join path name))) [
      | inl named ↦ rw (named, if◌then◌else◌) refl
      | inr other ↦ rw (other, if◌then◌else◌) (walk_entries-ending path rest found h)
    ]
walk_entries-ending path (an_entry name (directory entries) rest) found (p, h) =
    let here = path_join path name in
    ap (next_entry true (λ f. walk_entries path rest f)) (walk_entries-ending here entries found p)
    ∙ next_entry-ending (λ f. walk_entries path rest f) (first_file here entries)
        (last_choice here entries found)
    ∙ walk_entries-ending path rest (choice here (directory entries) found) h
walk_entries-ending path (an_entry name unreadable rest) found (p, h) =
    walk_entries-ending path rest found h
walk_entries-ending path (an_entry name no_info rest) found (p, h) = elim p [ ]

some-ending :
    (own : Option String) (found : String)
    → elim (ending own found) [ went_on f ↦ some f | skipped_dir f ↦ some f | crashed ↦ none ]
      ≡ some (get_or own found)
some-ending none found = refl
some-ending (some own) found = refl

-- In a directory of which everything can be told, the file that is found is the directory's own first
-- one that is named so; only where it has none, one of the last directory that has one. A path of
-- which nothing can be told makes the search panic.
pub find_config_file_lem :
    (path : String) (entries : Entries)
    → AllReadable entries
    → (find_config_file path (directory entries)
        ≡ some (get_or (first_file path entries) (last_choice path entries "")))
      × (find_config_file path no_info ≡ none)
unfolding find_config_file walk visit
find_config_file_lem path entries h = (
  rw (walk_entries-ending path entries "" h)
      (some-ending (first_file path entries) (last_choice path entries "")),
  refl,
)
