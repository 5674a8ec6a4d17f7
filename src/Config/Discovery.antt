-- ===== src/Config/Discovery.antt =====
-- `findConfigFile` and `New` of pkg/config/config.go.
pub mod Choice
use nexentastor_csi_driver.Common.{
  if◌then◌else◌, ◌<>◌, path_join, path_ext, String, Bool, true, false, ◌||◌, Option, none, some, [],
  ◌==◌,
}
use nexentastor_csi_driver.Errors.{plain, panic}
use nexentastor_csi_driver.External.{External}
use nexentastor_csi_driver.External.Params.{
  Tree, file, directory, unreadable, no_info, Entries, no_entry, an_entry,
}
use nexentastor_csi_driver.Process.{Exec, handle, pure, raise}
use nexentastor_csi_driver.Config.Data.{Config}
use nexentastor_csi_driver.Config.Refresh.{refresh}

-- How a visit or a walk ends, with the variable `configFilePath`: with nil, with `filepath.SkipDir`,
-- or in the panic of a nil `info`.
pub data Walked : Type 0 where
  went_on : String → Walked
  skipped_dir : String → Walked
  crashed : Walked

unfoldable pub is_config_name : String → Bool
is_config_name path = let ext = path_ext path in ext == ".yaml" || ext == ".yml"

-- The function that `findConfigFile` passes to `filepath.Walk`: `info` says whether the path is a
-- directory, and is nil for `none`.
unfoldable pub visit : String → Option Bool → String → Walked
unfolding is_config_name
visit path none found = crashed
visit path (some true) found = went_on found
visit path (some false) found = if is_config_name path then skipped_dir path else went_on found

abbrev pub is_directory : Tree → Bool
is_directory (directory entries) = true
is_directory unreadable = true
is_directory _ = false

-- What a directory's loop does with the end of an entry's walk: `SkipDir` leaves the loop, unless the
-- entry is a directory.
abbrev pub next_entry : Bool → (String → Walked) → Walked → Walked
next_entry is_dir go (went_on found) = go found
next_entry is_dir go (skipped_dir found) = if is_dir then go found else skipped_dir found
next_entry is_dir go crashed = crashed

-- The function `walk` behind `filepath.Walk`, with the visits of `findConfigFile`.
unfoldable mutual
  pub walk : String → Tree → String → Walked
  walk path file found = visit path (some false) found
  walk path (directory entries) found =
      next_entry true (λ f. walk_entries path entries f) (visit path (some true) found)
  walk path unreadable found = visit path (some true) found
  walk path no_info found = visit path none found

  pub walk_entries : String → Entries → String → Walked
  walk_entries path no_entry found = went_on found
  walk_entries path (an_entry name tree rest) found =
      next_entry (is_directory tree) (λ f. walk_entries path rest f)
        (walk (path_join path name) tree found)

-- `findConfigFile`: the path, empty where none is found, and nothing where it panics. Its error is
-- always nil, since the visits return nil or `SkipDir`, which `filepath.Walk` turns into nil.
unfoldable pub find_config_file : String → Tree → Option String
find_config_file look_up_dir tree = elim (walk look_up_dir tree "") [
  | went_on found ↦ some found
  | skipped_dir found ↦ some found
  | crashed ↦ none
]

-- The zero `Config` with its path.
abbrev pub fresh_config : String → Config
fresh_config path = record {
  content = record { ns_map = []; debug = false };
  file_path = path;
  last_mod_time = 0;
  temporary = false;
}

module _ (X : External) where
  -- The end of `New`, at the file that was found: the config that the servers will share.
  unfoldable pub read_new_config : String → Exec X (Unit {0})
  read_new_config path s =
      handle (refresh X "")
        (λ e.
          raise (plain ("Cannot refresh config from file '" <> path <> "': " <> X.error_text e)))
        (λ changed. pure tt) (record s { config = fresh_config path })

  -- `New`. After an error the process has no config that is used.
  unfoldable pub new_config : String → Exec X (Unit {0})
  new_config look_up_dir s = elim (find_config_file look_up_dir (X.tree_at look_up_dir s.world)) [
    | none ↦ (panic, s)
    | some path ↦
        if path == ""
        then raise (plain ("Cannot find .yaml config file in '" <> look_up_dir <> "' directory")) s
        else read_new_config path s
  ]
