-- ===== src/Config/Refresh.antt =====
-- `Refresh` of pkg/config/config.go, on the config that the servers of a process share.
pub mod Effects
pub mod Rebuilt
use nexentastor_csi_driver.Common.{
  if◌then◌else◌, nat_eq, ◌<>◌, ℕ, String, Bool, true, false, not, ◌||◌, none, some, ◌==◌,
}
use nexentastor_csi_driver.Errors.{plain, foreign, ok, value, failure}
use nexentastor_csi_driver.External.{External}
use nexentastor_csi_driver.Process.{Process, Exec, ◌>>=◌, ◌>>◌, pure, raise, gets, call}
use nexentastor_csi_driver.Config.Data.{Config}
use nexentastor_csi_driver.Config.Validate.{validate}

-- `changed = c.lastModTime != fileInfo.ModTime() || len(secret) > 0 || c.temporary`
abbrev pub is_changed : String → ℕ → Config → Bool
is_changed secret mod_time c =
    not (nat_eq c.last_mod_time mod_time) || not (secret == "") || c.temporary

module _ (X : External) where
  -- Writes to `*c`.
  abbrev pub set_config : (Config → Config) → Exec X (Unit {0})
  set_config f s = (ok tt, record s { config = f s.config })

  abbrev pub fail : String → Exec X (Unit {0})
  fail message = raise (plain message)

  -- The content to parse: the secret if there is one, or else the file.
  load_content : String → ℕ → Exec X String
  load_content secret mod_time =
      if not (secret == "")
      then (do set_config λ c. record c { temporary = true }; pure secret)
      else (do
        set_config λ c. record c { last_mod_time = mod_time; temporary = false }
        path ← gets λ s. s.config.file_path
        content ← call (X.read_file path)
        elim content [
          | value text ↦ pure text
          | failure f ↦
              raise
                (plain ("Cannot read '" <> path <> "' config file: " <> X.error_text (foreign f)))
        ])

  -- `yaml.Unmarshal(content, c)`, which writes to `*c` also where it fails.
  parse_content : String → Exec X (Unit {0})
  parse_content text s =
      let (content, error) = X.unmarshal text s.config.content in
      let t : Process X = record s { config = record s.config { content = content } } in
      elim error [
        | none ↦ (ok tt, t)
        | some f ↦
            fail
              ("Cannot parse yaml in '"
                <> s.config.file_path
                <> "' config file: "
                <> X.error_text (foreign f))
              t
      ]

  -- `c.Validate()`.
  unfoldable pub validate_config : Exec X (Unit {0})
  validate_config s =
      let (ns_map, error) = validate s.config.ns_map in
      let t : Process X = record s {
        config = record s.config { content = record s.config.content { ns_map = ns_map } };
      } in
      elim error [ none ↦ (ok tt, t) | some message ↦ fail message t ]

  -- The part of `Refresh` that runs if the config has changed.
  unfoldable pub reload : String → ℕ → Exec X Bool
  unfolding load_content parse_content
  reload secret mod_time = do
    text ← load_content secret mod_time
    parse_content text
    validate_config
    pure true

  -- `Refresh`: whether the config has been changed.
  unfoldable pub refresh : String → Exec X Bool
  refresh secret = do
    c ← gets λ s. s.config
    if c.file_path == ""
        then raise (plain "Cannot read config file, filePath not specified")
        else do
          info ← call (X.stat_mod_time c.file_path)
          elim info [
            | failure f ↦ raise (
                plain (
                  "Cannot get stats for '"
                  <> c.file_path
                  <> "' config file: "
                  <> X.error_text (foreign f)))
            | value mod_time ↦
                if is_changed secret mod_time c then reload secret mod_time else pure false
          ]
