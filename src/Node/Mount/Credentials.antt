-- ===== src/Node/Mount/Credentials.antt =====
-- What `mountCIFS` of pkg/driver/nodeServer.go asks for before it mounts.
use nexentastor_csi_driver.Common.{any, All, String, ◌≡◌, Bool, true, List, [], ◌∷◌, arith}
use nexentastor_csi_driver.Errors.{ok}
use nexentastor_csi_driver.External.{External}
use nexentastor_csi_driver.External.Params.{Filesystem}
use nexentastor_csi_driver.Process.{Process}
use nexentastor_csi_driver.Process.Runs.{bind-eq-ok}
use nexentastor_csi_driver.Arrays.{Regexp}
use nexentastor_csi_driver.Arrays.Laws.{is_nil-find_regexp_indexes_string}
use nexentastor_csi_driver.Node.Options.{match_username, match_password}
use nexentastor_csi_driver.Node.Mount.{mount_cifs, check_cifs_options, cifs_patterns}

module _ (X : External) where
  check_cifs_options-ok :
      (options : List String) (patterns : List (String × Regexp)) (s t : Process X) (u : Unit {0})
      → check_cifs_options X options patterns s ≡ (ok u, t)
      → All (λ p. any p.1 options ≡ true) patterns
  unfolding check_cifs_options
  check_cifs_options-ok options [] s t u h = tt
  check_cifs_options-ok options ((text, re) ∷ patterns) s t u h = ground (
    arith,
    is_nil-find_regexp_indexes_string options re,
    check_cifs_options-ok options patterns s t u,
  )

  -- A CIFS mount succeeds only with a user name and a password among its options.
  pub mount_cifs-credentials :
      (readonly : Bool) (target : String) (provider : X.Provider) (filesystem : Filesystem)
      (ip : String) (options : List String) (s t : Process X)
      → mount_cifs X readonly target provider filesystem ip options s ≡ (ok tt, t)
      → (any match_username options ≡ true) × (any match_password options ≡ true)
  unfolding mount_cifs
  mount_cifs-credentials readonly target provider filesystem ip options s t h =
      let (u, v, checked, _) = bind-eq-ok (check_cifs_options X options (cifs_patterns X)) _ s h in
      let (username, (password, _)) =
        check_cifs_options-ok options (cifs_patterns X) s v u checked in
      (username, password)
