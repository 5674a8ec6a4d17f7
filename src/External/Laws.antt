-- ===== src/External/Laws.antt =====
-- What the driver relies on in the libraries' tests of errors, and in `ns.NewResolver`.
use nexentastor_csi_driver.Common.{◌≢◌, none, contains, String, ◌≡◌, true, false}
use nexentastor_csi_driver.Errors.{Code, status}
use nexentastor_csi_driver.External.{External}
use nexentastor_csi_driver.External.Params.{ResolverArgs}

-- `status.Code` gives the code that a status was made with; the tests of `ns` recognize the errors of
-- the storage only; the text of a status shows its message.
pub record IsLawful (X : External) : Type 0 where
  pub status_code-status : (c : Code) (m : String) → X.status_code (status c m) ≡ c
  pub is_not_exist-status : (c : Code) (m : String) → X.is_not_exist_nef_error (status c m) ≡ false
  pub error_text-status :
      (c : Code) (m part : String)
      → contains m part ≡ true
      → contains (X.error_text (status c m)) part ≡ true

-- `ns.NewResolver` gives a resolver where it gives no error.
abbrev pub MakesResolvers : External → Type 0
MakesResolvers X =
    (args : ResolverArgs) (w : X.World)
    → (X.new_resolver args w).0.1 ≡ none
    → (X.new_resolver args w).0.0 ≢ none
