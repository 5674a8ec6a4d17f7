-- ===== src/Node/Mount.antt =====
-- `doMount`, `mountNFS` and `mountCIFS` of pkg/driver/nodeServer.go.
pub mod Credentials
pub mod Frame
use nexentastor_csi_driver.Common.{
  if◌then◌else◌, ◌<>◌, join, contains, String, Bool, true, not, Option, List, [], ◌∷◌,
}
use nexentastor_csi_driver.Errors.{
  invalid_argument, permission_denied, failed_precondition, internal, Error, status, foreign, value,
  failure,
}
use nexentastor_csi_driver.External.{External}
use nexentastor_csi_driver.External.Params.{Filesystem, AclRuleSet, acl_read_only, acl_read_write}
use nexentastor_csi_driver.Process.{
  Exec, ◌>>=◌, ◌>>◌, pure, raise_status, call, fail_with, fault_text, value_or,
}
use nexentastor_csi_driver.Arrays.{Regexp, find_regexp_indexes_string, is_nil}
use nexentastor_csi_driver.Config.Validate.{fs_type_nfs, fs_type_cifs}
use nexentastor_csi_driver.Node.Options.{
  match_username, match_password, nfs_options, data_ip, fs_type,
}

-- `[a b c]`, a list of texts under `%v`.
show_list : List String → String
show_list options = "[" <> join " " options <> "]"

module _ (X : External) where
  -- The error of `mounter.Mount`.
  mount_error : String → String → X.Fault → Error X.Fault
  mount_error mount_source target_path f =
      if X.os_is_permission (foreign f)
      then status permission_denied (
          "Permission denied to mount '"
          <> mount_source
          <> "' to '"
          <> target_path
          <> "': "
          <> fault_text X f)
      else if contains (fault_text X f) "invalid argument"
      then status invalid_argument (
          "Cannot mount '"
          <> mount_source
          <> "' to '"
          <> target_path
          <> "', invalid argument: "
          <> fault_text X f)
      else status internal (
          "Failed to mount '" <> mount_source <> "' to '" <> target_path <> "': " <> fault_text X f)

  -- Whether the target is free, with its directory made where it is missing.
  not_mount_point : String → Exec X Bool
  not_mount_point target_path = do
    reply ← call (X.is_likely_not_mount_point target_path)
    elim reply [
      | value free ↦ pure free
      | failure f ↦
          if X.os_is_not_exist (foreign f)
          then (do
            made ← call (X.mkdir_all target_path 0o750)
            fail_with made λ e.
                status internal (
                  "Failed to mkdir to share target path '"
                  <> target_path
                  <> "': "
                  <> fault_text X e)
            pure true)
          else raise_status internal (
              "Cannot ensure that target path '"
              <> target_path
              <> "' can be used as a mount point: "
              <> fault_text X f)
    ]

  -- `doMount`.
  unfoldable pub do_mount : String → String → String → List String → Exec X (Unit {0})
  unfolding not_mount_point mount_error
  do_mount mount_source target_path fs_type mount_options = do
    free ← not_mount_point target_path
    if not free
        then raise_status internal ("Target path '" <> target_path <> "' is already a mount point")
        else do
          error ← call (X.mount mount_source target_path fs_type mount_options)
          fail_with error (mount_error mount_source target_path)

  abbrev acl_for : Bool → AclRuleSet
  acl_for readonly = if readonly then acl_read_only else acl_read_write

  -- What follows the creation of a share: its error, and then the access rules.
  set_access : String → Bool → X.Provider → Filesystem → Option X.Fault → Exec X (Unit {0})
  set_access protocol readonly provider filesystem shared = do
    fail_with shared λ f. status internal (
        "Cannot share filesystem '"
        <> filesystem.path
        <> "' over "
        <> protocol
        <> ": "
        <> fault_text X f)
    allowed ← call (X.set_filesystem_acl provider filesystem.path (acl_for readonly))
    fail_with allowed λ f.
        status internal
          ("Cannot set filesystem ACL for '" <> filesystem.path <> "': " <> fault_text X f)

  -- `mountNFS`.
  unfoldable pub mount_nfs :
      Bool → String → X.Provider → Filesystem → String → List String → Exec X (Unit {0})
  unfolding set_access
  mount_nfs readonly target_path provider filesystem data_ip mount_options = do
    if filesystem.shared_over_nfs then pure tt else do
      shared ← call (
          X.create_nfs_share provider
            (record { filesystem = filesystem.path; read_only_list = []; read_write_list = [] }))
      set_access "NFS" readonly provider filesystem shared
    do_mount (data_ip <> ":" <> filesystem.mount_point) target_path fs_type_nfs
        (nfs_options mount_options)

  -- The validation of the options of a CIFS mount.
  check_cifs_options : List String → List (String × Regexp) → Exec X (Unit {0})
  unfolding show_list
  check_cifs_options mount_options [] = pure tt
  check_cifs_options mount_options ((pattern_text, re) ∷ res) =
      if is_nil (find_regexp_indexes_string mount_options re)
      then raise_status failed_precondition (
          "Options '"
          <> pattern_text
          <> "' must be specified for CIFS mount (got options: "
          <> show_list mount_options
          <> ")")
      else check_cifs_options mount_options res

  abbrev cifs_patterns : List (String × Regexp)
  cifs_patterns = ("^username=.+$", match_username) ∷ ("^password=.+$", match_password) ∷ []

  -- `mountCIFS`.
  unfoldable pub mount_cifs :
      Bool → String → X.Provider → Filesystem → String → List String → Exec X (Unit {0})
  unfolding set_access check_cifs_options
  mount_cifs readonly target_path provider filesystem data_ip mount_options = do
    check_cifs_options mount_options cifs_patterns
    if filesystem.shared_over_smb then pure tt else do
      shared ← call (
          X.create_smb_share provider (record {
            filesystem = filesystem.path;
            share_name = filesystem.default_smb_share_name;
          }))
      set_access "SMB" readonly provider filesystem shared
    reply ← call (X.get_smb_share_name provider filesystem.path)
    share_name ← value_or reply foreign
    do_mount ("//" <> data_ip <> "/" <> share_name) target_path fs_type_cifs mount_options
