-- ===== src/Node/Publish/Outcomes.antt =====
-- Publishing a volume read-only or again (pkg/driver/nodeServer.go).
use nexentastor_csi_driver.Common.{
  ◌<>◌, has_prefix, contains, contains-append, any, String, ◌≡◌, refl, true, false, List, [], ◌∷◌,
  arith,
}
use nexentastor_csi_driver.Errors.{internal, ok, value}
use nexentastor_csi_driver.External.{External}
use nexentastor_csi_driver.External.Params.{Filesystem}
use nexentastor_csi_driver.External.Laws.{IsLawful}
use nexentastor_csi_driver.Process.{Process}
use nexentastor_csi_driver.Arrays.{contains_string, append_if_regexp_not_exist_string}
use nexentastor_csi_driver.Arrays.Laws.{any-append_if_regexp_not_exist_string}
use nexentastor_csi_driver.Config.Data.{NsData}
use nexentastor_csi_driver.Node.Options.{match_ro, base_options, publish_options, fs_type}
use nexentastor_csi_driver.Node.Mount.{do_mount, mount_nfs}
use nexentastor_csi_driver.Node.Publish.{PublishRequest, mount_by_type, set_permissions}

any-contains_string :
    (array : List String) → any match_ro array ≡ true → contains_string array "ro" ≡ true
unfolding contains_string match_ro
any-contains_string [] h = cc
any-contains_string (x ∷ array) h = ground (arith, any-contains_string array)

already : contains "' is already a mount point" "already a mount point" ≡ true
unfolding contains has_prefix
already = refl

module _ (X : External) where
  -- A read-only volume is mounted with the option "ro", and its mount point keeps its permissions:
  -- no call is made for them.
  pub set_permissions-readonly :
      (req : PublishRequest) (flags : List String) (cfg : NsData) (s : Process X)
      → req.readonly ≡ true
      → let options = publish_options req.readonly flags req.volume_context cfg in
        (contains_string options "ro" ≡ true) × ((set_permissions X req options s).1 ≡ s)
  unfolding set_permissions publish_options
  set_permissions-readonly req flags cfg s readonly =
      let options = base_options flags req.volume_context cfg in
      let there : contains_string (append_if_regexp_not_exist_string options match_ro "ro") "ro"
          ≡ true =
        any-contains_string (append_if_regexp_not_exist_string options match_ro "ro")
          (any-append_if_regexp_not_exist_string options match_ro "ro" (unfold match_ro in refl)) in
      rw (readonly, there) (refl, ground arith)

  -- Where the tests of errors are lawful, a volume whose target is a mount point already counts as
  -- mounted: for a shared filesystem and an NFS mount, nothing but the look at the target is done.
  pub mount_by_type-mounted :
      IsLawful X
      → (req : PublishRequest) (provider : X.Provider) (filesystem : Filesystem) (cfg : NsData)
        (options : List String) (s : Process X) (w : X.World)
      → fs_type req.volume_context cfg ≡ "nfs"
      → filesystem.shared_over_nfs ≡ true
      → X.is_likely_not_mount_point req.target_path s.world ≡ (value false, w)
      → mount_by_type X req provider filesystem cfg options s ≡ (ok tt, record s { world = w })
  unfolding mount_by_type mount_nfs do_mount
  mount_by_type-mounted L req provider filesystem cfg options s w kind shared mounted =
      let seen =
        L.error_text-status internal
          ("Target path '" <> req.target_path <> "' is already a mount point")
          "already a mount point"
          (contains-append "Target path '" (req.target_path <> "' is already a mount point")
            "already a mount point"
            (contains-append req.target_path "' is already a mount point" "already a mount point"
              already)) in
      rw (kind, shared, mounted, seen)
