-- ===== src/Node/Mount/Frame.antt =====
-- The mounts of pkg/driver/nodeServer.go change the storage and the host only.
use nexentastor_csi_driver.Common.{if◌then◌else◌, String, refl, Bool, Option, List, [], ◌∷◌, arith}
use nexentastor_csi_driver.Errors.{foreign}
use nexentastor_csi_driver.External.{External}
use nexentastor_csi_driver.External.Params.{Filesystem}
use nexentastor_csi_driver.Process.{Exec, ◌>>=◌, pure, call, value_or}
use nexentastor_csi_driver.Process.Frames.{
  KeepsServers, bind-KeepsServers, if-KeepsServers, value_or-KeepsServers,
}
use nexentastor_csi_driver.Arrays.{Regexp, find_regexp_indexes_string, is_nil}
use nexentastor_csi_driver.Node.Mount.{
  do_mount, mount_nfs, mount_cifs, not_mount_point, set_access, check_cifs_options, cifs_patterns,
}

module _ (X : External) where
  pub do_mount-KeepsServers :
      (source target kind : String) (options : List String)
      → KeepsServers (do_mount X source target kind options)
  unfolding do_mount not_mount_point
  do_mount-KeepsServers source target kind options s = ground arith

  set_access-KeepsServers :
      (protocol : String) (readonly : Bool) (provider : X.Provider) (filesystem : Filesystem)
      (shared : Option X.Fault)
      → KeepsServers (set_access X protocol readonly provider filesystem shared)
  unfolding set_access
  set_access-KeepsServers protocol readonly provider filesystem shared s = ground arith

  check_cifs_options-KeepsServers :
      (options : List String) (res : List (String × Regexp))
      → KeepsServers (check_cifs_options X options res)
  unfolding check_cifs_options
  check_cifs_options-KeepsServers options [] s = refl
  check_cifs_options-KeepsServers options ((pattern_text, re) ∷ res) s =
      if-KeepsServers (is_nil (find_regexp_indexes_string options re)) _ _ (λ s. refl)
        (check_cifs_options-KeepsServers options res) s

  -- The share of both mounts, made where there is none.
  abbrev shared_first :
      Bool
      → (X.World → Option X.Fault × X.World)
      → String
      → Bool
      → X.Provider
      → Filesystem
      → Exec X (Unit {0})
  shared_first already share protocol readonly provider filesystem =
      if already
      then pure tt
      else do shared ← call share; set_access X protocol readonly provider filesystem shared

  shared_first-KeepsServers :
      (already : Bool) (share : X.World → Option X.Fault × X.World) (protocol : String)
      (readonly : Bool) (provider : X.Provider) (filesystem : Filesystem)
      → KeepsServers (shared_first already share protocol readonly provider filesystem)
  shared_first-KeepsServers already share protocol readonly provider filesystem =
      if-KeepsServers already _ _ (λ s. refl)
        (λ s.
          set_access-KeepsServers protocol readonly provider filesystem _
            (record s { world = (share s.world).1 }))

  pub mount_nfs-KeepsServers :
      (readonly : Bool) (target : String) (provider : X.Provider) (filesystem : Filesystem)
      (ip : String) (options : List String)
      → KeepsServers (mount_nfs X readonly target provider filesystem ip options)
  unfolding mount_nfs
  mount_nfs-KeepsServers readonly target provider filesystem ip options =
      let share =
        X.create_nfs_share provider
          (record { filesystem = filesystem.path; read_only_list = []; read_write_list = [] }) in
      bind-KeepsServers
        (shared_first filesystem.shared_over_nfs share "NFS" readonly provider filesystem) _
        (shared_first-KeepsServers filesystem.shared_over_nfs share "NFS" readonly provider
          filesystem)
        (λ u. do_mount-KeepsServers _ target _ _)

  pub mount_cifs-KeepsServers :
      (readonly : Bool) (target : String) (provider : X.Provider) (filesystem : Filesystem)
      (ip : String) (options : List String)
      → KeepsServers (mount_cifs X readonly target provider filesystem ip options)
  unfolding mount_cifs
  mount_cifs-KeepsServers readonly target provider filesystem ip options =
      let share =
        X.create_smb_share provider (record {
          filesystem = filesystem.path;
          share_name = filesystem.default_smb_share_name;
        }) in
      bind-KeepsServers (check_cifs_options X options (cifs_patterns X)) _
        (check_cifs_options-KeepsServers options (cifs_patterns X))
        (λ u.
          bind-KeepsServers
            (shared_first filesystem.shared_over_smb share "SMB" readonly provider filesystem) _
            (shared_first-KeepsServers filesystem.shared_over_smb share "SMB" readonly provider
              filesystem)
            (λ u s.
              let reply = X.get_smb_share_name provider filesystem.path s.world in
              bind-KeepsServers (value_or reply.0 foreign) _ (value_or-KeepsServers reply.0 foreign)
                (λ share_name. do_mount-KeepsServers _ target _ options)
                (record s { world = reply.1 })))
