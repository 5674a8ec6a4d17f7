-- ===== src/Node/Service/Frame.antt =====
-- The handlers of pkg/driver/nodeServer.go write to what the servers hold in their refresh only.
use nexentastor_csi_driver.Common.{◌<>◌, String, refl, inl, Option, none, some, List, arith, ◌==◌}
use nexentastor_csi_driver.Errors.{invalid_argument, not_found, status}
use nexentastor_csi_driver.External.{External}
use nexentastor_csi_driver.External.Params.{Filesystem}
use nexentastor_csi_driver.Process.{
  Exec, ◌>>=◌, ◌>>◌, raise_status, gets, call, fault_text, value_or, deref,
}
use nexentastor_csi_driver.Process.Frames.{
  KeepsServers, bind-KeepsServers, value_or-KeepsServers, deref-KeepsServers,
}
use nexentastor_csi_driver.Process.Refreshed.{
  Refreshes, if-Refreshes, refresh-Refreshes, bind-Refreshes,
}
use nexentastor_csi_driver.VolumeId.{VolumeInfo}
use nexentastor_csi_driver.Config.Data.{NsData}
use nexentastor_csi_driver.Controller.Requests.{last_secret}
use nexentastor_csi_driver.Controller.Resolve.{ns_data_at}
use nexentastor_csi_driver.Node.Options.{publish_options, data_ip}
use nexentastor_csi_driver.Node.Server.{
  refresh_node_config, resolve_node_ns, config_name_of, node_volume_info, node_get_volume_stats,
}
use nexentastor_csi_driver.Node.Server.Frame.{
  resolve_node_ns-KeepsServers, config_name_of-KeepsServers,
}
use nexentastor_csi_driver.Node.Mount.Frame.{mount_nfs-KeepsServers, mount_cifs-KeepsServers}
use nexentastor_csi_driver.Node.Publish.{
  PublishRequest, mount_by_type, set_permissions, publish, node_publish_volume, unpublish,
  node_unpublish_volume,
}
use nexentastor_csi_driver.Node.Fixed.{
  node_get_info, node_get_capabilities, node_stage_volume, node_unstage_volume, node_expand_volume,
}
use nexentastor_csi_driver.Node.Service.{
  NodeRequest, of_publish, of_unpublish, of_volume_stats, of_node_info, of_node_capabilities,
  of_stage, of_unstage, of_node_expand, node_secret_of, serve_node_request,
}

module _ (X : External) where
  mount_by_type-KeepsServers :
      (req : PublishRequest) (provider : X.Provider) (filesystem : Filesystem) (cfg : NsData)
      (options : List String)
      → KeepsServers (mount_by_type X req provider filesystem cfg options)
  unfolding mount_by_type
  mount_by_type-KeepsServers req provider filesystem cfg options s =
      let ip = data_ip req.volume_context cfg in
      let nfs =
        mount_nfs-KeepsServers X req.readonly req.target_path provider filesystem ip options s in
      let cifs =
        mount_cifs-KeepsServers X req.readonly req.target_path provider filesystem ip options s in
      ground arith

  set_permissions-KeepsServers :
      (req : PublishRequest) (options : List String) → KeepsServers (set_permissions X req options)
  unfolding set_permissions
  set_permissions-KeepsServers req options s = ground arith

  -- `NodePublishVolume` behind its refresh.
  published-KeepsServers :
      (req : PublishRequest) (flags : List String) (i : VolumeInfo)
      → KeepsServers (
          let m : Exec X (Unit {0}) = (do
            config_name ← config_name_of X i
            found ← resolve_node_ns X config_name i.path
            cfg ← gets λ s. ns_data_at config_name s.config
            provider ← deref found
            reply ← call (X.get_filesystem provider i.path)
            filesystem ← value_or reply λ f.
                status not_found ("Cannot find filesystem '" <> i.path <> "': " <> fault_text X f)
            let mount_options = publish_options req.readonly flags req.volume_context cfg
            mount_by_type X req provider filesystem cfg mount_options
            set_permissions X req mount_options) in
          m)
  published-KeepsServers req flags i =
      bind-KeepsServers (config_name_of X i) _ (config_name_of-KeepsServers X i) (λ name.
        bind-KeepsServers (resolve_node_ns X name i.path) _
          (resolve_node_ns-KeepsServers X name i.path)
          (λ found s.
            bind-KeepsServers (deref found) _ (deref-KeepsServers found)
              (λ provider s.
                bind-KeepsServers (value_or (X.get_filesystem provider i.path s.world).0 _) _
                  (value_or-KeepsServers (X.get_filesystem provider i.path s.world).0 _)
                  (λ filesystem.
                    bind-KeepsServers (mount_by_type X req provider filesystem _ _) _
                      (mount_by_type-KeepsServers req provider filesystem _ _)
                      (λ u. set_permissions-KeepsServers req _))
                  _)
              s))

  node_volume_info-Refreshes :
      (id secret : String) → Refreshes (refresh_node_config X secret) (node_volume_info X id secret)
  unfolding node_volume_info
  node_volume_info-Refreshes id secret =
      refresh-Refreshes (refresh_node_config X secret) _ _ (λ u s. ground arith)

  publish-Refreshes :
      (req : PublishRequest) (flags : List String)
      → Refreshes (refresh_node_config X (last_secret req.secrets)) (publish X req flags)
  unfolding publish
  publish-Refreshes req flags =
      bind-Refreshes (refresh_node_config X (last_secret req.secrets))
        (node_volume_info X req.volume_id (last_secret req.secrets)) _
        (node_volume_info-Refreshes req.volume_id (last_secret req.secrets))
        (published-KeepsServers req flags)

  capable-Refreshes :
      (req : PublishRequest) (c : Option (List String))
      → Refreshes (refresh_node_config X (last_secret req.secrets)) (
          let m : Exec X (Unit {0}) = elim c [
            | none ↦ raise_status invalid_argument "req.VolumeCapability must be provided"
            | some flags ↦ publish X req flags
          ] in
          m)
  capable-Refreshes req none s = inl refl
  capable-Refreshes req (some flags) s = publish-Refreshes req flags s

  node_publish_volume-Refreshes :
      (req : PublishRequest)
      → Refreshes (refresh_node_config X (last_secret req.secrets)) (node_publish_volume X req)
  unfolding node_publish_volume
  node_publish_volume-Refreshes req =
      if-Refreshes (refresh_node_config X _) (req.volume_id == "") _ _ (λ s. inl refl)
        (if-Refreshes (refresh_node_config X _) (req.target_path == "") _ _ (λ s. inl refl)
          (capable-Refreshes req req.volume_capability))

  stats-Refreshes :
      (path id : String) → Refreshes (refresh_node_config X "") (node_get_volume_stats X path id)
  unfolding node_get_volume_stats
  stats-Refreshes path id =
      if-Refreshes (refresh_node_config X _) (path == "") _ _ (λ s. inl refl)
        (if-Refreshes (refresh_node_config X _) (id == "") _ _ (λ s. inl refl)
          (bind-Refreshes (refresh_node_config X "") (node_volume_info X id "") _
            (node_volume_info-Refreshes id "")
            (λ i.
              bind-KeepsServers (config_name_of X i) _ (config_name_of-KeepsServers X i) (λ name.
                bind-KeepsServers (resolve_node_ns X name i.path) _
                  (resolve_node_ns-KeepsServers X name i.path) (λ found s. ground arith)))))

  unpublish-KeepsServers : (id target : String) → KeepsServers (node_unpublish_volume X id target)
  unfolding node_unpublish_volume unpublish
  unpublish-KeepsServers id target s = ground arith

  pub serve_node_request-Refreshes :
      (q : NodeRequest)
      → Refreshes (refresh_node_config X (node_secret_of q)) (serve_node_request X q)
  unfolding serve_node_request node_secret_of node_get_info node_get_capabilities node_stage_volume
      node_unstage_volume node_expand_volume
  serve_node_request-Refreshes (of_publish req) s = node_publish_volume-Refreshes req s
  serve_node_request-Refreshes (of_unpublish id target) s = inl (unpublish-KeepsServers id target s)
  serve_node_request-Refreshes (of_volume_stats path id) s = stats-Refreshes path id s
  serve_node_request-Refreshes (of_node_info id) s = inl refl
  serve_node_request-Refreshes of_node_capabilities s = inl refl
  serve_node_request-Refreshes (of_stage id) s = inl refl
  serve_node_request-Refreshes (of_unstage id) s = inl refl
  serve_node_request-Refreshes (of_node_expand id) s = inl refl
