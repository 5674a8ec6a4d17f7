-- ===== src/Node/Options/Handover.antt =====
-- What the node server reads of the volume context that `CreateVolume` wrote
-- (pkg/driver/controllerServer.go and nodeServer.go).
use nexentastor_csi_driver.Common.{lookup, String, ◌≡◌, refl, Bool, List, [], ◌∷◌}
use nexentastor_csi_driver.External.{External}
use nexentastor_csi_driver.Config.Data.{NsData}
use nexentastor_csi_driver.Controller.Requests.{CreateVolumeRequest}
use nexentastor_csi_driver.Controller.Create.{volume_response}
use nexentastor_csi_driver.Node.Options.{base_options, publish_options, data_ip, fs_type}

module _ (X : External) (req : CreateVolumeRequest) (zone name path : String) (cfg : NsData) where
  base_options-volume_response :
      (flags : List String) (node_cfg : NsData)
      → base_options flags (volume_response X req zone name cfg path).volume_context node_cfg
        ≡ base_options flags req.parameters node_cfg
  unfolding base_options volume_response lookup
  base_options-volume_response [] node_cfg = refl
  base_options-volume_response (flag ∷ flags) node_cfg = refl

  -- The mount options and the filesystem type that the node works out from the context of a created
  -- volume are those that it would work out from the parameters of the volume's request.
  pub publish_options-volume_response :
      (readonly : Bool) (flags : List String) (node_cfg : NsData)
      → let context = (volume_response X req zone name cfg path).volume_context in
        (publish_options readonly flags context node_cfg
          ≡ publish_options readonly flags req.parameters node_cfg)
        × (fs_type context node_cfg ≡ fs_type req.parameters node_cfg)
  unfolding publish_options fs_type volume_response lookup
  publish_options-volume_response readonly flags node_cfg =
      (rw (base_options-volume_response flags node_cfg), refl)

  -- The data address is not handed over: whatever address the request names, under either spelling
  -- of the key, the node mounts a created volume at the default address of its config.
  pub data_ip-volume_response :
      (node_cfg : NsData)
      → data_ip (volume_response X req zone name cfg path).volume_context node_cfg
        ≡ node_cfg.default_data_ip
  unfolding data_ip volume_response lookup
  data_ip-volume_response node_cfg = refl
