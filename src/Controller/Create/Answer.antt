-- ===== src/Controller/Create/Answer.antt =====
-- What `CreateVolume` of pkg/driver/controllerServer.go answers.
use nexentastor_csi_driver.VolumeId.{volume_id}
use nexentastor_csi_driver.Common.{path_join, ◌≡◌}
use nexentastor_csi_driver.Errors.{ok}
use nexentastor_csi_driver.External.{External}
use nexentastor_csi_driver.Process.{Process}
use nexentastor_csi_driver.Controller.Requests.{CreateVolumeRequest, Volume}
use nexentastor_csi_driver.Controller.Resolve.{ResolveNsParams, ResolveNsResponse, resolve_ns}
use nexentastor_csi_driver.Controller.Create.Asked.{source_id, IsAsked}

module _ (X : External) where
  -- The volume is the one that was asked for, on what `resolveNS` answers in this process.
  abbrev pub Answers : CreateVolumeRequest → Process X → Volume → Type 0
  Answers req s v =
      (v.capacity_bytes ≡ req.required_bytes)
      × (v.content_source ≡ req.volume_content_source)
      × (p : ResolveNsParams) × IsAsked X req (source_id req.volume_content_source) p
      × (r : ResolveNsResponse X) × (w : Process X) × (resolve_ns X p s ≡ (ok r, w))
      × (v.volume_id ≡ volume_id r.config_name (path_join r.dataset_path req.name))
