-- ===== src/Tests/Creation.antt =====
-- The creation of volumes at concrete inputs.
use nexentastor_csi_driver.Common.{
  ◌<>◌, All, lookup, pos, path_join, path_dir, ◌≤◌, ◌≡◌, refl, ◌≢◌, ◌↔◌, ◌⊎◌, true, false, none,
  some, List, [], ◌∷◌, ◌++◌,
}
use nexentastor_csi_driver.Errors.{not_found, already_exists, status, ok, err, value, failure}
use nexentastor_csi_driver.Process.{Process, fault_text}
use nexentastor_csi_driver.External.Params.{Filesystem, Snapshot}
use nexentastor_csi_driver.Controller.Requests.{
  single_node_writer, VolumeCapability, CreateVolumeRequest, Volume, last_secret,
}
use nexentastor_csi_driver.Controller.Capability.{
  validate_volume_capability, pick_availability_zone,
}
use nexentastor_csi_driver.Controller.Capability.Support.{validate_volume_capability_iff}
use nexentastor_csi_driver.Controller.NewVolume.{create_new_volume}
use nexentastor_csi_driver.Controller.Create.{volume_response, create_volume}
use nexentastor_csi_driver.Controller.NewVolume.Existing.{create_new_volume-existing}
use nexentastor_csi_driver.Controller.Create.Success.{create_volume-succeeds}
use nexentastor_csi_driver.Config.Refresh.{refresh}
use nexentastor_csi_driver.Controller.Resolvers.{refresh_config}
use nexentastor_csi_driver.Controller.SnapshotOnNs.{find_conflict, create_snapshot_on_ns}
use nexentastor_csi_driver.Controller.SnapshotOnNs.Conflict.{create_snapshot_on_ns_unique}
use nexentastor_csi_driver.Tests.Toy.{
  Fault, exists, World, volume_of, toy, entry, host, settings, ready,
}

abbrev writer : VolumeCapability
writer = record { is_block = false; mode = single_node_writer }

validate_volume_capability_iff_example :
    (validate_volume_capability writer ≡ true)
    ↔ ((writer.is_block ≡ false) × (1 ≤ writer.mode) × (writer.mode ≤ 5))
validate_volume_capability_iff_example = validate_volume_capability_iff writer

abbrev old : Filesystem
old = record {
  path = "pool/v";
  mount_point = "/pool/v";
  shared_over_nfs = false;
  shared_over_smb = false;
  referenced_quota_size = pos 5;
  default_smb_share_name = "share";
}

abbrev full_host : World
full_host = record host { volumes = old ∷ [] }

create_new_volume-existing_example :
    ((create_new_volume toy "10.1.1.1" "pool/v" (pos 5) (record ready { world = full_host })).0
      ≡ ok tt)
    ↔ ((pos 5 ≡ pos 0) ⊎ (old.referenced_quota_size ≡ pos 5))
create_new_volume-existing_example =
    create_new_volume-existing toy "10.1.1.1" "pool/v" (pos 5) (record ready { world = full_host })
      exists old full_host full_host refl refl refl

abbrev request : CreateVolumeRequest
request = record {
  name = "v";
  secrets = [];
  volume_capabilities = some (writer ∷ []);
  volume_content_source = none;
  parameters = ("nfsAccessList", "ro:10.1.1.0/24") ∷ [];
  accessibility_requirements = none;
  required_bytes = pos 5;
}

abbrev created : Volume
created = record {
  volume_id = "ns1:pool/data/v";
  capacity_bytes = pos 5;
  content_source = none;
  volume_context =
      ("dataIp", "")
      ∷ ("mountOptions", "")
      ∷ ("mountFsType", "")
      ∷ ("mountPointPermissions", "")
      ∷ [];
  accessible_topology = [];
}

-- The process with its volume and its share.
abbrev finished : Process toy
finished = record ready {
  config = record settings { last_mod_time = 5 };
  controller_resolvers = ("ns1", "https://10.1.1.1:8443") ∷ [];
  world = record host {
    volumes = record old { path = "pool/data/v"; mount_point = "/pool/data/v" } ∷ [];
    shares = "pool/data/v" ∷ [];
  };
}

abbrev taken : Snapshot
taken = record { path = "pool/v@s1"; name = "s1"; parent = "pool/v"; creation_time = pos 100 }

abbrev with_snapshot : Process toy
with_snapshot = record ready { world = record host { snapshots = taken ∷ [] } }

create_snapshot_on_ns_unique_example :
    let (listed, w) =
      toy.get_snapshots "10.1.1.1" (path_dir "pool/other") true with_snapshot.world in
    let run = create_snapshot_on_ns toy "10.1.1.1" "pool/other" "s1" with_snapshot in
    ((snapshots : List Snapshot) × (listed ≡ value snapshots)
      × All (λ u. u.name ≡ "s1" → u.parent ≡ "pool/other") snapshots)
    ⊎ ((snapshots : List Snapshot) × (listed ≡ value snapshots)
        × (u : Snapshot) × (front back : List Snapshot) × (snapshots ≡ front ++ u ∷ back)
        × (u.name ≡ "s1")
        × (u.parent ≢ "pool/other")
        × (run ≡ (
          err (
              status already_exists
                ("Snapshot '" <> "s1" <> "' already exists for filesystem: " <> u.path)),
          record with_snapshot { world = w },
        )))
    ⊎ ((f : Fault) × (listed ≡ failure f)
        × (run ≡ (
          err (status not_found ("Cannot get snapshots list: " <> fault_text toy f)),
          record with_snapshot { world = w },
        )))
create_snapshot_on_ns_unique_example =
    create_snapshot_on_ns_unique toy "10.1.1.1" "pool/other" "s1" with_snapshot

-- The name is taken by a snapshot of another volume.
other_volume : create_snapshot_on_ns toy "10.1.1.1" "pool/other" "s1" with_snapshot ≡ (
  err (status already_exists "Snapshot 's1' already exists for filesystem: pool/v@s1"),
  with_snapshot,
)
unfolding create_snapshot_on_ns find_conflict path_dir
other_volume = refl

-- The process once its config is read.
abbrev loaded : Process toy
loaded = record finished { world = host }

unchanged : refresh_config toy "" loaded ≡ (ok tt, loaded)
unfolding refresh_config refresh
unchanged = refl

abbrev wanted : CreateVolumeRequest
wanted = record {
  name = "v";
  secrets = [];
  volume_capabilities = some (writer ∷ []);
  volume_content_source = none;
  parameters = ("configName", "ns1") ∷ [];
  accessibility_requirements = none;
  required_bytes = pos 5;
}

abbrev with_volume : World
with_volume = record host {
  volumes = volume_of (record { path = "pool/data/v"; referenced_quota_size = pos 5 }) ∷ [];
}

create_volume-succeeds_example : create_volume toy wanted loaded ≡ (
  ok (volume_response toy wanted "" "ns1" entry "pool/data/v"),
  record loaded { world = with_volume },
)
unfolding lookup path_join last_secret pick_availability_zone validate_volume_capability
create_volume-succeeds_example =
    create_volume-succeeds toy wanted (writer ∷ []) "ns1" "https://10.1.1.1:8443"
      "https://10.1.1.1:8443" loaded loaded host with_volume (λ e. cc) (λ e. cc) refl (refl, tt)
      refl refl refl refl unchanged refl refl refl
