-- ===== src/Tests/Peers.antt =====
-- The other side of a volume and of a group, on concrete requests.
use test_powerstore_automati.Base.{
  ◌≡◌, refl, none, [], ◌∷◌, String, ◌<>◌, Dict, split, lookup, insert, true,
}
use test_powerstore_automati.Outcome.{ok}
use test_powerstore_automati.Client.{
  Request, Response, Reply, VolumeGroup, get_volume_groups_by_volume, get_session_by_resource,
}
use test_powerstore_automati.Ip.{first_ip, get_ip_list_from_string}
use test_powerstore_automati.Arrays.Handle.{
  VolumeHandle, parse_volume_id, parse_parts, parse_local, global_id_of,
}
use test_powerstore_automati.Controller.Queries.Laws.{constant}
use test_powerstore_automati.Controller.Replication.Uuid.{
  before_match, starts_with, uuid_pattern, get_volume_uuid_prefix,
}
use test_powerstore_automati.Controller.Replication.Peers.{
  RemoteVolume, ProtectionGroup, remote_volume_id, vol_prefix, get_remote_csi_volume,
  describe_remote_volume, describe_remote, create_remote_of, create_remote_volume, describe_group,
  create_group_of, create_storage_protection_group,
}
use test_powerstore_automati.Controller.Replication.Peers.Laws.{
  Mirrors, create_storage_protection_group-Mirrors,
}
use test_powerstore_automati.Controller.Replication.Peers.Replicas.{
  IsReplicaOf, create_remote_volume-IsReplica,
}
use test_powerstore_automati.Tests.{answer, volume, service, start}

abbrev uuid : String
uuid = "12345678-90ab-cdef-1234-567890abcdef"

abbrev group : VolumeGroup
group = record {
  id = "vg";
  name = "vg";
  protection_policy_id = "pp";
  is_write_order_consistent = true;
  volumes = [];
  creation_timestamp = "";
}

-- An array that replicates the volume `uuid`.
abbrev paired : String → (r : Request) → Reply (Response r)
paired connection (get_volume_groups_by_volume id) = record { value = group ∷ []; error = none }
paired connection (get_session_by_resource id) = record {
  value = record (answer (get_session_by_resource id)) {
    storage_element_pairs =
        record { local_storage_element_id = uuid; remote_storage_element_id = "rvol" } ∷ [];
  };
  error = none;
}
paired connection r = record { value = answer r; error = none }

abbrev shared : Dict String
shared = ("shared", "nfs") ∷ []

abbrev replica : RemoteVolume
replica = record {
  capacity_bytes = volume.size;
  volume_id = "nfs-rvol/PS2/scsi";
  volume_context =
      ("remoteSystem", "local") ∷ ("arrayID", "PS2") ∷ ("managementAddress", "10.0.0.2") ∷ [];
}

create_remote_volume-IsReplica_example :
    (h : VolumeHandle) × ((parse_volume_id
        (constant paired)
        service.known
        ("nfs-" <> (uuid <> "/PS1/scsi"))
        none
        start).0
      ≡ ok h)
    × IsReplicaOf paired service "shared" shared h replica
unfolding create_remote_volume create_remote_of describe_remote describe_remote_volume
    get_remote_csi_volume remote_volume_id vol_prefix get_volume_uuid_prefix before_match
    starts_with uuid_pattern parse_volume_id parse_parts parse_local global_id_of first_ip
    get_ip_list_from_string split lookup insert
create_remote_volume-IsReplica_example =
    create_remote_volume-IsReplica paired service "shared" shared ("nfs-" <> (uuid <> "/PS1/scsi"))
      replica start refl

abbrev mirrored : ProtectionGroup
mirrored = record {
  local_protection_group_id = "vg";
  remote_protection_group_id = "r";
  local_protection_group_attributes =
      ("systemName", "local")
      ∷ ("managementAddress", "10.0.0.1")
      ∷ ("remoteSystemName", "remote")
      ∷ ("remoteManagementAddress", "10.0.0.2")
      ∷ ("globalID", "PS1")
      ∷ ("remoteGlobalID", "PS2")
      ∷ ("VolumeGroupName", "vg")
      ∷ [];
  remote_protection_group_attributes =
      ("systemName", "remote")
      ∷ ("managementAddress", "10.0.0.2")
      ∷ ("remoteSystemName", "local")
      ∷ ("remoteManagementAddress", "10.0.0.1")
      ∷ ("globalID", "PS2")
      ∷ ("VolumeGroupName", "vg")
      ∷ [];
}

create_storage_protection_group-Mirrors_example :
    Mirrors (constant paired) service "shared" mirrored
unfolding create_storage_protection_group create_group_of describe_group vol_prefix parse_volume_id
    parse_parts parse_local global_id_of first_ip get_ip_list_from_string split lookup insert
create_storage_protection_group-Mirrors_example =
    create_storage_protection_group-Mirrors (constant paired) service "shared" [] "vol/PS1/scsi"
      mirrored start refl
