-- ===== src/Controller/Replication/Peers.antt =====
-- `CreateRemoteVolume` and `CreateStorageProtectionGroup` of pkg/controller/replication.go: the other
-- side of a volume and of its group. `csi_nfs_parameter` is the constant of csm-sharednfs.
pub mod Laws
pub mod Replicas
use test_powerstore_automati.Base.{
  Option, none, some, List, [], ◌∷◌, String, ◌<>◌, ◌==◌, Dict, lookup, insert, is_empty,
  if◌then◌else◌, trim_prefix,
}
use test_powerstore_automati.Base.Int64.{ℤ}
use test_powerstore_automati.Outcome.{invalid_argument, internal, unimplemented}
use test_powerstore_automati.Client.{
  Client, Cluster, RemoteSystem, ReplicationSession, StorageElementPair, Volume, VolumeGroup,
  get_cluster, get_remote_system, get_session_by_resource, get_volume, get_volume_groups_by_volume,
}
use test_powerstore_automati.Client.Monad.{M, ret, throw, fail, call, ◌>>=◌, if_error, if_missing}
use test_powerstore_automati.Arrays.{PowerStoreArray}
use test_powerstore_automati.Arrays.Handle.{VolumeHandle, parse_volume_id}
use test_powerstore_automati.Controller.{Service}
use test_powerstore_automati.Controller.Replication.Uuid.{get_volume_uuid_prefix}

-- csiext.Volume
pub record RemoteVolume : Type 0 where
  pub capacity_bytes : ℤ
  pub volume_id : String
  pub volume_context : Dict String

-- csiext.CreateStorageProtectionGroupResponse
pub record ProtectionGroup : Type 0 where
  pub local_protection_group_id : String
  pub remote_protection_group_id : String
  pub local_protection_group_attributes : Dict String
  pub remote_protection_group_attributes : Dict String

-- The loop over the pairs: the last one that has the volume counts.
unfoldable pub remote_volume_id : String → List StorageElementPair → String → String
remote_volume_id id [] found = found
remote_volume_id id (sp ∷ pairs) found =
    remote_volume_id id pairs
      (if sp.local_storage_element_id == id then sp.remote_storage_element_id else found)

-- `m[key]`, the empty text for a missing key.
abbrev pub text_or_empty : Option String → String
text_or_empty none = ""
text_or_empty (some text) = text

abbrev pub prefix_unless_empty : String → String → String
prefix_unless_empty id access_mode = if is_empty access_mode then "" else get_volume_uuid_prefix id

-- The prefix of the ID of a host-based NFS volume.
unfoldable pub vol_prefix : (csi_nfs_parameter : String) → Dict String → String → String
vol_prefix csi_nfs_parameter params id =
    prefix_unless_empty id (text_or_empty (lookup csi_nfs_parameter params))

module _ (c : Client) (connection : String) where
  -- The first group of the volume, and the session of the group.
  abbrev pub with_first_group : {A : Type 0} → List VolumeGroup → (VolumeGroup → M A) → M A
  with_first_group [] next = fail unimplemented
  with_first_group (vg ∷ more) next = next vg

  abbrev pub session_of :
      {A : Type 0} → (VolumeGroup → ReplicationSession → M A) → VolumeGroup → M A
  session_of next vg =
      call c connection (get_session_by_resource vg.id) >>= (λ rs. if_error rs throw (next vg))

  abbrev pub with_session : {A : Type 0} → String → (VolumeGroup → ReplicationSession → M A) → M A
  with_session id next = do
    vgs ← call c connection (get_volume_groups_by_volume id)
    if_error vgs throw (λ groups. with_first_group groups (session_of next))

  -- The cluster of the array and its peer.
  abbrev pub peer_of :
      {A : Type 0} → ReplicationSession → (Cluster → RemoteSystem → M A) → Cluster → M A
  peer_of rs next here =
      call c connection (get_remote_system rs.remote_system_id)
      >>= (λ remote_system. if_error remote_system throw (next here))

  abbrev pub with_systems : {A : Type 0} → ReplicationSession → (Cluster → RemoteSystem → M A) → M A
  with_systems rs next = do
    local_system ← call c connection get_cluster
    if_error local_system throw (peer_of rs next)

module _ (c : Client) (s : Service) (csi_nfs_parameter : String) where
  abbrev pub key : String → String
  key name = s.replication_context_prefix <> name

  abbrev pub remote_params : Cluster → RemoteSystem → Dict String
  remote_params here there =
      insert (key "managementAddress") there.management_address
        (insert (key "arrayID") there.serial_number (insert "remoteSystem" here.name []))

  -- `getRemoteCSIVolume`, and the context of the volume.
  unfoldable pub get_remote_csi_volume :
      String → String → Volume → Cluster → RemoteSystem → RemoteVolume
  get_remote_csi_volume remote_id protocol vol here there =
      let params = remote_params here there in
      record {
        capacity_bytes = vol.size;
        volume_id =
            remote_id
            <> ("/" <> (text_or_empty (lookup (key "arrayID") params) <> ("/" <> protocol)));
        volume_context = params;
      }

  unfoldable pub describe_remote_volume :
      String → (remote_id protocol : String) → ReplicationSession → Volume → M RemoteVolume
  describe_remote_volume connection remote_id protocol rs vol =
      with_systems c connection rs
        (λ here there. ret (get_remote_csi_volume remote_id protocol vol here there))

  unfoldable pub describe_remote :
      String → (vol_prefix id protocol : String) → ReplicationSession → M RemoteVolume
  describe_remote connection prefix id protocol rs =
      let remote = remote_volume_id id rs.storage_element_pairs "" in
      if is_empty remote
      then fail internal
      else call c connection (get_volume id) >>= (λ found.
        if_error found (λ _. fail internal)
          (describe_remote_volume connection (prefix <> remote) protocol rs))

  unfoldable pub create_remote_of : Dict String → VolumeHandle → M RemoteVolume
  create_remote_of params h =
      let prefix = vol_prefix csi_nfs_parameter params h.local_uuid in
      let id = trim_prefix prefix h.local_uuid in
      if_missing (lookup h.local_array_global_id s.known.arrays) (fail invalid_argument) (λ arr.
        with_session c arr.connection id
          (λ vg. describe_remote arr.connection prefix id h.protocol))

  -- `CreateRemoteVolume`
  unfoldable pub create_remote_volume : Dict String → String → M RemoteVolume
  create_remote_volume params handle =
      if is_empty handle
      then fail invalid_argument
      else parse_volume_id c s.known handle none >>= create_remote_of params

  abbrev pub local_attributes : String → VolumeGroup → Cluster → RemoteSystem → Dict String
  local_attributes array_id vg here there = insert (key "VolumeGroupName") vg.name (
      insert (key "remoteGlobalID") there.serial_number (
        insert (key "globalID") array_id (
          insert (key "remoteManagementAddress") there.management_address (
            insert (key "remoteSystemName") there.name (
              insert (key "managementAddress") here.management_address
                (insert (key "systemName") here.name []))))))

  abbrev pub remote_attributes : VolumeGroup → Cluster → RemoteSystem → Dict String
  remote_attributes vg here there = insert (key "VolumeGroupName") vg.name (
      insert (key "globalID") there.serial_number (
        insert (key "remoteManagementAddress") here.management_address (
          insert (key "remoteSystemName") here.name (
            insert (key "managementAddress") there.management_address
              (insert (key "systemName") there.name [])))))

  abbrev pub protection_group :
      String → VolumeGroup → ReplicationSession → Cluster → RemoteSystem → ProtectionGroup
  protection_group array_id vg rs here there = record {
    local_protection_group_id = rs.local_resource_id;
    remote_protection_group_id = rs.remote_resource_id;
    local_protection_group_attributes = local_attributes array_id vg here there;
    remote_protection_group_attributes = remote_attributes vg here there;
  }

  unfoldable pub describe_group :
      String → String → VolumeGroup → ReplicationSession → M ProtectionGroup
  describe_group connection array_id vg rs =
      with_systems c connection rs (λ here there. ret (protection_group array_id vg rs here there))

  unfoldable pub create_group_of : Dict String → VolumeHandle → M ProtectionGroup
  create_group_of params h =
      let id = trim_prefix (vol_prefix csi_nfs_parameter params h.local_uuid) h.local_uuid in
      if_missing (lookup h.local_array_global_id s.known.arrays) (fail invalid_argument) (λ arr.
        if h.protocol == "nfs"
        then fail invalid_argument
        else with_session c arr.connection id
            (describe_group arr.connection h.local_array_global_id))

  -- `CreateStorageProtectionGroup`
  unfoldable pub create_storage_protection_group : Dict String → String → M ProtectionGroup
  create_storage_protection_group params handle =
      if is_empty handle
      then fail invalid_argument
      else parse_volume_id c s.known handle none >>= create_group_of params
