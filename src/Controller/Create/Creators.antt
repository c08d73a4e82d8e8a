-- ===== src/Controller/Create/Creators.antt =====
-- `SCSICreator` and `NfsCreator` of pkg/controller/creator.go.
use test_powerstore_automati.Base.{
  Bool, true, false, not, ◌&&◌, Option, none, some, [], ◌∷◌, String, Dict, erase, or_default, leb,
  is_empty, if◌then◌else◌,
}
use test_powerstore_automati.Base.Int64.{ℤ, ◌+ℤ◌, lt_ℤ, eq_ℤ}
use test_powerstore_automati.Outcome.{
  Outcome, invalid_argument, not_found, internal, already_exists,
}
use test_powerstore_automati.Client.{
  Client, Clone, Headers, VolumeGroup, VolumeCreate, Reply, get_custom_http_headers,
  set_custom_http_headers, get_software_major_version, create_volume, create_fs, get_nas_by_name,
  get_volume_by_name, get_fs_by_name, get_volume, get_fs, create_volume_from_snapshot, clone_volume,
  create_fs_from_snapshot, clone_fs,
}
use test_powerstore_automati.Client.Monad.{M, ret, fail, call, if_error, ◌>>=◌}
use test_powerstore_automati.Size.{check_size_scsi, check_size_nfs}
use test_powerstore_automati.Controller.Snapshots.{reserved_size}
use test_powerstore_automati.Controller.Capacity.{add_header, headers_or_new, visibility}
use test_powerstore_automati.Controller.Create.Requests.{
  GoText, ContentSource, from_volume, from_snapshot, CreatedVolume, read, find,
}
use test_powerstore_automati.Controller.Create.Attributes.{
  HostIoSizes, set_meta_data, set_volume_create_attributes, set_nfs_create_attributes,
}

-- The two implementations of `VolumeCreator`, with their fields.
pub data Creator : Type 0 where
  scsi_creator : (vg : Option VolumeGroup) → Creator
  nfs_creator : (nas_name : String) → Creator

-- `getCSIVolume`
abbrev pub csi_volume : String → ℤ → CreatedVolume
csi_volume id size = record {
  volume_id = id;
  capacity_bytes = size;
  volume_context = none;
  content_source = none;
  accessible_topology = [];
}

-- `getCSIVolumeFromSnapshot` and `getCSIVolumeFromClone`
abbrev pub csi_volume_from : String → ContentSource → ℤ → CreatedVolume
csi_volume_from id source size = record (csi_volume id size) { content_source = some source }

-- `CheckSize`
unfoldable pub check_size : Creator → ℤ → ℤ → Bool → Outcome ℤ
check_size (scsi_creator vg) required limit auto_round_off = check_size_scsi required limit
check_size (nfs_creator nas_name) required limit auto_round_off =
    check_size_nfs required limit auto_round_off

module _ (c : Client) (connection : String) where
  -- `CheckIfAlreadyExists`: the size of a filesystem is answered as requested.
  unfoldable pub check_if_already_exists : Creator → String → ℤ → M CreatedVolume
  check_if_already_exists (scsi_creator vg) name size = do
    existing ← call c connection (get_volume_by_name name)
    if_error existing (λ _. fail internal)
        (λ v. if lt_ℤ v.size size then fail already_exists else ret (csi_volume v.id v.size))
  check_if_already_exists (nfs_creator nas_name) name size = do
    existing ← call c connection (get_fs_by_name name)
    if_error existing (λ _. fail internal)
        (λ f. if lt_ℤ f.size_total size then fail already_exists else ret (csi_volume f.id size))

  -- `IsK8sMetadataSupported`
  unfoldable pub is_k8s_metadata_supported : M Bool
  is_k8s_metadata_supported = do
    version ← call c connection get_software_major_version
    if_error version (λ _. ret false) (λ major. ret (leb 3 major))

  -- The request for a new volume, the metadata left open.
  abbrev pub group_id_of : Option VolumeGroup → Option (Dict String) → String
  group_id_of none params = or_default (find "csi.dell.com/volume_group_id" params) ""
  group_id_of (some vg) params = vg.id

  abbrev pub volume_create :
      Option VolumeGroup → String → ℤ → Option (Dict String) → Option (Dict String) → VolumeCreate
  volume_create vg name size params metadata = set_volume_create_attributes params (record {
    name = name;
    size = size;
    metadata = metadata;
    volume_group_id = group_id_of vg params;
    headers = set_meta_data params;
    appliance_id = "";
    description = "";
    protection_policy_id = "";
    performance_policy_id = "";
    app_type = "";
    app_type_other = "";
  })

  abbrev pub k8s_metadata : Option (Dict String) → Dict String
  k8s_metadata params =
      ("k8s_pvol_name", read "csi.storage.k8s.io/pv/name" params)
      ∷ ("k8s_claim_name", read "csi.storage.k8s.io/pvc/name" params)
      ∷ ("k8s_claim_namespace", read "csi.storage.k8s.io/pvc/namespace" params)
      ∷ []

  abbrev pub has_k8s_metadata : Option (Dict String) → Bool
  has_k8s_metadata params =
      not (is_empty (read "csi.storage.k8s.io/pv/name" params))
      && (not (is_empty (read "csi.storage.k8s.io/pvc/name" params))
          && not (is_empty (read "csi.storage.k8s.io/pvc/namespace" params)))

  -- The volume is asked for, and then the internal header is taken off again.
  unfoldable pub create_and_reset : Headers → VolumeCreate → M (Reply String)
  create_and_reset headers v = do
    made ← call c connection (create_volume v)
    reset ← call c connection (set_custom_http_headers (erase visibility headers))
    ret made

  -- The volume is asked for with metadata behind an internal header, or without.
  unfoldable pub create_with :
      Option VolumeGroup
      → String
      → ℤ
      → Option (Dict String)
      → Headers
      → (metadata : Bool) → M (Reply String)
  create_with vg name size params headers true = do
    let internal_headers = add_header visibility "internal" headers
    set ← call c connection (set_custom_http_headers internal_headers)
    create_and_reset internal_headers
        (volume_create vg name size params (some (k8s_metadata params)))
  create_with vg name size params headers false =
      create_and_reset headers (volume_create vg name size params none)

  -- `Create` of `SCSICreator`
  unfoldable pub create_scsi :
      Option VolumeGroup → String → ℤ → Option (Dict String) → M (Reply String)
  create_scsi vg name size params = do
    found ← call c connection get_custom_http_headers
    supported ← is_k8s_metadata_supported
    create_with vg name size params (headers_or_new found.value)
        (supported && has_k8s_metadata params)

  module _ (go : GoText) (sizes : HostIoSizes) where
    -- `Create` of `NfsCreator`: an error of the server's lookup is the error of the creation.
    unfoldable pub create_nfs : String → String → ℤ → Option (Dict String) → M (Reply String)
    create_nfs nas_name name size params = do
      nas ← call c connection (get_nas_by_name nas_name)
      if_error nas (λ e. ret (record { value = ""; error = some e }))
          (λ n. call c connection (
            create_fs (
              set_nfs_create_attributes go sizes params (record {
                name = name;
                nas_server_id = n.id;
                size = size +ℤ reserved_size;
                headers = set_meta_data params;
                description = "";
                config_type = "";
                access_policy = "";
                locking_policy = "";
                folder_rename_policy = "";
                is_async_m_time_enabled = false;
                protection_policy_id = "";
                file_events_publishing_mode = "";
                host_io_size = "";
                flr_create = record {
                  mode = "";
                  default_retention = "";
                  minimum_retention = "";
                  maximum_retention = "";
                };
              }))))

    unfoldable pub create : Creator → String → ℤ → Option (Dict String) → M (Reply String)
    create (scsi_creator vg) name size params = create_scsi vg name size params
    create (nfs_creator nas_name) name size params = create_nfs nas_name name size params

  -- The request for a copy.
  abbrev pub clone_params : String → Option (Dict String) → Clone
  clone_params name params = record { name = name; headers = set_meta_data params }

  -- The answer for a copy that was made, with the parameters as its context.
  abbrev pub copied : Reply String → ContentSource → ℤ → Option (Dict String) → M CreatedVolume
  copied made source size params =
      if_error made (λ _. fail internal)
        (λ id. ret (record (csi_volume_from id source size) { volume_context = params }))

  -- `CreateVolumeFromSnapshot`
  unfoldable pub create_volume_from_snapshot_by :
      Creator → (snapshot_id name : String) → ℤ → Option (Dict String) → M CreatedVolume
  create_volume_from_snapshot_by (scsi_creator vg) id name size params = do
    source ← call c connection (get_volume id)
    if_error source (λ _. fail not_found)
        (λ v.
          if not (eq_ℤ v.size size)
          then fail invalid_argument
          else call c connection (create_volume_from_snapshot (clone_params name params) id)
            >>= (λ made. copied made (from_snapshot id) size params))
  create_volume_from_snapshot_by (nfs_creator nas_name) id name size params = do
    source ← call c connection (get_fs id)
    if_error source (λ _. fail not_found)
        (λ f.
          if not (eq_ℤ f.size_total (size +ℤ reserved_size))
          then fail invalid_argument
          else call c connection (create_fs_from_snapshot (clone_params name params) id)
            >>= (λ made. copied made (from_snapshot id) size params))

  -- `Clone`
  unfoldable pub clone_by :
      Creator → (volume_id name : String) → ℤ → Option (Dict String) → M CreatedVolume
  clone_by (scsi_creator vg) id name size params = do
    source ← call c connection (get_volume id)
    if_error source (λ _. fail not_found)
        (λ v.
          if not (eq_ℤ v.size size)
          then fail invalid_argument
          else call c connection (clone_volume (clone_params name params) id)
            >>= (λ made. copied made (from_volume id) size params))
  clone_by (nfs_creator nas_name) id name size params = do
    source ← call c connection (get_fs id)
    if_error source (λ _. fail not_found)
        (λ f.
          if not (eq_ℤ f.size_total (size +ℤ reserved_size))
          then fail invalid_argument
          else call c connection (clone_fs (clone_params name params) id)
            >>= (λ made. copied made (from_volume id) size params))
