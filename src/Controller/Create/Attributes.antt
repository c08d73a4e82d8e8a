-- ===== src/Controller/Create/Attributes.antt =====
-- The attributes of new volumes and filesystems, from a request's parameters:
-- pkg/controller/creator.go. `host_io_sizes` are gopowerstore's names VMware8K, VMware16K, VMware32K
-- and VMware64K.
use test_powerstore_automati.Base.{
  Bool, ◌||◌, Option, none, some, [], ◌∷◌, String, Dict, or_default, is_some, ◌==◌, if◌then◌else◌,
}
use test_powerstore_automati.Client.{VolumeCreate, FsCreate, FlrCreate}
use test_powerstore_automati.Controller.Create.Requests.{GoText, read, find}

-- `setMetaData`: what the headers of a new object hold.
unfoldable pub set_meta_data : Option (Dict String) → Dict String
set_meta_data params =
    ("x-csi-pv-name", read "csi.storage.k8s.io/pv/name" params)
    ∷ ("x-csi-pv-claimname", read "csi.storage.k8s.io/pvc/name" params)
    ∷ ("x-csi-pv-namespace", read "csi.storage.k8s.io/pvc/namespace" params)
    ∷ []

-- `if v, ok := reqParams[key]; ok { field = v }`
abbrev pub or_kept : Option String → String → String
or_kept found old = or_default found old

-- `setVolumeCreateAttributes`
unfoldable pub set_volume_create_attributes : Option (Dict String) → VolumeCreate → VolumeCreate
set_volume_create_attributes params v = record v {
  appliance_id = or_kept (find "csi.dell.com/appliance_id" params) v.appliance_id;
  description = or_kept (find "csi.dell.com/description" params) v.description;
  protection_policy_id =
      or_kept (find "csi.dell.com/protection_policy_id" params) v.protection_policy_id;
  performance_policy_id =
      or_kept (find "csi.dell.com/performance_policy_id" params) v.performance_policy_id;
  app_type = or_kept (find "csi.dell.com/app_type" params) v.app_type;
  app_type_other =
      if is_some (find "csi.dell.com/app_type" params)
      then or_kept (find "csi.dell.com/app_type_other" params) v.app_type_other
      else v.app_type_other;
}

pub record HostIoSizes : Type 0 where
  pub vmware_8k : String
  pub vmware_16k : String
  pub vmware_32k : String
  pub vmware_64k : String

-- `validateHostIOSize`
unfoldable pub validate_host_io_size : HostIoSizes → String → String
validate_host_io_size sizes size =
    if size == sizes.vmware_8k
      || (size == sizes.vmware_16k || (size == sizes.vmware_32k || size == sizes.vmware_64k))
    then size
    else sizes.vmware_8k

-- `setFLRAttributes`
unfoldable pub set_flr_attributes : Option (Dict String) → FlrCreate → FlrCreate
set_flr_attributes params old =
    let mode = find "csi.dell.com/flr_attributes.flr_create.mode" params in
    let default_retention =
      find "csi.dell.com/flr_attributes.flr_create.default_retention" params in
    let minimum_retention =
      find "csi.dell.com/flr_attributes.flr_create.minimum_retention" params in
    let maximum_retention =
      find "csi.dell.com/flr_attributes.flr_create.maximum_retention" params in
    if is_some mode
      || (is_some default_retention || (is_some maximum_retention || is_some minimum_retention))
    then record {
      mode = or_default mode "";
      default_retention = or_default default_retention "";
      minimum_retention = or_default minimum_retention "";
      maximum_retention = or_default maximum_retention "";
    }
    else old

abbrev pub or_flag : Option Bool → Bool → Bool
or_flag none old = old
or_flag (some flag) old = flag

module _ (go : GoText) (sizes : HostIoSizes) where
  -- `strconv.ParseBool` of the parameter, if it is given and can be read.
  abbrev pub async_m_time : Option (Dict String) → Option Bool
  async_m_time params = elim (find "csi.dell.com/is_async_mtime_enabled" params) [
    | none ↦ none
    | some text ↦ go.parse_bool text
  ]

  abbrev pub host_io_size_of : Option String → String → String
  host_io_size_of none old = old
  host_io_size_of (some size) old = validate_host_io_size sizes size

  -- `setNFSCreateAttributes`
  unfoldable pub set_nfs_create_attributes : Option (Dict String) → FsCreate → FsCreate
  set_nfs_create_attributes params f = record f {
    description = or_kept (find "csi.dell.com/description" params) f.description;
    config_type = or_kept (find "csi.dell.com/config_type" params) f.config_type;
    access_policy = or_kept (find "csi.dell.com/access_policy" params) f.access_policy;
    locking_policy = or_kept (find "csi.dell.com/locking_policy" params) f.locking_policy;
    folder_rename_policy =
        or_kept (find "csi.dell.com/folder_rename_policy" params) f.folder_rename_policy;
    is_async_m_time_enabled = or_flag (async_m_time params) f.is_async_m_time_enabled;
    protection_policy_id =
        or_kept (find "csi.dell.com/protection_policy_id" params) f.protection_policy_id;
    file_events_publishing_mode =
        or_kept (find "csi.dell.com/file_events_publishing_mode" params)
          f.file_events_publishing_mode;
    host_io_size = host_io_size_of (find "csi.dell.com/host_io_size" params) f.host_io_size;
    flr_create = set_flr_attributes params f.flr_create;
  }
