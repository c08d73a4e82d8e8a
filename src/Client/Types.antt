-- ===== src/Client/Types.antt =====
-- The parts of gopowerstore's structs that the driver reads, and the requests that it makes.
use test_powerstore_automati.Base.{ℕ, Bool, List, String, Option, Dict}
use test_powerstore_automati.Base.Int64.{ℤ}
use test_powerstore_automati.Outcome.{Error}

-- A volume or a snapshot of one.
pub record Volume : Type 0 where
  pub id : String
  pub name : String
  pub size : ℤ
  pub wwn : String
  pub appliance_id : String
  pub state : String
  pub protection_policy_id : String
  pub metro_session_id : String
  pub source_id : String

-- A filesystem or a snapshot of one.
pub record FileSystem : Type 0 where
  pub id : String
  pub name : String
  pub size_total : ℤ
  pub nas_server_id : String
  pub parent_id : String

pub record VolumeGroup : Type 0 where
  pub id : String
  pub name : String
  pub protection_policy_id : String
  pub is_write_order_consistent : Bool
  pub volumes : List Volume
  pub creation_timestamp : String

-- An empty text or list is left out of the request.
pub record VolumeGroupCreate : Type 0 where
  pub name : String
  pub description : String
  pub volume_ids : List String
  pub protection_policy_id : String

-- `gopowerstore.VolumeCreate`: a pointer that is not set is none, a text that is not set is empty.
-- `headers` is what `MetaData()` holds.
pub record VolumeCreate : Type 0 where
  pub name : String
  pub size : ℤ
  pub metadata : Option (Dict String)
  pub volume_group_id : String
  pub headers : Dict String
  pub appliance_id : String
  pub description : String
  pub protection_policy_id : String
  pub performance_policy_id : String
  pub app_type : String
  pub app_type_other : String

pub record FlrCreate : Type 0 where
  pub mode : String
  pub default_retention : String
  pub minimum_retention : String
  pub maximum_retention : String

pub record FsCreate : Type 0 where
  pub name : String
  pub nas_server_id : String
  pub size : ℤ
  pub headers : Dict String
  pub description : String
  pub config_type : String
  pub access_policy : String
  pub locking_policy : String
  pub folder_rename_policy : String
  pub is_async_m_time_enabled : Bool
  pub protection_policy_id : String
  pub file_events_publishing_mode : String
  pub host_io_size : String
  pub flr_create : FlrCreate

-- `gopowerstore.VolumeClone` and `FsClone`, without a description.
pub record Clone : Type 0 where
  pub name : String
  pub headers : Dict String

pub record Host : Type 0 where
  pub id : String
  pub name : String
  pub port_names : List String

pub record HostVolumeMapping : Type 0 where
  pub host_id : String
  pub logical_unit_number : ℕ

pub record NfsExport : Type 0 where
  pub id : String
  pub name : String
  pub ro_hosts : List String
  pub ro_root_hosts : List String
  pub rw_hosts : List String
  pub rw_root_hosts : List String

-- Empty lists are left out of the request.
pub record NfsExportModify : Type 0 where
  pub add_rw_root_hosts : List String
  pub remove_ro_hosts : List String
  pub remove_ro_root_hosts : List String
  pub remove_rw_hosts : List String
  pub remove_rw_root_hosts : List String

pub data NasState : Type 0 where
  started other_state : NasState

pub data NasHealth : Type 0 where
  info no_details other_health : NasHealth

pub record Nas : Type 0 where
  pub id : String
  pub name : String
  pub operational_status : NasState
  pub health_state : NasHealth
  pub file_systems : List String
  pub preferred_interface_id : String
  pub current_node_id : String

pub record StorageElementPair : Type 0 where
  pub local_storage_element_id : String
  pub remote_storage_element_id : String

pub record ReplicationSession : Type 0 where
  pub id : String
  pub state : String
  pub role : String
  pub resource_type : String
  pub remote_resource_id : String
  pub local_resource_id : String
  pub remote_system_id : String
  pub storage_element_pairs : List StorageElementPair

pub record ProtectionPolicy : Type 0 where
  pub id : String
  pub volumes : List String
  pub volume_groups : List String

pub record ReplicationRule : Type 0 where
  pub id : String
  pub protection_policies : List String

pub record RemoteSystem : Type 0 where
  pub id : String
  pub name : String
  pub management_address : String
  pub serial_number : String

pub record Cluster : Type 0 where
  pub name : String
  pub management_address : String
  pub nvme_nqn : String

-- gopowerstore.ActionType
pub data RsAction : Type 0 where
  resume reprotect pause failover sync : RsAction

pub record FailoverParams : Type 0 where
  pub is_planned : Bool
  pub reverse : Bool

-- A field with its zero value is left out of the request.
pub record VolumeModify : Type 0 where
  pub size : ℤ
  pub protection_policy_id : String

pub record HostModify : Type 0 where
  pub remove_initiators : List String
  pub add_initiators : List String
  pub modify_initiators : List String
  pub host_connectivity : Option String

-- An iSCSI or NVMe/TCP target address.
pub record TargetAddress : Type 0 where
  pub id : String
  pub address : String
  pub appliance_id : String
  pub target_iqn : String

pub record FcPort : Type 0 where
  pub is_link_up : Bool
  pub appliance_id : String
  pub wwn : String
  pub wwn_node : String
  pub wwn_nvme : String

-- A sample of `PerformanceMetricsByVolume` or `PerformanceMetricsByFileSystem`: whether its
-- `TotalIops` is above 0, and its time stamp.
pub record Metric : Type 0 where
  pub has_io : Bool
  pub timestamp : String

-- The HTTP headers that a client sends with every request.
abbrev pub Headers : Type 0
Headers = Dict (List String)

pub data Request : Type 0 where
  get_iscsi_addresses get_nvme_tcp_addresses get_fc_ports get_cluster : Request
  get_volume get_volume_by_name get_snapshot : String → Request
  get_snapshots_by_volume get_volume_groups_by_volume get_host_volume_mapping : String → Request
  delete_volume delete_snapshot delete_volume_group delete_fs delete_fs_snapshot : String → Request
  get_fs get_fs_by_name get_fs_snapshot get_fs_snapshots_by_volume : String → Request
  get_nfs_export_by_fs get_host get_host_by_name : String → Request
  get_nas get_file_interface : String → Request
  get_volumes list_fs get_snapshots get_fs_snapshots get_nas_servers now : Request
  create_snapshot create_fs_snapshot : (name source : String) → Request
  modify_volume : VolumeModify → String → Request
  modify_fs : ℤ → String → Request
  end_metro_volume : String → (delete_remote : Bool) → Request
  remove_members : (volume_ids : List String) (group : String) → Request
  attach_volume detach_volume : (host volume : String) → Request
  create_nfs_export : (name fs path : String) → Request
  modify_nfs_export : NfsExportModify → String → Request
  get_session_by_resource get_session : String → Request
  execute_action : String → RsAction → Option FailoverParams → Request
  get_volume_group get_policy_by_name get_rule_by_name get_remote_by_name get_remote_system :
      String → Request
  modify_volume_group update_volume_group_policy : (policy group : String) → Request
  delete_policy delete_rule : String → Request
  create_policy : (name rule : String) → Request
  create_rule : (name rpo remote : String) → Request
  modify_host : HostModify → String → Request
  get_custom_http_headers get_software_major_version get_capacity get_max_volume_size : Request
  set_custom_http_headers : Headers → Request
  create_volume : VolumeCreate → Request
  create_fs : FsCreate → Request
  create_volume_from_snapshot clone_volume : Clone → String → Request
  create_fs_from_snapshot clone_fs : Clone → String → Request
  get_nas_by_name get_volume_group_by_name get_appliance get_appliance_by_name : String → Request
  create_volume_group : VolumeGroupCreate → Request
  configure_metro_volume : (volume remote_system : String) → Request
  add_members : (volume_ids : List String) (group : String) → Request
  create_volume_group_snapshot : (name description group : String) → Request
  performance_metrics_by_volume performance_metrics_by_fs : String → Request

abbrev pub Response : Request → Type 0
Response (get_volume _) = Volume
Response (get_volume_by_name _) = Volume
Response (get_snapshot _) = Volume
Response (get_snapshots_by_volume _) = List Volume
Response (get_volume_groups_by_volume _) = List VolumeGroup
Response (get_host_volume_mapping _) = List HostVolumeMapping
Response (get_fs _) = FileSystem
Response (get_fs_by_name _) = FileSystem
Response (get_fs_snapshot _) = FileSystem
Response (get_fs_snapshots_by_volume _) = List FileSystem
Response (get_nfs_export_by_fs _) = NfsExport
Response (get_host _) = Host
Response (get_host_by_name _) = Host
Response (get_nas _) = Nas
Response (get_file_interface _) = String
Response get_volumes = List Volume
Response list_fs = List FileSystem
Response get_snapshots = List Volume
Response get_fs_snapshots = List FileSystem
Response get_nas_servers = List Nas
Response now = ℕ
Response get_iscsi_addresses = List TargetAddress
Response get_nvme_tcp_addresses = List TargetAddress
Response get_fc_ports = List FcPort
Response get_cluster = Cluster
Response (create_snapshot _ _) = String
Response (create_fs_snapshot _ _) = String
Response (get_session_by_resource _) = ReplicationSession
Response (get_session _) = ReplicationSession
Response (get_volume_group _) = VolumeGroup
Response (get_policy_by_name _) = ProtectionPolicy
Response (get_rule_by_name _) = ReplicationRule
Response (get_remote_by_name _) = RemoteSystem
Response (get_remote_system _) = RemoteSystem
Response (create_policy _ _) = String
Response (create_rule _ _ _) = String
Response get_custom_http_headers = Option Headers
Response get_software_major_version = ℕ
Response get_capacity = ℤ
Response get_max_volume_size = ℤ
Response (create_volume _) = String
Response (create_fs _) = String
Response (create_volume_from_snapshot _ _) = String
Response (clone_volume _ _) = String
Response (create_fs_from_snapshot _ _) = String
Response (clone_fs _ _) = String
Response (get_nas_by_name _) = Nas
Response (get_volume_group_by_name _) = VolumeGroup
Response (get_appliance _) = String
Response (get_appliance_by_name _) = String
Response (create_volume_group _) = String
Response (create_volume_group_snapshot _ _ _) = String
Response (performance_metrics_by_volume _) = List Metric
Response (performance_metrics_by_fs _) = List Metric
Response _ = Unit

pub record Reply (A : Type 0) : Type 0 where
  pub value : A
  pub error : Option Error

-- A request, and the connection over which it was made.
pub record Event : Type 0 where
  pub connection : String
  pub request : Request

-- The calls made so far, the latest first.
abbrev pub History : Type 0
History = List Event

abbrev pub Client : Type 0
Client = History → String → (r : Request) → Reply (Response r)
