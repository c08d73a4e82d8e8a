-- ===== src/Tests.antt =====
-- An array with fixed answers, and the driver's configuration, on which the theorems are applied.
mod Controller
mod Replication
mod Parts
mod Interceptors
mod Lists
mod Peers
mod Create
use test_powerstore_automati.Base.{true, false, Option, none, some, [], ◌∷◌, String, arith, refl}
use test_powerstore_automati.Base.Int64.{pos}
use test_powerstore_automati.Outcome.{Error, api}
use test_powerstore_automati.Client.{
  Client, Request, Response, Volume, FileSystem, Host, get_iscsi_addresses, get_nvme_tcp_addresses,
  get_fc_ports, get_cluster, get_volume, get_volume_by_name, get_snapshot, get_snapshots_by_volume,
  get_volume_groups_by_volume, get_host_volume_mapping, get_fs, get_fs_by_name, get_fs_snapshot,
  get_fs_snapshots_by_volume, get_nfs_export_by_fs, get_host, get_host_by_name, get_nas,
  get_file_interface, get_volumes, list_fs, get_snapshots, get_fs_snapshots, get_nas_servers, now,
  create_snapshot, create_fs_snapshot, get_session_by_resource, get_session, get_volume_group,
  get_policy_by_name, get_rule_by_name, get_remote_by_name, get_remote_system, create_policy,
  create_rule, info, started, get_custom_http_headers, get_software_major_version, get_capacity,
  get_max_volume_size, create_volume, create_fs, create_volume_from_snapshot, clone_volume,
  create_fs_from_snapshot, clone_fs, get_nas_by_name, get_volume_group_by_name, get_appliance,
  get_appliance_by_name, create_volume_group, create_volume_group_snapshot,
  performance_metrics_by_volume, performance_metrics_by_fs,
}
use test_powerstore_automati.Client.Monad.{World}
use test_powerstore_automati.Arrays.{PowerStoreArray}
use test_powerstore_automati.Arrays.Handle.{VolumeHandle}
use test_powerstore_automati.Arrays.Handle.RoundTrip.{IsPrintable}
use test_powerstore_automati.Controller.{Service}
use test_powerstore_automati.Ip.{first_ip, get_ip_list_from_string}

abbrev pub volume : Volume
volume = record {
  id = "vol";
  name = "csivol";
  size = pos 8192;
  wwn = "naa.68";
  appliance_id = "A1";
  state = "Ready";
  protection_policy_id = "";
  metro_session_id = "";
  source_id = "vol";
}

abbrev pub filesystem : FileSystem
filesystem = record {
  id = "fs";
  name = "csivol";
  size_total = pos 8192;
  nas_server_id = "nas";
  parent_id = "fs";
}

abbrev host : Host
host = record { id = "host"; name = "node"; port_names = [] }

abbrev pub answer : (r : Request) → Response r
answer get_iscsi_addresses = []
answer get_nvme_tcp_addresses = []
answer get_fc_ports = []
answer get_cluster = record { name = "local"; management_address = "10.0.0.1"; nvme_nqn = "nqn" }
answer (get_volume id) = volume
answer (get_volume_by_name name) = volume
answer (get_snapshot id) = volume
answer (get_snapshots_by_volume id) = []
answer (get_volume_groups_by_volume id) = []
answer (get_host_volume_mapping id) = []
answer (get_fs id) = filesystem
answer (get_fs_by_name name) = filesystem
answer (get_fs_snapshot id) = filesystem
answer (get_fs_snapshots_by_volume id) = []
answer (get_nfs_export_by_fs id) = record {
  id = "export";
  name = "csivol";
  ro_hosts = [];
  ro_root_hosts = [];
  rw_hosts = [];
  rw_root_hosts = [];
}
answer (get_host id) = host
answer (get_host_by_name name) = host
answer (get_nas id) = record {
  id = "nas";
  name = "nas";
  operational_status = started;
  health_state = info;
  file_systems = [];
  preferred_interface_id = "if";
  current_node_id = "PS1-node-A";
}
answer (get_file_interface id) = "10.0.0.9"
answer get_volumes = []
answer list_fs = []
answer get_snapshots = []
answer get_fs_snapshots = []
answer get_nas_servers = []
answer now = 0
answer (create_snapshot name source) = "snap"
answer (create_fs_snapshot name source) = "snap"
answer (get_session_by_resource id) = record {
  id = "rs";
  state = "OK";
  role = "Source";
  resource_type = "volume";
  remote_resource_id = "r";
  local_resource_id = "vg";
  remote_system_id = "remote";
  storage_element_pairs =
      record { local_storage_element_id = "vol"; remote_storage_element_id = "rvol" } ∷ [];
}
answer (get_session id) = record {
  id = "rs";
  state = "OK";
  role = "Source";
  resource_type = "volume";
  remote_resource_id = "r";
  local_resource_id = "vg";
  remote_system_id = "remote";
  storage_element_pairs =
      record { local_storage_element_id = "vol"; remote_storage_element_id = "rvol" } ∷ [];
}
answer (get_volume_group id) = record {
  id = "vg";
  name = "vg";
  protection_policy_id = "pp";
  is_write_order_consistent = true;
  volumes = [];
  creation_timestamp = "";
}
answer (get_policy_by_name name) = record { id = "pp"; volumes = []; volume_groups = [] }
answer (get_rule_by_name name) = record { id = "rr"; protection_policies = [] }
answer (get_remote_by_name name) = record {
  id = "rs";
  name = "remote";
  management_address = "10.0.0.2";
  serial_number = "PS2";
}
answer (get_remote_system id) = record {
  id = "rs";
  name = "remote";
  management_address = "10.0.0.2";
  serial_number = "PS2";
}
answer (create_policy name rule) = "pp"
answer (create_rule name rpo remote) = "rr"
answer get_custom_http_headers = none
answer get_software_major_version = 4
answer get_capacity = pos 1000000
answer get_max_volume_size = pos 500000
answer (create_volume v) = "vol"
answer (create_fs f) = "fs"
answer (create_volume_from_snapshot v id) = "vol"
answer (clone_volume v id) = "vol"
answer (create_fs_from_snapshot v id) = "fs"
answer (clone_fs v id) = "fs"
answer (get_nas_by_name name) = record {
  id = "nas";
  name = "nas";
  operational_status = started;
  health_state = info;
  file_systems = [];
  preferred_interface_id = "if";
  current_node_id = "PS1-node-A";
}
answer (get_volume_group_by_name name) = record {
  id = "vg";
  name = "vg";
  protection_policy_id = "pp";
  is_write_order_consistent = true;
  volumes = [];
  creation_timestamp = "";
}
answer (get_appliance id) = "TAG"
answer (get_appliance_by_name name) = "TAG"
answer (create_volume_group g) = "vg"
answer (create_volume_group_snapshot name description group) = "vg"
answer (performance_metrics_by_volume id) = []
answer (performance_metrics_by_fs id) = []
answer _ = tt

abbrev pub missing : Error
missing = api (record { holds = λ fact. true; message = "not found" })

-- The array, which answers some requests with an error.
abbrev pub array_with : (Request → Option Error) → Client
array_with fails h connection r = record { value = answer r; error = fails r }

abbrev pub always : Request → Option Error
always r = none

abbrev pub array_a : Client
array_a = array_with always

abbrev pub array_config : PowerStoreArray
array_config = record {
  global_id = "PS1";
  ip = "10.0.0.1";
  nas_name = "nas";
  nfs_acls = "";
  connection = "c1";
}

abbrev pub service : Service
service = record {
  known = record {
    arrays = ("PS1", array_config) ∷ [];
    default_array = some array_config;
    ip_to_array = ("10.0.0.1", "PS1") ∷ [];
  };
  external_access = "";
  nfs_acls = "";
  replication_context_prefix = "";
  replication_prefix = "";
  is_auto_round_off_fs_size_enabled = false;
}

abbrev pub start : World
start = record { history = []; trackers = [] }

abbrev pub handle_of : String → VolumeHandle
handle_of protocol = record {
  local_uuid = "vol";
  local_array_global_id = "PS1";
  remote_uuid = "";
  remote_array_global_id = "";
  protocol = protocol;
}

abbrev pub no_cidr : String → Option String
no_cidr text = some text

pub scsi-IsPrintable : IsPrintable (handle_of "scsi")
unfolding first_ip get_ip_list_from_string
scsi-IsPrintable = record {
  uuid_slash = ground arith;
  uuid_colon = ground arith;
  id_slash = ground arith;
  id_colon = ground arith;
  protocol_slash = ground arith;
  protocol_colon = ground arith;
  remote_slash = tt;
  remote_colon = tt;
  remote_id_slash = tt;
  remote_id_colon = tt;
  id_no_ip = refl;
}

pub nfs-IsPrintable : IsPrintable (handle_of "nfs")
unfolding first_ip get_ip_list_from_string
nfs-IsPrintable = record {
  uuid_slash = ground arith;
  uuid_colon = ground arith;
  id_slash = ground arith;
  id_colon = ground arith;
  protocol_slash = ground arith;
  protocol_colon = ground arith;
  remote_slash = tt;
  remote_colon = tt;
  remote_id_slash = tt;
  remote_id_colon = tt;
  id_no_ip = refl;
}

abbrev pub metro_handle : VolumeHandle
metro_handle = record (handle_of "scsi") { remote_uuid = "rvol"; remote_array_global_id = "PS2" }

pub metro-IsPrintable : IsPrintable metro_handle
unfolding first_ip get_ip_list_from_string
metro-IsPrintable = record {
  uuid_slash = ground arith;
  uuid_colon = ground arith;
  id_slash = ground arith;
  id_colon = ground arith;
  protocol_slash = ground arith;
  protocol_colon = ground arith;
  remote_slash = ground arith;
  remote_colon = ground arith;
  remote_id_slash = ground arith;
  remote_id_colon = ground arith;
  id_no_ip = refl;
}
