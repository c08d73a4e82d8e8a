-- ===== src/Tests/Create.antt =====
-- `CreateVolume` on concrete requests.
use test_powerstore_automati.Base.{
  refl, Bool, true, false, Option, none, some, List, [], ◌∷◌, String, ◌==◌, lookup, insert, erase,
  Dict,
}
use test_powerstore_automati.Base.Int64.{pos}
use test_powerstore_automati.Cooldown.{NasCooldown, new_nas_cooldown}
use test_powerstore_automati.Client.{VolumeGroup, RemoteSystem, Reply}
use test_powerstore_automati.Client.Monad.{World}
use test_powerstore_automati.Client.Invariants.{Guarded}
use test_powerstore_automati.Arrays.Handle.{mount, single_node_writer}
use test_powerstore_automati.Controller.Create.Requests.{GoText, CreateRequest, CreatedVolume}
use test_powerstore_automati.Controller.Create.Attributes.{
  HostIoSizes, set_volume_create_attributes, set_meta_data,
}
use test_powerstore_automati.Controller.Create.ServiceTag.{
  get_service_tag, tag_of_volume, tag_of_appliance,
}
use test_powerstore_automati.Controller.Replication.{with_rp}
use test_powerstore_automati.Controller.Create.Creators.{
  create, create_scsi, is_k8s_metadata_supported, create_with, create_and_reset,
}
use test_powerstore_automati.Controller.Create.Prepare.{Times, Plan}
use test_powerstore_automati.Controller.Create.Grouping.{
  metro, prepare_replication, prepare_mode, prepare_group, rpo_fits, find_or_make_group,
  existing_group, group_name, namespace_part,
}
use test_powerstore_automati.Controller.Create.Guard.{CreatesChecked}
use test_powerstore_automati.Controller.Create.Safety.{create_volume_request-Keeps}
use test_powerstore_automati.Controller.Create.Tracking.{Replicates, prepare_replication-Replicates}
use test_powerstore_automati.Controller.Create.Handles.{Prints, create_on-Prints}
use test_powerstore_automati.Controller.Create.{
  created, create_on, create_volume_request, answer_for, metro_suffix, metro_session, context_of,
}
use test_powerstore_automati.Tests.{array_a, array_config, service, start, missing}

-- Texts of lower-case and upper-case letters that the functions leave alone.
abbrev plain : GoText
plain = record {
  to_upper = λ t. t;
  to_lower = λ t. t;
  equal_fold = λ s t. s == t;
  trim_space = λ t. t;
  parse_bool = λ t. none;
  byte_length = λ t. 0;
  byte_prefix = λ n t. t;
  before = λ s t. t;
}

abbrev sizes : HostIoSizes
sizes = record { vmware_8k = "8K"; vmware_16k = "16K"; vmware_32k = "32K"; vmware_64k = "64K" }

abbrev times : Times
times = record { selecting = 1; falling_back = 2; marking = 3 }

abbrev given : (String → String → Bool) → List String → List String
given less names = names

abbrev request : CreateRequest
request = record {
  name = "csivol";
  required_bytes = pos 8192;
  limit_bytes = pos 0;
  volume_capabilities =
      record { access_type = mount "ext4"; access_mode = some single_node_writer } ∷ [];
  parameters = some (("arrayID", "PS1") ∷ []);
  accessibility = none;
  content_source = none;
}

abbrev any_rpo : String → Bool
any_rpo rpo = true

create_volume_request-Keeps_example :
    Guarded
      (CreatesChecked array_a false request)
      (create_volume_request plain sizes any_rpo given times array_a service request
        start).1.history
create_volume_request-Keeps_example =
    create_volume_request-Keeps array_a service request plain any_rpo sizes times given start tt

abbrev nfs_plan : Plan
nfs_plan = record {
  arr = some array_config;
  use_nfs = true;
  nas_name = "nas";
  nfs_acls = "";
  size = pos 8192;
}

abbrev tracker : NasCooldown
tracker = new_nas_cooldown 50 2

abbrev tracked : World
tracked = record { history = []; trackers = ("PS1", tracker) ∷ [] }

abbrev refused : Reply String
refused = record { value = ""; error = some missing }

abbrev replicated_parameters : Option (Dict String)
replicated_parameters = some (
    ("replication.storage.dell.com/isReplicationEnabled", "true")
    ∷ ("replication.storage.dell.com/mode", "SYNC")
    ∷ ("replication.storage.dell.com/remoteSystem", "remote")
    ∷ ("replication.storage.dell.com/volumeGroupPrefix", "csi")
    ∷ [])

abbrev group : VolumeGroup
group = record {
  id = "vg";
  name = "vg";
  protection_policy_id = "pp";
  is_write_order_consistent = true;
  volumes = [];
  creation_timestamp = "";
}

prepare_replication-Replicates_example :
    Replicates plain any_rpo array_a service replicated_parameters false
unfolding prepare_replication prepare_mode prepare_group rpo_fits find_or_make_group existing_group
    with_rp lookup group_name namespace_part
prepare_replication-Replicates_example =
    prepare_replication-Replicates plain any_rpo array_a service replicated_parameters
      (some array_config) false group start refl

abbrev scsi_plan : Plan
scsi_plan = record {
  arr = some array_config;
  use_nfs = false;
  nas_name = "";
  nfs_acls = "";
  size = pos 8192;
}

abbrev remote : RemoteSystem
remote = record {
  id = "rs";
  name = "remote";
  management_address = "10.0.0.2";
  serial_number = "PS2";
}

abbrev made_volume : CreatedVolume
made_volume = record {
  volume_id = "vol/PS1/scsi:r/PS2";
  capacity_bytes = pos 8192;
  volume_context =
      some (
        ("arrayID", "PS1")
        ∷ ("Name", "csivol")
        ∷ ("Protocol", "scsi")
        ∷ ("serviceTag", "TAG")
        ∷ []);
  content_source = none;
  accessible_topology = [];
}

create_on-Prints_example :
    Prints plain sizes times array_a request scsi_plan array_config
      (metro remote)
      []
      start
      "vol/PS1/scsi:r/PS2"
unfolding create_on create create_scsi is_k8s_metadata_supported create_with create_and_reset
    created answer_for metro_suffix metro_session get_service_tag tag_of_volume tag_of_appliance
    context_of insert erase lookup set_volume_create_attributes set_meta_data
create_on-Prints_example =
    create_on-Prints plain sizes times array_a request scsi_plan array_config (metro remote) []
      start made_volume refl
