-- ===== src/Tests/Controller.antt =====
-- The handlers of volumes and snapshots on concrete requests.
use test_powerstore_automati.Base.{
  Bool, false, none, some, Option, List, [], ◌≡◌, refl, lookup, split,
}
use test_powerstore_automati.Base.Int64.{pos}
use test_powerstore_automati.Outcome.{Error, ok}
use test_powerstore_automati.Client.{
  Client, Request, TargetAddress, get_volume, get_volume_by_name, get_snapshot, get_fs,
}
use test_powerstore_automati.Client.Invariants.{Guarded}
use test_powerstore_automati.Ip.{first_ip, get_ip_list_from_string}
use test_powerstore_automati.Size.{volume_name_validation}
use test_powerstore_automati.Arrays.Handle.{
  VolumeHandle, block, single_node_writer, parse_volume_id, parse_parts, parse_local, global_id_of,
}
use test_powerstore_automati.Arrays.Handle.RoundTrip.{print_local, print_handle}
use test_powerstore_automati.Controller.Delete.{
  delete_volume_request, delete_parsed, delete_by_protocol, delete_scsi, delete_unless_snapped,
  leave_group, end_metro, remove_volume,
}
use test_powerstore_automati.Controller.Delete.Safety.{
  DeletesUnsnapped, delete_volume_request-Keeps,
}
use test_powerstore_automati.Controller.Delete.Result.{Gone, delete_volume_request-Gone}
use test_powerstore_automati.Controller.Publish.{PublishRequest, controller_publish_volume}
use test_powerstore_automati.Controller.Publish.Attach.{AttachesUnmapped}
use test_powerstore_automati.Controller.Publish.Safety.{controller_publish_volume-Keeps}
use test_powerstore_automati.Controller.Unpublish.{
  controller_unpublish_volume, unpublish_parsed, unpublish_on, unpublish_scsi, find_attached_host,
  detach_volume_from_host, detach_remote,
}
use test_powerstore_automati.Controller.Unpublish.Idempotent.{
  Detached, controller_unpublish_volume-Detached,
}
use test_powerstore_automati.Controller.Expand.{controller_expand_volume, expand_parsed, expand_nfs}
use test_powerstore_automati.Controller.Expand.Laws.{
  OnlyGrows, is_metro_request, controller_expand_volume-Keeps,
}
use test_powerstore_automati.Controller.Expand.Result.{Expanded, controller_expand_volume-Expanded}
use test_powerstore_automati.Controller.Snapshots.{
  create_snapshot_request, create_of_source, snapshot_parsed, snapshot_source, source_size,
  find_or_create, use_or_create, get_existing_snapshot, create_new, create_at_source,
  delete_snapshot_request, delete_parsed_snap, delete_block_snap, nil_response,
}
use test_powerstore_automati.Controller.Snapshots.Absent.{
  CreatesAbsent, create_snapshot_request-Keeps,
}
use test_powerstore_automati.Controller.Snapshots.Laws.{
  Describes, create_snapshot_request-Describes,
}
use test_powerstore_automati.Controller.Snapshots.Removed.{
  RemovedBy, delete_snapshot_request-Removed,
}
use test_powerstore_automati.Tests.{
  array_a, array_with, array_config, metro_handle, volume, service, start, handle_of, no_cidr,
  missing, scsi-IsPrintable,
}

abbrev given_order :
    (TargetAddress → TargetAddress → Bool) → List TargetAddress → List TargetAddress
given_order less targets = targets

delete_volume_request-Keeps_example :
    Guarded
      (DeletesUnsnapped array_a)
      (delete_volume_request array_a no_cidr service "vol/PS1/scsi" start).1.history
delete_volume_request-Keeps_example =
    delete_volume_request-Keeps array_a no_cidr service "vol/PS1/scsi" start tt

abbrev publish_request : PublishRequest
publish_request = record {
  volume_id = "vol/PS1/scsi";
  node_id = "node-1.2.3.4";
  capability = some (record { access_type = block; access_mode = some single_node_writer });
  volume_context = [];
}

controller_publish_volume-Keeps_example :
    Guarded
      (AttachesUnmapped array_a single_node_writer)
      (controller_publish_volume array_a given_order no_cidr no_cidr service publish_request
        start).1.history
controller_publish_volume-Keeps_example =
    controller_publish_volume-Keeps array_a given_order no_cidr no_cidr service publish_request
      start tt

-- The volumes are in a metro session, and its state counts as paused.
abbrev metro_array : Client
metro_array h connection (get_volume id) = record {
  value = record volume { metro_session_id = "session" };
  error = none;
}
metro_array h connection r = array_a h connection r

controller_expand_volume-Keeps_example :
    Guarded
      (OnlyGrows "OK"
        (is_metro_request "OK" metro_array (pos 16384) service (print_handle metro_handle) start)
        metro_array
        (pos 16384))
      (controller_expand_volume "OK" metro_array service
        (pos 16384)
        (print_handle metro_handle)
        start).1.history
controller_expand_volume-Keeps_example =
    controller_expand_volume-Keeps "OK" metro_array (pos 16384) service (print_handle metro_handle)
      start tt

-- No volume has the snapshot's name.
abbrev no_name : Request → Option Error
no_name (get_volume_by_name name) = some missing
no_name _ = none

known-array : lookup "PS1" service.known.arrays ≡ some array_config
unfolding lookup
known-array = refl

deleted :
    (delete_volume_request array_a no_cidr service (print_local (handle_of "scsi")) start).0 ≡ ok tt
unfolding delete_volume_request delete_parsed delete_by_protocol delete_scsi delete_unless_snapped
    leave_group end_metro remove_volume lookup split parse_volume_id parse_parts parse_local
    global_id_of first_ip get_ip_list_from_string
deleted = refl

unpublished :
    (controller_unpublish_volume array_a service (print_local (handle_of "scsi")) "node" start).0
    ≡ ok tt
unfolding controller_unpublish_volume unpublish_parsed unpublish_on unpublish_scsi
    find_attached_host detach_volume_from_host detach_remote lookup split parse_volume_id
    parse_parts parse_local global_id_of first_ip get_ip_list_from_string
unpublished = refl

created :
    (create_snapshot_request
      (array_with no_name)
      service
      "snap"
      (print_local (handle_of "scsi"))
      start).0
    ≡ ok (record { snapshot_id = "snap/PS1/scsi"; source_volume_id = "vol"; size_bytes = pos 8192 })
unfolding create_snapshot_request create_of_source snapshot_parsed snapshot_source source_size
    find_or_create use_or_create get_existing_snapshot create_new create_at_source
    volume_name_validation lookup split parse_volume_id parse_parts parse_local global_id_of
    first_ip get_ip_list_from_string
created = refl

create_snapshot_request-Keeps_example :
    Guarded
      (CreatesAbsent (array_with no_name))
      (create_snapshot_request (array_with no_name) service "snap" "vol/PS1/scsi" start).1.history
create_snapshot_request-Keeps_example =
    create_snapshot_request-Keeps (array_with no_name) service "snap" "vol/PS1/scsi" start tt

create_snapshot_request-Describes_example :
    (h : VolumeHandle) × ((parse_volume_id
        (array_with no_name)
        service.known
        (print_local (handle_of "scsi"))
        none
        start).0
      ≡ ok h)
    × Describes
        (array_with no_name)
        service
        "snap"
        h
        (parse_volume_id
          (array_with no_name)
          service.known
          (print_local (handle_of "scsi"))
          none
          start).1
        (record { snapshot_id = "snap/PS1/scsi"; source_volume_id = "vol"; size_bytes = pos 8192 })
        (create_snapshot_request
          (array_with no_name)
          service
          "snap"
          (print_local (handle_of "scsi"))
          start).1.history
create_snapshot_request-Describes_example =
    create_snapshot_request-Describes (array_with no_name) service "snap"
      (print_local (handle_of "scsi")) start
      (record { snapshot_id = "snap/PS1/scsi"; source_volume_id = "vol"; size_bytes = pos 8192 })
      created

delete_volume_request-Gone_example :
    Gone array_a "c1" "vol"
      (delete_volume_request array_a no_cidr service
        (print_local (handle_of "scsi"))
        start).1.history
delete_volume_request-Gone_example =
    delete_volume_request-Gone array_a no_cidr service (handle_of "scsi") start array_config
      scsi-IsPrintable refl refl refl known-array deleted

controller_unpublish_volume-Detached_example :
    Detached array_a "c1" "vol"
      (controller_unpublish_volume array_a service
        (print_local (handle_of "scsi"))
        "node"
        start).1.history
controller_unpublish_volume-Detached_example =
    controller_unpublish_volume-Detached array_a service "node" (handle_of "scsi") start
      array_config scsi-IsPrintable refl refl refl known-array unpublished

-- The snapshot cannot be read.
abbrev no_snapshot : Request → Option Error
no_snapshot (get_snapshot id) = some missing
no_snapshot _ = none

delete_snapshot_request-Removed_example :
    RemovedBy
      (array_with no_snapshot)
      service
      (parse_volume_id (array_with no_snapshot) service.known "snap/PS1/scsi" none start)
      nil_response
      (delete_snapshot_request (array_with no_snapshot) service "snap/PS1/scsi" start).1.history
unfolding delete_snapshot_request delete_parsed_snap delete_block_snap parse_volume_id parse_parts
    parse_local global_id_of first_ip get_ip_list_from_string split lookup
delete_snapshot_request-Removed_example =
    delete_snapshot_request-Removed (array_with no_snapshot) service "snap/PS1/scsi" nil_response
      start refl

-- The filesystem cannot be read.
abbrev no_fs : Request → Option Error
no_fs (get_fs id) = some missing
no_fs _ = none

controller_expand_volume-Expanded_example :
    (h : VolumeHandle) × ((parse_volume_id
        (array_with no_fs)
        service.known
        "vol/PS1/nfs"
        none
        start).0
      ≡ ok h)
    × Expanded "Paused"
        (array_with no_fs)
        (pos 16384)
        service
        h
        (record { capacity_bytes = pos 16384; node_expansion_required = false })
        (controller_expand_volume "Paused"
          (array_with no_fs)
          service
          (pos 16384)
          "vol/PS1/nfs"
          start).1.history
unfolding controller_expand_volume expand_parsed expand_nfs parse_volume_id parse_parts parse_local
    global_id_of first_ip get_ip_list_from_string split lookup
controller_expand_volume-Expanded_example =
    controller_expand_volume-Expanded "Paused" (array_with no_fs) (pos 16384) service "vol/PS1/nfs"
      (record { capacity_bytes = pos 16384; node_expansion_required = false }) start refl
