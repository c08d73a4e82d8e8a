-- ===== src/Controller/Create.antt =====
-- `CreateVolume` of pkg/controller/controller.go: copies of a source, new volumes and filesystems.
pub mod Requests
pub mod Attributes
pub mod Creators
pub mod Prepare
pub mod Grouping
pub mod ServiceTag
pub mod Guard
pub mod Calls
pub mod Plans
pub mod Safety
pub mod Tracking
pub mod Handles
use test_powerstore_automati.Base.{
  Bool, true, false, not, ◌&&◌, ◌||◌, Option, none, some, List, [], ◌∷◌, String, ◌<>◌, Dict, insert,
  ◌==◌, split, if◌then◌else◌,
}
use test_powerstore_automati.Base.Int64.{ℤ}
use test_powerstore_automati.Outcome.{
  Error, status, api, other, says, Outcome, ok, err, panic, Code, invalid_argument, internal,
  not_found, already_exists, resource_exhausted, failed_precondition, volume_name_in_use,
  fs_name_in_use, replication_session_created,
}
use test_powerstore_automati.Cooldown.{mark_failure, reset_failure}
use test_powerstore_automati.Client.{
  Client, RemoteSystem, Reply, configure_metro_volume, get_session_by_resource,
}
use test_powerstore_automati.Client.Monad.{
  World, M, ret, throw, fail, crash, call, if_error, if_missing, ◌>>=◌, ◌>>◌,
}
use test_powerstore_automati.Arrays.{PowerStoreArray}
use test_powerstore_automati.Arrays.Handle.{VolumeHandle, parse_volume_id}
use test_powerstore_automati.Controller.{Service}
use test_powerstore_automati.Controller.Create.Requests.{
  GoText, Topology, Accessibility, ContentSource, from_volume, from_snapshot, from_nothing,
  CreateRequest, CreatedVolume, get_nfs_topology, get_description,
}
use test_powerstore_automati.Controller.Create.Attributes.{HostIoSizes}
use test_powerstore_automati.Controller.Create.Creators.{
  Creator, scsi_creator, nfs_creator, csi_volume, csi_volume_from, check_if_already_exists, create,
  create_volume_from_snapshot_by, clone_by,
}
use test_powerstore_automati.Controller.Create.Prepare.{
  Times, Plan, creator_of, protocol_of, with_arr, update_tracker, prepare,
}
use test_powerstore_automati.Controller.Create.Grouping.{
  Replicated, not_replicated, in_group, metro, replication_enabled, replication_mode,
  prepare_replication,
}
use test_powerstore_automati.Controller.Create.ServiceTag.{get_service_tag}

-- `status.Code(err) == codes.AlreadyExists`
abbrev pub is_already_exists : Error → Bool
is_already_exists (status already_exists) = true
is_already_exists (status code) = false
is_already_exists (api e) = false
is_already_exists (other m) = false

-- The topology of the answer: an NFS volume's names its array only.
abbrev pub topology_of : Plan → Option Accessibility → PowerStoreArray → List Topology
topology_of plan accessibility arr =
    if plan.use_nfs
    then get_nfs_topology arr.ip
    else elim accessibility [ none ↦ [] | some a ↦ a.preferred ]

-- `volumeHandle.LocalUUID` beside an error of `ParseVolumeID`: the first part of the handle.
abbrev pub first_part : String → String
first_part raw = elim (split b':' raw) [ [] ↦ "" | uuid ∷ more ↦ uuid ]

-- The id of a source: only an error that says it is not found ends the request.
abbrev pub source_id_of : {A : Type 0} → String → Outcome VolumeHandle → (String → M A) → M A
source_id_of raw (ok h) next = next h.local_uuid
source_id_of raw (err e) next = if says not_found e then fail not_found else next (first_part raw)
source_id_of raw panic next = crash

module _ (c : Client) (s : Service) where
  abbrev pub with_source_id : {A : Type 0} → String → (String → M A) → M A
  with_source_id raw next w =
      let (parsed, after) = parse_volume_id c s.known raw none w in
      source_id_of raw parsed next after

  -- The copy, or, after any error, the volume of that name that exists already.
  unfoldable pub after_copy :
      CreateRequest
      → Plan
      → PowerStoreArray
      → ContentSource
      → Outcome CreatedVolume
      → M CreatedVolume
  after_copy req plan arr source (ok volume) = ret volume
  after_copy req plan arr source panic = crash
  after_copy req plan arr source (err e) =
      check_if_already_exists c arr.connection (creator_of plan) req.name plan.size >>= (λ existing.
        ret (record (csi_volume_from existing.volume_id source plan.size) {
          volume_context = req.parameters;
        }))

  unfoldable pub copy_or_find :
      CreateRequest → Plan → PowerStoreArray → ContentSource → M CreatedVolume → M CreatedVolume
  copy_or_find req plan arr source copy w = after_copy req plan arr source (copy w).0 (copy w).1

  -- The handle and the topology of the answer.
  abbrev pub with_handle_of : CreateRequest → Plan → PowerStoreArray → CreatedVolume → CreatedVolume
  with_handle_of req plan arr volume = record volume {
    volume_id = volume.volume_id <> ("/" <> (arr.global_id <> ("/" <> protocol_of plan)));
    accessible_topology = topology_of plan req.accessibility arr;
  }

  -- The copy of a source, with the handle and the topology of the answer.
  unfoldable pub copied_from :
      CreateRequest
      → Plan
      → ContentSource
      → (PowerStoreArray → M CreatedVolume)
      → M (Option CreatedVolume)
  copied_from req plan source copy = with_arr plan.arr (λ arr.
      copy_or_find req plan arr source (copy arr)
      >>= (λ volume. ret (some (with_handle_of req plan arr volume))))

  -- A source without a type gives no volume, and a nil response beside a nil error: `none`.
  unfoldable pub create_from_source :
      CreateRequest → Plan → ContentSource → M (Option CreatedVolume)
  create_from_source req plan (from_volume raw) = with_source_id raw (λ id.
      copied_from req plan (from_volume id)
        (λ arr. clone_by c arr.connection (creator_of plan) id req.name plan.size req.parameters))
  create_from_source req plan (from_snapshot raw) = with_source_id raw (λ id.
      copied_from req plan (from_snapshot id) (λ arr.
        create_volume_from_snapshot_by c arr.connection (creator_of plan) id req.name plan.size
          req.parameters))
  create_from_source req plan from_nothing = ret none

module _ (go : GoText) (sizes : HostIoSizes) (times : Times) (c : Client) where
  -- A failure of NFS is marked in the tracker.
  abbrev pub marked_failure : {A : Type 0} → Plan → PowerStoreArray → M A
  marked_failure plan arr =
      update_tracker arr (mark_failure plan.nas_name times.marking) >> fail resource_exhausted

  -- `CheckIfAlreadyExists` after the name was found in use: of NFS, an error other than that the
  -- size does not fit counts as a failure of the server.
  unfoldable pub after_lookup : Plan → PowerStoreArray → Outcome CreatedVolume → M CreatedVolume
  after_lookup plan arr (ok volume) = ret volume
  after_lookup plan arr panic = crash
  after_lookup plan arr (err e) =
      if plan.use_nfs && not (is_already_exists e) then marked_failure plan arr else throw e

  unfoldable pub find_existing : CreateRequest → Plan → PowerStoreArray → Creator → M CreatedVolume
  find_existing req plan arr creator w =
      let (found, after) = check_if_already_exists c arr.connection creator req.name plan.size w in
      after_lookup plan arr found after

  unfoldable pub creation_failed :
      CreateRequest → Plan → PowerStoreArray → Creator → Error → M CreatedVolume
  creation_failed req plan arr creator e =
      if says volume_name_in_use e || says fs_name_in_use e
      then find_existing req plan arr creator
      else if plan.use_nfs
      then marked_failure plan arr
      else fail internal

  unfoldable pub created :
      CreateRequest → Plan → PowerStoreArray → Creator → Reply String → M CreatedVolume
  created req plan arr creator made = if_error made (creation_failed req plan arr creator) (λ id.
      (if plan.use_nfs then update_tracker arr (reset_failure plan.nas_name) else ret tt)
      >> ret (csi_volume id plan.size))

  -- The remote volume, by the session of the volume.
  unfoldable pub metro_session : PowerStoreArray → RemoteSystem → String → M String
  metro_session arr remote id = do
    found ← call c arr.connection (get_session_by_resource id)
    if_error found (λ _. fail internal)
        (λ rs.
          if go.to_lower rs.resource_type == "volume"
          then ret (":" <> (rs.remote_resource_id <> ("/" <> remote.serial_number)))
          else fail failed_precondition)

  -- Metro of the volume, and what its handle ends in.
  unfoldable pub metro_suffix : PowerStoreArray → RemoteSystem → String → M String
  metro_suffix arr remote id = do
    configured ← call c arr.connection (configure_metro_volume id remote.id)
    if_error configured
        (λ e.
          if says replication_session_created e then metro_session arr remote id else fail internal)
        (λ _. metro_session arr remote id)

  abbrev pub suffix_of : PowerStoreArray → Replicated → String → M String
  suffix_of arr not_replicated id = ret ""
  suffix_of arr (in_group vg) id = ret ""
  suffix_of arr (metro remote) id = metro_suffix arr remote id

  -- The context of the answer: the parameters, and what the node reads.
  unfoldable pub context_of :
      CreateRequest → Plan → PowerStoreArray → String → Dict String → Dict String
  context_of req plan arr service_tag params =
      let common = insert "serviceTag" service_tag (
        insert "Protocol" (protocol_of plan)
          (insert "Name" req.name (insert "arrayID" arr.global_id params))) in
      if plan.use_nfs
      then insert "nasName" plan.nas_name (insert "nfsAcls" plan.nfs_acls common)
      else common

  -- `if c, ok := creator.(*SCSICreator); ok { c.vg = &vg }`
  abbrev pub creator_in : Plan → Replicated → Creator
  creator_in plan not_replicated = creator_of plan
  creator_in plan (in_group vg) =
      if plan.use_nfs then nfs_creator plan.nas_name else scsi_creator (some vg)
  creator_in plan (metro remote) = creator_of plan

  -- The volume that was made or found becomes the answer.
  unfoldable pub answer_for :
      CreateRequest
      → Plan
      → PowerStoreArray
      → Replicated
      → Dict String
      → CreatedVolume
      → M CreatedVolume
  answer_for req plan arr replicated params volume = do
    suffix ← suffix_of arr replicated volume.volume_id
    service_tag ← get_service_tag go c arr.connection params volume.volume_id (protocol_of plan)
    ret (record volume {
      volume_id =
          (volume.volume_id <> ("/" <> (arr.global_id <> ("/" <> protocol_of plan)))) <> suffix;
      volume_context = some (context_of req plan arr service_tag params);
      accessible_topology = topology_of plan req.accessibility arr;
    })

  unfoldable pub create_on :
      CreateRequest → Plan → Replicated → (params : Dict String) → PowerStoreArray → M CreatedVolume
  create_on req plan replicated params arr = do
    made ←
        create c arr.connection go sizes (creator_in plan replicated) req.name plan.size
          (some params)
    volume ← created req plan arr (creator_in plan replicated) made
    answer_for req plan arr replicated params volume

  -- A new volume. Writing the description into a nil map of parameters panics.
  unfoldable pub create_new_volume : CreateRequest → Plan → Replicated → M CreatedVolume
  create_new_volume req plan replicated = if_missing req.parameters crash (λ given.
      with_arr plan.arr (
        create_on req plan replicated
          (insert "csi.dell.com/description" (get_description (some given)) given)))

module _ (go : GoText) (sizes : HostIoSizes) (valid_rpo : String → Bool)
    (sort_slice : (String → String → Bool) → List String → List String) (times : Times) (c : Client)
    (s : Service) where
  unfoldable pub create_sourced :
      CreateRequest → Plan → Option ContentSource → M (Option CreatedVolume)
  create_sourced req plan (some source) =
      if replication_enabled go valid_rpo c s req.parameters
        && replication_mode go valid_rpo c s req.parameters == "METRO"
      then fail invalid_argument
      else create_from_source c s req plan source
  create_sourced req plan none = do
    replicated ← prepare_replication go valid_rpo c s req.parameters plan.arr plan.use_nfs
    volume ← create_new_volume go sizes times c req plan replicated
    ret (some volume)

  unfoldable pub create_planned : CreateRequest → Plan → M (Option CreatedVolume)
  create_planned req plan = create_sourced req plan req.content_source

  unfoldable pub create_volume_request : CreateRequest → M (Option CreatedVolume)
  create_volume_request req = do plan ← prepare go sort_slice times c s req; create_planned req plan
