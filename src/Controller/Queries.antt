-- ===== src/Controller/Queries.antt =====
-- `ControllerGetVolume` and `ValidateVolumeCapabilities` of pkg/controller/controller.go. A lookup
-- of an unknown array gives a nil pointer, whose field panics. `ready_state` is gopowerstore's name
-- of the state of a volume that is ready.
pub mod Laws
use test_powerstore_automati.Base.{
  Bool, true, false, not, ◌&&◌, Option, none, some, List, [], ◌∷◌, ◌++◌, String, ◌<>◌, ◌==◌,
  if◌then◌else◌, lookup, Dict,
}
use test_powerstore_automati.Outcome.{
  Error, Outcome, ok, err, panic, says, not_found, out_of_range, internal,
}
use test_powerstore_automati.Client.{
  Client, HostVolumeMapping, get_fs, get_nfs_export_by_fs, get_volume, get_host_volume_mapping,
  get_host,
}
use test_powerstore_automati.Client.Monad.{M, ret, fail, crash, call, if_error, if_missing, ◌>>=◌}
use test_powerstore_automati.Arrays.{PowerStoreArray}
use test_powerstore_automati.Arrays.Handle.{
  VolumeHandle, parse_volume_id, VolumeCapability, AccessType, AccessMode, block, mount,
  no_access_type, unknown_mode, single_node_writer, single_node_reader_only, multi_node_reader_only,
  multi_node_single_writer, multi_node_multi_writer, single_node_single_writer,
  single_node_multi_writer, other_mode,
}
use test_powerstore_automati.Controller.{Service}

-- `csi.ControllerGetVolumeResponse`
pub record VolumeStatus : Type 0 where
  pub volume_id : String
  pub published_node_ids : List String
  pub abnormal : Bool
  pub message : String

-- An error of the parse is answered with one code.
abbrev pub caught : {A : Type 0} → Outcome VolumeHandle → M A → (VolumeHandle → M A) → M A
caught (ok h) failed done = done h
caught (err e) failed done = failed
caught panic failed done = crash

abbrev pub parsed_or : {A : Type 0} → M VolumeHandle → M A → (VolumeHandle → M A) → M A
parsed_or parse failed done w = caught (parse w).0 failed done (parse w).1

abbrev pub status_of : String → List String → Bool → String → VolumeStatus
status_of id hosts abnormal message = record {
  volume_id = id;
  published_node_ids = hosts;
  abnormal = abnormal;
  message = message;
}

module _ (c : Client) (connection : String) where
  -- The hosts of the export; a filesystem without an export has none.
  unfoldable pub exported_hosts : String → M (List String)
  exported_hosts fs = do
    nfs_export ← call c connection (get_nfs_export_by_fs fs)
    if_error nfs_export (λ e. if says not_found e then ret [] else fail not_found)
        (λ x. ret (x.ro_hosts ++ x.ro_root_hosts ++ x.rw_hosts ++ x.rw_root_hosts))

  unfoldable pub get_filesystem_status : String → M VolumeStatus
  get_filesystem_status id = do
    fs ← call c connection (get_fs id)
    if_error fs
        (λ e.
          if says not_found e
          then ret (status_of id [] true ("Filesystem " <> (id <> " is not found")))
          else fail not_found)
        (λ found. exported_hosts found.id >>= (λ hosts. ret (status_of id hosts false "")))

  -- `for _, hostMapping := range hostMappings`: a host that is not found is skipped.
  unfoldable pub mapped_hosts : List HostVolumeMapping → List String → M (List String)
  mapped_hosts [] hosts = ret hosts
  mapped_hosts (mapping ∷ mappings) hosts = do
    host ← call c connection (get_host mapping.host_id)
    if_error host (λ e. if says not_found e then mapped_hosts mappings hosts else fail not_found)
        (λ found. mapped_hosts mappings (hosts ++ (found.name ∷ [])))

  unfoldable pub published_hosts : String → M (List String)
  published_hosts id = do
    mappings ← call c connection (get_host_volume_mapping id)
    if_error mappings (λ _. fail not_found) (λ found. mapped_hosts found [])

  unfoldable pub get_volume_status : (ready_state : String) → String → M VolumeStatus
  get_volume_status ready_state id = do
    vol ← call c connection (get_volume id)
    if_error vol
        (λ e.
          if says not_found e
          then ret (status_of id [] true ("Volume " <> (id <> " is not found")))
          else fail not_found)
        (λ found. published_hosts id >>= (λ hosts. ret (
          if found.state == ready_state
          then status_of id hosts false ""
          else status_of id hosts true
              ("Volume " <> (id <> (" is in " <> (found.state <> " state")))))))

module _ (c : Client) (s : Service) where
  unfoldable pub get_volume_parsed : (ready_state : String) → VolumeHandle → M VolumeStatus
  get_volume_parsed ready_state h =
      if_missing (lookup h.local_array_global_id s.known.arrays) crash (λ arr.
        if h.protocol == "nfs"
        then get_filesystem_status c arr.connection h.local_uuid
        else get_volume_status c arr.connection ready_state h.local_uuid)

  unfoldable pub controller_get_volume : (ready_state : String) → String → M VolumeStatus
  controller_get_volume ready_state id =
      parsed_or (parse_volume_id c s.known id none) (fail out_of_range)
        (get_volume_parsed ready_state)

-- `accTypeIsBlock`. An element of the list may be nil.
unfoldable pub acc_type_is_block : List (Option VolumeCapability) → Bool
acc_type_is_block [] = false
acc_type_is_block (none ∷ vcs) = acc_type_is_block vcs
acc_type_is_block (some vc ∷ vcs) = elim vc.access_type [
  | block ↦ true
  | mount fs_type ↦ acc_type_is_block vcs
  | no_access_type ↦ acc_type_is_block vcs
]

-- `checkValidAccessTypes`
unfoldable pub check_valid_access_types : List (Option VolumeCapability) → Bool
check_valid_access_types [] = true
check_valid_access_types (none ∷ vcs) = check_valid_access_types vcs
check_valid_access_types (some vc ∷ vcs) = elim vc.access_type [
  | block ↦ check_valid_access_types vcs
  | mount fs_type ↦ check_valid_access_types vcs
  | no_access_type ↦ false
]

-- The `switch` on an access mode, which leaves `supported` or clears it.
abbrev pub after_mode : (is_block : Bool) → AccessMode → Bool → Bool
after_mode is_block unknown_mode supported = false
after_mode is_block single_node_writer supported = supported
after_mode is_block single_node_single_writer supported = supported
after_mode is_block single_node_multi_writer supported = supported
after_mode is_block single_node_reader_only supported = supported
after_mode is_block multi_node_reader_only supported = supported
after_mode is_block multi_node_single_writer supported = if not is_block then false else supported
after_mode is_block multi_node_multi_writer supported = if not is_block then false else supported
after_mode is_block other_mode supported = false

-- `am := vc.GetAccessMode(); if am == nil { continue }`, which is nil for a nil capability.
abbrev pub mode_of : Option VolumeCapability → Option AccessMode
mode_of none = none
mode_of (some vc) = vc.access_mode

unfoldable pub all_supported : (is_block : Bool) → List (Option VolumeCapability) → Bool → Bool
all_supported is_block [] supported = supported
all_supported is_block (vc ∷ vcs) supported = elim (mode_of vc) [
  | none ↦ all_supported is_block vcs supported
  | some mode ↦ all_supported is_block vcs (after_mode is_block mode supported)
]

-- The request, whose context and parameters are given back in the confirmation.
pub record ValidateRequest : Type 0 where
  pub volume_id : String
  pub volume_context : Dict String
  pub volume_capabilities : List (Option VolumeCapability)
  pub parameters : Dict String

pub record Confirmed : Type 0 where
  pub volume_context : Dict String
  pub volume_capabilities : List (Option VolumeCapability)
  pub parameters : Dict String

abbrev pub confirmed : ValidateRequest → Confirmed
confirmed req = record {
  volume_context = req.volume_context;
  volume_capabilities = req.volume_capabilities;
  parameters = req.parameters;
}

module _ (c : Client) (s : Service) where
  -- The volume is asked for; `done` is what comes after it was found.
  unfoldable pub require_volume : {A : Type 0} → VolumeHandle → M A → M A
  require_volume h done = if_missing (lookup h.local_array_global_id s.known.arrays) crash (λ arr.
      if h.protocol == "nfs"
      then call c arr.connection (get_fs h.local_uuid)
        >>= (λ found. if_error found (λ _. fail not_found) (λ _. done))
      else call c arr.connection (get_volume h.local_uuid)
        >>= (λ found. if_error found (λ _. fail not_found) (λ _. done)))

  unfoldable pub validate_volume_capabilities : ValidateRequest → M Confirmed
  validate_volume_capabilities req =
      let vcs = req.volume_capabilities in
      let supported = all_supported (acc_type_is_block vcs) vcs true in
      if not (check_valid_access_types vcs)
      then fail internal
      else parsed_or (parse_volume_id c s.known req.volume_id none) (fail not_found)
          (λ h. require_volume h (if supported then ret (confirmed req) else fail internal))
