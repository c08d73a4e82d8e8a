-- ===== src/Controller/Snapshots.antt =====
-- `CreateSnapshot` and `DeleteSnapshot` of pkg/controller/controller.go, and snapshotter.go. Times
-- of creation are left out. The request types of `VolumeSnapshotter` are the two protocols.
pub mod Origin
pub mod Laws
pub mod Removed
pub mod Absent
use test_powerstore_automati.Base.{
  Bool, true, false, Option, none, some, List, [], ◌∷◌, String, ◌<>◌, lookup, is_empty, ◌==◌,
  if◌then◌else◌,
}
use test_powerstore_automati.Base.Int64.{ℤ, pos, ◌-ℤ◌}
use test_powerstore_automati.Outcome.{
  says, invalid_argument, internal, not_found, already_exists, snapshot_name_in_use,
}
use test_powerstore_automati.Client.{
  Client, Volume, FileSystem, Reply, get_volume_by_name, get_fs_by_name, create_snapshot,
  create_fs_snapshot, get_volume, get_fs, get_fs_snapshot, delete_fs_snapshot, get_snapshot,
  get_volume_groups_by_volume, delete_volume_group, delete_snapshot, VolumeGroup,
}
use test_powerstore_automati.Client.Monad.{
  M, ret, throw, fail, lift, call, ◌>>=◌, continue, if_error, if_missing,
}
use test_powerstore_automati.Arrays.Handle.{VolumeHandle, parse_volume_id}
use test_powerstore_automati.Controller.{Service}
use test_powerstore_automati.Controller.Delete.{catch_not_found}
use test_powerstore_automati.Size.{volume_name_validation}

-- `GeneralSnapshot`: the id, the source's id and the size.
pub record GeneralSnapshot : Type 0 where
  pub id : String
  pub source_id : String
  pub size : ℤ

-- `VolumeSnapshot` and `FilesystemSnapshot`
abbrev pub of_volume : Volume → GeneralSnapshot
of_volume v = record { id = v.id; source_id = v.source_id; size = v.size }

abbrev pub of_filesystem : FileSystem → GeneralSnapshot
of_filesystem f = record { id = f.id; source_id = f.parent_id; size = f.size_total }

-- `csi.Snapshot`, as `getCSISnapshot` fills it.
pub record CsiSnapshot : Type 0 where
  pub snapshot_id : String
  pub source_volume_id : String
  pub size_bytes : ℤ

abbrev pub reserved_size : ℤ
reserved_size = pos 1610612736

-- Both snapshotters, at a protocol that is "nfs" or not.
module _ (c : Client) (connection : String) where
  -- `GetExistingSnapshot`
  unfoldable pub get_existing_snapshot : Bool → String → M (Option GeneralSnapshot)
  get_existing_snapshot true name = do
    found ← call c connection (get_fs_by_name name)
    if_error found (λ _. ret none) (λ f. ret (some (of_filesystem f)))
  get_existing_snapshot false name = do
    found ← call c connection (get_volume_by_name name)
    if_error found (λ _. ret none) (λ v. ret (some (of_volume v)))

  -- `Create`
  unfoldable pub create_at_source : Bool → String → String → M (Reply String)
  create_at_source true name source = call c connection (create_fs_snapshot name source)
  create_at_source false name source = call c connection (create_snapshot name source)

  -- The size of the source, without what a filesystem reserves.
  unfoldable pub source_size : Bool → String → M ℤ
  source_size true id = do
    found ← call c connection (get_fs id)
    if_error found (λ _. fail internal) (λ f. ret (f.size_total -ℤ reserved_size))
  source_size false id = do
    found ← call c connection (get_volume id)
    if_error found (λ _. fail internal) (λ v. ret v.size)

  abbrev pub of_existing : String → GeneralSnapshot → CsiSnapshot
  of_existing id e = record { snapshot_id = e.id; source_volume_id = id; size_bytes = e.size }

  unfoldable pub create_new : Bool → String → String → ℤ → M CsiSnapshot
  create_new nfs name id size = do
    made ← create_at_source nfs name id
    if_error made
        (λ x.
          if says snapshot_name_in_use x
          then get_existing_snapshot nfs name
            >>= (λ existing. if_missing existing (fail internal) (λ e. ret (of_existing id e)))
          else fail internal)
        (λ snap. ret (record { snapshot_id = snap; source_volume_id = id; size_bytes = size }))

  -- An existing snapshot is answered if it is one of the same source.
  unfoldable pub use_or_create : Bool → String → String → ℤ → Option GeneralSnapshot → M CsiSnapshot
  use_or_create nfs name id size none = create_new nfs name id size
  use_or_create nfs name id size (some e) =
      if e.source_id == id then ret (of_existing id e) else fail already_exists

  unfoldable pub find_or_create : Bool → String → String → ℤ → M CsiSnapshot
  find_or_create nfs name id size = do
    existing ← get_existing_snapshot nfs name
    use_or_create nfs name id size existing

  unfoldable pub snapshot_source : Bool → String → String → M CsiSnapshot
  snapshot_source nfs name id = do size ← source_size nfs id; find_or_create nfs name id size

-- `snapResponse.SnapshotId + "/" + arrayID + "/" + protocol`
abbrev pub with_handle : VolumeHandle → CsiSnapshot → CsiSnapshot
with_handle h snap = record snap {
  snapshot_id = snap.snapshot_id <> ("/" <> (h.local_array_global_id <> ("/" <> h.protocol)));
}

module _ (c : Client) (s : Service) where
  unfoldable pub snapshot_parsed : String → VolumeHandle → M CsiSnapshot
  snapshot_parsed name h =
      if_missing (lookup h.local_array_global_id s.known.arrays) (fail invalid_argument) (λ arr.
        snapshot_source c arr.connection (h.protocol == "nfs") name h.local_uuid
        >>= (λ snap. ret (with_handle h snap)))

  unfoldable pub create_of_source : String → String → M CsiSnapshot
  create_of_source name source =
      if is_empty source
      then fail invalid_argument
      else parse_volume_id c s.known source none >>= snapshot_parsed name

  unfoldable pub create_snapshot_request : String → String → M CsiSnapshot
  create_snapshot_request name source =
      lift (volume_name_validation name) >>= (λ _. create_of_source name source)

-- `&csi.DeleteSnapshotResponse{}`, or a nil response beside a nil error.
pub data DeleteSnapshotResponse : Type 0 where
  empty_response nil_response : DeleteSnapshotResponse

-- `if err == nil { return resp }; if apiError.NotFound() { return resp }; return nil, err`
abbrev pub gone_or_throw : {A : Type 0} → Reply A → M DeleteSnapshotResponse
gone_or_throw reply =
    if_error reply (λ x. if says not_found x then ret empty_response else throw x)
      (λ _. ret empty_response)

module _ (c : Client) (connection : String) where
  unfoldable pub delete_fs_snap : String → M DeleteSnapshotResponse
  delete_fs_snap id = do
    found ← call c connection (get_fs_snapshot id)
    if_error found (λ x. if says not_found x then ret empty_response else throw x)
        (λ _. call c connection (delete_fs_snapshot id) >>= gone_or_throw)

  unfoldable pub delete_one_snap : String → M DeleteSnapshotResponse
  delete_one_snap id = call c connection (delete_snapshot id) >>= gone_or_throw

  -- The first group of the snapshot, if there is one and no error.
  abbrev pub group_of : Reply (List VolumeGroup) → Option VolumeGroup
  group_of r = elim r.error [ some e ↦ none | none ↦ elim r.value [ [] ↦ none | g ∷ gs ↦ some g ] ]

  -- A snapshot of a volume group goes with its group; if that fails it is deleted alone.
  unfoldable pub delete_with_group : String → Option VolumeGroup → M DeleteSnapshotResponse
  delete_with_group id none = delete_one_snap id
  delete_with_group id (some group) = do
    deleted ← call c connection (delete_volume_group group.id)
    if_error deleted (λ _. delete_one_snap id) (λ _. ret empty_response)

  -- If the snapshot cannot be read, the error stays in an inner variable, and the handler returns
  -- the outer one, which is nil.
  unfoldable pub delete_block_snap : String → M DeleteSnapshotResponse
  delete_block_snap id = do
    found ← call c connection (get_snapshot id)
    if_error found (λ _. ret nil_response)
        (λ snap.
          call c connection (get_volume_groups_by_volume snap.id)
          >>= (λ groups. delete_with_group id (group_of groups)))

module _ (c : Client) (s : Service) where
  unfoldable pub delete_parsed_snap : VolumeHandle → M DeleteSnapshotResponse
  delete_parsed_snap h =
      if_missing (lookup h.local_array_global_id s.known.arrays) (fail invalid_argument) (λ arr.
        if h.protocol == "nfs"
        then delete_fs_snap c arr.connection h.local_uuid
        else delete_block_snap c arr.connection h.local_uuid)

  unfoldable pub delete_snapshot_request : String → M DeleteSnapshotResponse
  delete_snapshot_request id =
      if is_empty id
      then fail invalid_argument
      else catch_not_found empty_response (parse_volume_id c s.known id none) delete_parsed_snap
