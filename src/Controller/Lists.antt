-- ===== src/Controller/Lists.antt =====
-- `ListVolumes` and `ListSnapshots` of pkg/controller/controller.go: the listing of all arrays, and
-- the page of it that a request asks for. An order of the arrays stands for that in which `range`
-- goes through their map.
pub mod Pages
pub mod Laws
pub mod Steady
pub mod Walk
use test_powerstore_automati.Base.{
  ℕ, ◌&&◌, Bool, true, false, Option, none, some, List, [], ◌∷◌, ◌++◌, map, String, ◌<>◌,
  if◌then◌else◌, lookup, is_empty, ◌==◌,
}
use test_powerstore_automati.Base.Int64.{ℤ, ◌-ℤ◌}
use test_powerstore_automati.Outcome.{Outcome, ok, err, panic, says, internal, not_found}
use test_powerstore_automati.Client.{
  Client, Volume, FileSystem, get_volumes, list_fs, get_snapshots, get_fs_snapshots,
  get_fs_snapshot, get_snapshot, get_fs_snapshots_by_volume, get_snapshots_by_volume,
}
use test_powerstore_automati.Client.Monad.{
  M, ret, fail, crash, call, lift, if_error, if_missing, ◌>>=◌,
}
use test_powerstore_automati.Arrays.{PowerStoreArray}
use test_powerstore_automati.Arrays.Handle.{VolumeHandle, parse_volume_id}
use test_powerstore_automati.Controller.{Service}
use test_powerstore_automati.Controller.Snapshots.{
  GeneralSnapshot, of_volume, of_filesystem, CsiSnapshot, reserved_size,
}
use test_powerstore_automati.Controller.Lists.Pages.{
  Page, page, start_token_of, volume_page_limit, snapshot_page_limit,
}

-- `csi.Volume`, as `getCSIVolume` fills it.
pub record CsiVolume : Type 0 where
  pub volume_id : String
  pub capacity_bytes : ℤ

abbrev pub get_csi_volume : String → ℤ → CsiVolume
get_csi_volume volume_id size = record { volume_id = volume_id; capacity_bytes = size }

module _ (c : Client) where
  -- The first loop of `listPowerStoreVolumes`, from the volumes collected so far.
  unfoldable pub collect_volumes : List PowerStoreArray → List CsiVolume → M (List CsiVolume)
  collect_volumes [] so_far = ret so_far
  collect_volumes (arr ∷ arrays) so_far = do
    v ← call c arr.connection get_volumes
    if_error v (λ _. fail internal)
        (λ vols.
          collect_volumes arrays (so_far ++ map (λ vol. get_csi_volume vol.id vol.size) vols))

  unfoldable pub collect_filesystems : List PowerStoreArray → List CsiVolume → M (List CsiVolume)
  collect_filesystems [] so_far = ret so_far
  collect_filesystems (arr ∷ arrays) so_far = do
    fs ← call c arr.connection list_fs
    if_error fs (λ _. fail internal)
        (λ found.
          collect_filesystems arrays (so_far ++ map (λ f. get_csi_volume f.id f.size_total) found))

  -- `listPowerStoreVolumes`, with the orders of its two loops.
  unfoldable pub list_power_store_volumes :
      (volume_order filesystem_order : List PowerStoreArray) → ℤ → ℤ → M (Page CsiVolume)
  list_power_store_volumes volume_order filesystem_order start_token max_entries = do
    volumes ← collect_volumes volume_order []
    all ← collect_filesystems filesystem_order volumes
    lift (page volume_page_limit start_token max_entries all)

  unfoldable pub list_volumes :
      (String → Option ℤ)
      → (volume_order filesystem_order : List PowerStoreArray) → String
      → ℤ
      → M (Page CsiVolume)
  list_volumes parse_int volume_order filesystem_order token max_entries =
      lift (start_token_of parse_int token) >>= (λ start_token.
        list_power_store_volumes volume_order filesystem_order start_token max_entries)

-- `VolumeSnapshot` and `FilesystemSnapshot` behind the interface, with `GetType`.
pub data Listed : Type 0 where
  block_snapshot filesystem_snapshot : GeneralSnapshot → Listed

-- An entry of the answer: a filesystem snapshot's size is without the reserved size.
abbrev pub snapshot_entry : Listed → CsiSnapshot
snapshot_entry (block_snapshot snap) = record {
  snapshot_id = snap.id;
  source_volume_id = snap.source_id;
  size_bytes = snap.size;
}
snapshot_entry (filesystem_snapshot snap) = record {
  snapshot_id = snap.id;
  source_volume_id = snap.source_id;
  size_bytes = snap.size -ℤ reserved_size;
}

module _ (c : Client) where
  unfoldable pub collect_snapshots : List PowerStoreArray → List Listed → M (List Listed)
  collect_snapshots [] so_far = ret so_far
  collect_snapshots (arr ∷ arrays) so_far = do
    snaps ← call c arr.connection get_snapshots
    if_error snaps (λ _. fail internal)
        (λ found. do
          fs_snaps ← call c arr.connection get_fs_snapshots
          if_error fs_snaps (λ _. fail internal)
              (λ fs_found. collect_snapshots arrays (
                so_far
                ++ (map (λ v. block_snapshot (of_volume v)) found
                    ++ map (λ f. filesystem_snapshot (of_filesystem f)) fs_found))))

  -- `snap.ID + "/" + arrayID + "/" + protocol`
  abbrev pub renamed : VolumeHandle → GeneralSnapshot → GeneralSnapshot
  renamed h snap = record snap {
    id = snap.id <> ("/" <> (h.local_array_global_id <> ("/" <> h.protocol)));
  }

  -- `none` is an empty answer at once, without a page.
  unfoldable pub find_snapshot : PowerStoreArray → VolumeHandle → M (Option (List Listed))
  find_snapshot arr h =
      if h.protocol == "nfs"
      then call c arr.connection (get_fs_snapshot h.local_uuid) >>= (λ snap.
        if_error snap (λ e. if says not_found e then ret none else fail internal)
          (λ f. ret (some (filesystem_snapshot (renamed h (of_filesystem f)) ∷ []))))
      else call c arr.connection (get_snapshot h.local_uuid) >>= (λ snap.
        if_error snap (λ e. if says not_found e then ret none else fail internal)
          (λ v. ret (some (block_snapshot (renamed h (of_volume v)) ∷ []))))

  unfoldable pub snapshots_of_source : PowerStoreArray → VolumeHandle → M (Option (List Listed))
  snapshots_of_source arr h =
      if h.protocol == "nfs"
      then call c arr.connection (get_fs_snapshots_by_volume h.local_uuid) >>= (λ snaps.
        if_error snaps (λ _. fail internal)
          (λ found. ret (some (map (λ f. filesystem_snapshot (of_filesystem f)) found))))
      else call c arr.connection (get_snapshots_by_volume h.local_uuid) >>= (λ snaps.
        if_error snaps (λ _. fail internal)
          (λ found. ret (some (map (λ v. block_snapshot (of_volume v)) found))))

  -- `if err != nil { return []GeneralSnapshot{}, "", nil }`: any error of the parse.
  abbrev pub unless_unparsed :
      {A : Type 0} → Outcome VolumeHandle → (VolumeHandle → M (Option A)) → M (Option A)
  unless_unparsed (ok h) found = found h
  unless_unparsed (err e) found = ret none
  unless_unparsed panic found = crash

  abbrev pub parsed_or_empty :
      {A : Type 0} → M VolumeHandle → (VolumeHandle → M (Option A)) → M (Option A)
  parsed_or_empty parse found w = unless_unparsed (parse w).0 found (parse w).1

  module _ (s : Service) where
    unfoldable pub snapshots_at :
        (PowerStoreArray → VolumeHandle → M (Option (List Listed)))
        → VolumeHandle
        → M (Option (List Listed))
    snapshots_at read h =
        if_missing (lookup h.local_array_global_id s.known.arrays) (fail internal)
          (λ arr. read arr h)

    unfoldable pub gather_snapshots :
        List PowerStoreArray → (snap_id src_id : String) → M (Option (List Listed))
    gather_snapshots order snap_id src_id =
        if is_empty snap_id && is_empty src_id
        then collect_snapshots order [] >>= (λ all. ret (some all))
        else if is_empty snap_id
        then parsed_or_empty (parse_volume_id c s.known src_id none)
            (snapshots_at snapshots_of_source)
        else parsed_or_empty (parse_volume_id c s.known snap_id none) (snapshots_at find_snapshot)

    abbrev pub empty_page : Page Listed
    empty_page = record { entries = []; next_token = "" }

    unfoldable pub list_power_store_snapshots :
        List PowerStoreArray → ℤ → ℤ → (snap_id src_id : String) → M (Page Listed)
    list_power_store_snapshots order start_token max_entries snap_id src_id =
        gather_snapshots order snap_id src_id >>= (λ gathered.
          if_missing gathered (ret empty_page)
            (λ all. lift (page snapshot_page_limit start_token max_entries all)))

    -- An empty page has no token.
    abbrev pub snapshots_response : Page Listed → Page CsiSnapshot
    snapshots_response found = elim found.entries [
      | [] ↦ record { entries = []; next_token = "" }
      | snap ∷ more ↦ record {
        entries = map snapshot_entry (snap ∷ more);
        next_token = found.next_token;
      }
    ]

    unfoldable pub list_snapshots :
        (String → Option ℤ)
        → List PowerStoreArray
        → String
        → ℤ
        → (snap_id src_id : String) → M (Page CsiSnapshot)
    list_snapshots parse_int order token max_entries snap_id src_id =
        lift (start_token_of parse_int token) >>= (λ start_token.
          list_power_store_snapshots order start_token max_entries snap_id src_id
          >>= (λ found. ret (snapshots_response found)))
