-- ===== src/Controller/Snapshots/Removed.antt =====
-- What `DeleteSnapshot` has done when it answers without an error.
use test_powerstore_automati.Base.{
  true, false, ◌≡◌, ◌≢◌, refl, sym, none, some, ◌∷◌, Option, String, ◌==◌, arith, Option-cases,
  Bool-cases, inl, inr, ◌⊎◌, lookup, is_empty,
}
use test_powerstore_automati.Outcome.{Outcome, Error, ok, err, panic, says, not_found}
use test_powerstore_automati.Client.{
  Client, VolumeGroup, Event, History, Request, get_snapshot, get_fs_snapshot,
  get_volume_groups_by_volume, delete_volume_group, delete_snapshot, delete_fs_snapshot,
}
use test_powerstore_automati.Client.Monad.{World, asked}
use test_powerstore_automati.Client.Results.{ok_injective, err-≢}
use test_powerstore_automati.Arrays.{PowerStoreArray}
use test_powerstore_automati.Arrays.Handle.{VolumeHandle, parse_volume_id}
use test_powerstore_automati.Controller.{Service}
use test_powerstore_automati.Controller.Delete.{parsed_or_gone}
use test_powerstore_automati.Controller.Delete.Result.{is_gone, is_missing}
use test_powerstore_automati.Controller.Snapshots.{
  DeleteSnapshotResponse, empty_response, nil_response, group_of, delete_fs_snap, delete_one_snap,
  delete_with_group, delete_block_snap, delete_parsed_snap, delete_snapshot_request,
}

abbrev event : String → Request → Event
event connection r = record { connection = connection; request = r }

module _ (c : Client) (connection id : String) where
  -- The call `r` was the last one, and the array answered it without an error or with "not found".
  abbrev pub Ended : Request → History → History → Type 0
  Ended r before after =
      (after ≡ event connection r ∷ before) × (is_gone (c before connection r).error ≡ true)

  abbrev pub snapshot_read : History → History
  snapshot_read h = event connection (get_snapshot id) ∷ h

  -- The volume groups of the snapshot that was read.
  abbrev pub groups_request : History → Request
  groups_request h = get_volume_groups_by_volume (c h connection (get_snapshot id)).value.id

  abbrev pub groups_read : History → History
  groups_read h = event connection (groups_request h) ∷ snapshot_read h

  abbrev pub first_group : History → Option VolumeGroup
  first_group h = group_of c connection (
      c (snapshot_read h) connection
        (get_volume_groups_by_volume (c h connection (get_snapshot id)).value.id))

  -- The group of the snapshot was deleted, or the snapshot alone: without a group, or after the
  -- deletion of the group failed.
  abbrev pub RemovedWith : Option VolumeGroup → History → History → Type 0
  RemovedWith none before after = Ended (delete_snapshot id) before after
  RemovedWith (some group) before after =
      ((after ≡ event connection (delete_volume_group group.id) ∷ before)
        × ((c before connection (delete_volume_group group.id)).error ≡ none))
      ⊎ (((c before connection (delete_volume_group group.id)).error ≢ none)
          × Ended (delete_snapshot id) (event connection (delete_volume_group group.id) ∷ before)
              after)

  abbrev pub RemovedBlock : DeleteSnapshotResponse → History → History → Type 0
  RemovedBlock nil_response h after =
      ((c h connection (get_snapshot id)).error ≢ none) × (after ≡ snapshot_read h)
  RemovedBlock empty_response h after =
      ((c h connection (get_snapshot id)).error ≡ none)
      × RemovedWith (first_group h) (groups_read h) after

  abbrev pub RemovedFs : DeleteSnapshotResponse → History → History → Type 0
  RemovedFs nil_response h after = ⊥
  RemovedFs empty_response h after =
      ((is_missing (c h connection (get_fs_snapshot id)).error ≡ true)
        × (after ≡ event connection (get_fs_snapshot id) ∷ h))
      ⊎ (((c h connection (get_fs_snapshot id)).error ≡ none)
          × Ended (delete_fs_snapshot id) (event connection (get_fs_snapshot id) ∷ h) after)

  delete_one_snap-Ended :
      (r : DeleteSnapshotResponse) (w : World)
      → (delete_one_snap c connection id w).0 ≡ ok r
      → (r ≡ empty_response)
        × Ended (delete_snapshot id) w.history (delete_one_snap c connection id w).1.history
  unfolding delete_one_snap
  delete_one_snap-Ended r w e = (ground arith, (ground arith, ground arith))

  delete_with_group-Removed :
      (group : Option VolumeGroup) (r : DeleteSnapshotResponse) (w : World)
      → (delete_with_group c connection id group w).0 ≡ ok r
      → (r ≡ empty_response)
        × RemovedWith group w.history (delete_with_group c connection id group w).1.history
  unfolding delete_with_group
  delete_with_group-Removed none r w e = delete_one_snap-Ended r w e
  delete_with_group-Removed (some group) r w e =
      let deleted = c w.history connection (delete_volume_group group.id) in
      let after = asked connection (delete_volume_group group.id) w in
      elim (Option-cases deleted.error) [
        | inl k ↦ rw k (sym (ok_injective (rw k at e)), inl (refl, refl))
        | inr (x, k) ↦
            let (empty, ended) = delete_one_snap-Ended r after (rw k at e) in
            rw k (empty, inr ((λ n. ground arith), ended))
      ]

  delete_fs_snap-Removed :
      (r : DeleteSnapshotResponse) (w : World)
      → (delete_fs_snap c connection id w).0 ≡ ok r
      → RemovedFs r w.history (delete_fs_snap c connection id w).1.history
  unfolding delete_fs_snap
  delete_fs_snap-Removed nil_response w e = ground arith
  delete_fs_snap-Removed empty_response w e =
      elim (Option-cases (c w.history connection (get_fs_snapshot id)).error) [
        | inr (x, k) ↦ elim (Bool-cases (says not_found x)) [
          | inl l ↦ rw (k, l) (inl (refl, refl))
          | inr l ↦ absurd (err-≢ (rw (k, l) at e))
        ]
        | inl k ↦ rw k (inr (refl, (ground arith, ground arith)))
      ]

  nil-Removed :
      (r : DeleteSnapshotResponse) (h : History) (x : Error)
      → (c h connection (get_snapshot id)).error ≡ some x
      → r ≡ nil_response
      → RemovedBlock r h (snapshot_read h)
  nil-Removed nil_response h x k e = ((λ n. ground arith), refl)
  nil-Removed empty_response h x k e = absurd (ground arith)

  empty-Removed :
      (r : DeleteSnapshotResponse) (h after : History)
      → (c h connection (get_snapshot id)).error ≡ none
      → r ≡ empty_response
      → RemovedWith (first_group h) (groups_read h) after
      → RemovedBlock r h after
  empty-Removed empty_response h after k e removed = (k, removed)
  empty-Removed nil_response h after k e removed = absurd (ground arith)

  delete_block_snap-Removed :
      (r : DeleteSnapshotResponse) (w : World)
      → (delete_block_snap c connection id w).0 ≡ ok r
      → RemovedBlock r w.history (delete_block_snap c connection id w).1.history
  unfolding delete_block_snap
  delete_block_snap-Removed r w e =
      let h = w.history in
      let read = asked connection (groups_request h) (asked connection (get_snapshot id) w) in
      elim (Option-cases (c h connection (get_snapshot id)).error) [
        | inr (x, k) ↦ rw k (nil-Removed r h x k (sym (ok_injective (rw k at e))))
        | inl k ↦
            let (empty, removed) = delete_with_group-Removed (first_group h) r read (rw k at e) in
            rw k (empty-Removed r h _ k empty removed)
      ]

module _ (c : Client) (s : Service) where
  -- What was done on the array of a handle, by its protocol.
  abbrev pub Removed : VolumeHandle → DeleteSnapshotResponse → History → History → Type 0
  Removed h r before after =
      (arr : PowerStoreArray) × (lookup h.local_array_global_id s.known.arrays ≡ some arr)
      × (((h.protocol == "nfs" ≡ true) × RemovedFs c arr.connection h.local_uuid r before after)
          ⊎ ((h.protocol == "nfs" ≡ false)
              × RemovedBlock c arr.connection h.local_uuid r before after))

  -- The handle was parsed and its snapshot removed, or it was not found while it was parsed.
  abbrev pub RemovedBy : Outcome VolumeHandle × World → DeleteSnapshotResponse → History → Type 0
  RemovedBy (ok h, w) r after = Removed h r w.history after
  RemovedBy (err x, w) r after =
      (says not_found x ≡ true) × (r ≡ empty_response) × (after ≡ w.history)
  RemovedBy (panic, w) r after = ⊥

  delete_parsed_snap-Removed :
      (h : VolumeHandle) (r : DeleteSnapshotResponse) (w : World)
      → (delete_parsed_snap c s h w).0 ≡ ok r
      → Removed h r w.history (delete_parsed_snap c s h w).1.history
  unfolding delete_parsed_snap
  delete_parsed_snap-Removed h r w e =
      elim (Option-cases (lookup h.local_array_global_id s.known.arrays)) [
        | inl a ↦ absurd (err-≢ (rw a at e))
        | inr (arr, a) ↦ elim (Bool-cases (h.protocol == "nfs")) [
          | inl q ↦
              rw (a, q)
                (
                  arr,
                  refl,
                  inl (
                    refl,
                    delete_fs_snap-Removed c arr.connection h.local_uuid r w (rw (a, q) at e),
                  ),
                )
          | inr q ↦
              rw (a, q)
                (
                  arr,
                  refl,
                  inr (
                    refl,
                    delete_block_snap-Removed c arr.connection h.local_uuid r w (rw (a, q) at e),
                  ),
                )
        ]
      ]

  parsed-Removed :
      (o : Outcome VolumeHandle × World) (r : DeleteSnapshotResponse)
      → (parsed_or_gone empty_response o (delete_parsed_snap c s)).0 ≡ ok r
      → RemovedBy o r (parsed_or_gone empty_response o (delete_parsed_snap c s)).1.history
  parsed-Removed (ok h, w) r e = delete_parsed_snap-Removed h r w e
  parsed-Removed (err x, w) r e = elim (Bool-cases (says not_found x)) [
    | inl k ↦ rw k (refl, sym (ok_injective (rw k at e)), refl)
    | inr k ↦ absurd (err-≢ (rw k at e))
  ]
  parsed-Removed (panic, w) r e = ground arith

  -- If `DeleteSnapshot` answers without an error, then, if its handle was parsed, the array of the
  -- handle is known, and the calls behind that were these. For a filesystem: the snapshot was not
  -- found, or it was read and its deletion was answered without an error or as not found; the answer
  -- is an empty response. For a volume: the snapshot could not be read, for any reason, and the answer
  -- is a nil response; or it was read, then its groups were read, and either the deletion of the first
  -- group was answered without an error, or, without a group or after that deletion failed, the
  -- deletion of the snapshot without an error or as not found, and the answer is an empty response. If
  -- the parsing ended as not found, the answer is an empty response too, and nothing more was asked.
  pub delete_snapshot_request-Removed :
      (id : String) (r : DeleteSnapshotResponse) (w : World)
      → (delete_snapshot_request c s id w).0 ≡ ok r
      → RemovedBy
          (parse_volume_id c s.known id none w)
          r
          (delete_snapshot_request c s id w).1.history
  unfolding delete_snapshot_request
  delete_snapshot_request-Removed id r w e = elim (Bool-cases (is_empty id)) [
    | inl n ↦ absurd (err-≢ (rw n at e))
    | inr n ↦ rw n (parsed-Removed (parse_volume_id c s.known id none w) r (rw n at e))
  ]
