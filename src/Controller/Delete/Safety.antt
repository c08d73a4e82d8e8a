-- ===== src/Controller/Delete/Safety.antt =====
-- A volume or filesystem is deleted only right after the array has listed no snapshots of it.
use mathlib.Core.Logic.{inl, inr}
use test_powerstore_automati.Base.{
  ◌≡◌, ap, ◌⊎◌, true, none, Option, List, [], ◌∷◌, String, arith, lookup, Option-cases,
}
use test_powerstore_automati.Client.{
  Client, Event, History, Request, Reply, Volume, VolumeGroup, NfsExport, get_snapshots_by_volume,
  get_fs_snapshots_by_volume, get_volume, delete_volume, delete_fs, end_metro_volume,
  get_volume_groups_by_volume, remove_members, get_nfs_export_by_fs, modify_nfs_export,
  NfsExportModify,
}
use test_powerstore_automati.Client.Monad.{World, asked, ◌>>=◌}
use test_powerstore_automati.Client.Invariants.{Guarded}
use test_powerstore_automati.Outcome.{Outcome, ok, err, panic}
use test_powerstore_automati.Arrays.Handle.Calls.{LetsRead, parse_volume_id-Keeps}
use test_powerstore_automati.Arrays.Handle.{VolumeHandle, parse_volume_id}
use test_powerstore_automati.Controller.{Service}
use test_powerstore_automati.Controller.Delete.{
  leave_group, drop_policy, end_metro, remove_volume, delete_unless_snapped, delete_scsi,
  release_export, remove_fs, delete_nfs, parsed_or_gone, remove_access, revoke_access,
  delete_by_protocol, delete_parsed, delete_volume_request,
}

abbrev event : String → Request → Event
event connection r = record { connection = connection; request = r }

-- The reply is an empty list, without an error.
abbrev pub AnswersNone : {A : Type 0} → Reply (List A) → Type 0
AnswersNone r = (r.error ≡ none) × (r.value ≡ [])

module _ (c : Client) where
  -- The array has answered, without an error, that there are no snapshots of the volume; since
  -- then the volume was read and perhaps its metro session ended.
  abbrev pub Unsnapped : String → String → History → Type 0
  Unsnapped connection id h =
      (before : History) × AnswersNone (c before connection (get_snapshots_by_volume id))
      × ((h
            ≡ event connection (get_volume id)
              ∷ event connection (get_snapshots_by_volume id)
              ∷ before)
          ⊎ (h
              ≡ event connection (end_metro_volume id true)
                ∷ event connection (get_volume id)
                ∷ event connection (get_snapshots_by_volume id)
                ∷ before))

  -- The same for a filesystem; since then its export was read and perhaps changed.
  abbrev pub UnsnappedFs : String → String → History → Type 0
  UnsnappedFs connection id h =
      (before : History) × AnswersNone (c before connection (get_fs_snapshots_by_volume id))
      × ((h
            ≡ event connection (get_nfs_export_by_fs id)
              ∷ event connection (get_fs_snapshots_by_volume id)
              ∷ before)
          ⊎ ((change : NfsExportModify) × (export : String) × (h
                ≡ event connection (modify_nfs_export change export)
                  ∷ event connection (get_nfs_export_by_fs id)
                  ∷ event connection (get_fs_snapshots_by_volume id)
                  ∷ before)))

  abbrev DeletionGuard : String → Request → History → Type 0
  DeletionGuard connection (delete_volume id) h = Unsnapped connection id h
  DeletionGuard connection (delete_fs id) h = UnsnappedFs connection id h
  DeletionGuard connection _ h = Unit

  -- The condition on the calls before a call.
  abbrev pub DeletesUnsnapped : Event → History → Type 0
  DeletesUnsnapped e h = DeletionGuard e.connection e.request h

  abbrev Safe : World → Type 0
  Safe w = Guarded DeletesUnsnapped w.history

  module _ (connection : String) (id : String) where
    remove_volume-Safe :
        (w : World)
        → Unsnapped connection id w.history
        → Safe w
        → Safe (remove_volume c connection id w).1
    unfolding remove_volume
    remove_volume-Safe w u s = ground arith

    finish-Safe :
        (volume : Volume) (before : History) (w : World)
        → AnswersNone (c before connection (get_snapshots_by_volume id))
        → w.history
          ≡ event connection (get_volume id)
            ∷ event connection (get_snapshots_by_volume id)
            ∷ before
        → Safe w
        → Safe ((end_metro c connection volume id >>= λ _. remove_volume c connection id) w).1
    unfolding end_metro
    finish-Safe volume before w r e s = ground (
      arith,
      remove_volume-Safe w (before, r, inl e),
      remove_volume-Safe (asked connection (end_metro_volume id true) w)
          (before, r, inr (ap (λ h. event connection (end_metro_volume id true) ∷ h) e)),
    )

    delete_unless_snapped-Safe :
        (w : World) → Safe w → Safe (delete_unless_snapped c connection id w).1
    unfolding delete_unless_snapped
    delete_unless_snapped-Safe w s =
        let listed = asked connection (get_snapshots_by_volume id) w in
        let found = c listed.history connection (get_volume id) in
        ground (arith, finish-Safe found.value w.history (asked connection (get_volume id) listed))

    drop_policy-Safe : (w : World) → Safe w → Safe (drop_policy c connection id w).1
    unfolding drop_policy
    drop_policy-Safe w s = ground arith

    leave_group-Safe :
        (groups : List VolumeGroup) (w : World)
        → Safe w
        → Safe (leave_group c connection id groups w).1
    unfolding leave_group
    leave_group-Safe [] w s = s
    leave_group-Safe (g ∷ gs) w s =
        ground (arith, drop_policy-Safe (asked connection (remove_members (id ∷ []) g.id) w))

    delete_scsi-Safe : (w : World) → Safe w → Safe (delete_scsi c connection id w).1
    unfolding delete_scsi
    delete_scsi-Safe w s =
        let listed = asked connection (get_volume_groups_by_volume id) w in
        let groups = (c w.history connection (get_volume_groups_by_volume id)).value in
        ground (
          arith,
          leave_group-Safe groups listed,
          delete_unless_snapped-Safe (leave_group c connection id groups listed).1,
        )

  module _ (parse_cidr : String → Option String) (s : Service) where
    module _ (connection : String) (id : String) where
      remove_fs-Safe :
          (w : World)
          → UnsnappedFs connection id w.history
          → Safe w
          → Safe (remove_fs c parse_cidr connection id w).1
      unfolding remove_fs
      remove_fs-Safe w u g = ground arith

      module _ (export : NfsExport) (before : History) (w : World)
          (r : AnswersNone (c before connection (get_fs_snapshots_by_volume id)))
          (e : w.history
            ≡ event connection (get_nfs_export_by_fs id)
              ∷ event connection (get_fs_snapshots_by_volume id)
              ∷ before)
          (g : Safe w) where
        revoke_access-Safe :
            (access : String)
            → Safe
                ((revoke_access c parse_cidr connection export access >>= λ _.
                    remove_fs c parse_cidr connection id)
                  w).1
        unfolding revoke_access
        revoke_access-Safe access =
            let change = remove_access access export in
            ground (
              arith,
              remove_fs-Safe (asked connection (modify_nfs_export change export.id) w) (
                before,
                r,
                inr (
                  change,
                  export.id,
                  ap (λ h. event connection (modify_nfs_export change export.id) ∷ h) e,
                ),
              ),
            )

        -- Releasing the export makes at most one call, and then the filesystem may be deleted.
        finish_fs-Safe :
            Safe
              ((release_export c parse_cidr s connection export >>= λ _.
                  remove_fs c parse_cidr connection id)
                w).1
        unfolding release_export
        finish_fs-Safe = elim (Option-cases (parse_cidr s.external_access)) [
          | inl n ↦ rw n (ground (arith, remove_fs-Safe w (before, r, inl e)))
          | inr (access, a) ↦
              rw a (ground (arith, remove_fs-Safe w (before, r, inl e), revoke_access-Safe access))
        ]

      delete_nfs-Safe : (w : World) → Safe w → Safe (delete_nfs c parse_cidr s connection id w).1
      unfolding delete_nfs
      delete_nfs-Safe w g =
          let listed = asked connection (get_fs_snapshots_by_volume id) w in
          let found = c listed.history connection (get_nfs_export_by_fs id) in
          ground (
            arith,
            finish_fs-Safe found.value w.history
                (asked connection (get_nfs_export_by_fs id) listed),
          )

    delete_by_protocol-Safe :
        (connection : String) (h : VolumeHandle) (w : World)
        → Safe w
        → Safe (delete_by_protocol c parse_cidr s connection h w).1
    unfolding delete_by_protocol
    delete_by_protocol-Safe connection h w g = ground (
      arith,
      delete_nfs-Safe connection h.local_uuid w g,
      delete_scsi-Safe connection h.local_uuid w g,
    )

    delete_parsed-Safe :
        (h : VolumeHandle) (w : World) → Safe w → Safe (delete_parsed c parse_cidr s h w).1
    unfolding delete_parsed
    delete_parsed-Safe h w g = elim (Option-cases (lookup h.local_array_global_id s.known.arrays)) [
      | inl e ↦ rw e g
      | inr (arr, e) ↦ rw e (delete_by_protocol-Safe arr.connection h w g)
    ]

    gone-Safe :
        (parsed : Outcome VolumeHandle × World)
        → Safe parsed.1
        → Safe (parsed_or_gone tt parsed (delete_parsed c parse_cidr s)).1
    gone-Safe (ok h, w) g = delete_parsed-Safe h w g
    gone-Safe (err e, w) g = ground arith
    gone-Safe (panic, w) g = g

    reads : LetsRead DeletesUnsnapped
    reads = record { reads_volume = λ k id h. tt; reads_fs = λ k id h. tt }

    -- Whatever the array answers, `DeleteVolume` deletes a volume or a filesystem only if the
    -- array has just listed its snapshots, without an error, and there were none: since then the
    -- volume was read and its metro session perhaps ended, or the filesystem's export was read and
    -- perhaps changed. The calls before the handler's are taken to be such.
    pub delete_volume_request-Keeps :
        (id : String) (w : World)
        → Guarded DeletesUnsnapped w.history
        → Guarded DeletesUnsnapped (delete_volume_request c parse_cidr s id w).1.history
    unfolding delete_volume_request
    delete_volume_request-Keeps id w g =
        let parsed = parse_volume_id c s.known id none w in
        ground (
          arith,
          parse_volume_id-Keeps c s.known none DeletesUnsnapped reads id w g,
          gone-Safe parsed,
        )
