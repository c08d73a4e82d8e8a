-- ===== src/Controller/Snapshots/Absent.antt =====
-- When `CreateSnapshot` makes a snapshot.
use test_powerstore_automati.Base.{
  Bool, true, false, ◌≡◌, ◌≢◌, refl, none, some, ◌∷◌, String, ◌==◌, arith, Option-cases, inl, inr,
  lookup, Option,
}
use test_powerstore_automati.Base.Int64.{ℤ}
use test_powerstore_automati.Client.{
  Client, get_volume_by_name, get_fs_by_name, create_snapshot, create_fs_snapshot, Event, History,
  Request,
}
use test_powerstore_automati.Client.Monad.{World, asked, ret}
use test_powerstore_automati.Client.Invariants.{Keeps, Guarded, continue-Guarded}
use test_powerstore_automati.Arrays.Handle.{VolumeHandle, parse_volume_id}
use test_powerstore_automati.Arrays.Handle.Calls.{LetsRead, parse_volume_id-Keeps}
use test_powerstore_automati.Size.{volume_name_validation}
use test_powerstore_automati.Controller.{Service}
use test_powerstore_automati.Controller.Snapshots.{
  GeneralSnapshot, get_existing_snapshot, create_at_source, source_size, create_new, use_or_create,
  find_or_create, with_handle, snapshot_source, snapshot_parsed, create_of_source,
  create_snapshot_request,
}

abbrev event : String → Request → Event
event connection r = record { connection = connection; request = r }

module _ (c : Client) where
  abbrev CreationGuard : String → Request → History → Type 0
  CreationGuard connection (create_snapshot name source) h =
      (before : History) × (h ≡ event connection (get_volume_by_name name) ∷ before)
      × ((c before connection (get_volume_by_name name)).error ≢ none)
  CreationGuard connection (create_fs_snapshot name source) h =
      (before : History) × (h ≡ event connection (get_fs_by_name name) ∷ before)
      × ((c before connection (get_fs_by_name name)).error ≢ none)
  CreationGuard connection _ h = Unit

  -- A snapshot is created right after the array was asked for its name, and did not answer one.
  abbrev pub CreatesAbsent : Event → History → Type 0
  CreatesAbsent e h = CreationGuard e.connection e.request h

  abbrev Safe : World → Type 0
  Safe w = Guarded CreatesAbsent w.history

  module _ (connection name id : String) where
    abbrev named : Bool → Request
    named true = get_fs_by_name name
    named false = get_volume_by_name name

    abbrev Failed : Bool → World → Type 0
    Failed true w = (c w.history connection (get_fs_by_name name)).error ≢ none
    Failed false w = (c w.history connection (get_volume_by_name name)).error ≢ none

    create_new-Safe :
        (nfs : Bool) (size : ℤ) (w : World)
        → Safe w
        → Failed nfs w
        → Safe (create_new c connection nfs name id size (asked connection (named nfs) w)).1
    unfolding create_new create_at_source get_existing_snapshot
    create_new-Safe true size w g f = ground arith
    create_new-Safe false size w g f = ground arith

    use_or_create-Safe :
        (nfs : Bool) (size : ℤ) (w : World)
        → Safe w
        → (existing : Option GeneralSnapshot) → (existing ≡ none → Failed nfs w)
        → Safe
            (use_or_create c connection nfs name id size existing
              (asked connection (named nfs) w)).1
    unfolding use_or_create
    use_or_create-Safe nfs size w g none f = create_new-Safe nfs size w g (f refl)
    use_or_create-Safe true size w g (some x) f = ground arith
    use_or_create-Safe false size w g (some x) f = ground arith

    find_or_create-Keeps :
        (nfs : Bool) (size : ℤ) → Keeps CreatesAbsent (find_or_create c connection nfs name id size)
    unfolding find_or_create get_existing_snapshot
    find_or_create-Keeps true size w g =
        elim (Option-cases (c w.history connection (get_fs_by_name name)).error) [
          | inl e ↦ rw e (use_or_create-Safe true size w g _ (λ n. absurd (ground arith)))
          | inr (x, e) ↦ rw e (use_or_create-Safe true size w g none (λ n k. ground arith))
        ]
    find_or_create-Keeps false size w g =
        elim (Option-cases (c w.history connection (get_volume_by_name name)).error) [
          | inl e ↦ rw e (use_or_create-Safe false size w g _ (λ n. absurd (ground arith)))
          | inr (x, e) ↦ rw e (use_or_create-Safe false size w g none (λ n k. ground arith))
        ]

    source_size-Keeps : (nfs : Bool) → Keeps CreatesAbsent (source_size c connection nfs id)
    unfolding source_size
    source_size-Keeps true w g = ground arith
    source_size-Keeps false w g = ground arith

    snapshot_source-Keeps :
        (nfs : Bool) → Keeps CreatesAbsent (snapshot_source c connection nfs name id)
    unfolding snapshot_source
    snapshot_source-Keeps nfs w g =
        let sized = source_size c connection nfs id w in
        continue-Guarded CreatesAbsent sized (find_or_create c connection nfs name id)
          (source_size-Keeps nfs w g)
          (λ size. find_or_create-Keeps nfs size sized.1 (source_size-Keeps nfs w g))

  module _ (s : Service) (name : String) where
    snapshot_parsed-Keeps : (h : VolumeHandle) → Keeps CreatesAbsent (snapshot_parsed c s name h)
    unfolding snapshot_parsed
    snapshot_parsed-Keeps h w g =
        elim (Option-cases (lookup h.local_array_global_id s.known.arrays)) [
          | inl e ↦ rw e g
          | inr (arr, e) ↦
              let made =
                snapshot_source c arr.connection (h.protocol == "nfs") name h.local_uuid w in
              let kept =
                snapshot_source-Keeps arr.connection name h.local_uuid (h.protocol == "nfs") w g in
              rw e (
                continue-Guarded CreatesAbsent made (λ snap. ret (with_handle h snap)) kept
                  (λ _. kept))
        ]

    reads : LetsRead CreatesAbsent
    reads = record { reads_volume = λ k id h. tt; reads_fs = λ k id h. tt }

    create_of_source-Keeps :
        (source : String) → Keeps CreatesAbsent (create_of_source c s name source)
    unfolding create_of_source
    create_of_source-Keeps source w g =
        let parsed = parse_volume_id c s.known source none w in
        let kept = parse_volume_id-Keeps c s.known none CreatesAbsent reads source w g in
        let made =
          continue-Guarded CreatesAbsent parsed (snapshot_parsed c s name) kept
            (λ h. snapshot_parsed-Keeps h parsed.1 kept) in
        ground (arith, made)

    -- Whatever the array answers, `CreateSnapshot` asks for a snapshot only right after it asked
    -- for the volume or filesystem of the snapshot's name and got an error. The calls before the
    -- handler's are taken to be such.
    pub create_snapshot_request-Keeps :
        (source : String) (w : World)
        → Guarded CreatesAbsent w.history
        → Guarded CreatesAbsent (create_snapshot_request c s name source w).1.history
    unfolding create_snapshot_request
    create_snapshot_request-Keeps source w g =
        continue-Guarded CreatesAbsent (volume_name_validation name, w)
          (λ _. create_of_source c s name source) g (λ _. create_of_source-Keeps source w g)
