-- ===== src/Controller/Create/Safety.antt =====
-- `CreateVolume` creates only what its request allows, whatever the arrays answer.
use test_powerstore_automati.Base.{
  Bool, not, none, some, List, Option, String, Dict, arith, Option-cases, Bool-cases, inl, inr,
  lookup, insert, ◌&&◌, ◌||◌, ◌==◌,
}
use test_powerstore_automati.Outcome.{
  volume_name_in_use, fs_name_in_use, says, not_found, Error, ok, err, panic, Outcome,
}
use test_powerstore_automati.Cooldown.{NasCooldown, mark_failure, reset_failure}
use test_powerstore_automati.Client.{
  configure_metro_volume, Client, Event, History, RemoteSystem, Reply,
}
use test_powerstore_automati.Client.Monad.{World, M, asked}
use test_powerstore_automati.Client.Invariants.{
  Keeps, Guarded, continue-Guarded, continue-Guarded_ok, if-Keeps, if_missing-Keeps,
}
use test_powerstore_automati.Arrays.{PowerStoreArray}
use test_powerstore_automati.Arrays.Handle.{VolumeHandle, parse_volume_id}
use test_powerstore_automati.Arrays.Handle.Calls.{LetsRead, parse_volume_id-Keeps}
use test_powerstore_automati.Controller.{Service}
use test_powerstore_automati.Controller.Replication.{with_rp}
use test_powerstore_automati.Controller.Create.Requests.{
  GoText, get_description, find, ContentSource, from_volume, from_snapshot, from_nothing,
  CreateRequest, CreatedVolume,
}
use test_powerstore_automati.Controller.Create.Attributes.{HostIoSizes}
use test_powerstore_automati.Controller.Create.Creators.{
  Creator, create, check_size, check_if_already_exists,
}
use test_powerstore_automati.Controller.Create.Prepare.{
  Times, Plan, creator_of, protocol_of, update_tracker, prepare,
}
use test_powerstore_automati.Controller.Create.Grouping.{
  replication_enabled, replication_mode, rpo_of, rpo_fits, group_name, Replicated, not_replicated,
  in_group, metro, prepare_group, prepare_mode, prepare_replication,
}
use test_powerstore_automati.Controller.Create.ServiceTag.{get_service_tag}
use test_powerstore_automati.Controller.Create.Guard.{
  CreatesChecked, Checked, check_if_already_exists-Keeps, create-Keeps,
  create_volume_from_snapshot_by-Keeps, clone_by-Keeps,
}
use test_powerstore_automati.Controller.Create.{
  is_already_exists, marked_failure, metro_session, suffix_of, create_on, create_sourced,
  copied_from, first_part, after_lookup, after_copy, copy_or_find, create_from_source,
  find_existing, creation_failed, created, metro_suffix, answer_for, creator_in, create_new_volume,
  create_planned, create_volume_request, source_id_of, with_source_id,
}
use test_powerstore_automati.Controller.Create.Calls.{
  Guard, find_or_make_group-Keeps, get_service_tag-Keeps,
}
use test_powerstore_automati.Controller.Create.Plans.{prepare-Plans}

module _ (c : Client) (s : Service) (req : CreateRequest) where
  abbrev G : Event → History → Type 0
  G = Guard c s req

  reads : LetsRead G
  reads = record { reads_volume = λ k id h. tt; reads_fs = λ k id h. tt }

  module _ (plan : Plan)
      (fits : Checked c s.is_auto_round_off_fs_size_enabled req (creator_of plan) plan.size) where
    after_copy-Keeps :
        (arr : PowerStoreArray) (source : ContentSource) (o : Outcome CreatedVolume)
        → Keeps G (after_copy c s req plan arr source o)
    unfolding after_copy
    after_copy-Keeps arr source (ok volume) w g = g
    after_copy-Keeps arr source panic w g = g
    after_copy-Keeps arr source (err e) w g =
        let found =
          check_if_already_exists c arr.connection (creator_of plan) req.name plan.size w in
        let kept =
          check_if_already_exists-Keeps c s.is_auto_round_off_fs_size_enabled req arr.connection
            (creator_of plan) req.name plan.size w g in
        continue-Guarded G found _ kept (λ volume. kept)

    copied_from-Keeps :
        (source : ContentSource) (copy : PowerStoreArray → M CreatedVolume)
        → ((arr : PowerStoreArray) → Keeps G (copy arr))
        → Keeps G (copied_from c s req plan source copy)
    unfolding copied_from copy_or_find after_copy
    copied_from-Keeps source copy kept w g = elim (Option-cases plan.arr) [
      | inl e ↦ rw e g
      | inr (arr, e) ↦
          let made = copy arr w in
          let found = after_copy c s req plan arr source made.0 made.1 in
          let kept1 = after_copy-Keeps arr source made.0 made.1 (kept arr w g) in
          rw e (continue-Guarded G found _ kept1 (λ volume. kept1))
    ]

    source_id_of-Keeps :
        {A : Type 0} (raw : String) (o : Outcome VolumeHandle) (next : String → M A)
        → ((id : String) → Keeps G (next id))
        → Keeps G (source_id_of raw o next)
    source_id_of-Keeps raw (ok h) next kept w g = kept h.local_uuid w g
    source_id_of-Keeps raw (err e) next kept w g = elim (Bool-cases (says not_found e)) [
      | inl f ↦ rw f g
      | inr f ↦ rw f (kept (first_part raw) w g)
    ]
    source_id_of-Keeps raw panic next kept w g = g

    with_source_id-Keeps :
        {A : Type 0} (raw : String) (next : String → M A)
        → ((id : String) → Keeps G (next id))
        → Keeps G (with_source_id c s raw next)
    with_source_id-Keeps raw next kept w g =
        source_id_of-Keeps raw (parse_volume_id c s.known raw none w).0 next kept _
          (parse_volume_id-Keeps c s.known none G reads raw w g)

    from_source-Keeps : (source : ContentSource) → Keeps G (create_from_source c s req plan source)
    unfolding create_from_source
    from_source-Keeps (from_volume raw) = with_source_id-Keeps raw _ (λ id.
        copied_from-Keeps (from_volume id) _ (λ arr.
          clone_by-Keeps c s.is_auto_round_off_fs_size_enabled req arr.connection (creator_of plan)
            id plan.size req.parameters fits))
    from_source-Keeps (from_snapshot raw) = with_source_id-Keeps raw _ (λ id.
        copied_from-Keeps (from_snapshot id) _ (λ arr.
          create_volume_from_snapshot_by-Keeps c s.is_auto_round_off_fs_size_enabled req
            arr.connection (creator_of plan) id plan.size req.parameters fits))
    from_source-Keeps from_nothing = λ w g. g

    update_tracker-Keeps :
        (arr : PowerStoreArray) (change : NasCooldown → NasCooldown)
        → Keeps G (update_tracker arr change)
    update_tracker-Keeps arr change w g = elim (Option-cases (lookup arr.global_id w.trackers)) [
      | inl e ↦ rw e g
      | inr (tracker, e) ↦ rw e g
    ]

    module _ (go : GoText) (sizes : HostIoSizes) (times : Times) (arr : PowerStoreArray) where
      marked_failure-Keeps : Keeps G (marked_failure go sizes times c {A = CreatedVolume} plan arr)
      marked_failure-Keeps w g =
          let kept = update_tracker-Keeps arr (mark_failure plan.nas_name times.marking) w g in
          continue-Guarded G (update_tracker arr (mark_failure plan.nas_name times.marking) w) _
            kept (λ _. kept)

      after_lookup-Keeps :
          (o : Outcome CreatedVolume) → Keeps G (after_lookup go sizes times c plan arr o)
      unfolding after_lookup
      after_lookup-Keeps (ok volume) w g = g
      after_lookup-Keeps panic w g = g
      after_lookup-Keeps (err e) w g =
          elim (Bool-cases (plan.use_nfs && not (is_already_exists e))) [
            | inl f ↦ rw f (marked_failure-Keeps w g)
            | inr f ↦ rw f g
          ]

      creation_failed-Keeps :
          (creator : Creator) (e : Error)
          → Keeps G (creation_failed go sizes times c req plan arr creator e)
      unfolding creation_failed find_existing
      creation_failed-Keeps creator e w g =
          let found = check_if_already_exists c arr.connection creator req.name plan.size w in
          elim (Bool-cases (says volume_name_in_use e || says fs_name_in_use e)) [
            | inl f ↦ rw f (
                after_lookup-Keeps found.0 found.1 (
                  check_if_already_exists-Keeps c s.is_auto_round_off_fs_size_enabled req
                    arr.connection creator req.name plan.size w g))
            | inr f ↦ elim (Bool-cases plan.use_nfs) [
              | inl n ↦ rw (f, n) (marked_failure-Keeps w g)
              | inr n ↦ rw (f, n) g
            ]
          ]

      created-Keeps :
          (creator : Creator) (made : Reply String)
          → Keeps G (created go sizes times c req plan arr creator made)
      unfolding created
      created-Keeps creator made w g = elim (Option-cases made.error) [
        | inr (x, e) ↦ rw e (creation_failed-Keeps creator x w g)
        | inl e ↦ elim (Bool-cases plan.use_nfs) [
          | inl n ↦
              let kept = update_tracker-Keeps arr (reset_failure plan.nas_name) w g in
              rw (e, n)
                (continue-Guarded G (update_tracker arr (reset_failure plan.nas_name) w) _ kept
                  (λ _. kept))
          | inr n ↦ rw (e, n) g
        ]
      ]

      metro_session-Keeps :
          (remote : RemoteSystem) (id : String)
          → Keeps G (metro_session go sizes times c arr remote id)
      unfolding metro_session
      metro_session-Keeps remote id w g = ground arith

      metro_suffix-Keeps :
          (remote : RemoteSystem) (id : String)
          → Keeps G (metro_suffix go sizes times c arr remote id)
      unfolding metro_suffix
      metro_suffix-Keeps remote id w g = ground (
        arith,
        metro_session-Keeps remote id
            (asked arr.connection (configure_metro_volume id remote.id) w),
      )

      suffix_of-Keeps :
          (replicated : Replicated) (id : String)
          → Keeps G (suffix_of go sizes times c arr replicated id)
      suffix_of-Keeps not_replicated id w g = g
      suffix_of-Keeps (in_group vg) id w g = g
      suffix_of-Keeps (metro remote) id w g = metro_suffix-Keeps remote id w g

      answer_for-Keeps :
          (replicated : Replicated) (params : Dict String) (volume : CreatedVolume)
          → Keeps G (answer_for go sizes times c req plan arr replicated params volume)
      unfolding answer_for
      answer_for-Keeps replicated params volume w g =
          let suffix = suffix_of go sizes times c arr replicated volume.volume_id w in
          let kept = suffix_of-Keeps replicated volume.volume_id w g in
          let tagged =
            get_service_tag go c arr.connection params volume.volume_id (protocol_of plan)
              suffix.1 in
          let kept1 =
            get_service_tag-Keeps c s req arr.connection go params volume.volume_id
              (protocol_of plan) suffix.1 kept in
          continue-Guarded G suffix _ kept (λ _. continue-Guarded G tagged _ kept1 (λ _. kept1))

      creator_in-Checked :
          (replicated : Replicated)
          → Checked c s.is_auto_round_off_fs_size_enabled req
              (creator_in go sizes times c plan replicated)
              plan.size
      unfolding check_size
      creator_in-Checked not_replicated = fits
      creator_in-Checked (metro remote) = fits
      creator_in-Checked (in_group vg) = elim (Bool-cases plan.use_nfs) [
        | inl n ↦ rw n (rw n at fits)
        | inr n ↦ rw n (rw n at fits)
      ]

      create_on-Keeps :
          (replicated : Replicated) (params : Dict String)
          → Keeps G (create_on go sizes times c req plan replicated params arr)
      unfolding create_on
      create_on-Keeps replicated params w g =
          let creator = creator_in go sizes times c plan replicated in
          let made = create c arr.connection go sizes creator req.name plan.size (some params) w in
          let kept =
            create-Keeps c s.is_auto_round_off_fs_size_enabled req arr.connection go sizes creator
              plan.size (some params) (creator_in-Checked replicated) w g in
          continue-Guarded G made _ kept (λ reply.
            let volume = created go sizes times c req plan arr creator reply made.1 in
            let kept1 = created-Keeps creator reply made.1 kept in
            continue-Guarded G volume _ kept1
              (λ v. answer_for-Keeps replicated params v volume.1 kept1))

    new_volume-Keeps :
        (go : GoText) (sizes : HostIoSizes) (times : Times) (replicated : Replicated)
        → Keeps G (create_new_volume go sizes times c req plan replicated)
    unfolding create_new_volume
    new_volume-Keeps go sizes times replicated =
        if_missing-Keeps G req.parameters _ _ (λ w g. g)
          (λ given.
            if_missing-Keeps G plan.arr _ _ (λ w g. g)
              (λ arr.
                create_on-Keeps go sizes times arr replicated
                  (insert "csi.dell.com/description" (get_description (some given)) given)))

  module _ (go : GoText) (valid_rpo : String → Bool) where
    prepare_group-Keeps :
        (arr : Option PowerStoreArray) (mode remote : String)
        → Keeps G (prepare_group go valid_rpo c s req.parameters arr mode remote)
    unfolding prepare_group
    prepare_group-Keeps arr mode remote =
        if_missing-Keeps G (find (with_rp s "volumeGroupPrefix") req.parameters) _ _ (λ w g. g)
          (λ vg_prefix.
            if_missing-Keeps G (rpo_of mode (find (with_rp s "rpo") req.parameters)) _ _ (λ w g. g)
              (λ rpo.
                if-Keeps G (not (rpo_fits valid_rpo mode rpo)) _ _ (λ w g. g)
                  (if_missing-Keeps G arr _ _ (λ w g. g)
                    (λ known.
                      find_or_make_group-Keeps c s req known.connection mode
                        (group_name go valid_rpo c s req.parameters vg_prefix remote rpo) remote
                        rpo))))

    prepare_mode-Keeps :
        (arr : Option PowerStoreArray) (mode remote : String)
        → Keeps G (prepare_mode go valid_rpo c s req.parameters arr mode remote)
    unfolding prepare_mode
    prepare_mode-Keeps arr mode remote =
        if-Keeps G (mode == "SYNC" || mode == "ASYNC") _ _
          (λ w g.
            let group = prepare_group go valid_rpo c s req.parameters arr mode remote w in
            let kept = prepare_group-Keeps arr mode remote w g in
            continue-Guarded G group _ kept (λ vg. kept))
          (if-Keeps G (mode == "METRO") _ _
            (if_missing-Keeps G arr _ _ (λ w g. g) (λ known. λ w g. ground arith)) (λ w g. g))

    prepare_replication-Keeps :
        (arr : Option PowerStoreArray) (use_nfs : Bool)
        → Keeps G (prepare_replication go valid_rpo c s req.parameters arr use_nfs)
    unfolding prepare_replication
    prepare_replication-Keeps arr use_nfs =
        if-Keeps G (not (replication_enabled go valid_rpo c s req.parameters)) _ _ (λ w g. g)
          (if-Keeps G use_nfs _ _ (λ w g. g)
            (if_missing-Keeps G (find (with_rp s "remoteSystem") req.parameters) _ _ (λ w g. g)
              (λ remote.
                prepare_mode-Keeps arr (replication_mode go valid_rpo c s req.parameters) remote)))

    module _ (sizes : HostIoSizes) (times : Times)
        (sort_slice : (String → String → Bool) → List String → List String) where
      sourced-Keeps :
          (plan : Plan)
          → Checked c s.is_auto_round_off_fs_size_enabled req (creator_of plan) plan.size
          → (source : Option ContentSource)
          → Keeps G (create_sourced go sizes valid_rpo sort_slice times c s req plan source)
      unfolding create_sourced
      sourced-Keeps plan fits (some source) w g =
          elim (Bool-cases (
            replication_enabled go valid_rpo c s req.parameters
            && replication_mode go valid_rpo c s req.parameters == "METRO")) [
              | inl e ↦ rw e g
              | inr e ↦ rw e (from_source-Keeps plan fits source w g)
            ]
      sourced-Keeps plan fits none w g =
          let replicated =
            prepare_replication go valid_rpo c s req.parameters plan.arr plan.use_nfs w in
          let kept = prepare_replication-Keeps plan.arr plan.use_nfs w g in
          continue-Guarded G replicated _ kept (λ r.
            let made = create_new_volume go sizes times c req plan r replicated.1 in
            let kept1 = new_volume-Keeps plan fits go sizes times r replicated.1 kept in
            continue-Guarded G made _ kept1 (λ _. kept1))

      -- Whatever the arrays answer, `CreateVolume` asks for a volume or a filesystem, new or as a
      -- copy, only under the name of its request, which is not empty and has at most 128
      -- characters, and with the size that `CheckSize` makes of its capacity range (of a new
      -- filesystem with the reserved size added); it asks for a copy only right after it read the
      -- source without an error and with exactly that size; and it deletes nothing: no volume,
      -- filesystem, snapshot, group, policy or rule; nor does it end a metro session, take a volume
      -- out of a group or detach one from a host. The calls before the handler's are taken to be
      -- such.
      pub create_volume_request-Keeps :
          (w : World)
          → Guarded (CreatesChecked c s.is_auto_round_off_fs_size_enabled req) w.history
          → Guarded
              (CreatesChecked c s.is_auto_round_off_fs_size_enabled req)
              (create_volume_request go sizes valid_rpo sort_slice times c s req w).1.history
      unfolding create_volume_request create_planned
      create_volume_request-Keeps w g =
          let prepared = prepare go sort_slice times c s req w in
          let plans = prepare-Plans c s req go sort_slice times in
          let kept = plans.keeps w g in
          continue-Guarded_ok G prepared _ kept (λ plan e.
            sourced-Keeps plan (plans.planned plan w e) req.content_source prepared.1 kept)
