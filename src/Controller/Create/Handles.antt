-- ===== src/Controller/Create/Handles.antt =====
-- The handle that `CreateVolume` answers for a new volume.
use text.Mathlib.TextLemmas.{append-nil}
use test_powerstore_automati.Base.{
  ◌≡◌, ◌≢◌, ◌⊎◌, none, arith, ◌||◌, ◌&&◌, not, if◌then◌else◌, sym, ap, ◌∙◌, inl, inr, some,
  Option-cases, Bool-cases, String, ◌<>◌, ◌==◌, Dict,
}
use test_powerstore_automati.Cooldown.{reset_failure, mark_failure}
use test_powerstore_automati.Outcome.{
  Error, Outcome, ok, err, panic, resource_exhausted, says, replication_session_created,
  volume_name_in_use, fs_name_in_use,
}
use test_powerstore_automati.Client.{
  Client, History, Reply, ReplicationSession, RemoteSystem, get_volume_by_name, get_fs_by_name,
  configure_metro_volume, get_session_by_resource,
}
use test_powerstore_automati.Client.Monad.{World, asked, ret, fail}
use test_powerstore_automati.Client.Results.{continue-ok, ok_injective, err-≢}
use test_powerstore_automati.Arrays.{PowerStoreArray}
use test_powerstore_automati.Arrays.Handle.{VolumeHandle}
use test_powerstore_automati.Arrays.Handle.RoundTrip.{print_local, print_handle}
use test_powerstore_automati.Controller.Create.Requests.{GoText, CreateRequest, CreatedVolume}
use test_powerstore_automati.Controller.Create.Attributes.{HostIoSizes}
use test_powerstore_automati.Controller.Create.Creators.{
  Creator, scsi_creator, nfs_creator, create, csi_volume, check_if_already_exists,
}
use test_powerstore_automati.Controller.Create.Prepare.{Times, Plan, protocol_of, update_tracker}
use test_powerstore_automati.Controller.Create.Grouping.{
  Replicated, not_replicated, in_group, metro,
}
use test_powerstore_automati.Controller.Create.ServiceTag.{get_service_tag}
use test_powerstore_automati.Controller.Create.{
  marked_failure, after_lookup, find_existing, creation_failed, is_already_exists, metro_session,
  metro_suffix, suffix_of, creator_in, created, answer_for, create_on,
}

module _ (go : GoText) (sizes : HostIoSizes) (times : Times) (c : Client) (req : CreateRequest)
    (plan : Plan) (arr : PowerStoreArray) where
  -- The lookup of the request's name at `h` found the volume or the filesystem `uuid`.
  abbrev pub IsFound : Creator → History → String → Type 0
  IsFound (scsi_creator vg) h uuid =
      ((c h arr.connection (get_volume_by_name req.name)).error ≡ none)
      × ((c h arr.connection (get_volume_by_name req.name)).value.id ≡ uuid)
  IsFound (nfs_creator nas_name) h uuid =
      ((c h arr.connection (get_fs_by_name req.name)).error ≡ none)
      × ((c h arr.connection (get_fs_by_name req.name)).value.id ≡ uuid)

  -- `uuid` is what the array answered to the creation or, after an error, found by the name.
  abbrev pub IsMade : Creator → Reply String → World → String → Type 0
  IsMade creator made w uuid =
      ((made.error ≡ none) × (made.value ≡ uuid))
      ⊎ ((made.error ≢ none) × IsFound creator w.history uuid)

  -- The session of the volume, read right after metro was configured for it.
  abbrev pub session_of : RemoteSystem → String → World → Reply ReplicationSession
  session_of remote uuid w =
      c (asked arr.connection (configure_metro_volume uuid remote.id) w).history arr.connection
        (get_session_by_resource uuid)

  -- The suffix of the handle of a volume that is replicated so.
  abbrev pub Suffix : Replicated → String → World → String → Type 0
  Suffix not_replicated uuid w suffix = suffix ≡ ""
  Suffix (in_group vg) uuid w suffix = suffix ≡ ""
  Suffix (metro remote) uuid w suffix =
      ((session_of remote uuid w).error ≡ none)
      × (suffix
          ≡ ":"
            <> ((session_of remote uuid w).value.remote_resource_id
                <> ("/" <> remote.serial_number)))

  abbrev pub handle_with : String → String → String → VolumeHandle
  handle_with uuid remote_uuid remote_id = record {
    local_uuid = uuid;
    local_array_global_id = arr.global_id;
    remote_uuid = remote_uuid;
    remote_array_global_id = remote_id;
    protocol = protocol_of plan;
  }

  -- The printed handle of the volume `uuid`, created before `w`. A metro one names the remote volume
  -- of its session and the remote system.
  abbrev pub PrintedAt : Replicated → String → World → String → Type 0
  PrintedAt not_replicated uuid w id = id ≡ print_local (handle_with uuid "" "")
  PrintedAt (in_group vg) uuid w id = id ≡ print_local (handle_with uuid "" "")
  PrintedAt (metro remote) uuid w id =
      ((session_of remote uuid w).error ≡ none)
      × (id
          ≡ print_handle (
              handle_with uuid (session_of remote uuid w).value.remote_resource_id
                remote.serial_number))

  metro_session-Suffix :
      (remote : RemoteSystem) (id suffix : String) (w : World)
      → (metro_session go sizes times c arr remote id
          (asked arr.connection (configure_metro_volume id remote.id) w)).0
        ≡ ok suffix
      → Suffix (metro remote) id w suffix
  unfolding metro_session
  metro_session-Suffix remote id suffix w e =
      let found = session_of remote id w in
      elim (Option-cases found.error) [
        | inr (x, k) ↦ absurd (err-≢ (rw k at e))
        | inl k ↦ elim (Bool-cases (go.to_lower found.value.resource_type == "volume")) [
          | inl l ↦ (k, sym (ok_injective (rw (k, l) at e)))
          | inr l ↦ absurd (err-≢ (rw (k, l) at e))
        ]
      ]

  suffix_of-Suffix :
      (replicated : Replicated) (id suffix : String) (w : World)
      → (suffix_of go sizes times c arr replicated id w).0 ≡ ok suffix
      → Suffix replicated id w suffix
  unfolding metro_suffix
  suffix_of-Suffix not_replicated id suffix w e = sym (ok_injective e)
  suffix_of-Suffix (in_group vg) id suffix w e = sym (ok_injective e)
  suffix_of-Suffix (metro remote) id suffix w e =
      let configured = c w.history arr.connection (configure_metro_volume id remote.id) in
      elim (Option-cases configured.error) [
        | inl k ↦ metro_session-Suffix remote id suffix w (rw k at e)
        | inr (x, k) ↦ elim (Bool-cases (says replication_session_created x)) [
          | inl l ↦ metro_session-Suffix remote id suffix w (rw (k, l) at e)
          | inr l ↦ absurd (err-≢ (rw (k, l) at e))
        ]
      ]

  unsuffixed :
      (uuid suffix id : String)
      → suffix ≡ ""
      → id ≡ print_local (handle_with uuid "" "") <> suffix
      → id ≡ print_local (handle_with uuid "" "")
  unsuffixed uuid suffix id q e =
      e
      ∙ (ap (λ t. print_local (handle_with uuid "" "") <> t) q
          ∙ append-nil (print_local (handle_with uuid "" "")))

  suffixed-PrintedAt :
      (replicated : Replicated) (uuid suffix id : String) (w : World)
      → Suffix replicated uuid w suffix
      → id ≡ print_local (handle_with uuid "" "") <> suffix
      → PrintedAt replicated uuid w id
  suffixed-PrintedAt not_replicated uuid suffix id w q e = unsuffixed uuid suffix id q e
  suffixed-PrintedAt (in_group vg) uuid suffix id w q e = unsuffixed uuid suffix id q e
  suffixed-PrintedAt (metro remote) uuid suffix id w (k, q) e =
      (k, e ∙ ap (λ t. print_local (handle_with uuid "" "") <> t) q)

  answer_for-PrintedAt :
      (replicated : Replicated) (params : Dict String) (volume v : CreatedVolume) (w : World)
      → (answer_for go sizes times c req plan arr replicated params volume w).0 ≡ ok v
      → PrintedAt replicated volume.volume_id w v.volume_id
  unfolding answer_for
  answer_for-PrintedAt replicated params volume v w e =
      let suffixed = suffix_of go sizes times c arr replicated volume.volume_id w in
      let (suffix, k, eq) = continue-ok suffixed _ v e in
      let e1 = sym (ap (λ o. o.0) eq) ∙ e in
      let tagged =
        get_service_tag go c arr.connection params volume.volume_id (protocol_of plan) suffixed.1 in
      let (tag, _, eq1) = continue-ok tagged _ v e1 in
      suffixed-PrintedAt replicated volume.volume_id suffix v.volume_id w
        (suffix_of-Suffix replicated volume.volume_id suffix w k)
        (ap (λ x. x.volume_id) (sym (ok_injective (sym (ap (λ o. o.0) eq1) ∙ e1))))

  marked_failure-not_ok :
      (v : CreatedVolume) (w : World) → (marked_failure go sizes times c plan arr w).0 ≢ ok v
  marked_failure-not_ok v w e =
      let marked = update_tracker arr (mark_failure plan.nas_name times.marking) w in
      let (_, _, eq) = continue-ok marked (λ _. fail resource_exhausted) v e in
      err-≢ (sym (ap (λ o. o.0) eq) ∙ e)

  after_lookup-ok :
      (found : Outcome CreatedVolume) (v : CreatedVolume) (w : World)
      → (after_lookup go sizes times c plan arr found w).0 ≡ ok v
      → found ≡ ok v
  unfolding after_lookup
  after_lookup-ok (ok x) v w e = e
  after_lookup-ok panic v w e = ground arith
  after_lookup-ok (err x) v w e = elim (Bool-cases (plan.use_nfs && not (is_already_exists x))) [
    | inl k ↦ absurd (marked_failure-not_ok v w (rw k at e))
    | inr k ↦ absurd (err-≢ (rw k at e))
  ]

  check_if_already_exists-IsFound :
      (creator : Creator) (v : CreatedVolume) (w : World)
      → (check_if_already_exists c arr.connection creator req.name plan.size w).0 ≡ ok v
      → IsFound creator w.history v.volume_id
  unfolding check_if_already_exists
  check_if_already_exists-IsFound (scsi_creator vg) v w e = (ground arith, ground arith)
  check_if_already_exists-IsFound (nfs_creator nas_name) v w e = (ground arith, ground arith)

  find_existing-IsFound :
      (creator : Creator) (v : CreatedVolume) (w : World)
      → (find_existing go sizes times c req plan arr creator w).0 ≡ ok v
      → IsFound creator w.history v.volume_id
  unfolding find_existing
  find_existing-IsFound creator v w e =
      let found = check_if_already_exists c arr.connection creator req.name plan.size w in
      check_if_already_exists-IsFound creator v w (after_lookup-ok found.0 v found.1 e)

  creation_failed-IsFound :
      (creator : Creator) (x : Error) (v : CreatedVolume) (w : World)
      → (creation_failed go sizes times c req plan arr creator x w).0 ≡ ok v
      → IsFound creator w.history v.volume_id
  unfolding creation_failed
  creation_failed-IsFound creator x v w e =
      elim (Bool-cases (says volume_name_in_use x || says fs_name_in_use x)) [
        | inl k ↦ find_existing-IsFound creator v w (rw k at e)
        | inr k ↦ elim (Bool-cases plan.use_nfs) [
          | inl n ↦ absurd (marked_failure-not_ok v w (rw (k, n) at e))
          | inr n ↦ absurd (err-≢ (rw (k, n) at e))
        ]
      ]

  created-IsMade :
      (creator : Creator) (made : Reply String) (v : CreatedVolume) (w : World)
      → (created go sizes times c req plan arr creator made w).0 ≡ ok v
      → IsMade creator made w v.volume_id
  unfolding created
  created-IsMade creator made v w e = elim (Option-cases made.error) [
    | inr (x, k) ↦ inr (λ n. ground arith, creation_failed-IsFound creator x v w (rw k at e))
    | inl k ↦
        let reset =
          (if plan.use_nfs then update_tracker arr (reset_failure plan.nas_name) else ret tt) w in
        let (_, _, eq) =
          continue-ok reset (λ _. ret (csi_volume made.value plan.size)) v (rw k at e) in
        inl (k, ap (λ x. x.volume_id) (ok_injective (sym (ap (λ o. o.0) eq) ∙ rw k at e)))
  ]

  module _ (replicated : Replicated) (params : Dict String) (w : World) where
    -- The answer of the array to the creation, and the world after it.
    abbrev pub creation : Outcome (Reply String) × World
    creation =
        create c arr.connection go sizes (creator_in go sizes times c plan replicated) req.name
          plan.size (some params) w

    abbrev pub after : Reply String → World
    after made =
        (created go sizes times c req plan arr (creator_in go sizes times c plan replicated) made
          creation.1).1

    -- The id is the printed handle of the volume that was made.
    abbrev pub Prints : String → Type 0
    Prints id =
        (made : Reply String) × (creation.0 ≡ ok made)
        × (uuid : String) × IsMade (creator_in go sizes times c plan replicated) made creation.1
            uuid
        × PrintedAt replicated uuid (after made) id

    -- If `CreateVolume` succeeds with a new volume on an array, the id of the answer is the printed
    -- handle of a volume on that array, by its Global ID and the request's protocol: of the one that
    -- the array answered to the creation or, after an error, found by the request's name. For metro
    -- the handle also names the remote resource of the session that was read of that volume right
    -- after metro was configured, and the serial number of the remote system.
    pub create_on-Prints :
        (v : CreatedVolume)
        → (create_on go sizes times c req plan replicated params arr w).0 ≡ ok v
        → Prints v.volume_id
    unfolding create_on
    create_on-Prints v e =
        let creator = creator_in go sizes times c plan replicated in
        let (reply, k, eq) = continue-ok creation _ v e in
        let e1 = sym (ap (λ o. o.0) eq) ∙ e in
        let volume = created go sizes times c req plan arr creator reply creation.1 in
        let (x, l, eq1) = continue-ok volume _ v e1 in
        (
          reply,
          k,
          x.volume_id,
          created-IsMade creator reply x creation.1 l,
          answer_for-PrintedAt replicated params x v volume.1 (sym (ap (λ o. o.0) eq1) ∙ e1),
        )
