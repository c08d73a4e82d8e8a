-- ===== src/Controller/Expand/Laws.antt =====
-- When `ControllerExpandVolume` changes a volume or a filesystem.
use test_powerstore_automati.Base.{
  Bool, true, false, not, ◌≡◌, refl, none, ◌∷◌, String, ◌==◌, arith, Option-cases, Bool-cases, inl,
  inr, ◌⊎◌, lookup, is_empty, sym, ◌∙◌, ◌&&◌,
}
use test_powerstore_automati.Base.Int64.{ℤ, pos, lt_ℤ, ◌+ℤ◌}
use test_powerstore_automati.Outcome.{ok, err, panic, Outcome}
use test_powerstore_automati.Client.{
  Client, Volume, get_volume, get_session, get_fs, modify_volume, modify_fs, Event, History,
  Request,
}
use test_powerstore_automati.Client.Monad.{World, asked, ◌>>=◌}
use test_powerstore_automati.Client.Invariants.{Keeps, Guarded}
use test_powerstore_automati.Arrays.Handle.{VolumeHandle, parse_volume_id}
use test_powerstore_automati.Arrays.Handle.Calls.{LetsRead, parse_volume_id-Keeps}
use test_powerstore_automati.Controller.{Service}
use test_powerstore_automati.Controller.Snapshots.{reserved_size}
use test_powerstore_automati.Size.{max_volume_size_bytes}
use test_powerstore_automati.Controller.Expand.{
  modify_size, require_paused, grow, expand_scsi, expand_nfs, expand_parsed, parsed_or_range,
  controller_expand_volume,
}

abbrev event : String → Request → Event
event connection r = record { connection = connection; request = r }

-- Whether the handle of a request, as it was parsed, names a remote volume.
abbrev pub names_remote : Outcome VolumeHandle → Bool
names_remote (ok h) = not (is_empty h.remote_uuid)
names_remote (err e) = false
names_remote panic = false

module _ (paused_state : String) (is_metro : Bool) (c : Client) (required : ℤ) where
  -- The volume was read, and is smaller than what is required.
  abbrev Smaller : String → String → History → Type 0
  Smaller connection id before =
      ((c before connection (get_volume id)).error ≡ none)
      × (lt_ℤ (c before connection (get_volume id)).value.size required ≡ true)

  -- The metro session of the volume was read, and is paused.
  abbrev Paused : String → String → History → Type 0
  Paused connection session before =
      ((c before connection (get_session session)).error ≡ none)
      × ((c before connection (get_session session)).value.state == paused_state ≡ true)

  -- The metro session that the volume was read with.
  abbrev session_id : String → String → History → String
  session_id connection id before = (c before connection (get_volume id)).value.metro_session_id

  abbrev GrowthGuard : String → Request → History → Type 0
  GrowthGuard connection (modify_volume change id) h =
      (lt_ℤ (pos max_volume_size_bytes) required ≡ false)
      × (change.size ≡ required)
      × ((before : History) × Smaller connection id before
          × (((is_metro ≡ false) × (h ≡ event connection (get_volume id) ∷ before))
              ⊎ ((is_metro ≡ true)
                  × (is_empty (session_id connection id before) ≡ false)
                  × (h
                      ≡ event connection (get_session (session_id connection id before))
                        ∷ event connection (get_volume id)
                        ∷ before)
                  × Paused connection (session_id connection id before)
                      (event connection (get_volume id) ∷ before))))
  GrowthGuard connection (modify_fs size id) h =
      (lt_ℤ (pos max_volume_size_bytes) required ≡ false)
      × (size ≡ required +ℤ reserved_size)
      × ((before : History) × (h ≡ event connection (get_fs id) ∷ before)
          × ((c before connection (get_fs id)).error ≡ none)
          × (lt_ℤ (c before connection (get_fs id)).value.size_total required ≡ true))
  GrowthGuard connection _ h = Unit

  -- A volume without a remote one is changed right after it was read and found too small, and one
  -- with a remote one right after its metro session, read behind it, was found to be paused; a
  -- filesystem right after it was found too
  -- small, to the size with what it reserves; and nothing is changed above the largest size.
  abbrev pub OnlyGrows : Event → History → Type 0
  OnlyGrows e h = GrowthGuard e.connection e.request h

  abbrev Safe : World → Type 0
  Safe w = Guarded OnlyGrows w.history

  module _ (bounded : lt_ℤ (pos max_volume_size_bytes) required ≡ false)
      (connection id : String) where
    modify_size-Safe :
        (w : World)
        → GrowthGuard connection
            (modify_volume (record { size = required; protection_policy_id = "" }) id)
            w.history
        → Safe w
        → Safe (modify_size paused_state c connection required id w).1
    unfolding modify_size
    modify_size-Safe w u g = ground arith

    module _ (before : World) (g : Safe before)
        (fine : (c before.history connection (get_volume id)).error ≡ none) where
      abbrev volume : Volume
      volume = (c before.history connection (get_volume id)).value

      abbrev read : World
      read = asked connection (get_volume id) before

      paused-Safe :
          lt_ℤ volume.size required ≡ true
          → is_metro ≡ true
          → is_empty volume.metro_session_id ≡ false
          → Safe
              ((require_paused paused_state c connection required volume >>= λ _.
                  modify_size paused_state c connection required id)
                read).1
      unfolding require_paused
      paused-Safe small m named =
          let session = c read.history connection (get_session volume.metro_session_id) in
          let asked_session = asked connection (get_session volume.metro_session_id) read in
          elim (Option-cases session.error) [
            | inr (x, e) ↦ rw e (ground arith)
            | inl e ↦ elim (Bool-cases (session.value.state == paused_state)) [
              | inr f ↦ rw (e, f) (ground arith)
              | inl f ↦
                  rw (e, f)
                    (modify_size-Safe asked_session
                      (bounded, refl, (before.history, (fine, small), inr (m, named, refl, (e, f))))
                      (ground arith))
            ]
          ]

      grow-Safe :
          (asked_metro : Bool)
          → asked_metro ≡ is_metro
          → (asked_metro ≡ true → is_empty volume.metro_session_id ≡ false)
          → Safe (grow paused_state c connection required asked_metro id volume read).1
      unfolding grow
      grow-Safe asked_metro k named = elim (Bool-cases (lt_ℤ volume.size required)) [
        | inr f ↦ rw f (ground arith)
        | inl f ↦ elim (Bool-cases asked_metro) [
          | inl m ↦ rw (f, m) (paused-Safe f (sym k ∙ m) (named m))
          | inr m ↦
              rw (f, m)
                (modify_size-Safe read
                  (bounded, refl, (before.history, (fine, f), inl (sym k ∙ m, refl)))
                  (ground arith))
        ]
      ]

    expand_scsi-Keeps :
        (asked_metro : Bool)
        → asked_metro ≡ is_metro
        → Keeps OnlyGrows (expand_scsi paused_state c connection required asked_metro id)
    unfolding expand_scsi
    expand_scsi-Keeps asked_metro k w g =
        let found = c w.history connection (get_volume id) in
        elim (Option-cases found.error) [
          | inr (x, e) ↦ rw e (ground arith)
          | inl e ↦ elim (Bool-cases (asked_metro && is_empty found.value.metro_session_id)) [
            | inl m ↦ rw (e, m) (ground arith)
            | inr m ↦ rw (e, m) (grow-Safe w g e asked_metro k (λ q. ground arith))
          ]
        ]

    expand_nfs-Keeps : Keeps OnlyGrows (expand_nfs paused_state c connection required id)
    unfolding expand_nfs
    expand_nfs-Keeps w g = ground arith

  module _ (s : Service) where
    expand_parsed-Keeps :
        (h : VolumeHandle)
        → not (is_empty h.remote_uuid) ≡ is_metro
        → Keeps OnlyGrows (expand_parsed paused_state c s required h)
    unfolding expand_parsed
    expand_parsed-Keeps h k w g = elim (Bool-cases (lt_ℤ (pos max_volume_size_bytes) required)) [
      | inl b ↦ rw b g
      | inr b ↦ elim (Option-cases (lookup h.local_array_global_id s.known.arrays)) [
        | inl e ↦ rw (b, e) g
        | inr (arr, e) ↦
            rw (b, e)
              (ground (
                arith,
                expand_scsi-Keeps b arr.connection h.local_uuid (not (is_empty h.remote_uuid)) k w
                    g,
                expand_nfs-Keeps b arr.connection h.local_uuid w g,
              ))
      ]
    ]

    reads : LetsRead OnlyGrows
    reads = record { reads_volume = λ k id h. tt; reads_fs = λ k id h. tt }

    parsed_or_range-Safe :
        (o : Outcome VolumeHandle × World)
        → names_remote o.0 ≡ is_metro
        → Safe o.1
        → Safe (parsed_or_range paused_state c s required o).1
    parsed_or_range-Safe (ok h, w) k g = expand_parsed-Keeps h k w g
    parsed_or_range-Safe (err e, w) k g = g
    parsed_or_range-Safe (panic, w) k g = g

module _ (paused_state : String) (c : Client) (required : ℤ) (s : Service) (id : String)
    (w : World) where
  abbrev pub is_metro_request : Bool
  is_metro_request = names_remote (parse_volume_id c s.known id none w).0

  -- Whatever the array answers, `ControllerExpandVolume` changes a volume only to the required size,
  -- which is at most the largest size, and only after it read the volume without an error and found it
  -- smaller: right after that if the handle of the request names no remote volume, and if it names one,
  -- right after it then read the metro session that the volume was read with, without an error and in
  -- the paused state. It changes a filesystem only to the required size with the reserved size added,
  -- right after it read the filesystem without an error and found it smaller. The calls before the
  -- handler's are taken to be such.
  pub controller_expand_volume-Keeps :
      Guarded (OnlyGrows paused_state is_metro_request c required) w.history
      → Guarded
          (OnlyGrows paused_state is_metro_request c required)
          (controller_expand_volume paused_state c s required id w).1.history
  unfolding controller_expand_volume
  controller_expand_volume-Keeps g =
      parsed_or_range-Safe paused_state is_metro_request c required s
        (parse_volume_id c s.known id none w) refl
        (parse_volume_id-Keeps c s.known none (OnlyGrows paused_state is_metro_request c required)
          (reads paused_state is_metro_request c required s) id w g)
