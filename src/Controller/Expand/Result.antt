-- ===== src/Controller/Expand/Result.antt =====
-- What a success of `ControllerExpandVolume` says.
use test_powerstore_automati.Base.{
  Bool, true, false, not, ◌&&◌, ◌≡◌, ◌≢◌, refl, sym, ap, ◌∙◌, none, some, ◌∷◌, String, ◌==◌, arith,
  Option-cases, Bool-cases, inl, inr, ◌⊎◌, lookup, is_empty,
}
use test_powerstore_automati.Base.Int64.{ℤ, pos, lt_ℤ, ◌+ℤ◌}
use test_powerstore_automati.Outcome.{Outcome, ok, err, panic}
use test_powerstore_automati.Client.{
  Client, Volume, get_volume, get_fs, modify_volume, modify_fs, Event, History, Request,
}
use test_powerstore_automati.Client.Monad.{World, asked, ◌>>=◌}
use test_powerstore_automati.Client.Results.{continue-ok, ok_injective, err-≢}
use test_powerstore_automati.Arrays.{PowerStoreArray}
use test_powerstore_automati.Arrays.Handle.{VolumeHandle, parse_volume_id}
use test_powerstore_automati.Controller.{Service}
use test_powerstore_automati.Controller.Snapshots.{reserved_size}
use test_powerstore_automati.Size.{max_volume_size_bytes}
use test_powerstore_automati.Controller.Expand.{
  ExpandResponse, modify_size, require_paused, grow, expand_scsi, expand_nfs, expand_parsed,
  parsed_or_range, controller_expand_volume,
}

abbrev event : String → Request → Event
event connection r = record { connection = connection; request = r }

module _ (paused_state : String) (c : Client) (required : ℤ) where
  -- The latest call changed the volume to the required size, or read it as large enough.
  abbrev pub ExpandedVolume : String → String → ExpandResponse → History → Type 0
  ExpandedVolume connection id r h =
      let change = modify_volume (record { size = required; protection_policy_id = "" }) id in
      (before : History) × (((r
            ≡ record { capacity_bytes = required; node_expansion_required = true })
          × (h ≡ event connection change ∷ before)
          × ((c before connection change).error ≡ none))
        ⊎ ((r ≡ record { capacity_bytes = pos 0; node_expansion_required = false })
            × (h ≡ event connection (get_volume id) ∷ before)
            × ((c before connection (get_volume id)).error ≡ none)
            × (lt_ℤ (c before connection (get_volume id)).value.size required ≡ false)))

  -- The latest call changed the filesystem, read it as large enough, or failed to read it.
  abbrev pub ExpandedFs : String → String → ExpandResponse → History → Type 0
  ExpandedFs connection id r h =
      let change = modify_fs (required +ℤ reserved_size) id in
      (before : History) × (r
        ≡ record { capacity_bytes = required; node_expansion_required = false })
      × (((h ≡ event connection change ∷ before) × ((c before connection change).error ≡ none))
          ⊎ ((h ≡ event connection (get_fs id) ∷ before)
              × ((c before connection (get_fs id)).error ≡ none)
              × (lt_ℤ (c before connection (get_fs id)).value.size_total required ≡ false))
          ⊎ ((h ≡ event connection (get_fs id) ∷ before)
              × ((c before connection (get_fs id)).error ≢ none)))

  module _ (connection id : String) (r : ExpandResponse) where
    modify_size-Expanded :
        (w : World)
        → (modify_size paused_state c connection required id w).0 ≡ ok r
        → ExpandedVolume connection id r
            (modify_size paused_state c connection required id w).1.history
    unfolding modify_size
    modify_size-Expanded w e =
        let change = modify_volume (record { size = required; protection_policy_id = "" }) id in
        elim (Option-cases (c w.history connection change).error) [
          | inr (x, k) ↦ absurd (err-≢ (rw k at e))
          | inl k ↦ rw k (w.history, inl (sym (ok_injective (rw k at e)), refl, k))
        ]

    paused-Expanded :
        (volume : Volume) (w : World)
        → ((require_paused paused_state c connection required volume >>= λ _.
              modify_size paused_state c connection required id)
            w).0
          ≡ ok r
        → ExpandedVolume connection id r
            ((require_paused paused_state c connection required volume >>= λ _.
                modify_size paused_state c connection required id)
              w).1.history
    paused-Expanded volume w e =
        let paused = require_paused paused_state c connection required volume w in
        let (_, _, eq) = continue-ok paused _ r e in
        rw eq (modify_size-Expanded paused.1 (sym (ap (λ o. o.0) eq) ∙ e))

    expand_scsi-Expanded :
        (is_metro : Bool) (w : World)
        → (expand_scsi paused_state c connection required is_metro id w).0 ≡ ok r
        → ExpandedVolume connection id r
            (expand_scsi paused_state c connection required is_metro id w).1.history
    unfolding expand_scsi grow
    expand_scsi-Expanded is_metro w e =
        let found = c w.history connection (get_volume id) in
        let read = asked connection (get_volume id) w in
        elim (Option-cases found.error) [
          | inr (x, k) ↦ absurd (err-≢ (rw k at e))
          | inl k ↦ elim (Bool-cases (is_metro && is_empty found.value.metro_session_id)) [
            | inl m ↦ absurd (err-≢ (rw (k, m) at e))
            | inr m ↦ elim (Bool-cases (lt_ℤ found.value.size required)) [
              | inr l ↦
                  rw (k, m, l) (w.history, inr (sym (ok_injective (rw (k, m, l) at e)), refl, k, l))
              | inl l ↦ elim (Bool-cases is_metro) [
                | inl n ↦ rw (k, m, l, n) (paused-Expanded found.value read (rw (k, m, l, n) at e))
                | inr n ↦ rw (k, m, l, n) (modify_size-Expanded read (rw (k, m, l, n) at e))
              ]
            ]
          ]
        ]

    expand_nfs-Expanded :
        (w : World)
        → (expand_nfs paused_state c connection required id w).0 ≡ ok r
        → ExpandedFs connection id r (expand_nfs paused_state c connection required id w).1.history
    unfolding expand_nfs
    expand_nfs-Expanded w e =
        let found = c w.history connection (get_fs id) in
        let read = asked connection (get_fs id) w in
        let changed = c read.history connection (modify_fs (required +ℤ reserved_size) id) in
        elim (Option-cases found.error) [
          | inr (x, k) ↦
              rw k
                (w.history, sym (ok_injective (rw k at e)), inr (inr (refl, (λ n. ground arith))))
          | inl k ↦ elim (Bool-cases (lt_ℤ found.value.size_total required)) [
            | inr l ↦
                rw (k, l) (w.history, sym (ok_injective (rw (k, l) at e)), inr (inl (refl, k, l)))
            | inl l ↦ elim (Option-cases changed.error) [
              | inr (x, n) ↦ absurd (err-≢ (rw (k, l, n) at e))
              | inl n ↦
                  rw (k, l, n) (read.history, sym (ok_injective (rw (k, l, n) at e)), inl (refl, n))
            ]
          ]
        ]

  module _ (s : Service) where
    -- What was found by the parts of a handle, after the request.
    abbrev pub Expanded : VolumeHandle → ExpandResponse → History → Type 0
    Expanded h r after =
        (arr : PowerStoreArray) × (lookup h.local_array_global_id s.known.arrays ≡ some arr)
        × (lt_ℤ (pos max_volume_size_bytes) required ≡ false)
        × (((h.protocol == "scsi" ≡ true) × ExpandedVolume arr.connection h.local_uuid r after)
            ⊎ ((h.protocol == "scsi" ≡ false) × ExpandedFs arr.connection h.local_uuid r after))

    expand_parsed-Expanded :
        (h : VolumeHandle) (r : ExpandResponse) (w : World)
        → (expand_parsed paused_state c s required h w).0 ≡ ok r
        → Expanded h r (expand_parsed paused_state c s required h w).1.history
    unfolding expand_parsed
    expand_parsed-Expanded h r w e = elim (Bool-cases (lt_ℤ (pos max_volume_size_bytes) required)) [
      | inl b ↦ absurd (err-≢ (rw b at e))
      | inr b ↦ elim (Option-cases (lookup h.local_array_global_id s.known.arrays)) [
        | inl a ↦ absurd (err-≢ (rw (b, a) at e))
        | inr (arr, a) ↦ elim (Bool-cases (h.protocol == "scsi")) [
          | inl q ↦
              rw (b, a, q)
                (
                  arr,
                  refl,
                  refl,
                  inl (
                    refl,
                    expand_scsi-Expanded arr.connection h.local_uuid r
                        (not (is_empty h.remote_uuid)) w (rw (b, a, q) at e),
                  ),
                )
          | inr q ↦
              rw (b, a, q)
                (
                  arr,
                  refl,
                  refl,
                  inr (
                    refl,
                    expand_nfs-Expanded arr.connection h.local_uuid r w (rw (b, a, q) at e),
                  ),
                )
        ]
      ]
    ]

    range-Expanded :
        (o : Outcome VolumeHandle × World) (r : ExpandResponse)
        → (parsed_or_range paused_state c s required o).0 ≡ ok r
        → (h : VolumeHandle) × (o.0 ≡ ok h)
          × Expanded h r (parsed_or_range paused_state c s required o).1.history
    range-Expanded (ok h, w) r e = (h, refl, expand_parsed-Expanded h r w e)
    range-Expanded (err x, w) r e = absurd (err-≢ e)
    range-Expanded (panic, w) r e = ground arith

    -- If `ControllerExpandVolume` succeeds, then the handle was parsed, its array is known, and the
    -- required size is at most the largest one. For a SCSI volume the last call either changed it to
    -- the required size without an error, and the answer is that size, to be expanded on the node
    -- too, or read it as large enough without an error, and the answer is empty. For a filesystem
    -- the answer is the required size, and the last call changed the filesystem to it, with the
    -- reserved size added, without an error, read it as large enough, or failed to read it.
    pub controller_expand_volume-Expanded :
        (id : String) (r : ExpandResponse) (w : World)
        → (controller_expand_volume paused_state c s required id w).0 ≡ ok r
        → (h : VolumeHandle) × ((parse_volume_id c s.known id none w).0 ≡ ok h)
          × Expanded h r (controller_expand_volume paused_state c s required id w).1.history
    unfolding controller_expand_volume
    controller_expand_volume-Expanded id r w e =
        range-Expanded (parse_volume_id c s.known id none w) r e
