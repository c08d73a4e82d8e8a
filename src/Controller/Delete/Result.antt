-- ===== src/Controller/Delete/Result.antt =====
-- What a successful `DeleteVolume` says of the volume.
use test_powerstore_automati.Base.{
  Bool, true, false, ◌≡◌, refl, sym, ◌∙◌, ap, none, some, List, ◌∷◌, String, arith, Bool-cases,
  Option-cases, inl, inr, ◌⊎◌, lookup, Option,
}
use test_powerstore_automati.Outcome.{Error, says, ok, err, not_found}
use test_powerstore_automati.Client.{
  Client, delete_volume, get_volume, get_snapshots_by_volume, get_volume_groups_by_volume, Event,
  History, Request, Reply, Volume, VolumeGroup,
}
use test_powerstore_automati.Client.Monad.{World, M, asked, ◌>>=◌}
use test_powerstore_automati.Client.Results.{continue-ok, err-≢}
use test_powerstore_automati.Arrays.{PowerStoreArray}
use test_powerstore_automati.Arrays.Handle.{VolumeHandle}
use test_powerstore_automati.Arrays.Handle.RoundTrip.{
  print_local, print_local-not_empty, IsPrintable, parse_volume_id-print_local,
}
use test_powerstore_automati.Controller.{Service}
use test_powerstore_automati.Controller.Delete.{
  is_nil, remove_volume, end_metro, delete_unless_snapped, leave_group, delete_scsi,
  delete_by_protocol, delete_parsed, delete_volume_request,
}

abbrev event : String → Request → Event
event connection r = record { connection = connection; request = r }

-- The answer to a deletion after which the volume is not there: no error, or "not found".
abbrev pub is_gone : Option Error → Bool
is_gone none = true
is_gone (some x) = says not_found x

-- The answer to a request for the volume that it is not there.
abbrev pub is_missing : Option Error → Bool
is_missing none = false
is_missing (some x) = says not_found x

module _ (c : Client) (connection id : String) where
  -- The latest call deleted the volume or looked for it, and the array answered that it is not
  -- there.
  abbrev pub Gone : History → Type 0
  Gone h =
      (before : History) × (((h ≡ event connection (delete_volume id) ∷ before)
          × (is_gone (c before connection (delete_volume id)).error ≡ true))
        ⊎ ((h ≡ event connection (get_volume id) ∷ before)
            × (is_missing (c before connection (get_volume id)).error ≡ true)))

  remove_volume-Gone :
      (w : World)
      → (remove_volume c connection id w).0 ≡ ok tt
      → Gone (remove_volume c connection id w).1.history
  unfolding remove_volume
  remove_volume-Gone w e = (w.history, inl (ground arith, ground arith))

  metro-Gone :
      (volume : Volume) (w : World)
      → ((end_metro c connection volume id >>= λ _. remove_volume c connection id) w).0 ≡ ok tt
      → Gone ((end_metro c connection volume id >>= λ _. remove_volume c connection id) w).1.history
  metro-Gone volume w e =
      let (a, f, eq) = continue-ok (end_metro c connection volume id w) _ tt e in
      rw eq (remove_volume-Gone _ (sym (ap (λ o. o.0) eq) ∙ e))

  module _ (w : World) where
    abbrev listed : World
    listed = asked connection (get_snapshots_by_volume id) w

    abbrev found : World
    found = asked connection (get_volume id) listed

    unsnapped-eq :
        (c w.history connection (get_snapshots_by_volume id)).error ≡ none
        → is_nil (c w.history connection (get_snapshots_by_volume id)).value ≡ true
        → (c listed.history connection (get_volume id)).error ≡ none
        → delete_unless_snapped c connection id w
          ≡ (end_metro c connection (c listed.history connection (get_volume id)).value id >>= λ _.
                remove_volume c connection id)
              found
    unfolding delete_unless_snapped
    unsnapped-eq f n k = rw (f, n, k) refl

    delete_unless_snapped-Gone :
        (delete_unless_snapped c connection id w).0 ≡ ok tt
        → Gone (delete_unless_snapped c connection id w).1.history
    unfolding delete_unless_snapped
    delete_unless_snapped-Gone e =
        elim (Option-cases (c w.history connection (get_snapshots_by_volume id)).error) [
          | inr (x, f) ↦ absurd (ground arith)
          | inl f ↦
              elim (Bool-cases
                (is_nil (c w.history connection (get_snapshots_by_volume id)).value)) [
                  | inr n ↦ absurd (ground arith)
                  | inl n ↦
                      elim (Option-cases (c listed.history connection (get_volume id)).error) [
                        | inr (x, k) ↦ (listed.history, inr (ground arith, ground arith))
                        | inl k ↦
                            let eq = unsnapped-eq f n k in
                            rw eq (metro-Gone _ found (sym (ap (λ o. o.0) eq) ∙ e))
                      ]
                ]
        ]

  abbrev ungroup : List VolumeGroup → M (Unit {0})
  ungroup groups = leave_group c connection id groups >>= λ _. delete_unless_snapped c connection id

  ungroup-Gone :
      (groups : List VolumeGroup) (w : World)
      → (ungroup groups w).0 ≡ ok tt
      → Gone (ungroup groups w).1.history
  ungroup-Gone groups w e =
      let (a, f, eq) = continue-ok (leave_group c connection id groups w) _ tt e in
      rw eq (delete_unless_snapped-Gone _ (sym (ap (λ o. o.0) eq) ∙ e))

  module _ (w : World) where
    abbrev groups : Reply (List VolumeGroup)
    groups = c w.history connection (get_volume_groups_by_volume id)

    abbrev grouped : World
    grouped = asked connection (get_volume_groups_by_volume id) w

    delete_scsi-cases :
        (delete_scsi c connection id w ≡ ungroup groups.value grouped)
        ⊎ ((x : Error) × (delete_scsi c connection id w ≡ (err x, grouped)))
    unfolding delete_scsi
    delete_scsi-cases = elim (Option-cases groups.error) [
      | inl e ↦ inl (rw e refl)
      | inr (x, e) ↦ elim (Bool-cases (says not_found x)) [
        | inl f ↦ inl (rw (e, f) refl)
        | inr f ↦ inr (x, rw (e, f) refl)
      ]
    ]

    delete_scsi-Gone :
        (delete_scsi c connection id w).0 ≡ ok tt → Gone (delete_scsi c connection id w).1.history
    delete_scsi-Gone e = elim delete_scsi-cases [
      | inl eq ↦ rw eq (ungroup-Gone groups.value grouped (sym (ap (λ o. o.0) eq) ∙ e))
      | inr (x, eq) ↦ absurd (err-≢ (sym (ap (λ o. o.0) eq) ∙ e))
    ]

module _ (c : Client) (parse_cidr : String → Option String) (s : Service) (h : VolumeHandle)
    (w : World) where
  request-scsi :
      (arr : PowerStoreArray)
      → IsPrintable h
      → h.remote_uuid ≡ ""
      → h.remote_array_global_id ≡ ""
      → h.protocol ≡ "scsi"
      → lookup h.local_array_global_id s.known.arrays ≡ some arr
      → delete_volume_request c parse_cidr s (print_local h) w
        ≡ delete_scsi c arr.connection h.local_uuid w
  unfolding delete_volume_request delete_parsed delete_by_protocol
  request-scsi arr p r q t a =
      rw (print_local-not_empty h, parse_volume_id-print_local c s.known none h w p r q, a, t) refl

  -- If `DeleteVolume` succeeds for the handle of a SCSI volume without a remote one, on a known
  -- array, whose parts hold no separator and whose Global ID holds no IP, then its last call
  -- either asked that array to delete the volume, and the array answered without an error or that
  -- the volume is not found, or looked for the volume, and the array answered that it is not
  -- found.
  pub delete_volume_request-Gone :
      (arr : PowerStoreArray)
      → IsPrintable h
      → h.remote_uuid ≡ ""
      → h.remote_array_global_id ≡ ""
      → h.protocol ≡ "scsi"
      → lookup h.local_array_global_id s.known.arrays ≡ some arr
      → (delete_volume_request c parse_cidr s (print_local h) w).0 ≡ ok tt
      → Gone c arr.connection h.local_uuid
          (delete_volume_request c parse_cidr s (print_local h) w).1.history
  delete_volume_request-Gone arr p r q t a e =
      let eq = request-scsi arr p r q t a in
      rw eq (delete_scsi-Gone c arr.connection h.local_uuid w (sym (ap (λ o. o.0) eq) ∙ e))
