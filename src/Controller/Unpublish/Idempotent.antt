-- ===== src/Controller/Unpublish/Idempotent.antt =====
-- What a successful `ControllerUnpublishVolume` says of the volume.
use test_powerstore_automati.Base.{
  Bool, true, false, ◌||◌, ◌≡◌, refl, sym, ◌∙◌, ap, none, some, ◌∷◌, String, arith, Bool-cases, inl,
  inr, lookup, is_empty, contains_text, Option,
}
use test_powerstore_automati.Outcome.{Error, api, status, other, ok, err, invalid_argument}
use test_powerstore_automati.Client.{Client, detach_volume, History}
use test_powerstore_automati.Client.Monad.{World, ◌>>=◌}
use test_powerstore_automati.Client.Results.{continue-ok, err-≢}
use test_powerstore_automati.Arrays.{PowerStoreArray}
use test_powerstore_automati.Arrays.Handle.{VolumeHandle}
use test_powerstore_automati.Arrays.Handle.RoundTrip.{
  print_local, print_local-not_empty, IsPrintable, parse_volume_id-print_local,
}
use test_powerstore_automati.Controller.{Service}
use test_powerstore_automati.Controller.Unpublish.{
  is_detached, detach_failed, detach_volume_from_host, find_attached_host, detach_remote,
  unpublish_scsi, unpublish_on, unpublish_parsed, controller_unpublish_volume,
}

-- An answer to the detachment after which the volume is not attached: none, or an error that says
-- so.
abbrev pub means_detached : Option Error → Bool
means_detached none = true
means_detached (some (api e)) =
    contains_text e.message "Host is not attached to volume" || is_detached (api e)
means_detached (some (status code)) = false
means_detached (some (other m)) = false

module _ (c : Client) where
  -- The latest call detached the volume from a host, and the array answered that it is detached.
  abbrev pub Detached : String → String → History → Type 0
  Detached connection volume h =
      (before : History) × (host : String) × (h
        ≡ record { connection = connection; request = detach_volume host volume } ∷ before)
      × (means_detached (c before connection (detach_volume host volume)).error ≡ true)

  module _ (connection : String) where
    module _ (node : String) (h : VolumeHandle) (n : is_empty h.remote_array_global_id ≡ true) where
      detach-Detached :
          (host : String) (w : World)
          → ((detach_volume_from_host c connection host h.local_uuid >>= λ _.
                detach_remote c node h none)
              w).0
            ≡ ok tt
          → Detached connection h.local_uuid
              ((detach_volume_from_host c connection host h.local_uuid >>= λ _.
                  detach_remote c node h none)
                w).1.history
      unfolding detach_volume_from_host detach_failed detach_remote
      detach-Detached host w e = (w.history, host, ground arith, ground arith)

      unpublish_scsi-Detached :
          (w : World)
          → (unpublish_scsi c connection node h none w).0 ≡ ok tt
          → Detached connection h.local_uuid (unpublish_scsi c connection node h none w).1.history
      unfolding unpublish_scsi
      unpublish_scsi-Detached w e =
          let (host, f, eq) = continue-ok (find_attached_host c connection node w) _ tt e in
          rw eq (detach-Detached host.id _ (sym (ap (λ o. o.0) eq) ∙ e))

  module _ (s : Service) (node : String) (h : VolumeHandle) (w : World) where
    request-scsi :
        (arr : PowerStoreArray)
        → IsPrintable h
        → h.remote_uuid ≡ ""
        → h.remote_array_global_id ≡ ""
        → h.protocol ≡ "scsi"
        → lookup h.local_array_global_id s.known.arrays ≡ some arr
        → is_empty node ≡ false
        → controller_unpublish_volume c s (print_local h) node w
          ≡ unpublish_scsi c arr.connection node h none w
    unfolding controller_unpublish_volume unpublish_parsed unpublish_on
    request-scsi arr p r q t a n =
        rw
          (
            print_local-not_empty h,
            n,
            parse_volume_id-print_local c s.known none h w p r q,
            a,
            q,
            t,
          )
          refl

    no_node :
        is_empty node ≡ true
        → controller_unpublish_volume c s (print_local h) node w
          ≡ (err (status invalid_argument), w)
    unfolding controller_unpublish_volume
    no_node n = rw (print_local-not_empty h, n) refl

    -- If `ControllerUnpublishVolume` succeeds for the handle of a SCSI volume without a remote
    -- one, on a known array, whose parts hold no separator and whose Global ID holds no IP, then
    -- its last call asked that array to detach the volume from a host, and the array answered
    -- without an error, or with one by which the volume is not attached.
    pub controller_unpublish_volume-Detached :
        (arr : PowerStoreArray)
        → IsPrintable h
        → h.remote_uuid ≡ ""
        → h.remote_array_global_id ≡ ""
        → h.protocol ≡ "scsi"
        → lookup h.local_array_global_id s.known.arrays ≡ some arr
        → (controller_unpublish_volume c s (print_local h) node w).0 ≡ ok tt
        → Detached arr.connection h.local_uuid
            (controller_unpublish_volume c s (print_local h) node w).1.history
    unfolding controller_unpublish_volume
    controller_unpublish_volume-Detached arr p r q t a e = elim (Bool-cases (is_empty node)) [
      | inl n ↦ absurd (err-≢ (sym (ap (λ o. o.0) (no_node n)) ∙ e))
      | inr n ↦
          let eq = request-scsi arr p r q t a n in
          rw eq (
            unpublish_scsi-Detached arr.connection node h (rw q refl) w
              (sym (ap (λ o. o.0) eq) ∙ e))
    ]
