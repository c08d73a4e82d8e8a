-- ===== src/Controller/Create/Tracking.antt =====
-- What `CreateVolume` makes of a failure, for the cooldown tracker, and which RPOs it accepts.
use test_powerstore_automati.Base.{
  Bool, true, false, not, ◌≡◌, ◌≢◌, refl, ◌||◌, none, some, Option, String, Dict, arith, Bool-cases,
  inl, inr, ◌⊎◌, insert, ◌==◌, if◌then◌else◌,
}
use test_powerstore_automati.Base.Int64.{lt_ℤ}
use test_powerstore_automati.Outcome.{
  Error, status, invalid_argument, says, ok, err, panic, Outcome, already_exists, internal,
  resource_exhausted, volume_name_in_use, fs_name_in_use,
}
use test_powerstore_automati.Cooldown.{NasCooldown, mark_failure, reset_failure}
use test_powerstore_automati.Client.{
  Client, Reply, FileSystem, VolumeGroup, get_remote_by_name, get_fs_by_name,
}
use test_powerstore_automati.Client.Monad.{World, M, call, if_error, ret, fail, ◌>>=◌}
use test_powerstore_automati.Client.Results.{err-≢, continue-ok, if_missing-ok, refused-ok}
use test_powerstore_automati.Arrays.{PowerStoreArray}
use test_powerstore_automati.Controller.{Service}
use test_powerstore_automati.Controller.Replication.{with_rp}
use test_powerstore_automati.Controller.Create.Requests.{GoText, find, CreateRequest, CreatedVolume}
use test_powerstore_automati.Controller.Create.Attributes.{HostIoSizes}
use test_powerstore_automati.Controller.Create.Creators.{csi_volume}
use test_powerstore_automati.Controller.Create.Prepare.{Times, with_arr, Plan}
use test_powerstore_automati.Controller.Create.Grouping.{
  Replicated, not_replicated, metro, replication_enabled, in_group, rpo_of, rpo_fits,
  replication_mode, prepare_group, prepare_mode, prepare_replication,
}

module _ (go : GoText) (sizes : HostIoSizes) (times : Times) (c : Client) (req : CreateRequest)
    (plan : Plan) (arr : PowerStoreArray) (tracker : NasCooldown) where
  -- The lookup of the filesystem of the request's name, as the next call.
  abbrev pub existing : World → Reply FileSystem
  existing w = c w.history arr.connection (get_fs_by_name req.name)

  -- The creation was refused since the name is in use.
  abbrev pub InUse : Reply String → Type 0
  InUse made =
      (x : Error) × (made.error ≡ some x)
      × ((says volume_name_in_use x || says fs_name_in_use x) ≡ true)

  -- The result of a creation that was answered with `made` in the world `w`, and the tracker of the
  -- array after it.
  abbrev pub Tracked : Reply String → World → Outcome CreatedVolume → Option NasCooldown → Type 0
  Tracked made w (ok volume) after =
      ((made.error ≡ none)
        × (volume ≡ csi_volume made.value plan.size)
        × (after ≡ some (reset_failure plan.nas_name tracker)))
      ⊎ (InUse made
          × ((existing w).error ≡ none)
          × (lt_ℤ (existing w).value.size_total plan.size ≡ false)
          × (volume ≡ csi_volume (existing w).value.id plan.size)
          × (after ≡ some tracker))
  Tracked made w (err e) after =
      ((made.error ≢ none)
        × (e ≡ status resource_exhausted)
        × (after ≡ some (mark_failure plan.nas_name times.marking tracker)))
      ⊎ (InUse made
          × ((existing w).error ≡ none)
          × (lt_ℤ (existing w).value.size_total plan.size ≡ true)
          × (e ≡ status already_exists)
          × (after ≡ some tracker))
  Tracked made w panic after = ⊥

  abbrev marked : World → Dict NasCooldown
  marked w = insert arr.global_id (mark_failure plan.nas_name times.marking tracker) w.trackers

module _ (go : GoText) (valid_rpo : String → Bool) (c : Client) (s : Service)
    (params : Option (Dict String)) where
  -- The RPO that the parameters ask for, Zero by default in synchronous mode.
  abbrev asked_rpo : Option String
  asked_rpo = rpo_of (replication_mode go valid_rpo c s params) (find (with_rp s "rpo") params)

  -- That RPO is valid, and Zero in synchronous mode only.
  abbrev pub Replicates : (use_nfs : Bool) → Type 0
  Replicates use_nfs =
      (use_nfs ≡ false)
      × ((rpo : String) × ((asked_rpo ≡ some rpo)
            × (valid_rpo rpo ≡ true)
            × (((replication_mode go valid_rpo c s params == "SYNC" ≡ true)
                  × (rpo == "Zero" ≡ true))
                ⊎ ((replication_mode go valid_rpo c s params == "ASYNC" ≡ true)
                    × (rpo == "Zero" ≡ false)))))

  rpo_fits-modes :
      (mode rpo : String)
      → (mode == "SYNC" || mode == "ASYNC") ≡ true
      → rpo_fits valid_rpo mode rpo ≡ true
      → (valid_rpo rpo ≡ true)
        × (((mode == "SYNC" ≡ true) × (rpo == "Zero" ≡ true))
            ⊎ ((mode == "ASYNC" ≡ true) × (rpo == "Zero" ≡ false)))
  unfolding rpo_fits
  rpo_fits-modes mode rpo m f = ground (arith)

  prepare_group-fits :
      (arr : Option PowerStoreArray) (mode remote : String) (vg : VolumeGroup) (w : World)
      → (prepare_group go valid_rpo c s params arr mode remote w).0 ≡ ok vg
      → (rpo : String) × (rpo_of mode (find (with_rp s "rpo") params) ≡ some rpo)
        × (rpo_fits valid_rpo mode rpo ≡ true)
  unfolding prepare_group
  prepare_group-fits arr mode remote vg w e =
      let (prefix, _, e1) =
        if_missing-ok (find (with_rp s "volumeGroupPrefix") params) invalid_argument _ vg w e in
      let (rpo, q, e2) =
        if_missing-ok (rpo_of mode (find (with_rp s "rpo") params)) invalid_argument _ vg w e1 in
      let (f, _) = refused-ok (not (rpo_fits valid_rpo mode rpo)) invalid_argument _ vg w e2 in
      (rpo, q, ground arith)

  metro_only :
      (arr : Option PowerStoreArray) (remote : String) (vg : VolumeGroup) (w : World)
      → (with_arr arr
          (λ known.
            call c known.connection (get_remote_by_name remote)
            >>= (λ found. if_error found (λ _. fail internal) (λ system. ret (metro system))))
          w).0
        ≢ ok (in_group vg)
  metro_only none remote vg w e = ground arith
  metro_only (some known) remote vg w e = ground arith

  asked_for :
      (enabled : Bool) (m : M Replicated) (vg : VolumeGroup) (w : World)
      → ((if not enabled then ret not_replicated else m) w).0 ≡ ok (in_group vg)
      → (enabled ≡ true) × ((m w).0 ≡ ok (in_group vg))
  asked_for true m vg w e = (refl, e)
  asked_for false m vg w e = ground arith

  prepare_mode-fits :
      (arr : Option PowerStoreArray) (mode remote : String) (vg : VolumeGroup) (w : World)
      → (prepare_mode go valid_rpo c s params arr mode remote w).0 ≡ ok (in_group vg)
      → ((mode == "SYNC" || mode == "ASYNC") ≡ true)
        × ((rpo : String) × (rpo_of mode (find (with_rp s "rpo") params) ≡ some rpo)
            × (rpo_fits valid_rpo mode rpo ≡ true))
  unfolding prepare_mode
  prepare_mode-fits arr mode remote vg w e = elim (Bool-cases (mode == "SYNC" || mode == "ASYNC")) [
    | inl m ↦
        let group = prepare_group go valid_rpo c s params arr mode remote w in
        let (g, f, _) = continue-ok group (λ vg. ret (in_group vg)) (in_group vg) (rw m at e) in
        (m, prepare_group-fits arr mode remote g w f)
    | inr m ↦ elim (Bool-cases (mode == "METRO")) [
      | inr k ↦ absurd (err-≢ (rw (m, k) at e))
      | inl k ↦ absurd (metro_only arr remote vg w (rw (m, k) at e))
    ]
  ]

  -- A request gets a volume group only without NFS, in synchronous or asynchronous mode, and if the
  -- RPO that its parameters name (Zero if they name none in synchronous mode) is valid, is Zero in
  -- synchronous mode and is not Zero in asynchronous mode.
  pub prepare_replication-Replicates :
      (arr : Option PowerStoreArray) (use_nfs : Bool) (vg : VolumeGroup) (w : World)
      → (prepare_replication go valid_rpo c s params arr use_nfs w).0 ≡ ok (in_group vg)
      → Replicates use_nfs
  unfolding prepare_replication
  prepare_replication-Replicates arr use_nfs vg w e =
      let (enabled, e1) = asked_for (replication_enabled go valid_rpo c s params) _ vg w e in
      let (no_nfs, e2) = refused-ok use_nfs invalid_argument _ (in_group vg) w e1 in
      let (remote, _, e3) =
        if_missing-ok (find (with_rp s "remoteSystem") params) invalid_argument _ (in_group vg) w
          e2 in
      let mode = replication_mode go valid_rpo c s params in
      let (m, (rpo, q, f)) = prepare_mode-fits arr mode remote vg w e3 in
      let (valid, modes) = rpo_fits-modes mode rpo m f in (no_nfs, (rpo, (q, valid, modes)))
