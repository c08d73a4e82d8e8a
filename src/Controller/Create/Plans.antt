-- ===== src/Controller/Create/Plans.antt =====
-- What `CreateVolume` plans has a size that its request allows.
use test_powerstore_automati.Base.{
  ℕ, split, Bool, true, false, ◌≡◌, sym, ap, ◌∙◌, none, some, [], ◌∷◌, List, Option, String, Dict,
  arith, Option-cases, Bool-cases, inl, inr, lookup, ◌||◌, if◌then◌else◌, contains_text,
}
use mathlib.Core.Path.{subst}
use test_powerstore_automati.Base.Int64.{ℤ}
use test_powerstore_automati.Outcome.{invalid_argument, ok}
use test_powerstore_automati.Cooldown.{NasCooldown, fallback_retry}
use test_powerstore_automati.Client.{get_nas_servers, Client}
use test_powerstore_automati.Client.Monad.{World, M, fail, asked, ◌>>=◌}
use test_powerstore_automati.Client.Results.{continue-ok, ok_injective, err-≢}
use test_powerstore_automati.Client.Invariants.{Keeps, continue-Guarded}
use test_powerstore_automati.Arrays.{PowerStoreArray}
use test_powerstore_automati.Arrays.Handle.{AccessType, VolumeCapability}
use test_powerstore_automati.Nas.{
  get_least_used_active_nas, fall_back, find_least_used_active_nas, create_nas_map,
  get_nas_in_cooldown,
}
use test_powerstore_automati.Controller.{Service}
use test_powerstore_automati.Controller.Create.Requests.{
  GoText, find, has_required_topology, CreateRequest, Accessibility,
}
use test_powerstore_automati.Controller.Create.Creators.{Creator, scsi_creator, nfs_creator}
use test_powerstore_automati.Controller.Create.Prepare.{
  Times, Plan, with_arr, tracker_of, trimmed, creator_of, internal_error, select_named, array_named,
  select_nas, choose_acls, choose_nas, choose_array, require_topology, check_request, uses_nfs,
  raw_block_of_nfs, sized_plan, nas_plan, plan_for, plan_first, prepare,
}
use test_powerstore_automati.Controller.Create.Guard.{Checked}
use test_powerstore_automati.Controller.Create.Calls.{Guard, internal_error-Keeps}

module _ (c : Client) (s : Service) (req : CreateRequest) where
  module _ (go : GoText) (sort_slice : (String → String → Bool) → List String → List String)
      (times : Times) where
    module _ (tracker : NasCooldown) (now later : ℕ) (connection : String) where
      fall_back-Keeps :
          (cooling : List String)
          → Keeps (Guard c s req) (fall_back c sort_slice tracker now later connection cooling)
      unfolding fall_back
      fall_back-Keeps [] w g = g
      fall_back-Keeps (nas ∷ cooling) w g =
          elim (Option-cases (fallback_retry sort_slice (nas ∷ cooling) tracker)) [
            | inl e ↦ rw e g
            | inr (x, e) ↦ rw e g
          ]

      get_least_used_active_nas-Keeps :
          (names : List String)
          → Keeps
              (Guard c s req)
              (get_least_used_active_nas c sort_slice tracker now later connection names)
      unfolding get_least_used_active_nas
      get_least_used_active_nas-Keeps names w g =
          let listed = c w.history connection get_nas_servers in
          let read = asked connection get_nas_servers w in
          elim (Option-cases listed.error) [
            | inr (x, e) ↦ rw e (tt, g)
            | inl e ↦
                elim (Option-cases
                  (find_least_used_active_nas tracker now listed.value (create_nas_map names))) [
                    | inl f ↦
                        rw (e, f)
                          (fall_back-Keeps (get_nas_in_cooldown tracker later names) read (tt, g))
                    | inr (nas, f) ↦ rw (e, f) (tt, g)
                  ]
          ]

    least_used-Keeps :
        (arr : Option PowerStoreArray) (names : List String)
        → Keeps (Guard c s req) (
            with_arr arr (λ known. tracker_of known (λ tracker. λ w. internal_error (
              get_least_used_active_nas c sort_slice tracker times.selecting times.falling_back
                known.connection names w))))
    least_used-Keeps none names w g = g
    least_used-Keeps (some known) names w g =
        elim (Option-cases (lookup known.global_id w.trackers)) [
          | inl e ↦ rw e g
          | inr (tracker, e) ↦ rw e (
              internal_error-Keeps c s req known.connection
                (get_least_used_active_nas c sort_slice tracker times.selecting times.falling_back
                  known.connection names w)
                (get_least_used_active_nas-Keeps tracker times.selecting times.falling_back
                  known.connection names w g))
        ]

    select_named-Keeps :
        (arr : Option PowerStoreArray) (found : Option String)
        → Keeps (Guard c s req) (select_named go sort_slice times c s arr found)
    unfolding select_named
    select_named-Keeps none none w g = g
    select_named-Keeps (some known) none w g = g
    select_named-Keeps arr (some names) w g = elim (Bool-cases (contains_text names ",")) [
      | inl f ↦ rw f (least_used-Keeps arr (trimmed go (split b',' names)) w g)
      | inr f ↦ rw f g
    ]

    select_nas-Keeps :
        (arr : Option PowerStoreArray) (params : Option (Dict String))
        → Keeps (Guard c s req) (select_nas go sort_slice times c s arr params)
    unfolding select_nas
    select_nas-Keeps arr params = select_named-Keeps arr (find "nasName" params)

    choose_nas-Keeps :
        (arr : Option PowerStoreArray) (use_nfs : Bool) (params : Option (Dict String))
        → Keeps (Guard c s req) (choose_nas go sort_slice times c s arr use_nfs params)
    unfolding choose_nas choose_acls
    choose_nas-Keeps arr false params w g = g
    choose_nas-Keeps arr true params w g =
        continue-Guarded (Guard c s req) (select_nas go sort_slice times c s arr params w) _
          (select_nas-Keeps arr params w g) (λ nas. ground (arith, select_nas-Keeps arr params w g))

    -- The plan has a size that was checked.
    abbrev pub Planned : Plan → Type 0
    Planned plan = Checked c s.is_auto_round_off_fs_size_enabled req (creator_of plan) plan.size

    array_named-Keeps :
        (array_ip array_id : Option String)
        → Keeps (Guard c s req) (array_named go sort_slice times c s array_ip array_id)
    unfolding array_named
    array_named-Keeps ip (some id) w g = elim (Option-cases (lookup id s.known.arrays)) [
      | inl e ↦ rw e g
      | inr (arr, e) ↦ rw e g
    ]
    array_named-Keeps (some ip) none w g = g
    array_named-Keeps none none w g = g

    require_topology-Keeps :
        (arr : Option PowerStoreArray) (use_nfs : Bool) (a : Option Accessibility)
        → Keeps (Guard c s req) (require_topology go arr use_nfs a)
    unfolding require_topology
    require_topology-Keeps arr false a w g = g
    require_topology-Keeps arr true none w g = g
    require_topology-Keeps none true (some a) w g = g
    require_topology-Keeps (some known) true (some a) w g =
        elim (Bool-cases (
          has_required_topology go a.preferred known.ip "nfs"
          || has_required_topology go a.requisite known.ip "nfs")) [
            | inl e ↦ rw e g
            | inr e ↦ rw e g
          ]

    check_request-Keeps :
        (creator : Creator)
        → Keeps (Guard c s req) (check_request go sort_slice times c s req creator)
    unfolding check_request
    check_request-Keeps creator w g = ground arith

    -- A size that passes the checks.
    check_request-Checked :
        (creator : Creator) (size : ℤ) (w : World)
        → (check_request go sort_slice times c s req creator w).0 ≡ ok size
        → Checked c s.is_auto_round_off_fs_size_enabled req creator size
    unfolding check_request
    check_request-Checked creator size w e = ground arith

    abbrev chosen : Bool → String → Creator
    chosen use_nfs nas_name = if use_nfs then nfs_creator nas_name else scsi_creator none

    -- A step that keeps the guard, and gives only plans that are checked.
    pub record Plans (m : M Plan) : Type 0 where
      pub keeps : Keeps (Guard c s req) m
      pub planned : (plan : Plan) (w : World) → (m w).0 ≡ ok plan → Planned plan

    -- A step before it, which keeps the guard.
    continue-Plans :
        {A : Type 0} (m : M A) (f : A → M Plan)
        → Keeps (Guard c s req) m
        → ((a : A) → Plans (f a))
        → Plans (m >>= f)
    continue-Plans m f kept next = record {
      keeps = λ w g.
          continue-Guarded (Guard c s req) (m w) f (kept w g)
            (λ a. (next a).keeps (m w).1 (kept w g));
      planned = λ plan w e.
          let (a, found, eq) = continue-ok (m w) f plan e in
          (next a).planned plan (m w).1 (sym (ap (λ o. o.0) eq) ∙ e);
    }

    module _ (arr : Option PowerStoreArray) where
      sized_plan-Plans :
          (use_nfs : Bool) (nas : String × String)
          → Plans (sized_plan go sort_slice times c s req arr use_nfs nas)
      unfolding sized_plan
      sized_plan-Plans use_nfs nas = record {
        keeps = λ w g.
            let kept = check_request-Keeps (chosen use_nfs nas.0) w g in
            continue-Guarded (Guard c s req)
              (check_request go sort_slice times c s req (chosen use_nfs nas.0) w) _ kept
              (λ size. kept);
        planned = λ plan w e.
            let (size, f, eq) =
              continue-ok (check_request go sort_slice times c s req (chosen use_nfs nas.0) w) _
                plan e in
            subst Planned (ok_injective (sym (ap (λ o. o.0) eq) ∙ e))
              (check_request-Checked (chosen use_nfs nas.0) size w f);
      }

      nas_plan-Plans : (use_nfs : Bool) → Plans (nas_plan go sort_slice times c s req arr use_nfs)
      unfolding nas_plan
      nas_plan-Plans use_nfs =
          continue-Plans (choose_nas go sort_slice times c s arr use_nfs req.parameters)
            (sized_plan go sort_slice times c s req arr use_nfs)
            (choose_nas-Keeps arr use_nfs req.parameters) (sized_plan-Plans use_nfs)

      refused-Plans :
          (refused : Bool) (m : M Plan)
          → Plans m
          → Plans (if refused then fail invalid_argument else m)
      refused-Plans true m p = record { keeps = λ w g. g; planned = λ plan w e. absurd (err-≢ e) }
      refused-Plans false m p = p

      plan_for-Plans :
          (access : AccessType) → Plans (plan_for go sort_slice times c s req arr access)
      unfolding plan_for
      plan_for-Plans access =
          let use_nfs = uses_nfs access req.parameters in
          refused-Plans (raw_block_of_nfs access req.parameters) _ (
            continue-Plans (require_topology go arr use_nfs req.accessibility)
              (λ _. nas_plan go sort_slice times c s req arr use_nfs)
              (require_topology-Keeps arr use_nfs req.accessibility) (λ _. nas_plan-Plans use_nfs))

      plan_first-Plans :
          (vcs : List VolumeCapability) → Plans (plan_first go sort_slice times c s req arr vcs)
      unfolding plan_first
      plan_first-Plans [] = record { keeps = λ w g. g; planned = λ plan w e. ground arith }
      plan_first-Plans (vc ∷ more) = plan_for-Plans vc.access_type

    pub prepare-Plans : Plans (prepare go sort_slice times c s req)
    unfolding prepare choose_array
    prepare-Plans =
        continue-Plans (choose_array go sort_slice times c s req.parameters) _
          (array_named-Keeps (find "arrayIP" req.parameters) (find "arrayID" req.parameters))
          (λ arr. plan_first-Plans arr req.volume_capabilities)
