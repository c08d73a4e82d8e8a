-- ===== src/Controller/Create/Calls.antt =====
-- The calls of `CreateVolume` for volume groups and the service tag create no volume.
use test_powerstore_automati.Base.{
  not, String, Dict, arith, Option-cases, Bool-cases, inl, inr, is_empty, ◌&&◌, ◌<>◌, ◌==◌,
}
use test_powerstore_automati.Outcome.{says, not_found, ok, err, panic, Outcome}
use test_powerstore_automati.Client.{
  get_fs, get_volume_group_by_name, get_policy_by_name, get_remote_by_name, Client, Event, History,
  VolumeGroup,
}
use test_powerstore_automati.Client.Monad.{World, asked}
use test_powerstore_automati.Client.Invariants.{Keeps, Guarded, continue-Guarded}
use test_powerstore_automati.Controller.{Service}
use test_powerstore_automati.Controller.Replication.Policies.{
  ensure_protection_policy_exists, create_with_rule, ensure_replication_rule_exists,
}
use test_powerstore_automati.Controller.Create.Requests.{GoText, CreateRequest}
use test_powerstore_automati.Controller.Create.Prepare.{internal_error}
use test_powerstore_automati.Controller.Create.Grouping.{
  ensured_policy, new_group, existing_group, find_or_make_group,
}
use test_powerstore_automati.Controller.Create.ServiceTag.{
  tag_of_appliance, tag_of_volume, tag_of_nas, tag_of_fs, get_service_tag,
}
use test_powerstore_automati.Controller.Create.Guard.{CreatesChecked}

module _ (c : Client) (s : Service) (req : CreateRequest) where
  -- The guard of this request.
  abbrev pub Guard : Event → History → Type 0
  Guard = CreatesChecked c s.is_auto_round_off_fs_size_enabled req

  module _ (connection : String) where
    ensure_replication_rule_exists-Keeps :
        (vg remote rpo : String)
        → Keeps Guard (ensure_replication_rule_exists c connection vg remote rpo)
    unfolding ensure_replication_rule_exists
    ensure_replication_rule_exists-Keeps vg remote rpo w g = ground arith

    create_with_rule-Keeps :
        (vg remote rpo : String) → Keeps Guard (create_with_rule c connection vg remote rpo)
    unfolding create_with_rule
    create_with_rule-Keeps vg remote rpo w g =
        ground (arith, ensure_replication_rule_exists-Keeps vg remote rpo w g)

    ensure_protection_policy_exists-Keeps :
        (vg remote rpo : String)
        → Keeps Guard (ensure_protection_policy_exists c connection vg remote rpo)
    unfolding ensure_protection_policy_exists
    ensure_protection_policy_exists-Keeps vg remote rpo w g =
        let read = asked connection (get_remote_by_name remote) w in
        let named = asked connection (get_policy_by_name ("pp-" <> vg)) read in
        let rs = c w.history connection (get_remote_by_name remote) in
        elim (Option-cases rs.error) [
          | inr (x, e) ↦ rw e (tt, g)
          | inl e ↦
              elim (Option-cases
                (c read.history connection (get_policy_by_name ("pp-" <> vg))).error) [
                  | inl f ↦ rw (e, f) (tt, (tt, g))
                  | inr (x, f) ↦
                      rw (e, f) (create_with_rule-Keeps vg rs.value.id rpo named (tt, (tt, g)))
                ]
        ]

    pub internal_error-Keeps :
        {A : Type 0} (o : Outcome A × World)
        → Guarded Guard o.1.history
        → Guarded Guard (internal_error o).1.history
    internal_error-Keeps (ok a, w) g = g
    internal_error-Keeps (err e, w) g = g
    internal_error-Keeps (panic, w) g = g

    ensured_policy-Keeps :
        (vg remote rpo : String) → Keeps Guard (ensured_policy c connection vg remote rpo)
    ensured_policy-Keeps vg remote rpo w g =
        internal_error-Keeps (ensure_protection_policy_exists c connection vg remote rpo w)
          (ensure_protection_policy_exists-Keeps vg remote rpo w g)

    new_group-Keeps : (vg remote rpo : String) → Keeps Guard (new_group c connection vg remote rpo)
    unfolding new_group
    new_group-Keeps vg remote rpo w g =
        continue-Guarded Guard (ensured_policy c connection vg remote rpo w) _
          (ensured_policy-Keeps vg remote rpo w g)
          (λ policy. ground (arith, ensured_policy-Keeps vg remote rpo w g))

    existing_group-Keeps :
        (vg : VolumeGroup) (mode name remote rpo : String)
        → Keeps Guard (existing_group c connection vg mode name remote rpo)
    unfolding existing_group
    existing_group-Keeps vg mode name remote rpo w g =
        let kept = ensured_policy-Keeps name remote rpo w g in
        elim (Bool-cases (mode == "SYNC" && not vg.is_write_order_consistent)) [
          | inl e ↦ rw e g
          | inr e ↦ elim (Bool-cases (not (is_empty vg.protection_policy_id))) [
            | inl f ↦ rw (e, f) g
            | inr f ↦
                rw (e, f)
                  (continue-Guarded Guard (ensured_policy c connection name remote rpo w) _ kept
                    (λ policy. ground (arith, kept)))
          ]
        ]

    pub find_or_make_group-Keeps :
        (mode name remote rpo : String)
        → Keeps Guard (find_or_make_group c connection mode name remote rpo)
    unfolding find_or_make_group
    find_or_make_group-Keeps mode name remote rpo w g =
        let found = c w.history connection (get_volume_group_by_name name) in
        let read = asked connection (get_volume_group_by_name name) w in
        elim (Option-cases found.error) [
          | inl e ↦ rw e (existing_group-Keeps found.value mode name remote rpo read (tt, g))
          | inr (x, e) ↦ elim (Bool-cases (says not_found x)) [
            | inl f ↦ rw (e, f) (new_group-Keeps name remote rpo read (tt, g))
            | inr f ↦ rw (e, f) (tt, g)
          ]
        ]

    module _ (go : GoText) where
      tag_of_nas-Keeps : (id : String) → Keeps Guard (tag_of_nas go c connection id)
      unfolding tag_of_nas
      tag_of_nas-Keeps id w g = ground arith

      tag_of_fs-Keeps : (id : String) → Keeps Guard (tag_of_fs go c connection id)
      unfolding tag_of_fs
      tag_of_fs-Keeps id w g =
          let f = c w.history connection (get_fs id) in
          let read = asked connection (get_fs id) w in
          elim (Bool-cases (is_empty f.value.nas_server_id)) [
            | inl e ↦ rw e (tt, g)
            | inr e ↦ rw e (tag_of_nas-Keeps f.value.nas_server_id read (tt, g))
          ]

      tag_of_volume-Keeps : (id : String) → Keeps Guard (tag_of_volume go c connection id)
      unfolding tag_of_volume tag_of_appliance
      tag_of_volume-Keeps id w g = ground arith

      pub get_service_tag-Keeps :
          (params : Dict String) (id protocol : String)
          → Keeps Guard (get_service_tag go c connection params id protocol)
      unfolding get_service_tag tag_of_appliance
      get_service_tag-Keeps params id protocol w g =
          ground (arith, tag_of_fs-Keeps id w g, tag_of_volume-Keeps id w g)
