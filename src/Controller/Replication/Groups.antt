-- ===== src/Controller/Replication/Groups.antt =====
-- What the deletion of protection groups and of local volumes asks of the array.
use test_powerstore_automati.Base.{
  ◌≡◌, true, none, some, Option, List, [], ◌∷◌, String, ◌<>◌, ◌==◌, Dict, arith, lookup,
  Option-cases, inl, inr, split,
}
use test_powerstore_automati.Client.{
  Client, Event, History, Request, VolumeGroup, get_policy_by_name, get_rule_by_name, delete_policy,
  delete_rule, delete_volume, get_volume, get_volume_groups_by_volume, get_volume_group,
}
use test_powerstore_automati.Client.Monad.{World, asked}
use test_powerstore_automati.Client.Invariants.{Guarded, Keeps}
use test_powerstore_automati.Controller.{Service}
use test_powerstore_automati.Controller.Replication.{
  delete_group_of, delete_policy_of, delete_rule_of, find_and_delete_rule, find_and_delete_policy,
  find_and_delete_group, delete_policy_and_rule, delete_group_on, delete_storage_protection_group,
  remove_local, remove_local_if_free, delete_local_on, delete_local_parts, delete_local_volume,
}
use test_powerstore_automati.Controller.Replication.States.{StateName}

abbrev event : String → Request → Event
event connection r = record { connection = connection; request = r }

module _ (c : Client) where
  abbrev UnusedGuard : String → Request → History → Type 0
  UnusedGuard connection (delete_policy id) h =
      (before : History) × (name : String) × (h
        ≡ event connection (get_policy_by_name name) ∷ before)
      × ((c before connection (get_policy_by_name name)).value.id ≡ id)
      × ((c before connection (get_policy_by_name name)).value.volumes ≡ [])
      × ((c before connection (get_policy_by_name name)).value.volume_groups ≡ [])
  UnusedGuard connection (delete_rule id) h =
      (before : History) × (name : String) × (h ≡ event connection (get_rule_by_name name) ∷ before)
      × ((c before connection (get_rule_by_name name)).value.id ≡ id)
      × ((c before connection (get_rule_by_name name)).value.protection_policies ≡ [])
  UnusedGuard connection _ h = Unit

  -- A policy or a rule is deleted right after it was read, and nothing used it.
  abbrev pub DeletesUnused : Event → History → Type 0
  DeletesUnused e h = UnusedGuard e.connection e.request h

  abbrev Safe : World → Type 0
  Safe w = Guarded DeletesUnused w.history

  module _ (connection : String) where
    delete_policy_of-Safe :
        (name : String) (w : World)
        → Safe w
        → Safe
            (delete_policy_of c connection
              (c w.history connection (get_policy_by_name name)).value
              (asked connection (get_policy_by_name name) w)).1
    unfolding delete_policy_of
    delete_policy_of-Safe name w g = ground arith

    find_and_delete_policy-Keeps :
        (name : String) → Keeps DeletesUnused (find_and_delete_policy c connection name)
    unfolding find_and_delete_policy
    find_and_delete_policy-Keeps name w g =
        ground (arith, delete_policy_of-Safe ("pp-" <> name) w g)

    delete_rule_of-Safe :
        (name : String) (w : World)
        → Safe w
        → Safe
            (delete_rule_of c connection
              (c w.history connection (get_rule_by_name name)).value
              (asked connection (get_rule_by_name name) w)).1
    unfolding delete_rule_of
    delete_rule_of-Safe name w g = ground arith

    find_and_delete_rule-Keeps :
        (name : String) → Keeps DeletesUnused (find_and_delete_rule c connection name)
    unfolding find_and_delete_rule
    find_and_delete_rule-Keeps name w g = ground (arith, delete_rule_of-Safe ("rr-" <> name) w g)

    delete_group_of-Keeps :
        (group : String) (vg : VolumeGroup)
        → Keeps DeletesUnused (delete_group_of c connection group vg)
    unfolding delete_group_of
    delete_group_of-Keeps group vg w g = ground arith

    find_and_delete_group-Keeps :
        (group : String) → Keeps DeletesUnused (find_and_delete_group c connection group)
    unfolding find_and_delete_group
    find_and_delete_group-Keeps group w g = ground (
      arith,
      delete_group_of-Keeps group (c w.history connection (get_volume_group group)).value
          (asked connection (get_volume_group group) w),
    )

    delete_policy_and_rule-Keeps :
        (name : String) → Keeps DeletesUnused (delete_policy_and_rule c connection name)
    unfolding delete_policy_and_rule
    delete_policy_and_rule-Keeps name w g = ground (
      arith,
      find_and_delete_policy-Keeps name w g,
      find_and_delete_rule-Keeps name (find_and_delete_policy c connection name w).1,
    )

    delete_group_on-Keeps :
        (group : String) (name : Option String)
        → Keeps DeletesUnused (delete_group_on c connection group name)
    unfolding delete_group_on
    delete_group_on-Keeps group none w g = ground (arith, find_and_delete_group-Keeps group w g)
    delete_group_on-Keeps group (some n) w g = ground (
      arith,
      find_and_delete_group-Keeps group w g,
      delete_policy_and_rule-Keeps n (find_and_delete_group c connection group w).1,
    )

  -- Whatever the array answers, `DeleteStorageProtectionGroup` deletes a protection policy or a
  -- replication rule only right after it read that policy without volumes and volume groups, or
  -- that rule without policies. The calls before the handler's are taken to be such.
  pub delete_storage_protection_group-Keeps :
      (s : Service) (state_text : StateName → String) (attributes : Dict String) (group : String)
      (w : World)
      → Guarded DeletesUnused w.history
      → Guarded DeletesUnused
          (delete_storage_protection_group c s state_text attributes group w).1.history
  unfolding delete_storage_protection_group
  delete_storage_protection_group-Keeps s state_text attributes group w g =
      elim (Option-cases (lookup (s.replication_context_prefix <> "globalID") attributes)) [
        | inl e ↦ rw e g
        | inr (id, e) ↦ rw e (elim (Option-cases (lookup id s.known.arrays)) [
          | inl e ↦ rw e g
          | inr (arr, e) ↦ rw e (delete_group_on-Keeps arr.connection group _ w g)
        ])
      ]

  abbrev FreeGuard : String → Request → History → Type 0
  FreeGuard connection (delete_volume id) h =
      (before : History) × (h
        ≡ event connection (get_volume_groups_by_volume id)
          ∷ event connection (get_volume id)
          ∷ before)
      × ((c before connection (get_volume id)).error ≡ none)
      × ((c before connection (get_volume id)).value.protection_policy_id == "" ≡ true)
      × ((c (event connection (get_volume id) ∷ before) connection
            (get_volume_groups_by_volume id)).value
          ≡ [])
  FreeGuard connection _ h = Unit

  -- A volume is deleted right after it was read without a policy, and in no volume group.
  abbrev pub DeletesFree : Event → History → Type 0
  DeletesFree e h = FreeGuard e.connection e.request h

  abbrev SafeLocal : World → Type 0
  SafeLocal w = Guarded DeletesFree w.history

  module _ (connection id : String) (before : World) (g : SafeLocal before)
      (fine : (c before.history connection (get_volume id)).error ≡ none) where
    abbrev read : World
    read =
        asked connection (get_volume_groups_by_volume id) (asked connection (get_volume id) before)

    remove_local_if_free-Safe :
        SafeLocal
          (remove_local_if_free c connection id
            (c before.history connection (get_volume id)).value
            (c
              (event connection (get_volume id) ∷ before.history)
              connection
              (get_volume_groups_by_volume id)).value
            read).1
    unfolding remove_local_if_free remove_local
    remove_local_if_free-Safe = ground arith

  delete_local_on-Keeps :
      (connection id : String) → Keeps DeletesFree (delete_local_on c connection id)
  unfolding delete_local_on
  delete_local_on-Keeps connection id w g =
      ground (arith, remove_local_if_free-Safe connection id w g)

  delete_local_parts-Keeps :
      (s : Service) (state_text : StateName → String) (parts : List String)
      → Keeps DeletesFree (delete_local_parts c s state_text parts)
  unfolding delete_local_parts
  delete_local_parts-Keeps s state_text (id ∷ global_id ∷ protocol ∷ []) w g =
      elim (Option-cases (lookup global_id s.known.arrays)) [
        | inl e ↦ rw e g
        | inr (arr, e) ↦ rw e (delete_local_on-Keeps arr.connection id w g)
      ]
  delete_local_parts-Keeps s state_text [] w g = g
  delete_local_parts-Keeps s state_text (a ∷ []) w g = g
  delete_local_parts-Keeps s state_text (a ∷ b ∷ []) w g = g
  delete_local_parts-Keeps s state_text (a ∷ b ∷ d ∷ e ∷ more) w g = g

  -- Whatever the array answers, `DeleteLocalVolume` deletes a volume only right after the array
  -- has answered, without an error, that the volume is under no protection policy, and then has
  -- answered an empty list of its volume groups. The calls before the handler's are taken to be
  -- such.
  pub delete_local_volume-Keeps :
      (s : Service) (state_text : StateName → String) (handle : String) (w : World)
      → Guarded DeletesFree w.history
      → Guarded DeletesFree (delete_local_volume c s state_text handle w).1.history
  unfolding delete_local_volume
  delete_local_volume-Keeps s state_text handle w g =
      delete_local_parts-Keeps s state_text (split b'/' handle) w g
