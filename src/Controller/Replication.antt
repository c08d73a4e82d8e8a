-- ===== src/Controller/Replication.antt =====
-- Replication sessions and protection groups: pkg/controller/replication.go. Of `Status.State` and
-- the state names of gopowerstore the latter are a parameter, `state_text`.
pub mod States
pub mod Policies
pub mod Uuid
pub mod Peers
pub mod Sessions
pub mod Groups
use test_powerstore_automati.Base.{
  Bool, true, false, not, ◌&&◌, ◌||◌, Option, none, some, List, [], ◌∷◌, String, ◌<>◌, Dict, lookup,
  is_empty, ◌==◌, if◌then◌else◌, split,
}
use test_powerstore_automati.Outcome.{
  Error, api, status, other, says, invalid_argument, internal, unknown, aborted, not_found,
  unable_to_failover, Outcome, ok, err, panic,
}
use test_powerstore_automati.Client.{
  Client, ReplicationSession, ProtectionPolicy, ReplicationRule, VolumeGroup, Volume, RsAction,
  resume, reprotect, pause, failover, sync, FailoverParams, Reply, get_session_by_resource,
  execute_action, get_volume_group, modify_volume_group, delete_volume_group, get_policy_by_name,
  delete_policy, get_rule_by_name, delete_rule, get_volume, get_volume_groups_by_volume,
  delete_volume, get_remote_by_name, create_policy, create_rule,
}
use test_powerstore_automati.Client.Monad.{
  World, M, ret, throw, fail, call, ◌>>=◌, ◌>>◌, continue, if_error, if_missing,
}
use test_powerstore_automati.Controller.{Service}
use test_powerstore_automati.Controller.Delete.{is_nil}
use test_powerstore_automati.Controller.Replication.States.{
  ActionType, GroupStatus, StateName, group_state, validate_rs_state, planned_action,
}

-- `apiErr, ok := err.(gopowerstore.APIError); ok && !apiErr.NotFound()`
abbrev pub is_failure : Error → Bool
is_failure (api e) = not (e.holds not_found)
is_failure (status code) = false
is_failure (other m) = false

module _ (c : Client) (connection : String) where
  -- `ExecuteAction`. Of the errors of the action only one is passed on.
  unfoldable pub run_action : ReplicationSession → RsAction → Option FailoverParams → M (Unit {0})
  run_action session action params =
      let v = validate_rs_state session.state action in
      if v.in_desired_state
      then ret tt
      else if not v.action_required
      then fail aborted
      else call c connection (execute_action session.id action params) >>= (λ done.
        if_error done (λ x. if says unable_to_failover x then fail internal else ret tt)
          (λ _. ret tt))

  -- `GetStorageProtectionGroupStatus`, on the array that was found.
  unfoldable pub status_on : (StateName → String) → String → M GroupStatus
  status_on state_text group = do
    found ← call c connection (get_session_by_resource group)
    if_error found throw (λ rs. ret (record {
      state = group_state state_text rs.state;
      is_source = not (rs.role == "Destination");
    }))

  -- Removes the volume group, if it could be read, from its policy and from the array. Errors that
  -- are no `APIError` are passed over here and below.
  unfoldable pub delete_group_of : String → VolumeGroup → M (Unit {0})
  delete_group_of group vg =
      if is_empty vg.id
      then ret tt
      else (if is_empty vg.protection_policy_id
          then ret tt
          else call c connection (modify_volume_group "" group) >>= (λ changed.
            if_error changed (λ x. if is_failure x then fail internal else ret tt) (λ _. ret tt)))
        >>= (λ _. call c connection (delete_volume_group group) >>= (λ deleted.
            if_error deleted (λ x. if is_failure x then fail internal else ret tt) (λ _. ret tt)))

  unfoldable pub delete_policy_of : ProtectionPolicy → M (Unit {0})
  delete_policy_of pp =
      if not (is_empty pp.id) && (is_nil pp.volumes && is_nil pp.volume_groups)
      then call c connection (delete_policy pp.id) >>= (λ deleted.
        if_error deleted (λ x. if is_failure x then fail internal else ret tt) (λ _. ret tt))
      else ret tt

  unfoldable pub delete_rule_of : ReplicationRule → M (Unit {0})
  delete_rule_of rr =
      if not (is_empty rr.id) && is_nil rr.protection_policies
      then call c connection (delete_rule rr.id) >>= (λ deleted.
        if_error deleted (λ x. if is_failure x then fail internal else ret tt) (λ _. ret tt))
      else ret tt

  -- An answer beside an error that is not a failure is the one of the client.
  abbrev pub unless_failure : {A : Type 0} → Reply A → (A → M (Unit {0})) → M (Unit {0})
  unless_failure reply next =
      if_error reply (λ x. if is_failure x then fail internal else next reply.value) next

  unfoldable pub find_and_delete_rule : String → M (Unit {0})
  find_and_delete_rule name = do
    rule ← call c connection (get_rule_by_name ("rr-" <> name))
    unless_failure rule delete_rule_of

  unfoldable pub find_and_delete_policy : String → M (Unit {0})
  find_and_delete_policy name = do
    policy ← call c connection (get_policy_by_name ("pp-" <> name))
    unless_failure policy delete_policy_of

  unfoldable pub find_and_delete_group : String → M (Unit {0})
  find_and_delete_group group = do
    found ← call c connection (get_volume_group group)
    unless_failure found (delete_group_of group)

  -- The policy and the rule of the group, named after it.
  unfoldable pub delete_policy_and_rule : String → M (Unit {0})
  delete_policy_and_rule name = do find_and_delete_policy name; find_and_delete_rule name

  -- `DeleteStorageProtectionGroup`, on the array that was found.
  unfoldable pub delete_group_on : String → Option String → M (Unit {0})
  delete_group_on group name = do
    find_and_delete_group group
    if_missing name (fail internal) delete_policy_and_rule

  unfoldable pub remove_local : String → M (Unit {0})
  remove_local id = do
    deleted ← call c connection (delete_volume id)
    if_error deleted (λ x. if says not_found x then ret tt else fail internal) (λ _. ret tt)

  -- The volume is left alone while it is in a group or under a policy.
  unfoldable pub remove_local_if_free : String → Volume → List VolumeGroup → M (Unit {0})
  remove_local_if_free id vol groups =
      if not (is_nil groups)
      then fail internal
      else if not (is_empty vol.protection_policy_id)
      then fail internal
      else remove_local id

  -- `DeleteLocalVolume`, on the array that was found.
  unfoldable pub delete_local_on : String → M (Unit {0})
  delete_local_on id = do
    found ← call c connection (get_volume id)
    if_error found (λ x. if says not_found x then ret tt else fail internal)
        (λ vol. call c connection (get_volume_groups_by_volume id) >>= (λ groups.
          if_error groups
            (λ x. if says not_found x then remove_local_if_free id vol groups.value else throw x)
            (remove_local_if_free id vol)))

module _ (c : Client) (s : Service) (state_text : StateName → String) where
  -- The array named by the attributes of the protection group.
  abbrev pub with_array : {A : Type 0} → Dict String → (String → M A) → M A
  with_array attributes next =
      if_missing (lookup (s.replication_context_prefix <> "globalID") attributes)
        (fail invalid_argument)
        (λ id.
          if_missing (lookup id s.known.arrays) (fail invalid_argument)
            (λ arr. next arr.connection))

  unfoldable pub get_storage_protection_group_status : Dict String → String → M GroupStatus
  get_storage_protection_group_status attributes group =
      with_array attributes (λ connection. status_on c connection state_text group)

  -- An error of the status becomes an internal one.
  abbrev pub wrapped_status : Outcome GroupStatus × World → Outcome GroupStatus × World
  wrapped_status (err e, w) = fail internal w
  wrapped_status other_outcome = other_outcome

  unfoldable pub act_on : Dict String → String → ActionType → String → M GroupStatus
  act_on attributes group action connection = do
    session ← call c connection (get_session_by_resource group)
    if_error session throw (λ rs. if_missing (planned_action action) (fail unknown) (λ planned.
        run_action c connection rs planned.0 planned.1
        >>= (λ _. λ w. wrapped_status (get_storage_protection_group_status attributes group w))))

  -- `Service.ExecuteAction`
  unfoldable pub execute_action_request : Dict String → String → ActionType → M GroupStatus
  execute_action_request attributes group action =
      with_array attributes (act_on attributes group action)

  unfoldable pub delete_storage_protection_group : Dict String → String → M (Unit {0})
  delete_storage_protection_group attributes group = with_array attributes (λ connection.
      delete_group_on c connection group
        (lookup (s.replication_context_prefix <> "VolumeGroupName") attributes))

  unfoldable pub delete_local_parts : List String → M (Unit {0})
  delete_local_parts (id ∷ global_id ∷ protocol ∷ []) =
      if_missing (lookup global_id s.known.arrays) (fail invalid_argument)
        (λ arr. delete_local_on c arr.connection id)
  delete_local_parts _ = fail invalid_argument

  unfoldable pub delete_local_volume : String → M (Unit {0})
  delete_local_volume handle = delete_local_parts (split b'/' handle)

module _ (s : Service) where
  -- `WithRP`
  unfoldable pub with_rp : String → String
  with_rp key =
      if is_empty s.replication_prefix
      then "replication.storage.dell.com" <> ("/" <> key)
      else s.replication_prefix <> ("/" <> key)
