-- ===== src/Controller/Replication/States.antt =====
-- The states of a session and of a protection group, and the actions on them, of
-- pkg/controller/replication.go.
use test_powerstore_automati.Base.{
  Bool, true, false, ◌||◌, Option, none, some, List, [], ◌∷◌, String, ◌==◌, if◌then◌else◌,
}
use test_powerstore_automati.Client.{
  RsAction, resume, reprotect, pause, failover, sync, FailoverParams,
}

-- csiext.ActionTypes: the actions that the driver supports, and the others.
pub data ActionType : Type 0 where
  failover_remote unplanned_failover_local suspend resume_session : ActionType
  sync_session reprotect_local unsupported : ActionType

-- csiext.StorageProtectionGroupStatus_State
pub data GroupState : Type 0 where
  synchronized failedover suspended sync_in_progress invalid unknown_state : GroupState

pub record GroupStatus : Type 0 where
  pub state : GroupState
  pub is_source : Bool

-- The state constants of gopowerstore that `GetStorageProtectionGroupStatus` tells apart.
pub data StateName : Type 0 where
  rs_ok rs_failed_over rs_paused rs_paused_for_migration rs_paused_for_ndu : StateName
  rs_system_paused rs_failing_over rs_failing_over_for_dr rs_resuming rs_reprotecting : StateName
  rs_partial_cutover rs_synchronizing rs_initializing rs_error : StateName

abbrev pub is_any : (StateName → String) → String → List StateName → Bool
is_any state_text state [] = false
is_any state_text state (n ∷ ns) = state == state_text n || is_any state_text state ns

-- The `switch` over the session's state, its first matching case.
unfoldable pub group_state : (StateName → String) → String → GroupState
group_state state_text state =
    if is_any state_text state (rs_ok ∷ [])
    then synchronized
    else if is_any state_text state (rs_failed_over ∷ [])
    then failedover
    else if is_any state_text state
        (rs_paused ∷ rs_paused_for_migration ∷ rs_paused_for_ndu ∷ rs_system_paused ∷ [])
    then suspended
    else if is_any state_text state (
        rs_failing_over ∷ rs_failing_over_for_dr ∷ rs_resuming ∷ rs_reprotecting
        ∷ rs_partial_cutover ∷ rs_synchronizing ∷ rs_initializing ∷ [])
    then sync_in_progress
    else if is_any state_text state (rs_error ∷ [])
    then invalid
    else unknown_state

-- The named results of `validateRSState`.
pub record Validation : Type 0 where
  pub in_desired_state : Bool
  pub action_required : Bool

abbrev pub already_done : Validation
already_done = record { in_desired_state = true; action_required = false }

abbrev pub still_running : Validation
still_running = record { in_desired_state = false; action_required = false }

abbrev pub needs_action : Validation
needs_action = record { in_desired_state = false; action_required = true }

unfoldable pub validate_rs_state : String → RsAction → Validation
validate_rs_state state resume = if state == "OK" then already_done else needs_action
validate_rs_state state reprotect = if state == "OK" then already_done else needs_action
validate_rs_state state pause =
    if state == "Paused" || (state == "Paused_For_Migration" || state == "Paused_For_NDU")
    then already_done
    else needs_action
validate_rs_state state failover =
    if state == "Failing_Over"
    then still_running
    else if state == "Failed_Over"
    then already_done
    else needs_action
validate_rs_state state sync = needs_action

-- The action on the session, and the parameters of a failover.
abbrev pub planned_action : ActionType → Option (RsAction × Option FailoverParams)
planned_action failover_remote =
    some (failover, some (record { is_planned = true; reverse = false }))
planned_action unplanned_failover_local =
    some (failover, some (record { is_planned = false; reverse = false }))
planned_action suspend = some (pause, none)
planned_action resume_session = some (resume, none)
planned_action sync_session = some (sync, none)
planned_action reprotect_local = some (reprotect, none)
planned_action unsupported = none
