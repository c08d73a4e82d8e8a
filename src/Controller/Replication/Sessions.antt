-- ===== src/Controller/Replication/Sessions.antt =====
-- What the actions of `ExecuteAction` ask of the array.
use test_powerstore_automati.Base.{
  ◌≡◌, none, Option, ◌∷◌, String, ◌<>◌, Dict, arith, lookup, Option-cases, inl, inr,
}
use test_powerstore_automati.Outcome.{Outcome, ok, err, panic}
use test_powerstore_automati.Client.{
  Client, Event, History, Request, RsAction, FailoverParams, get_session_by_resource,
  execute_action,
}
use test_powerstore_automati.Client.Monad.{World, asked}
use test_powerstore_automati.Client.Invariants.{Guarded, Keeps}
use test_powerstore_automati.Controller.{Service}
use test_powerstore_automati.Controller.Replication.{
  run_action, status_on, get_storage_protection_group_status, wrapped_status, act_on,
  execute_action_request,
}
use test_powerstore_automati.Controller.Replication.States.{
  StateName, ActionType, GroupStatus, needs_action, validate_rs_state, planned_action,
}

module _ (c : Client) where
  abbrev ActionGuard : String → Request → History → Type 0
  ActionGuard connection (execute_action id action params) h =
      (before : History) × (group : String) × (h
        ≡ record { connection = connection; request = get_session_by_resource group } ∷ before)
      × ((c before connection (get_session_by_resource group)).error ≡ none)
      × ((c before connection (get_session_by_resource group)).value.id ≡ id)
      × (validate_rs_state (c before connection (get_session_by_resource group)).value.state action
          ≡ needs_action)
  ActionGuard connection _ h = Unit

  -- An action is asked for right after its session was read, in a state that needs the action.
  abbrev pub ActsWhenNeeded : Event → History → Type 0
  ActsWhenNeeded e h = ActionGuard e.connection e.request h

  abbrev Safe : World → Type 0
  Safe w = Guarded ActsWhenNeeded w.history

  module _ (connection : String) where
    module _ (group : String) (before : World) (g : Safe before) where
      run_action-Safe :
          (action : RsAction) (params : Option FailoverParams)
          → (c before.history connection (get_session_by_resource group)).error ≡ none
          → Safe
              (run_action c connection
                (c before.history connection (get_session_by_resource group)).value
                action
                params
                (asked connection (get_session_by_resource group) before)).1
      unfolding run_action validate_rs_state
      run_action-Safe action params fine = ground arith

    status_on-Safe :
        (state_text : StateName → String) (group : String)
        → Keeps ActsWhenNeeded (status_on c connection state_text group)
    unfolding status_on
    status_on-Safe state_text group w g = ground arith

  module _ (s : Service) (state_text : StateName → String) (attributes : Dict String)
      (group : String) where
    status-Keeps :
        Keeps ActsWhenNeeded (get_storage_protection_group_status c s state_text attributes group)
    unfolding get_storage_protection_group_status
    status-Keeps w g =
        elim (Option-cases (lookup (s.replication_context_prefix <> "globalID") attributes)) [
          | inl e ↦ rw e g
          | inr (id, e) ↦ rw e (elim (Option-cases (lookup id s.known.arrays)) [
            | inl e ↦ rw e g
            | inr (arr, e) ↦ rw e (status_on-Safe arr.connection state_text group w g)
          ])
        ]

    wrapped-Safe :
        (o : Outcome GroupStatus × World) → Safe o.1 → Safe (wrapped_status c s state_text o).1
    wrapped-Safe (ok a, w) g = g
    wrapped-Safe (err e, w) g = g
    wrapped-Safe (panic, w) g = g

    act_on-Keeps :
        (action : ActionType) (connection : String)
        → Keeps ActsWhenNeeded (act_on c s state_text attributes group action connection)
    unfolding act_on
    act_on-Keeps action connection w g = elim (Option-cases (planned_action action)) [
      | inl e ↦ rw e (ground arith)
      | inr (p, e) ↦ rw e (
          let read = asked connection (get_session_by_resource group) w in
          let rs = (c w.history connection (get_session_by_resource group)).value in
          let done = run_action c connection rs p.0 p.1 read in
          ground (
            arith,
            run_action-Safe connection group w g p.0 p.1,
            wrapped-Safe
                (get_storage_protection_group_status c s state_text attributes group done.1),
            status-Keeps done.1,
          ))
    ]

    -- Whatever the array answers, `ExecuteAction` asks for an action on a replication session only
    -- right after it read that session, without an error, in a state in which `validateRSState`
    -- says that the action is required. The calls before the handler's are taken to be such.
    pub execute_action_request-Keeps :
        (action : ActionType) (w : World)
        → Guarded ActsWhenNeeded w.history
        → Guarded ActsWhenNeeded
            (execute_action_request c s state_text attributes group action w).1.history
    unfolding execute_action_request
    execute_action_request-Keeps action w g =
        elim (Option-cases (lookup (s.replication_context_prefix <> "globalID") attributes)) [
          | inl e ↦ rw e g
          | inr (id, e) ↦ rw e (elim (Option-cases (lookup id s.known.arrays)) [
            | inl e ↦ rw e g
            | inr (arr, e) ↦ rw e (act_on-Keeps action arr.connection w g)
          ])
        ]
