-- ===== src/Nas.antt =====
-- The choice of a NAS server of pkg/array/array.go (`GetLeastUsedActiveNAS`).
pub mod Laws
use test_powerstore_automati.Base.{
  ℕ, Bool, true, false, not, ◌&&◌, ◌||◌, Option, none, some, List, [], ◌∷◌, String, Dict, insert,
  lookup, or_default, length, ltb, ◌=ℕ◌, text_lt, if◌then◌else◌,
}
use test_powerstore_automati.Outcome.{other}
use test_powerstore_automati.Client.{
  Client, Nas, NasState, NasHealth, started, other_state, info, no_details, other_health,
  get_nas_servers,
}
use test_powerstore_automati.Client.Monad.{◌>>=◌, M, ret, throw, crash, call, if_error, if_missing}
use test_powerstore_automati.Cooldown.{NasCooldown, is_in_cooldown, fallback_retry}

unfoldable pub create_nas_map : List String → Dict Bool
create_nas_map [] = []
create_nas_map (nas ∷ nas_servers) = insert nas true (create_nas_map nas_servers)

abbrev pub is_started : NasState → Bool
is_started started = true
is_started other_state = false

abbrev pub is_healthy : NasHealth → Bool
is_healthy info = true
is_healthy no_details = true
is_healthy other_health = false

-- The tracker at the time at which it is asked.
module _ (tracker : NasCooldown) (now : ℕ) where
  unfoldable pub is_eligible_nas : Dict Bool → Nas → Bool
  is_eligible_nas nas_map nas =
      or_default (lookup nas.name nas_map) false
      && (not (is_in_cooldown nas.name now tracker)
          && (is_started nas.operational_status && is_healthy nas.health_state))

  -- `GetNASInCooldown`
  unfoldable pub get_nas_in_cooldown : List String → List String
  get_nas_in_cooldown [] = []
  get_nas_in_cooldown (nas ∷ nas_servers) =
      let rest = get_nas_in_cooldown nas_servers in
      if is_in_cooldown nas now tracker then nas ∷ rest else rest

unfoldable pub is_less_used : Nas → Nas → Bool
is_less_used nas current =
    ltb (length nas.file_systems) (length current.file_systems)
    || (length nas.file_systems =ℕ length current.file_systems && text_lt nas.name current.name)

-- `if leastUsedNAS == nil || IsLessUsed(nas, leastUsedNAS) { leastUsedNAS = nas }`
abbrev pub less_used : Nas → Option Nas → Nas
less_used nas none = nas
less_used nas (some current) = if is_less_used nas current then nas else current

-- The loop, from the servers that are left and the one that is chosen so far.
unfoldable pub find_from : (Nas → Bool) → List Nas → Option Nas → Option Nas
find_from eligible [] chosen = chosen
find_from eligible (nas ∷ nas_list) chosen =
    find_from eligible nas_list (if eligible nas then some (less_used nas chosen) else chosen)

unfoldable pub find_least_used_active_nas : NasCooldown → ℕ → List Nas → Dict Bool → Option Nas
find_least_used_active_nas tracker now nas_list nas_map =
    find_from (is_eligible_nas tracker now nas_map) nas_list none

-- `now` is the time of the loop, and `later` the time at which the servers in cooldown are looked
-- for; each loop reads the clock as often as it asks the tracker, and the readings are taken to be
-- equal.
module _ (c : Client) (sort_slice : (String → String → Bool) → List String → List String)
    (tracker : NasCooldown) (now later : ℕ) (connection : String) where
  unfoldable pub fall_back : List String → M String
  fall_back [] =
      throw (other "no suitable NAS server found, please ensure the NAS is running and healthy")
  fall_back (nas ∷ cooling) =
      if_missing (fallback_retry sort_slice (nas ∷ cooling) tracker) crash ret

  unfoldable pub get_least_used_active_nas : List String → M String
  get_least_used_active_nas nas_servers = do
    listed ← call c connection get_nas_servers
    if_error listed throw (λ nas_list.
        if_missing (find_least_used_active_nas tracker now nas_list (create_nas_map nas_servers))
          (fall_back (get_nas_in_cooldown tracker later nas_servers)) (λ nas. ret nas.name))
