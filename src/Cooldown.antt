-- ===== src/Cooldown.antt =====
-- The NAS cooldown tracker of pkg/array/array.go: failures of each NAS server are counted, and from
-- the threshold on a server is left alone for the cooldown period. Times are numbers, with 0 for
-- Go's zero time; the mutex makes each method one step.
pub mod Laws
pub mod Fallback
use test_powerstore_automati.Base.{
  ℕ, ◌+◌, Bool, true, false, Option, none, some, ◌∷◌, String, Dict, lookup, insert, erase, ltb, leb,
  List, [], if◌then◌else◌,
}

pub record NasStatus : Type 0 where
  pub failures : ℕ
  pub cooldown_until : ℕ

pub record NasCooldown : Type 0 where
  pub status_map : Dict NasStatus
  pub cooldown_period : ℕ
  pub threshold : ℕ

unfoldable pub new_nas_cooldown : ℕ → ℕ → NasCooldown
new_nas_cooldown period limit = record {
  status_map = [];
  cooldown_period = period;
  threshold = limit;
}

abbrev status_or_new : Option NasStatus → NasStatus
status_or_new none = record { failures = 0; cooldown_until = 0 }
status_or_new (some s) = s

-- The entry after one more failure at time `now`.
abbrev pub failed_status : ℕ → ℕ → ℕ → Option NasStatus → NasStatus
failed_status period limit now old =
    let s = status_or_new old in
    if leb limit (s.failures + 1)
    then record { failures = s.failures + 1; cooldown_until = now + period }
    else record { failures = s.failures + 1; cooldown_until = s.cooldown_until }

unfoldable pub mark_failure : String → ℕ → NasCooldown → NasCooldown
mark_failure nas now n = record n {
  status_map =
      insert nas (failed_status n.cooldown_period n.threshold now (lookup nas n.status_map))
        n.status_map;
}

abbrev pub cools_at : ℕ → Option NasStatus → Bool
cools_at now none = false
cools_at now (some s) = ltb now s.cooldown_until

unfoldable pub is_in_cooldown : String → ℕ → NasCooldown → Bool
is_in_cooldown nas now n = cools_at now (lookup nas n.status_map)

unfoldable pub reset_failure : String → NasCooldown → NasCooldown
reset_failure nas n = record n { status_map = erase nas n.status_map }

-- The order by which `FallbackRetry` sorts.
abbrev pub entry_less : Option NasStatus → Option NasStatus → Bool
entry_less none b = true
entry_less (some a) none = false
entry_less (some a) (some b) = ltb a.failures b.failures

unfoldable pub retry_less : NasCooldown → String → String → Bool
retry_less n a b = entry_less (lookup a n.status_map) (lookup b n.status_map)

-- `xs[0]`, with `none` for the panic on an empty slice.
abbrev pub first : List String → Option String
first [] = none
first (x ∷ xs) = some x

-- `sort.Slice` of the standard library is the parameter; `none` is the panic of `nasList[0]` on an
-- empty list.
unfoldable pub fallback_retry :
    ((String → String → Bool) → List String → List String)
    → List String
    → NasCooldown
    → Option String
fallback_retry sort_slice nas_list n = first (sort_slice (retry_less n) nas_list)
