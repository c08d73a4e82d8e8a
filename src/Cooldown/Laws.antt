-- ===== src/Cooldown/Laws.antt =====
-- What the tracker answers, from the history of its calls alone.
use test_powerstore_automati.Base.{
  ℕ, zero, suc, ◌+◌, ◌≡◌, refl, ◌∙◌, ◌&&◌, Option, none, some, List, [], ◌∷◌, arith, String, lookup,
  lookup-insert, lookup-erase, ltb, leb, ◌==◌, eq_iff, if◌then◌else◌,
}
use test_powerstore_automati.Cooldown.{
  NasStatus, NasCooldown, new_nas_cooldown, mark_failure, is_in_cooldown, reset_failure, cools_at,
  failed_status,
}

-- A call that changes the tracker. In a history the latest call stands first.
pub data TrackerCall : Type 0 where
  mark : String → ℕ → TrackerCall
  reset : String → TrackerCall

abbrev pub apply_call : TrackerCall → NasCooldown → NasCooldown
apply_call (mark nas now) n = mark_failure nas now n
apply_call (reset nas) n = reset_failure nas n

unfoldable pub run_calls : ℕ → ℕ → List TrackerCall → NasCooldown
run_calls period limit [] = new_nas_cooldown period limit
run_calls period limit (call ∷ calls) = apply_call call (run_calls period limit calls)

-- The marks of a server since its last reset, and the time of the latest of them.
abbrev pub failure_count : String → List TrackerCall → ℕ
failure_count nas [] = 0
failure_count nas (mark m now ∷ calls) =
    if m == nas then suc (failure_count nas calls) else failure_count nas calls
failure_count nas (reset m ∷ calls) = if m == nas then 0 else failure_count nas calls

abbrev pub last_failure : String → List TrackerCall → ℕ
last_failure nas [] = 0
last_failure nas (mark m now ∷ calls) = if m == nas then now else last_failure nas calls
last_failure nas (reset m ∷ calls) = last_failure nas calls

-- The entry that a history leaves.
abbrev expected_entry : ℕ → ℕ → ℕ → ℕ → Option NasStatus
expected_entry period limit zero last = none
expected_entry period limit (suc k) last =
    some
      (record { failures = suc k; cooldown_until = if leb limit (suc k) then last + period else 0 })

lookup-mark :
    (m nas : String) (now : ℕ) (n : NasCooldown)
    → lookup nas (mark_failure m now n).status_map ≡ (
        if m == nas
        then some (failed_status n.cooldown_period n.threshold now (lookup nas n.status_map))
        else lookup nas n.status_map)
unfolding mark_failure
lookup-mark m nas now n = lookup-insert m nas _ _ ∙ ground (arith, eq_iff m nas)

module _ (period limit : ℕ) (nas : String) where
  period-run : (calls : List TrackerCall) → (run_calls period limit calls).cooldown_period ≡ period
  unfolding run_calls new_nas_cooldown mark_failure reset_failure
  period-run [] = refl
  period-run (mark m now ∷ calls) = period-run calls
  period-run (reset m ∷ calls) = period-run calls

  threshold-run : (calls : List TrackerCall) → (run_calls period limit calls).threshold ≡ limit
  unfolding run_calls new_nas_cooldown mark_failure reset_failure
  threshold-run [] = refl
  threshold-run (mark m now ∷ calls) = threshold-run calls
  threshold-run (reset m ∷ calls) = threshold-run calls

  failed-expected :
      (k last now : ℕ)
      → some (failed_status period limit now (expected_entry period limit k last))
        ≡ expected_entry period limit (suc k) now
  failed-expected zero last now = ground arith
  failed-expected (suc k) last now = ground arith

  cools-expected :
      (now k last : ℕ)
      → cools_at now (expected_entry period limit k last)
        ≡ (ltb 0 k && (leb limit k && ltb now (last + period)))
  cools-expected now zero last = ground arith
  cools-expected now (suc k) last = ground arith

  lookup-run :
      (calls : List TrackerCall)
      → lookup nas (run_calls period limit calls).status_map
        ≡ expected_entry period limit (failure_count nas calls) (last_failure nas calls)
  unfolding run_calls new_nas_cooldown reset_failure lookup
  lookup-run [] = refl
  lookup-run (mark m now ∷ calls) =
      lookup-mark m nas now (run_calls period limit calls)
      ∙ rw (period-run calls, threshold-run calls, lookup-run calls)
          (ground (arith, failed-expected (failure_count nas calls) (last_failure nas calls) now))
  lookup-run (reset m ∷ calls) = lookup-erase m nas _ ∙ ground (arith, lookup-run calls)

  -- After any calls, a server is in cooldown exactly if it has failed since its last reset, at
  -- least as often as the threshold says, and less than the period has passed since the last
  -- failure. Calls about other servers do not matter.
  pub is_in_cooldown-run :
      (now : ℕ) (calls : List TrackerCall)
      → is_in_cooldown nas now (run_calls period limit calls) ≡ (
          ltb 0 (failure_count nas calls)
          && (leb limit (failure_count nas calls) && ltb now (last_failure nas calls + period)))
  unfolding is_in_cooldown
  is_in_cooldown-run now calls =
      rw (lookup-run calls) (cools-expected now (failure_count nas calls) (last_failure nas calls))
