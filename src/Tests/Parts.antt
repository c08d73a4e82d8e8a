-- ===== src/Tests/Parts.antt =====
-- Handles, sizes and the cooldown tracker on concrete input.
use mathlib.Core.List.{Mem, mem-cons_self, mem-append_right}
use mathlib.Core.List.Perm
use test_powerstore_automati.Base.{
  inl, inr, ℕ, ◌+◌, ◌≤◌, ◌<◌, ◌%◌, ◌≡◌, refl, Bool, true, false, ◌&&◌, ltb, leb, none, some, lookup,
  insert, List, [], ◌∷◌, String, arith,
}
use test_powerstore_automati.Base.Int64.{pos, lt_ℤ}
use test_powerstore_automati.Outcome.{ok}
use test_powerstore_automati.Cooldown.{
  NasCooldown, is_in_cooldown, fallback_retry, retry_less, new_nas_cooldown, mark_failure,
}
use test_powerstore_automati.Cooldown.Laws.{
  TrackerCall, mark, reset, run_calls, failure_count, last_failure, is_in_cooldown-run,
}
use test_powerstore_automati.Cooldown.Fallback.{IsSorting, recorded_failures, fallback_retry-least}
use test_powerstore_automati.Client.{Nas, started, info}
use test_powerstore_automati.Nas.{is_eligible_nas, create_nas_map, find_least_used_active_nas}
use test_powerstore_automati.Nas.Laws.{Serves, find_least_used_active_nas-Serves}
use test_powerstore_automati.Size.{
  check_size_scsi, check_size_nfs, volume_size_validation, max_volume_size_bytes,
}
use test_powerstore_automati.Size.Laws.{
  int64_answer, check_size_scsi-eq-answer, check_size_scsi-ok, nfs_answer, check_size_nfs-eq-answer,
}
use test_powerstore_automati.Arrays.Handle.{parse_volume_id}
use test_powerstore_automati.Arrays.Handle.RoundTrip.{
  print_local, print_handle, parse_volume_id-print_local, parse_volume_id-print_handle,
}
use test_powerstore_automati.Tests.{
  array_a, service, start, handle_of, metro_handle, scsi-IsPrintable, metro-IsPrintable,
}

parse_volume_id-print_local_example :
    parse_volume_id array_a service.known (print_local (handle_of "scsi")) none start
    ≡ (ok (handle_of "scsi"), start)
parse_volume_id-print_local_example =
    parse_volume_id-print_local array_a service.known none (handle_of "scsi") start scsi-IsPrintable
      refl refl

parse_volume_id-print_handle_example :
    parse_volume_id array_a service.known (print_handle metro_handle) none start
    ≡ (ok metro_handle, start)
parse_volume_id-print_handle_example =
    parse_volume_id-print_handle array_a service.known none metro_handle start metro-IsPrintable

abbrev calls : List TrackerCall
calls = mark "a" 20 ∷ mark "b" 15 ∷ mark "a" 10 ∷ reset "a" ∷ mark "a" 5 ∷ []

is_in_cooldown-run_example : is_in_cooldown "a" 60 (run_calls 50 2 calls) ≡ (
    ltb 0 (failure_count "a" calls)
    && (leb 2 (failure_count "a" calls) && ltb 60 (last_failure "a" calls + 50)))
is_in_cooldown-run_example = is_in_cooldown-run 50 2 "a" 60 calls

abbrev tracker : NasCooldown
tracker = mark_failure "b" 3 (new_nas_cooldown 50 2)

abbrev candidates : List String
candidates = "a" ∷ "b" ∷ []

abbrev given_order : (String → String → Bool) → List String → List String
given_order less xs = xs

candidates-IsSorting : IsSorting (retry_less tracker) candidates candidates
unfolding retry_less mark_failure new_nas_cooldown lookup insert
candidates-IsSorting = record { sorted = ((refl, tt), (tt, tt)); same_items = Perm.refl candidates }

first-candidate : fallback_retry given_order candidates tracker ≡ some "a"
unfolding fallback_retry
first-candidate = refl

accepted : check_size_scsi (pos 10000) (pos 20000) ≡ ok (pos 16384)
unfolding check_size_scsi volume_size_validation
accepted = refl

fallback_retry-least_example :
    Mem "a" candidates × (recorded_failures tracker "a" ≤ recorded_failures tracker "b")
fallback_retry-least_example =
    fallback_retry-least given_order tracker candidates candidates-IsSorting first-candidate "b"
      (mem-append_right ("a" ∷ []) mem-cons_self)

check_size_scsi-eq-answer_example :
    check_size_scsi (pos 10000) (pos 20000) ≡ int64_answer (pos 10000) (pos 20000)
check_size_scsi-eq-answer_example =
    check_size_scsi-eq-answer (pos 10000) (pos 20000) (omega arith) (omega arith)

check_size_scsi-ok_example :
    (n : ℕ) × (pos 16384 ≡ pos n)
    × (n % 8192 ≡ 0)
    × (0 < n)
    × (n ≤ max_volume_size_bytes)
    × (lt_ℤ (pos 16384) (pos 10000) ≡ false)
check_size_scsi-ok_example =
    check_size_scsi-ok (pos 10000) (pos 20000) (pos 16384) (omega arith) (omega arith) accepted

check_size_nfs-eq-answer_example : check_size_nfs (pos 1) (pos 1000) true ≡ nfs_answer 1 1000 true
check_size_nfs-eq-answer_example = check_size_nfs-eq-answer 1 1000 true (omega arith) (omega arith)

abbrev server : String → List String → Nas
server name used = record {
  id = name;
  name = name;
  operational_status = started;
  health_state = info;
  file_systems = used;
  preferred_interface_id = "if";
  current_node_id = "";
}

abbrev servers : List Nas
servers = server "a" ("f" ∷ []) ∷ server "b" [] ∷ []

eligible-server :
    is_eligible_nas (new_nas_cooldown 50 2) 9 (create_nas_map candidates) (server "b" []) ≡ true
unfolding is_eligible_nas is_in_cooldown new_nas_cooldown create_nas_map lookup insert
eligible-server = refl

find_least_used_active_nas-Serves_example :
    Serves
      (is_eligible_nas (new_nas_cooldown 50 2) 9 (create_nas_map candidates))
      (find_least_used_active_nas (new_nas_cooldown 50 2) 9 servers (create_nas_map candidates))
      (server "b" [])
find_least_used_active_nas-Serves_example =
    find_least_used_active_nas-Serves (new_nas_cooldown 50 2) 9 (create_nas_map candidates) servers
      (server "b" []) (inr (inl refl)) eligible-server
