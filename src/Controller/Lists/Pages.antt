-- ===== src/Controller/Lists/Pages.antt =====
-- The page of a listing that a request asks for: the ends of `listPowerStoreVolumes` and of
-- `listPowerStoreSnapshots`, and the starting token. `parse_int` is `strconv.ParseInt(v, 10, 32)`.
use test_powerstore_automati.Base.{
  ℕ, ◌+◌, ◌-◌, ◌||◌, Option, none, some, List, String, decimal, length, take, drop, ltb, ◌=ℕ◌,
  if◌then◌else◌, is_empty,
}
use test_powerstore_automati.Base.Int64.{ℤ, pos, negsuc}
use test_powerstore_automati.Outcome.{Outcome, ok, panic, fail, aborted}

-- A page of a listing, and the token of the next one.
pub record Page {ℓ} (A : Type ℓ) : Type ℓ where
  pub entries : List A
  pub next_token : String

-- How many entries a page has, of those that remain. 0 asks for all.
unfoldable pub page_length : (limit max_entries rem : ℕ) → ℕ
page_length limit max_entries rem =
    let wanted = if max_entries =ℕ 0 || ltb rem max_entries then rem else max_entries in
    if ltb limit wanted then limit else wanted

unfoldable pub page_from {ℓ} : {A : Type ℓ} (limit start_token max_entries : ℕ) → List A → Page A
page_from limit start_token max_entries all =
    let rem = length all - start_token in
    let count = page_length limit max_entries rem in
    let next = start_token + count in
    record {
      entries = take count (drop start_token all);
      next_token = if ltb next (start_token + rem) then decimal next else "";
    }

-- The end of `listPowerStoreVolumes` and of `listPowerStoreSnapshots`. A slice from a negative
-- index, or to an index below its start, panics.
unfoldable pub page {ℓ} : {A : Type ℓ} (limit : ℕ) → ℤ → ℤ → List A → Outcome (Page A)
page limit (negsuc n) max_entries all = panic
page limit (pos start_token) (negsuc n) all =
    if ltb (length all) start_token then fail aborted else panic
page limit (pos start_token) (pos max_entries) all =
    if ltb (length all) start_token
    then fail aborted
    else ok (page_from limit start_token max_entries all)

-- `if v := req.GetStartingToken(); v != "" { … }`
unfoldable pub start_token_of : (String → Option ℤ) → String → Outcome ℤ
start_token_of parse_int token =
    if is_empty token
    then ok (pos 0)
    else elim (parse_int token) [ none ↦ fail aborted | some i ↦ ok i ]

abbrev pub volume_page_limit : ℕ
volume_page_limit = 700

abbrev pub snapshot_page_limit : ℕ
snapshot_page_limit = 300
