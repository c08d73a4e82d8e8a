-- ===== src/Controller/Lists/Laws.antt =====
-- What a page of `ListVolumes` holds, and the answer of `ListSnapshots` for one snapshot.
use test_powerstore_automati.Base.{
  ℕ, ◌≤◌, ◌-◌, drop, ◌≡◌, refl, sym, ap, ◌∙◌, ◌⊎◌, inl, inr, arith, false, ltb, Option, none, some,
  List, [], ◌∷◌, String, ◌<>◌, length, length-take, if◌then◌else◌, Bool-cases,
}
use mathlib.Core.Path.{subst}
use test_powerstore_automati.Base.Int64.{ℤ, pos, negsuc}
use test_powerstore_automati.Outcome.{Outcome, ok, err, status, says, not_found, internal}
use test_powerstore_automati.Client.{Client, Volume, Reply}
use test_powerstore_automati.Client.Monad.{World}
use test_powerstore_automati.Client.Results.{continue-ok}
use test_powerstore_automati.Arrays.{PowerStoreArray}
use test_powerstore_automati.Arrays.Handle.{VolumeHandle}
use test_powerstore_automati.Controller.Snapshots.{CsiSnapshot}
use test_powerstore_automati.Controller.Lists.Pages.{
  Page, page_length, page_from, page, start_token_of, volume_page_limit,
}
use test_powerstore_automati.Controller.Lists.{
  CsiVolume, collect_volumes, collect_filesystems, list_power_store_volumes, list_volumes,
}

-- At most as many entries as the limit, and as were asked for.
abbrev pub Fits {ℓ} : {A : Type ℓ} → (limit : ℕ) → ℤ → Page A → Type 0
Fits limit max_entries p =
    (length p.entries ≤ limit)
    × ((n : ℕ) × ((max_entries ≡ pos n) × ((n ≡ 0) ⊎ (length p.entries ≤ n))))

page_from-Fits {ℓ} :
    {A : Type ℓ} (limit s m : ℕ) (all : List A) → Fits limit (pos m) (page_from limit s m all)
unfolding page_from page_length
page_from-Fits limit s m all =
    let n = page_length limit m (length all - s) in
    (
      ground (arith, length-take n (drop s all)),
      (m, (refl, ground (arith, length-take n (drop s all)))),
    )

page_from-page {ℓ} :
    {A : Type ℓ} (limit s m : ℕ) (all : List A) (p : Page A)
    → ltb (length all) s ≡ false
    → page limit (pos s) (pos m) all ≡ ok p
    → page_from limit s m all ≡ p
unfolding page
page_from-page limit s m all p q e = ground arith

page-Fits {ℓ} :
    {A : Type ℓ} (limit : ℕ) (start_token max_entries : ℤ) (all : List A) (p : Page A)
    → page limit start_token max_entries all ≡ ok p
    → Fits limit max_entries p
unfolding page
page-Fits limit (negsuc n) max_entries all p e = ground arith
page-Fits limit (pos s) (negsuc n) all p e = ground arith
page-Fits limit (pos s) (pos m) all p e = elim (Bool-cases (ltb (length all) s)) [
  | inl q ↦ ground arith
  | inr q ↦
      subst (Fits limit (pos m)) (page_from-page limit s m all p q e) (page_from-Fits limit s m all)
]

module _ (c : Client) (parse_int : String → Option ℤ)
    (volume_order filesystem_order : List PowerStoreArray) (max_entries : ℤ) (w : World)
    (p : Page CsiVolume) where
  pages-Fits :
      (start_token : ℤ)
      → (list_power_store_volumes c volume_order filesystem_order start_token max_entries w).0
        ≡ ok p
      → Fits volume_page_limit max_entries p
  unfolding list_power_store_volumes
  pages-Fits start_token e =
      let first = collect_volumes c volume_order [] w in
      let (volumes, f, eq) = continue-ok first _ p e in
      let second = collect_filesystems c filesystem_order volumes first.1 in
      let e1 = sym (ap (λ o. o.0) eq) ∙ e in
      let (all, g, eq1) = continue-ok second _ p e1 in
      page-Fits volume_page_limit start_token max_entries all p (sym (ap (λ o. o.0) eq1) ∙ e1)

  -- Whatever the arrays answer, a page that `ListVolumes` answers has at most 700 entries, and at
  -- most as many as the request asks for, unless it asks for 0; a negative number gets no page.
  pub list_volumes-Fits :
      (token : String)
      → (list_volumes c parse_int volume_order filesystem_order token max_entries w).0 ≡ ok p
      → Fits volume_page_limit max_entries p
  unfolding list_volumes
  list_volumes-Fits token e =
      let (start_token, f, eq) = continue-ok (start_token_of parse_int token, w) _ p e in
      pages-Fits start_token (sym (ap (λ o. o.0) eq) ∙ e)

-- The answer for one snapshot of a volume.
abbrev pub one_snapshot : VolumeHandle → Reply Volume → Outcome (Page CsiSnapshot)
one_snapshot h snap = elim snap.error [
  | none ↦ ok (record {
    entries =
        record {
          snapshot_id = snap.value.id <> ("/" <> (h.local_array_global_id <> ("/" <> h.protocol)));
          source_volume_id = snap.value.source_id;
          size_bytes = snap.value.size;
        }
        ∷ [];
    next_token = "";
  })
  | some e ↦
      if says not_found e
      then ok (record { entries = []; next_token = "" })
      else err (status internal)
]
