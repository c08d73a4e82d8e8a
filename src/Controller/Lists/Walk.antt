-- ===== src/Controller/Lists/Walk.antt =====
-- A client that follows the tokens of `ListVolumes`, page by page.
use test_powerstore_automati.Base.{
  ℕ, zero, suc, ◌+◌, ◌-◌, ◌≤◌, ◌<◌, ◌≡◌, refl, sym, ap, ◌∙◌, inl, inr, arith, Bool, true, false,
  Option, none, some, List, [], ◌∷◌, ◌++◌, String, decimal, is_empty, if◌then◌else◌, length, take,
  drop, ltb, take-append-drop, length-drop, Bool-cases, is_empty-decimal,
}
use mathlib.Core.List.{Perm, perm-replicate}
use text.Mathlib.TextEquality.{IsScalar-prop}
use test_powerstore_automati.Base.Int64.{ℤ, pos}
use test_powerstore_automati.Outcome.{ok}
use test_powerstore_automati.Client.{Client, Request, Response, get_volumes, list_fs}
use test_powerstore_automati.Client.Results.{continue-value}
use test_powerstore_automati.Client.Monad.{World, M, ret, ◌>>=◌}
use test_powerstore_automati.Arrays.{PowerStoreArray}
use test_powerstore_automati.Controller.Lists.Pages.{
  Page, page_length, page_from, page, start_token_of, volume_page_limit,
}
use test_powerstore_automati.Controller.Lists.{CsiVolume, list_power_store_volumes, list_volumes}
use test_powerstore_automati.Controller.Lists.Steady.{
  steady, all_volumes, all_filesystems, listed, collect_volumes-steady, collect_filesystems-steady,
}

drop-nil {ℓ} : {A : Type ℓ} (n : ℕ) → drop {A = A} n [] ≡ []
drop-nil zero = refl
drop-nil (suc n) = refl

drop-drop {ℓ} : {A : Type ℓ} (m n k : ℕ) (xs : List A) → k ≡ m + n → drop n (drop m xs) ≡ drop k xs
drop-drop zero n k xs h = ground arith
drop-drop (suc m) n zero xs h = ground arith
drop-drop (suc m) n (suc k) [] h = drop-nil n
drop-drop (suc m) n (suc k) (x ∷ xs) h = drop-drop m n k xs (omega arith)

take-all {ℓ} : {A : Type ℓ} (n : ℕ) (xs : List A) → length xs ≤ n → take n xs ≡ xs
take-all zero [] h = refl
take-all zero (x ∷ xs) h = ground arith
take-all (suc n) [] h = refl
take-all (suc n) (x ∷ xs) h = rw (take-all n xs (omega arith))

-- A page takes no more than remains and, if anything remains, at least one entry.
page_length-bounds :
    (limit max_entries rem : ℕ)
    → 0 < limit
    → (page_length limit max_entries rem ≤ rem)
      × ((page_length limit max_entries rem ≤ limit)
          × (0 < rem → 0 < page_length limit max_entries rem))
unfolding page_length
page_length-bounds limit max_entries rem h = (ground arith, (ground arith, λ g. ground arith))

-- Following the tokens: the entries of at most `fuel` pages from a token on, or none if there are
-- more pages. Go ranges over a map in an order of its own each time: the request `turn` reads the
-- arrays in the orders `volume_orders turn` and `filesystem_orders turn`.
module _ (c : Client) (parse_int : String → Option ℤ)
    (volume_orders filesystem_orders : ℕ → List PowerStoreArray) (max_entries : ℕ) where
  unfoldable pub walk : (fuel turn : ℕ) → String → M (Option (List CsiVolume))
  walk zero turn token = ret none
  walk (suc fuel) turn token = do
    page ←
        list_volumes c parse_int (volume_orders turn) (filesystem_orders turn) token
          (pos max_entries)
    if is_empty page.next_token
        then ret (some page.entries)
        else walk fuel (suc turn) page.next_token
          >>= (λ rest. ret (elim rest [ none ↦ none | some more ↦ some (page.entries ++ more) ]))

-- A step of the walk, from an index into the listing.
module _ {ℓ} {A : Type ℓ} (limit start_token max_entries : ℕ) (all : List A) where
  abbrev count : ℕ
  count = page_length limit max_entries (length all - start_token)

  -- The page and what comes after it are what is left.
  page_from-append :
      (page_from limit start_token max_entries all).entries ++ drop (start_token + count) all
      ≡ drop start_token all
  unfolding page_from
  page_from-append =
      ap (λ rest. take count (drop start_token all) ++ rest)
        (sym (drop-drop start_token count (start_token + count) all refl))
      ∙ take-append-drop count (drop start_token all)

  -- A page without a token of a next one is all that is left.
  page_from-last :
      0 < limit
      → is_empty (page_from limit start_token max_entries all).next_token ≡ true
      → (page_from limit start_token max_entries all).entries ≡ drop start_token all
  unfolding page_from
  page_from-last h e = take-all count (drop start_token all) (
      ground (
        arith,
        length-drop start_token all,
        page_length-bounds limit max_entries (length all - start_token) h,
        is_empty-decimal (start_token + count),
      ))

  -- Otherwise the token is the index behind the page, which is not empty.
  page_from-more :
      0 < limit
      → is_empty (page_from limit start_token max_entries all).next_token ≡ false
      → ((page_from limit start_token max_entries all).next_token ≡ decimal (start_token + count))
        × ((start_token < start_token + count) × (start_token + count < length all))
  unfolding page_from
  page_from-more h e = elim (Bool-cases more) [
    | inl q ↦ (
      ap (λ b. if b then decimal (start_token + count) else "") q,
      ground (arith, page_length-bounds limit max_entries (length all - start_token) h),
    )
    | inr q ↦ ground (arith, ap (λ b. is_empty (if b then decimal (start_token + count) else "")) q)
  ]
    where
      more : Bool
      more = ltb (start_token + count) (start_token + (length all - start_token))

PowerStoreArray-set : IsSet PowerStoreArray
PowerStoreArray-set = hlevel IsScalar-prop

-- The only order of one array.
only-one :
    {arr : PowerStoreArray} {order : List PowerStoreArray}
    → Perm order (arr ∷ [])
    → order ≡ arr ∷ []
only-one {arr} p = (perm-replicate PowerStoreArray-set 1 arr).0 p

-- The listing of arrays with the answers.
abbrev pub everything :
    (String → (r : Request) → Response r)
    → (volume_order filesystem_order : List PowerStoreArray) → List CsiVolume
everything answer volume_order filesystem_order =
    all_volumes answer volume_order ++ all_filesystems answer filesystem_order

module _ (answer : String → (r : Request) → Response r) (parse_int : String → Option ℤ)
    (volume_order filesystem_order : List PowerStoreArray) (max_entries : ℕ)
    (parse_decimal : (n : ℕ)
      → n < length (everything answer volume_order filesystem_order)
      → parse_int (decimal n) ≡ some (pos n)) where
  abbrev all : List CsiVolume
  all = everything answer volume_order filesystem_order

  -- The calls of a request.
  abbrev after : World → World
  after w = listed answer list_fs filesystem_order (listed answer get_volumes volume_order w)

  abbrev page_at : ℕ → Page CsiVolume
  page_at start_token = page_from volume_page_limit start_token max_entries all

  list_volumes-steady :
      (token : String) (start_token : ℕ) (w : World)
      → start_token_of parse_int token ≡ ok (pos start_token)
      → start_token ≤ length all
      → list_volumes
          (steady answer)
          parse_int
          volume_order
          filesystem_order
          token
          (pos max_entries)
          w
        ≡ (ok (page_at start_token), after w)
  unfolding list_volumes list_power_store_volumes page
  list_volumes-steady token start_token w e h =
      rw
        (
          e,
          collect_volumes-steady answer volume_order [] w,
          collect_filesystems-steady answer filesystem_order (all_volumes answer volume_order)
              (listed answer get_volumes volume_order w),
        )
        (ground arith)

  next-start : (n : ℕ) → n < length all → start_token_of parse_int (decimal n) ≡ ok (pos n)
  unfolding start_token_of
  next-start n h = rw (is_empty-decimal n, parse_decimal n h) refl

  module _ (volume_orders filesystem_orders : ℕ → List PowerStoreArray)
      (same_volumes : (turn : ℕ) → volume_orders turn ≡ volume_order)
      (same_filesystems : (turn : ℕ) → filesystem_orders turn ≡ filesystem_order) where
    walk-drop :
        (fuel turn : ℕ) (token : String) (start_token : ℕ) (w : World)
        → start_token_of parse_int token ≡ ok (pos start_token)
        → start_token ≤ length all
        → length all - start_token < fuel
        → (walk
            (steady answer)
            parse_int
            volume_orders
            filesystem_orders
            max_entries
            fuel
            turn
            token
            w).0
          ≡ ok (some (drop start_token all))
    unfolding walk
    walk-drop zero turn token start_token w e h f = ground arith
    walk-drop (suc fuel) turn token start_token w e h f =
        elim (Bool-cases (is_empty (page_at start_token).next_token)) [
          | inl g ↦
              rw
                (
                  same_volumes turn,
                  same_filesystems turn,
                  list_volumes-steady token start_token w e h,
                  g,
                )
                (ap (λ l. ok (some l))
                  (page_from-last volume_page_limit start_token max_entries all (ground arith) g))
          | inr g ↦
              let (named, (grows, inside)) =
                page_from-more volume_page_limit start_token max_entries all (ground arith) g in
              rw
                (
                  same_volumes turn,
                  same_filesystems turn,
                  list_volumes-steady token start_token w e h,
                  g,
                  named,
                )
                (ap (λ o. o.0)
                    (continue-value _ _ _ (
                      walk-drop fuel (suc turn) _ _ (after w)
                        (next-start
                          (start_token + count volume_page_limit start_token max_entries all)
                          (omega arith))
                        (omega arith) (omega arith)))
                  ∙ ap (λ l. ok (some l))
                      (page_from-append volume_page_limit start_token max_entries all))
        ]

-- With one array configured, which answers without errors and does not change, a client gets exactly
-- the listing of its volumes and filesystems if it asks for pages of any maximal length, first without
-- a token and then with the token of the page before, until there is none; and each request may range
-- over the map of arrays in any order. It needs at most one request more than there are entries.
-- `strconv.ParseInt` is taken to read the decimal numbers below the length of the listing.
pub walk-everything :
    (answer : String → (r : Request) → Response r) (parse_int : String → Option ℤ)
    (arr : PowerStoreArray) (volume_orders filesystem_orders : ℕ → List PowerStoreArray)
    (max_entries : ℕ)
    → ((n : ℕ)
        → n < length (everything answer (arr ∷ []) (arr ∷ []))
        → parse_int (decimal n) ≡ some (pos n))
    → ((turn : ℕ) → Perm (volume_orders turn) (arr ∷ []))
    → ((turn : ℕ) → Perm (filesystem_orders turn) (arr ∷ []))
    → (w : World)
    → (walk
        (steady answer)
        parse_int
        volume_orders
        filesystem_orders
        max_entries
        (suc (length (everything answer (arr ∷ []) (arr ∷ []))))
        0
        ""
        w).0
      ≡ ok (some (everything answer (arr ∷ []) (arr ∷ [])))
unfolding start_token_of
walk-everything answer parse_int arr volume_orders filesystem_orders max_entries decimals
      some_volumes some_filesystems w =
    walk-drop answer parse_int (arr ∷ []) (arr ∷ []) max_entries decimals volume_orders
      filesystem_orders (λ turn. only-one (some_volumes turn))
      (λ turn. only-one (some_filesystems turn))
      (suc (length (everything answer (arr ∷ []) (arr ∷ [])))) 0 "" 0 w refl (omega arith)
      (omega arith)
