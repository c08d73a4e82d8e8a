-- ===== src/Interceptors/Keys.antt =====
-- The keys of the maps in `lockProvider` of pkg/interceptors/interceptors.go: each has its own lock.
use test_powerstore_automati.Base.{
  ℕ, ◌+◌, ◌<◌, ◌≡◌, refl, sym, ap, ◌∙◌, ◌⊎◌, inl, inr, arith, eq_iff, Option, none, some, String,
  Dict, lookup, insert, lookup-insert, Option-cases,
}
use test_powerstore_automati.Interceptors.{
  LockProvider, get_lock_with_id, get_lock_with_name, Request, create_volume, node_stage_volume,
  node_unstage_volume, serialized_by_id, serialized_by_name, get_lock,
}

-- A request's key: one of the two maps, and the text looked up there.
pub data LockKey : Type 0 where
  by_id by_name : String → LockKey

abbrev pub lock_key : Request → LockKey
lock_key (create_volume name) = by_id name
lock_key (node_stage_volume id) = by_id id
lock_key (node_unstage_volume id) = by_id id
lock_key (serialized_by_id id) = by_id id
lock_key (serialized_by_name name) = by_name name

-- The address that the maps have for a key.
abbrev pub address : LockProvider → LockKey → Option ℕ
address p (by_id t) = lookup t p.vol_id_locks
address p (by_name t) = lookup t p.vol_name_locks

-- Addresses in the maps are below `next`, and no two keys share one.
pub record Distinct (p : LockProvider) : Type 0 where
  pub below : (k : LockKey) (a : ℕ) → address p k ≡ some a → a < p.next
  pub apart : (k j : LockKey) (a : ℕ) → address p k ≡ some a → address p j ≡ some a → k ≡ j

-- The map has the lock of a key afterwards, the one that it had if it had one.
pub record Found (p : LockProvider) (k : LockKey) (o : ℕ × LockProvider) : Type 0 where
  pub in_map : address o.1 k ≡ some o.0
  pub kept : (j : LockKey) (a : ℕ) → address p j ≡ some a → address o.1 j ≡ some a
  pub still : Distinct o.1
  pub own :
      (j : LockKey) (a : ℕ)
      → address o.1 j ≡ some a
      → (address p j ≡ some a) ⊎ ((j ≡ k) × (a ≡ p.next))

lookup_old :
    (p : LockProvider) (k : LockKey) (a : ℕ) → Distinct p → address p k ≡ some a → Found p k (a, p)
lookup_old p k a d e = record { in_map = e; kept = λ j b h. h; still = d; own = λ j b h. inl h }

-- A key that had no address gets the next one, and the others keep theirs.
lookup_new :
    (p q : LockProvider) (k : LockKey)
    → Distinct p
    → address p k ≡ none
    → address q k ≡ some p.next
    → ((j : LockKey) → (j ≡ k) ⊎ (address q j ≡ address p j))
    → q.next ≡ p.next + 1
    → Found p k (p.next, q)
lookup_new p q k d missing here others n = record {
  in_map = here;
  kept = λ j a h. elim (others j) [ inl e ↦ ground (arith, ap (address p) e) | inr e ↦ e ∙ h ];
  still = record {
    below = λ j a h. elim (others j) [
      | inl e ↦ ground (arith, ap (address q) e)
      | inr e ↦ ground (arith, d.below j a)
    ];
    apart = λ j i a g h. elim (others j) [
      | inl e ↦ elim (others i) [
        | inl f ↦ e ∙ sym f
        | inr f ↦ ground (arith, ap (address q) e, d.below i a)
      ]
      | inr e ↦ elim (others i) [
        | inl f ↦ ground (arith, ap (address q) f, d.below j a)
        | inr f ↦ d.apart j i a (sym e ∙ g) (sym f ∙ h)
      ]
    ];
  };
  own = λ j a h. elim (others j) [
    | inl e ↦ inr (e, ground (arith, ap (address q) e))
    | inr e ↦ inl (sym e ∙ h)
  ];
}

-- The map after a new entry: the entry itself or what was there.
inserted : (t u : String) (n : ℕ) (m : Dict ℕ) → (u ≡ t) ⊎ (lookup u (insert t n m) ≡ lookup u m)
inserted t u n m = ground (arith, lookup-insert t u n m, eq_iff t u)

inserted_here : (t : String) (n : ℕ) (m : Dict ℕ) → lookup t (insert t n m) ≡ some n
inserted_here t n m = ground (arith, lookup-insert t t n m, eq_iff t t)

get_lock_with_id-Found :
    (p : LockProvider) (t : String) → Distinct p → Found p (by_id t) (get_lock_with_id p t)
unfolding get_lock_with_id
get_lock_with_id-Found p t d = elim (Option-cases (lookup t p.vol_id_locks)) [
  | inl e ↦
      rw (get_lock_with_id, e)
        (lookup_new p _ (by_id t) d e (inserted_here t p.next p.vol_id_locks) others refl)
  | inr (a, e) ↦ rw (get_lock_with_id, e) (lookup_old p (by_id t) a d e)
]
  where
    others :
        (j : LockKey)
        → (j ≡ by_id t)
          ⊎ (address
                (record p { vol_id_locks = insert t p.next p.vol_id_locks; next = p.next + 1 })
                j
              ≡ address p j)
    others (by_id u) = ground (arith, inserted t u p.next p.vol_id_locks)
    others (by_name u) = inr refl

get_lock_with_name-Found :
    (p : LockProvider) (t : String) → Distinct p → Found p (by_name t) (get_lock_with_name p t)
unfolding get_lock_with_name
get_lock_with_name-Found p t d = elim (Option-cases (lookup t p.vol_name_locks)) [
  | inl e ↦
      rw (get_lock_with_name, e)
        (lookup_new p _ (by_name t) d e (inserted_here t p.next p.vol_name_locks) others refl)
  | inr (a, e) ↦ rw (get_lock_with_name, e) (lookup_old p (by_name t) a d e)
]
  where
    others :
        (j : LockKey)
        → (j ≡ by_name t)
          ⊎ (address
                (record p { vol_name_locks = insert t p.next p.vol_name_locks; next = p.next + 1 })
                j
              ≡ address p j)
    others (by_name u) = ground (arith, inserted t u p.next p.vol_name_locks)
    others (by_id u) = inr refl

pub get_lock-Found :
    (p : LockProvider) (r : Request) → Distinct p → Found p (lock_key r) (get_lock p r)
unfolding get_lock
get_lock-Found p (create_volume t) d = get_lock_with_id-Found p t d
get_lock-Found p (node_stage_volume t) d = get_lock_with_id-Found p t d
get_lock-Found p (node_unstage_volume t) d = get_lock_with_id-Found p t d
get_lock-Found p (serialized_by_id t) d = get_lock_with_id-Found p t d
get_lock-Found p (serialized_by_name t) d = get_lock_with_name-Found p t d
