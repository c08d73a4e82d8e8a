-- ===== src/Cooldown/Fallback.antt =====
-- The choice of a server when all candidates are in cooldown (`FallbackRetry`).
use mathlib.Core.Logic.Or
use mathlib.Core.List.{Perm, Mem, mem-cons, not-mem-nil, mem-cons_self}
use mathlib.Core.Option.{some-injective}
use native.Mathlib.Nat.{le_refl}
use native.Mathlib.Bridge.{le_prop}
use mathlib.Core.List.Perm
use test_powerstore_automati.Base.{
  ℕ, ◌≤◌, ◌≡◌, Bool, false, Option, none, some, List, [], ◌∷◌, arith, String, lookup, All,
}
use test_powerstore_automati.Cooldown.{
  NasStatus, NasCooldown, entry_less, retry_less, fallback_retry, first,
}

-- What `sort.Slice` promises of its result: it is the input in some order, and no element stands
-- before one that is less.
abbrev pub HeadIsLeast : {A : Type 0} → (A → A → Bool) → List A → Type 0
HeadIsLeast less [] = Unit
HeadIsLeast less (x ∷ xs) = All (λ y. less y x ≡ false) xs × HeadIsLeast less xs

pub record IsSorting {A : Type 0} (less : A → A → Bool) (xs ys : List A) : Type 0 where
  pub sorted : HeadIsLeast less ys
  pub same_items : Perm ys xs

-- The recorded failures of a server, 0 if there are none.
abbrev entry_failures : Option NasStatus → ℕ
entry_failures none = 0
entry_failures (some s) = s.failures

pub recorded_failures : NasCooldown → String → ℕ
recorded_failures n nas = entry_failures (lookup nas n.status_map)

le-of-not-less :
    (a b : Option NasStatus) → entry_less b a ≡ false → entry_failures a ≤ entry_failures b
le-of-not-less none none h = cc
le-of-not-less (some a) none h = cc
le-of-not-less none (some b) h = omega arith
le-of-not-less (some a) (some b) h = ground arith

least-of-head :
    (n : NasCooldown) (x y : String) (xs : List String)
    → All (λ z. retry_less n z x ≡ false) xs
    → Mem y xs
    → recorded_failures n x ≤ recorded_failures n y
unfolding recorded_failures retry_less
least-of-head n x y [] h m = absurd (not-mem-nil m)
least-of-head n x y (z ∷ zs) (h, hs) m =
    Or.elim le_prop (mem-cons.0 m)
      (λ e. rw e (le-of-not-less (lookup x n.status_map) (lookup z n.status_map) h))
      (least-of-head n x y zs hs)

module _ (sort_slice : (String → String → Bool) → List String → List String) (n : NasCooldown)
    (nas_list : List String)
    (sorts : IsSorting (retry_less n) nas_list (sort_slice (retry_less n) nas_list)) where
  least-of-sorted :
      (ys : List String)
      → IsSorting (retry_less n) nas_list ys
      → {x : String} → first ys ≡ some x
      → Mem x nas_list
        × ((y : String) → Mem y nas_list → recorded_failures n x ≤ recorded_failures n y)
  least-of-sorted [] s e = cc
  least-of-sorted (z ∷ zs) s {x} e = rw (← some-injective z x e) (
    (Perm.mem_iff s.same_items).0 mem-cons_self,
    λ y m.
        Or.elim le_prop (mem-cons.0 ((Perm.mem_iff s.same_items).1 m)) (λ same. rw same (le_refl _))
          (least-of-head n z y zs s.sorted.0),
  )

  -- If `FallbackRetry` answers a server, then it is one of the candidates, and no candidate has
  -- fewer recorded failures, provided that `sort.Slice` sorts the candidates.
  pub fallback_retry-least :
      {x : String}
      → fallback_retry sort_slice nas_list n ≡ some x
      → (y : String) → Mem y nas_list
      → Mem x nas_list × (recorded_failures n x ≤ recorded_failures n y)
  unfolding fallback_retry
  fallback_retry-least e y m = let (found, least) = least-of-sorted _ sorts e in (found, least y m)
