-- ===== src/Base/Maps.antt =====
-- Go maps with string keys as association lists, used through their laws.
use Prim.Native.String.{String}
use mathlib.Core.Path.{◌≡◌, refl}
use mathlib.Core.Option.{Option, none, some}
use mathlib.Core.List.{List, [], ◌∷◌}
use native.Mathlib.Omega.{arith}
use text.Mathlib.TextEquality.{eq_iff}
use test_powerstore_automati.Base.Tests.{if◌then◌else◌}
use test_powerstore_automati.Base.Text.{◌==◌}

abbrev pub Dict {ℓ} : Type ℓ → Type ℓ
Dict V = List (String × V)

module _ {ℓ} {V : Type ℓ} where
  unfoldable pub lookup : String → Dict V → Option V
  lookup k [] = none
  lookup k ((j, v) ∷ m) = if j == k then some v else lookup k m

  unfoldable pub insert : String → V → Dict V → Dict V
  insert k v [] = (k, v) ∷ []
  insert k v ((j, w) ∷ m) = if j == k then (k, v) ∷ m else (j, w) ∷ insert k v m

  -- `delete(m, k)`
  unfoldable pub erase : String → Dict V → Dict V
  erase k [] = []
  erase k ((j, w) ∷ m) = let rest = erase k m in if j == k then rest else (j, w) ∷ rest

  -- The written key has the new value, and the others keep theirs.
  pub lookup-insert :
      (written key : String) (new : V) (dict : Dict V)
      → lookup key (insert written new dict)
        ≡ (if written == key then some new else lookup key dict)
  unfolding insert lookup
  lookup-insert written key new [] = refl
  lookup-insert written key new ((first, old) ∷ dict) = ground (
    arith,
    lookup-insert written key new dict,
    eq_iff first written,
    eq_iff first key,
    eq_iff written key,
  )

  pub lookup-erase :
      (k j : String) (m : Dict V) → lookup j (erase k m) ≡ (if k == j then none else lookup j m)
  unfolding lookup erase
  lookup-erase k j [] = ground arith
  lookup-erase k j ((i, w) ∷ m) =
      ground (arith, eq_iff k j, eq_iff i k, eq_iff i j, lookup-erase k j m)
