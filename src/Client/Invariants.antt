-- ===== src/Client/Invariants.antt =====
-- Invariants of the calls made: every call meets its guard, a condition on the calls before it.
use test_powerstore_automati.Base.{
  [], ◌∷◌, ◌≡◌, refl, Option, none, some, Bool, true, false, if◌then◌else◌,
}
use test_powerstore_automati.Client.Types.{Event, History}
use test_powerstore_automati.Outcome.{Outcome, ok, err, panic}
use test_powerstore_automati.Client.Monad.{World, M, continue, if_missing}

abbrev pub Guarded : (Event → History → Type 0) → History → Type 0
Guarded guard [] = Unit
Guarded guard (e ∷ h) = guard e h × Guarded guard h

-- The action makes only calls that meet the guard.
abbrev pub Keeps : (Event → History → Type 0) → {A : Type 0} → M A → Type 0
Keeps guard m = (w : World) → Guarded guard w.history → Guarded guard (m w).1.history

-- What comes after an action has only to keep the guard from the world that the action leaves.
pub continue-Guarded :
    (guard : Event → History → Type 0) {A B : Type 0} (o : Outcome A × World) (f : A → M B)
    → Guarded guard o.1.history
    → ((a : A) → Guarded guard (f a o.1).1.history)
    → Guarded guard (continue o f).1.history
continue-Guarded guard (ok a, w) f g h = h a
continue-Guarded guard (err e, w) f g h = g
continue-Guarded guard (panic, w) f g h = g

-- The same, with the equation of the action's result.
pub continue-Guarded_ok :
    (guard : Event → History → Type 0) {A B : Type 0} (o : Outcome A × World) (f : A → M B)
    → Guarded guard o.1.history
    → ((a : A) → o.0 ≡ ok a → Guarded guard (f a o.1).1.history)
    → Guarded guard (continue o f).1.history
continue-Guarded_ok guard (ok a, w) f g h = h a refl
continue-Guarded_ok guard (err e, w) f g h = g
continue-Guarded_ok guard (panic, w) f g h = g

-- Branches keep the guard if each of them does.
pub if_missing-Keeps :
    (guard : Event → History → Type 0) {A B : Type 0} (found : Option A) (missing : M B)
    (next : A → M B)
    → Keeps guard missing
    → ((a : A) → Keeps guard (next a))
    → Keeps guard (if_missing found missing next)
if_missing-Keeps guard none missing next m n = m
if_missing-Keeps guard (some a) missing next m n = n a

pub if-Keeps :
    (guard : Event → History → Type 0) {A : Type 0} (test : Bool) (then_ else_ : M A)
    → Keeps guard then_
    → Keeps guard else_
    → Keeps guard (if test then then_ else else_)
if-Keeps guard true then_ else_ y n = y
if-Keeps guard false then_ else_ y n = n
