-- ===== src/Client/Results.antt =====
-- What a result says of the steps that it comes from.
use test_powerstore_automati.Base.{
  ◌≡◌, ◌≢◌, refl, arith, Bool, true, false, Option, none, some, if◌then◌else◌,
}
use test_powerstore_automati.Outcome.{Code, Error, Outcome, ok, err, panic}
use test_powerstore_automati.Client.Monad.{World, M, fail, continue, if_missing}

-- Of two steps that succeed the first has succeeded, and what follows it.
pub continue-ok :
    {A B : Type 0} (o : Outcome A × World) (f : A → M B) (b : B)
    → (continue o f).0 ≡ ok b
    → (a : A) × (o.0 ≡ ok a) × (continue o f ≡ f a o.1)
continue-ok (ok a, w) f b e = (a, refl, refl)
continue-ok (err x, w) f b e = ground arith
continue-ok (panic, w) f b e = ground arith

pub err-≢ : {A : Type 0} {e : Error} {a : A} → err e ≢ ok a
err-≢ p = ground arith

-- What follows a step that succeeds with a known value.
pub continue-value :
    {A B : Type 0} (o : Outcome A × World) (f : A → M B) (a : A)
    → o.0 ≡ ok a
    → continue o f ≡ f a o.1
continue-value (ok x, w) f a e = ground arith
continue-value (err x, w) f a e = ground arith
continue-value (panic, w) f a e = ground arith

pub ok_injective : {A : Type 0} {a b : A} → ok a ≡ ok b → a ≡ b
ok_injective e = ground arith

-- Of a step that refuses in one case, the success says that the case is not there.
pub if_missing-ok :
    {A B : Type 0} (found : Option A) (code : Code) (next : A → M B) (b : B) (w : World)
    → (if_missing found (fail code) next w).0 ≡ ok b
    → (a : A) × (found ≡ some a) × ((next a w).0 ≡ ok b)
if_missing-ok none code next b w e = absurd (err-≢ e)
if_missing-ok (some a) code next b w e = (a, refl, e)

pub refused-ok :
    {B : Type 0} (refused : Bool) (code : Code) (m : M B) (b : B) (w : World)
    → ((if refused then fail code else m) w).0 ≡ ok b
    → (refused ≡ false) × ((m w).0 ≡ ok b)
refused-ok true code m b w e = absurd (err-≢ e)
refused-ok false code m b w e = (refl, e)
