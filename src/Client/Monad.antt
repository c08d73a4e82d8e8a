-- ===== src/Client/Monad.antt =====
-- Handlers as functions of the world: the calls made so far and the cooldown trackers.
use test_powerstore_automati.Base.{Option, none, some, ◌∷◌, String, Dict}
use test_powerstore_automati.Outcome.{Code, Error, status, Outcome, ok, err, panic}
use test_powerstore_automati.Cooldown.{NasCooldown}
use test_powerstore_automati.Client.Types.{Request, Response, Reply, History, Client}

pub record World : Type 0 where
  pub history : History
  pub trackers : Dict NasCooldown

abbrev pub M : Type 0 → Type 0
M A = World → Outcome A × World

abbrev pub continue : {A B : Type 0} → Outcome A × World → (A → M B) → Outcome B × World
continue (ok a, w) f = f a w
continue (err e, w) f = (err e, w)
continue (panic, w) f = (panic, w)

infixl 5 ◌>>=◌ ◌>>◌
abbrev pub ◌>>=◌ : {A B : Type 0} → M A → (A → M B) → M B
◌>>=◌ m f w = continue (m w) f

abbrev pub ◌>>◌ : {B : Type 0} → M (Unit {0}) → M B → M B
m >> k = m >>= λ _. k

abbrev pub ret : {A : Type 0} → A → M A
ret a w = (ok a, w)

abbrev pub throw : {A : Type 0} → Error → M A
throw e w = (err e, w)

abbrev pub fail : {A : Type 0} → Code → M A
fail c w = (err (status c), w)

-- A nil dereference or an index out of range.
abbrev pub crash : {A : Type 0} → M A
crash w = (panic, w)

abbrev pub lift : {A : Type 0} → Outcome A → M A
lift o w = (o, w)

-- The world after a request.
abbrev pub asked : String → Request → World → World
asked connection r w = record w {
  history = record { connection = connection; request = r } ∷ w.history;
}

abbrev pub call : Client → String → (r : Request) → M (Reply (Response r))
call c connection r w = (ok (c w.history connection r), asked connection r w)

-- `if err != nil { … } …`
abbrev pub if_error : {A B : Type 0} → Reply A → (Error → M B) → (A → M B) → M B
if_error r failed done = elim r.error [ none ↦ done r.value | some e ↦ failed e ]

-- A lookup in a map, with what is done if the key is missing.
abbrev pub if_missing : {A B : Type 0} → Option A → M B → (A → M B) → M B
if_missing none missing found = missing
if_missing (some a) missing found = found a
