-- ===== src/Interceptors.antt =====
-- pkg/interceptors/interceptors.go: the interceptors that a request passes before its handler. The
-- map of locks, the steps of concurrent requests, and the parameters and request IDs rewritten.
use test_powerstore_automati.Base.{
  ℕ, ◌+◌, ◌≡◌, Bool, true, false, if◌then◌else◌, Option, none, some, List, [], ◌∷◌, String, ◌=ℕ◌,
  ◌<>◌, Dict, lookup, insert,
}
use test_powerstore_automati.Outcome.{Error, Outcome, ok, err, panic, Code, status}
pub mod Keys
pub mod Exclusion
pub mod Metadata

-- gosync's TryMutex: a new one is free, `TryLock(0)` gets a free one and only a free one, and
-- `Unlock` frees it.
pub record TryMutex : Type 1 where
  pub Mutex : Type 0
  pub fresh : Mutex
  pub try_lock : Mutex → Bool × Mutex
  pub unlock : Mutex → Mutex
  pub held : Mutex → Bool
  pub fresh_free : held fresh ≡ false
  pub try_free : (m : Mutex) → held m ≡ false → (try_lock m).0 ≡ true
  pub try_held : (m : Mutex) → held m ≡ true → (try_lock m).0 ≡ false
  pub got : (m : Mutex) → (try_lock m).0 ≡ true → held (try_lock m).1 ≡ true
  pub not_got : (m : Mutex) → (try_lock m).0 ≡ false → held (try_lock m).1 ≡ held m
  pub unlocked : (m : Mutex) → held (unlock m) ≡ false

-- `lockProvider`: two maps to the addresses of mutexes. The addresses below `next` are in use.
pub record LockProvider : Type 0 where
  pub vol_id_locks : Dict ℕ
  pub vol_name_locks : Dict ℕ
  pub next : ℕ

-- `GetLockWithID`
unfoldable pub get_lock_with_id : LockProvider → String → ℕ × LockProvider
get_lock_with_id p id = elim (lookup id p.vol_id_locks) [
  | some lock ↦ (lock, p)
  | none ↦ (p.next, record p { vol_id_locks = insert id p.next p.vol_id_locks; next = p.next + 1 })
]

-- `GetLockWithName`
unfoldable pub get_lock_with_name : LockProvider → String → ℕ × LockProvider
get_lock_with_name p name = elim (lookup name p.vol_name_locks) [
  | some lock ↦ (lock, p)
  | none ↦
      (p.next, record p { vol_name_locks = insert name p.next p.vol_name_locks; next = p.next + 1 })
]

-- Of the other types of request gocsi's serializer takes the lock, by an ID or by a name that it
-- chooses.
pub data Request : Type 0 where
  create_volume : (name : String) → Request
  node_stage_volume node_unstage_volume : (volume_id : String) → Request
  serialized_by_id serialized_by_name : String → Request

-- The lock that a request asks for. `createVolume` looks its name up among the IDs.
unfoldable pub get_lock : LockProvider → Request → ℕ × LockProvider
get_lock p (create_volume name) = get_lock_with_id p name
get_lock p (node_stage_volume volume_id) = get_lock_with_id p volume_id
get_lock p (node_unstage_volume volume_id) = get_lock_with_id p volume_id
get_lock p (serialized_by_id id) = get_lock_with_id p id
get_lock p (serialized_by_name name) = get_lock_with_name p name

-- Where the goroutine of a request stands.
pub data Pc : Type 0 where
  absent arrived has_lock : Pc
  running : Pc  -- in the handler, the lock held
  finished : Pc
  aborted : Pc  -- `status.Error(codes.Aborted, pending)`

module _ (mutex : TryMutex) where
  -- The goroutine `i` handles the request `request i`, with its lock at `lock i` once it has one.
  pub record System : Type 0 where
    pub provider : LockProvider
    pub mutexes : ℕ → mutex.Mutex
    pub request : ℕ → Request
    pub pc : ℕ → Pc
    pub lock : ℕ → ℕ

abbrev pub set {ℓ} : {A : Type ℓ} → (ℕ → A) → ℕ → A → ℕ → A
set f i a j = if i =ℕ j then a else f j

module _ (mutex : TryMutex) where
  abbrev pub initial : System mutex
  initial = record {
    provider = record { vol_id_locks = []; vol_name_locks = []; next = 0 };
    mutexes = λ _. mutex.fresh;
    request = λ _. create_volume "";
    pc = λ _. absent;
    lock = λ _. 0;
  }

  abbrev pub arrive : System mutex → ℕ → Request → System mutex
  arrive s i r = record s { request = set s.request i r; pc = set s.pc i arrived }

  -- `lock, err := i.opts.locker.GetLockWithID(…)`: one step, since the map has a mutex of its own.
  abbrev pub ask_lock : System mutex → ℕ → System mutex
  ask_lock s i =
      let (address, provider) = get_lock s.provider (s.request i) in
      record s { provider = provider; pc = set s.pc i has_lock; lock = set s.lock i address }

  -- `if !lock.TryLock(i.opts.timeout) { return … }`
  abbrev pub try : System mutex → ℕ → System mutex
  try s i =
      let (won, after) = mutex.try_lock (s.mutexes (s.lock i)) in
      record s {
        mutexes = set s.mutexes (s.lock i) after;
        pc = set s.pc i (if won then running else aborted);
      }

  -- `defer lock.Unlock()`: the handler returns or panics.
  abbrev pub finish : System mutex → ℕ → System mutex
  finish s i = record s {
    mutexes = set s.mutexes (s.lock i) (mutex.unlock (s.mutexes (s.lock i)));
    pc = set s.pc i finished;
  }

  -- The requests interleaved in any order.
  pub data Step (s : System mutex) : System mutex → Type 0 where
    comes : (i : ℕ) (r : Request) → s.pc i ≡ absent → Step s (arrive s i r)
    asks : (i : ℕ) → s.pc i ≡ arrived → Step s (ask_lock s i)
    tries : (i : ℕ) → s.pc i ≡ has_lock → Step s (try s i)
    ends : (i : ℕ) → s.pc i ≡ running → Step s (finish s i)

  pub data Reach : System mutex → Type 0 where
    start : Reach initial
    later : {s t : System mutex} → Reach s → Step s t → Reach t

-- `rewriteRequestIDInterceptor.handleServer`: the metadata of the context, under gocsi's key.
unfoldable pub rewrite_request_id :
    (request_id_key : String) → Option (Dict (List String)) → Outcome (Option String)
rewrite_request_id request_id_key none = ok none
rewrite_request_id request_id_key (some md) = elim (lookup request_id_key md) [
  | none ↦ ok none
  | some [] ↦ panic
  | some (id ∷ more) ↦ ok (some (request_id_key <> ("-" <> id)))
]
