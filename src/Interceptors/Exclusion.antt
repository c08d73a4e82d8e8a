-- ===== src/Interceptors/Exclusion.antt =====
-- Requests with the same lock key never run at the same time: pkg/interceptors/interceptors.go.
use test_powerstore_automati.Base.{
  ℕ, ◌<◌, ◌≡◌, ap, ◌⊎◌, inl, inr, arith, Bool, true, false, some, ◌=ℕ◌, lookup, Bool-cases,
}
use test_powerstore_automati.Interceptors.{
  TryMutex, Request, get_lock, Pc, absent, arrived, has_lock, running, finished, aborted, System,
  initial, arrive, ask_lock, try, finish, Step, comes, asks, tries, ends, Reach, start, later,
}
use test_powerstore_automati.Interceptors.Keys.{
  LockKey, lock_key, address, Distinct, Found, get_lock-Found, by_id, by_name,
}

-- The goroutine has asked for its lock.
abbrev owns_lock : Pc → Bool
owns_lock has_lock = true
owns_lock running = true
owns_lock finished = false
owns_lock aborted = false
owns_lock arrived = false
owns_lock absent = false

module _ (mutex : TryMutex) where
  record Inv (s : System mutex) : Type 0 where
    distinct : Distinct s.provider
    registered :
        (i : ℕ)
        → owns_lock (s.pc i) ≡ true
        → address s.provider (lock_key (s.request i)) ≡ some (s.lock i)
    holding : (i : ℕ) → s.pc i ≡ running → mutex.held (s.mutexes (s.lock i)) ≡ true
    alone : (i j : ℕ) → s.pc i ≡ running → s.pc j ≡ running → s.lock i ≡ s.lock j → i ≡ j
    holder :
        (a : ℕ) → mutex.held (s.mutexes a) ≡ true → (i : ℕ) × (s.pc i ≡ running) × (s.lock i ≡ a)

  nothing : (k : LockKey) (a : ℕ) → address (initial mutex).provider k ≡ some a → a < 0
  unfolding lookup
  nothing (by_id t) a h = ground arith
  nothing (by_name t) a h = ground arith

  start-Inv : Inv (initial mutex)
  start-Inv = record {
    distinct = record {
      below = λ k a h. nothing k a h;
      apart = λ k j a g h. ground (arith, nothing k a g);
    };
    registered = λ i h. ground arith;
    holding = λ i h. ground arith;
    alone = λ i j g h e. ground arith;
    holder = λ a h. ground (arith, mutex.fresh_free);
  }

  arrive-Inv :
      (s : System mutex) (i : ℕ) (r : Request) → s.pc i ≡ absent → Inv s → Inv (arrive mutex s i r)
  arrive-Inv s i r e inv = record {
    distinct = inv.distinct;
    registered = λ j h. ground (arith, inv.registered j);
    holding = λ j h. ground (arith, inv.holding j);
    alone = λ j k g h q. ground (arith, inv.alone j k);
    holder = λ a h. let (j, k, l) = inv.holder a h in (j, ground arith, ground arith);
  }

  ask_lock-Inv : (s : System mutex) (i : ℕ) → s.pc i ≡ arrived → Inv s → Inv (ask_lock mutex s i)
  ask_lock-Inv s i e inv = record {
    distinct = f.still;
    registered = λ j h.
        ground (arith, inv.registered j, f.in_map, f.kept (lock_key (s.request j)) (s.lock j));
    holding = λ j h. ground (arith, inv.holding j);
    alone = λ j k g h q. ground (arith, inv.alone j k);
    holder = λ a h. let (j, k, l) = inv.holder a h in (j, ground arith, ground arith);
  }
    where
      f : Found s.provider (lock_key (s.request i)) (get_lock s.provider (s.request i))
      f = get_lock-Found s.provider (s.request i) inv.distinct

  won-Inv :
      (s : System mutex) (i : ℕ)
      → s.pc i ≡ has_lock
      → (mutex.try_lock (s.mutexes (s.lock i))).0 ≡ true
      → mutex.held (s.mutexes (s.lock i)) ≡ false
      → Inv s
      → Inv (try mutex s i)
  won-Inv s i e w free inv = record {
    distinct = inv.distinct;
    registered = λ j h. ground (arith, inv.registered j);
    holding = λ j h. ground (arith, inv.holding j, mutex.got (s.mutexes (s.lock i)));
    alone = λ j k g h q. ground (arith, inv.alone j k, inv.holding j, inv.holding k);
    holder = λ a h. elim (Bool-cases (s.lock i =ℕ a)) [
      | inl q ↦ (i, ground arith, ground arith)
      | inr q ↦ let (j, k, l) = inv.holder a (ground arith) in (j, ground arith, l)
    ];
  }

  lost-Inv :
      (s : System mutex) (i : ℕ)
      → s.pc i ≡ has_lock
      → (mutex.try_lock (s.mutexes (s.lock i))).0 ≡ false
      → Inv s
      → Inv (try mutex s i)
  lost-Inv s i e w inv = record {
    distinct = inv.distinct;
    registered = λ j h. ground (arith, inv.registered j);
    holding = λ j h. ground (arith, inv.holding j, mutex.not_got (s.mutexes (s.lock i)));
    alone = λ j k g h q. ground (arith, inv.alone j k);
    holder = λ a h.
        let (j, k, l) = inv.holder a (ground (arith, mutex.not_got (s.mutexes (s.lock i)))) in
        (j, ground arith, l);
  }

  try-Inv : (s : System mutex) (i : ℕ) → s.pc i ≡ has_lock → Inv s → Inv (try mutex s i)
  try-Inv s i e inv = elim (Bool-cases (mutex.held (s.mutexes (s.lock i)))) [
    | inl h ↦ lost-Inv s i e (mutex.try_held (s.mutexes (s.lock i)) h) inv
    | inr h ↦ won-Inv s i e (mutex.try_free (s.mutexes (s.lock i)) h) h inv
  ]

  finish-Inv : (s : System mutex) (i : ℕ) → s.pc i ≡ running → Inv s → Inv (finish mutex s i)
  finish-Inv s i e inv = record {
    distinct = inv.distinct;
    registered = λ j h. ground (arith, inv.registered j);
    holding = λ j h. ground (arith, inv.holding j, inv.alone i j);
    alone = λ j k g h q. ground (arith, inv.alone j k);
    holder = λ a h. elim (Bool-cases (s.lock i =ℕ a)) [
      | inl q ↦ ground (arith, mutex.unlocked (s.mutexes (s.lock i)))
      | inr q ↦ let (j, k, l) = inv.holder a (ground arith) in (j, ground arith, l)
    ];
  }

  Step-Inv : {s t : System mutex} → Step mutex s t → Inv s → Inv t
  Step-Inv {s} (comes i r e) inv = arrive-Inv s i r e inv
  Step-Inv {s} (asks i e) inv = ask_lock-Inv s i e inv
  Step-Inv {s} (tries i e) inv = try-Inv s i e inv
  Step-Inv {s} (ends i e) inv = finish-Inv s i e inv

  Reach-Inv : {s : System mutex} → Reach mutex s → Inv s
  Reach-Inv start = start-Inv
  Reach-Inv (later r step) = Step-Inv step (Reach-Inv r)

  -- In every reachable state, of two requests whose handlers run at the same time the lock keys
  -- differ: CreateVolume of one name, and NodeStageVolume and NodeUnstageVolume of one volume, are
  -- never interleaved, neither with each other nor with the requests that gocsi's serializer locks
  -- by that text as an ID. A mutex is only what gosync documents.
  pub mutual_exclusion :
      {s : System mutex}
      → Reach mutex s
      → (i j : ℕ) → s.pc i ≡ running
      → s.pc j ≡ running
      → lock_key (s.request i) ≡ lock_key (s.request j)
      → i ≡ j
  mutual_exclusion {s} r i j g h e =
      inv.alone i j g h
        (ground (arith, inv.registered i, inv.registered j, ap (address s.provider) e))
    where
      inv : Inv s
      inv = Reach-Inv r

  -- In every reachable state, a request that tries its lock is turned away as pending only if a
  -- request with the same lock key is in its handler; one that is not runs. So keys do not get in
  -- each other's way, and no finished request leaves its lock taken.
  pub try-aborts_only_same_key :
      {s : System mutex}
      → Reach mutex s
      → (i : ℕ) → s.pc i ≡ has_lock
      → ((try mutex s i).pc i ≡ running)
        ⊎ (((try mutex s i).pc i ≡ aborted)
            × ((j : ℕ) × (s.pc j ≡ running) × (lock_key (s.request j) ≡ lock_key (s.request i))))
  try-aborts_only_same_key {s} r i e = elim (Bool-cases (mutex.held (s.mutexes (s.lock i)))) [
    | inl h ↦
        let (j, k, l) = inv.holder (s.lock i) h in
        inr (
          ground (arith, mutex.try_held (s.mutexes (s.lock i))),
          (
            j,
            k,
            inv.distinct.apart (lock_key (s.request j)) (lock_key (s.request i)) (s.lock i)
                (ground (arith, inv.registered j)) (inv.registered i (ground arith)),
          ),
        )
    | inr h ↦ inl (ground (arith, mutex.try_free (s.mutexes (s.lock i))))
  ]
    where
      inv : Inv s
      inv = Reach-Inv r
