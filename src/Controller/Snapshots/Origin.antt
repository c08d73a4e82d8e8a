-- ===== src/Controller/Snapshots/Origin.antt =====
-- Where the snapshot comes from that `CreateSnapshot` answers.
use test_powerstore_automati.Base.{
  Bool, true, false, ◌≡◌, refl, sym, ◌∙◌, ap, none, some, ◌∷◌, String, ◌==◌, Option-cases,
  Bool-cases, inl, inr, ◌⊎◌, Option,
}
use test_powerstore_automati.Base.Int64.{ℤ}
use test_powerstore_automati.Outcome.{Error, ok, says, snapshot_name_in_use}
use test_powerstore_automati.Client.{
  Client, Reply, Event, History, Request, get_fs_by_name, get_volume_by_name, create_fs_snapshot,
  create_snapshot,
}
use test_powerstore_automati.Client.Monad.{World, asked, continue, if_error}
use test_powerstore_automati.Client.Results.{continue-ok, ok_injective, err-≢}
use test_powerstore_automati.Controller.Snapshots.{
  CsiSnapshot, GeneralSnapshot, of_volume, of_filesystem, get_existing_snapshot, create_at_source,
  source_size, create_new, use_or_create, find_or_create, snapshot_source,
}

abbrev event : String → Request → Event
event connection r = record { connection = connection; request = r }

abbrev pub unless_failed : {A : Type 0} → (A → GeneralSnapshot) → Reply A → Option GeneralSnapshot
unless_failed snapshot reply = elim reply.error [
  | some x ↦ none
  | none ↦ some (snapshot reply.value)
]

-- The name and the source of a snapshot, of a filesystem or of a volume.
module _ (c : Client) (connection name id : String) where
  abbrev pub lookup_request : (nfs : Bool) → Request
  lookup_request true = get_fs_by_name name
  lookup_request false = get_volume_by_name name

  abbrev pub creation_request : (nfs : Bool) → Request
  creation_request true = create_fs_snapshot name id
  creation_request false = create_snapshot name id

  -- What the array has by the name, and what it answers to the creation.
  abbrev pub existing_at : (nfs : Bool) → History → Option GeneralSnapshot
  existing_at true h = unless_failed of_filesystem (c h connection (get_fs_by_name name))
  existing_at false h = unless_failed of_volume (c h connection (get_volume_by_name name))

  abbrev pub creation_at : (nfs : Bool) → History → Reply String
  creation_at true h = c h connection (create_fs_snapshot name id)
  creation_at false h = c h connection (create_snapshot name id)

  -- The last call found the name, and what it found is a snapshot of the source.
  pub record Existing (nfs : Bool) (uuid : String) (size : ℤ) (after : History) : Type 0 where
    pub before : History
    pub snapshot : GeneralSnapshot
    pub last : after ≡ event connection (lookup_request nfs) ∷ before
    pub found : existing_at nfs before ≡ some snapshot
    pub same_source : snapshot.source_id == id ≡ true
    pub same_id : uuid ≡ snapshot.id
    pub same_size : size ≡ snapshot.size

  -- The last call created the snapshot.
  pub record Created (nfs : Bool) (uuid : String) (after : History) : Type 0 where
    pub before : History
    pub last : after ≡ event connection (creation_request nfs) ∷ before
    pub no_error : (creation_at nfs before).error ≡ none
    pub same_id : uuid ≡ (creation_at nfs before).value

  -- The name came into use before the creation; what the last call found by it is not compared with
  -- the source.
  pub record Raced (nfs : Bool) (uuid : String) (size : ℤ) (after : History) : Type 0 where
    pub before : History
    pub error : Error
    pub snapshot : GeneralSnapshot
    pub last :
        after
        ≡ event connection (lookup_request nfs) ∷ event connection (creation_request nfs) ∷ before
    pub refused : (creation_at nfs before).error ≡ some error
    pub in_use : says snapshot_name_in_use error ≡ true
    pub found : existing_at nfs (event connection (creation_request nfs) ∷ before) ≡ some snapshot
    pub same_id : uuid ≡ snapshot.id
    pub same_size : size ≡ snapshot.size

  -- Where a snapshot comes from. A new one has the size that the source was read with in `w`.
  abbrev pub Origin : (nfs : Bool) → World → CsiSnapshot → History → Type 0
  Origin nfs w snap after =
      (snap.source_volume_id ≡ id)
      × (Existing nfs snap.snapshot_id snap.size_bytes after
          ⊎ (((source_size c connection nfs id w).0 ≡ ok snap.size_bytes)
              × Created nfs snap.snapshot_id after)
          ⊎ Raced nfs snap.snapshot_id snap.size_bytes after)

  get_existing_snapshot-eq :
      (nfs : Bool) (w : World)
      → get_existing_snapshot c connection nfs name w
        ≡ (ok (existing_at nfs w.history), asked connection (lookup_request nfs) w)
  unfolding get_existing_snapshot
  get_existing_snapshot-eq true w =
      elim (Option-cases (c w.history connection (get_fs_by_name name)).error) [
        | inl k ↦ rw k refl
        | inr (x, k) ↦ rw k refl
      ]
  get_existing_snapshot-eq false w =
      elim (Option-cases (c w.history connection (get_volume_by_name name)).error) [
        | inl k ↦ rw k refl
        | inr (x, k) ↦ rw k refl
      ]

  create_at_source-eq :
      (nfs : Bool) (w : World)
      → create_at_source c connection nfs name id w
        ≡ (ok (creation_at nfs w.history), asked connection (creation_request nfs) w)
  unfolding create_at_source
  create_at_source-eq true w = refl
  create_at_source-eq false w = refl

  module _ (nfs : Bool) (start : World) (size : ℤ)
      (sized : (source_size c connection nfs id start).0 ≡ ok size) where
    create_new-Origin :
        (w : World) (snap : CsiSnapshot)
        → (create_new c connection nfs name id size w).0 ≡ ok snap
        → Origin nfs start snap (create_new c connection nfs name id size w).1.history
    unfolding create_new
    create_new-Origin w snap e =
        let made = creation_at nfs w.history in
        let created = asked connection (creation_request nfs) w in
        let eq = create_at_source-eq nfs w in
        let eq1 = get_existing_snapshot-eq nfs created in
        elim (Option-cases made.error) [
          | inl k ↦
              let new = ok_injective (rw (eq, continue, if_error, k) at e) in
              rw (eq, continue, if_error, k)
                (
                  ap (λ t. t.source_volume_id) (sym new),
                  inr (
                      inl (
                        sized ∙ ap (λ t. ok t.size_bytes) new,
                        record {
                          before = w.history;
                          last = refl;
                          no_error = k;
                          same_id = ap (λ t. t.snapshot_id) (sym new);
                        },
                      )),
                )
          | inr (x, k) ↦ elim (Bool-cases (says snapshot_name_in_use x)) [
            | inr l ↦ absurd (err-≢ (rw (eq, continue, if_error, k, l) at e))
            | inl l ↦ elim (Option-cases (existing_at nfs created.history)) [
              | inl n ↦ absurd (err-≢ (rw (eq, continue, if_error, k, l, eq1, n) at e))
              | inr (g, n) ↦
                  let same = ok_injective (rw (eq, continue, if_error, k, l, eq1, n) at e) in
                  rw (eq, continue, if_error, k, l, eq1, n)
                    (
                      ap (λ t. t.source_volume_id) (sym same),
                      inr (
                          inr (record {
                            before = w.history;
                            error = x;
                            snapshot = g;
                            last = refl;
                            refused = k;
                            in_use = l;
                            found = n;
                            same_id = ap (λ t. t.snapshot_id) (sym same);
                            same_size = ap (λ t. t.size_bytes) (sym same);
                          })),
                    )
            ]
          ]
        ]

    find_or_create-Origin :
        (w : World) (snap : CsiSnapshot)
        → (find_or_create c connection nfs name id size w).0 ≡ ok snap
        → Origin nfs start snap (find_or_create c connection nfs name id size w).1.history
    unfolding find_or_create use_or_create
    find_or_create-Origin w snap e =
        let eq = get_existing_snapshot-eq nfs w in
        let looked_up = asked connection (lookup_request nfs) w in
        elim (Option-cases (existing_at nfs w.history)) [
          | inl n ↦ rw (eq, n) (create_new-Origin looked_up snap (rw (eq, n) at e))
          | inr (g, n) ↦ elim (Bool-cases (g.source_id == id)) [
            | inr q ↦ absurd (err-≢ (rw (eq, n, q) at e))
            | inl q ↦
                let same = ok_injective (rw (eq, n, q) at e) in
                rw (eq, n, q)
                  (
                    ap (λ t. t.source_volume_id) (sym same),
                    inl (record {
                      before = w.history;
                      snapshot = g;
                      last = refl;
                      found = n;
                      same_source = q;
                      same_id = ap (λ t. t.snapshot_id) (sym same);
                      same_size = ap (λ t. t.size_bytes) (sym same);
                    }),
                  )
          ]
        ]

  pub snapshot_source-Origin :
      (nfs : Bool) (w : World) (snap : CsiSnapshot)
      → (snapshot_source c connection nfs name id w).0 ≡ ok snap
      → Origin nfs w snap (snapshot_source c connection nfs name id w).1.history
  unfolding snapshot_source
  snapshot_source-Origin nfs w snap e =
      let sized = source_size c connection nfs id w in
      let (size, k, eq) = continue-ok sized (find_or_create c connection nfs name id) snap e in
      rw eq (find_or_create-Origin nfs w size k sized.1 snap (sym (ap (λ o. o.0) eq) ∙ e))
