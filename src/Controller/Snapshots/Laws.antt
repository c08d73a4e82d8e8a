-- ===== src/Controller/Snapshots/Laws.antt =====
-- What `CreateSnapshot` answers.
use test_powerstore_automati.Base.{
  ◌≡◌, sym, ◌∙◌, ap, none, some, String, ◌==◌, ◌<>◌, Option-cases, Bool-cases, inl, inr, lookup,
  is_empty,
}
use test_powerstore_automati.Outcome.{ok}
use test_powerstore_automati.Client.{Client, History}
use test_powerstore_automati.Client.Monad.{World, ret}
use test_powerstore_automati.Client.Results.{continue-ok, ok_injective, err-≢}
use test_powerstore_automati.Arrays.{PowerStoreArray}
use test_powerstore_automati.Arrays.Handle.{VolumeHandle, parse_volume_id}
use test_powerstore_automati.Size.{volume_name_validation}
use test_powerstore_automati.Controller.{Service}
use test_powerstore_automati.Controller.Snapshots.{
  CsiSnapshot, snapshot_source, snapshot_parsed, create_of_source, create_snapshot_request,
  with_handle,
}
use test_powerstore_automati.Controller.Snapshots.Origin.{Origin, snapshot_source-Origin}

module _ (c : Client) (s : Service) (name : String) where
  -- The answer is the snapshot `raw` of the handle's volume, from `w` on, with a handle that has the
  -- array and the protocol of the volume.
  pub record Describes (h : VolumeHandle) (w : World) (snap : CsiSnapshot) (after : History)
      : Type 0 where
    pub arr : PowerStoreArray
    pub known : lookup h.local_array_global_id s.known.arrays ≡ some arr
    pub raw : CsiSnapshot
    pub origin : Origin c arr.connection name h.local_uuid (h.protocol == "nfs") w raw after
    pub same_source : snap.source_volume_id ≡ raw.source_volume_id
    pub same_size : snap.size_bytes ≡ raw.size_bytes
    pub handle :
        snap.snapshot_id
        ≡ raw.snapshot_id <> ("/" <> (h.local_array_global_id <> ("/" <> h.protocol)))

  snapshot_parsed-Describes :
      (h : VolumeHandle) (w : World) (snap : CsiSnapshot)
      → (snapshot_parsed c s name h w).0 ≡ ok snap
      → Describes h w snap (snapshot_parsed c s name h w).1.history
  unfolding snapshot_parsed
  snapshot_parsed-Describes h w snap e =
      elim (Option-cases (lookup h.local_array_global_id s.known.arrays)) [
        | inl f ↦ absurd (err-≢ (rw f at e))
        | inr (arr, f) ↦
            let nfs = h.protocol == "nfs" in
            let made = snapshot_source c arr.connection nfs name h.local_uuid w in
            let (raw, g, eq) =
              continue-ok made (λ snap. ret (with_handle h snap)) snap (rw f at e) in
            let same = ok_injective (sym (ap (λ o. o.0) eq) ∙ rw f at e) in
            rw (f, eq)
              (record {
                arr = arr;
                known = f;
                raw = raw;
                origin = snapshot_source-Origin c arr.connection name h.local_uuid nfs w raw g;
                same_source = ap (λ t. t.source_volume_id) (sym same);
                same_size = ap (λ t. t.size_bytes) (sym same);
                handle = ap (λ t. t.snapshot_id) (sym same);
              })
      ]

  create_of_source-Describes :
      (source : String) (w : World) (snap : CsiSnapshot)
      → (create_of_source c s name source w).0 ≡ ok snap
      → (h : VolumeHandle) × ((parse_volume_id c s.known source none w).0 ≡ ok h)
        × Describes h
            (parse_volume_id c s.known source none w).1
            snap
            (create_of_source c s name source w).1.history
  unfolding create_of_source
  create_of_source-Describes source w snap e = elim (Bool-cases (is_empty source)) [
    | inl n ↦ absurd (err-≢ (rw n at e))
    | inr n ↦
        let parsed = parse_volume_id c s.known source none w in
        let (h, k, eq) = continue-ok parsed (snapshot_parsed c s name) snap (rw n at e) in
        let e1 = sym (ap (λ o. o.0) eq) ∙ rw n at e in
        rw (n, eq) (h, k, snapshot_parsed-Describes h parsed.1 snap e1)
  ]

  -- If `CreateSnapshot` succeeds, then the handle of the source was parsed, its array is known, and
  -- the answer names the volume of the handle as the source and has its array and its protocol in
  -- the snapshot's handle. The rest of that handle is the id of the snapshot that the last call gave,
  -- and so is the size: one that had the name already and is of this source; or a new one that the
  -- array made under the name, with the size that the source was read with; or, after the array
  -- refused the new one because the name came into use, the one that has the name then, of whatever
  -- source it is.
  pub create_snapshot_request-Describes :
      (source : String) (w : World) (snap : CsiSnapshot)
      → (create_snapshot_request c s name source w).0 ≡ ok snap
      → (h : VolumeHandle) × ((parse_volume_id c s.known source none w).0 ≡ ok h)
        × Describes h
            (parse_volume_id c s.known source none w).1
            snap
            (create_snapshot_request c s name source w).1.history
  unfolding create_snapshot_request
  create_snapshot_request-Describes source w snap e =
      let (_, _, eq) =
        continue-ok (volume_name_validation name, w) (λ _. create_of_source c s name source) snap
          e in
      rw eq (create_of_source-Describes source w snap (sym (ap (λ o. o.0) eq) ∙ e))
