-- ===== src/Controller/Replication/Peers/Replicas.antt =====
-- Which volume `CreateRemoteVolume` answers.
use mathlib.Core.List.{Mem, mem-cons_self, mem-cons_of_mem}
use test_powerstore_automati.Base.{
  ◌≡◌, ◌≢◌, refl, ap, sym, ◌∙◌, none, some, List, [], ◌∷◌, String, ◌<>◌, ◌==◌, arith, Dict, lookup,
  eq_iff, Bool-cases, Option-cases, inl, inr, ◌⊎◌, is_empty, trim_prefix,
}
use test_powerstore_automati.Outcome.{ok, invalid_argument, internal}
use test_powerstore_automati.Client.{
  Cluster, RemoteSystem, ReplicationSession, StorageElementPair, Volume, VolumeGroup, Reply,
  Request, Response, get_remote_system, get_session_by_resource, get_volume,
  get_volume_groups_by_volume,
}
use test_powerstore_automati.Client.Monad.{World, ret, asked}
use test_powerstore_automati.Client.Results.{continue-ok, err-≢, if_missing-ok, refused-ok}
use test_powerstore_automati.Arrays.{PowerStoreArray}
use test_powerstore_automati.Arrays.Handle.{VolumeHandle, parse_volume_id}
use test_powerstore_automati.Controller.{Service}
use test_powerstore_automati.Controller.Queries.Laws.{constant}
use test_powerstore_automati.Controller.Replication.Peers.{
  RemoteVolume, remote_volume_id, vol_prefix, describe_remote, describe_remote_volume,
  get_remote_csi_volume, create_remote_of, create_remote_volume,
}
use test_powerstore_automati.Controller.Replication.Peers.Laws.{
  with_session-ok, with_systems-ok, answered, lookup-insert_prefixed,
}

-- The remote volume of a pair of the session, unless none of the pairs has the volume.
remote_volume_id-pair :
    (id : String) (pairs : List StorageElementPair) (found : String)
    → (remote_volume_id id pairs found ≡ found)
      ⊎ ((pair : StorageElementPair) × Mem pair pairs
          × (pair.local_storage_element_id ≡ id)
          × (remote_volume_id id pairs found ≡ pair.remote_storage_element_id))
unfolding remote_volume_id
remote_volume_id-pair id [] found = inl refl
remote_volume_id-pair id (sp ∷ pairs) found =
    elim (Bool-cases (sp.local_storage_element_id == id)) [
      | inl k ↦ rw k (elim (remote_volume_id-pair id pairs sp.remote_storage_element_id) [
        | inl e ↦ inr (sp, mem-cons_self, (eq_iff sp.local_storage_element_id id).0 k, e)
        | inr (pair, m, own, e) ↦ inr (pair, mem-cons_of_mem sp m, own, e)
      ])
      | inr k ↦ rw k (elim (remote_volume_id-pair id pairs found) [
        | inl e ↦ inl e
        | inr (pair, m, own, e) ↦ inr (pair, mem-cons_of_mem sp m, own, e)
      ])
    ]

module _ (answer : String → (r : Request) → Reply (Response r)) (s : Service)
    (csi_nfs_parameter : String) (params : Dict String) where
  -- The volume `v` is the replica of the volume `id` on the other side of its group, in a session of
  -- the array at `connection`; `prefix` stands in front of its ID.
  pub record IsReplica (connection prefix id protocol : String) (v : RemoteVolume) : Type 0 where
    pub vg : VolumeGroup
    pub more : List VolumeGroup
    pub groups : (answer connection (get_volume_groups_by_volume id)).value ≡ vg ∷ more
    pub rs : ReplicationSession
    pub session : rs ≡ (answer connection (get_session_by_resource vg.id)).value
    pub pair : StorageElementPair
    pub listed : Mem pair rs.storage_element_pairs
    pub own : pair.local_storage_element_id ≡ id
    pub handle :
        v.volume_id
        ≡ (prefix <> pair.remote_storage_element_id)
          <> ("/"
              <> ((answer connection (get_remote_system rs.remote_system_id)).value.serial_number
                  <> ("/" <> protocol)))
    pub size : v.capacity_bytes ≡ (answer connection (get_volume id)).value.size

  -- The replica of the volume of a handle, on an array that the driver knows.
  abbrev pub IsReplicaOf : VolumeHandle → RemoteVolume → Type 0
  IsReplicaOf h v =
      (arr : PowerStoreArray) × (lookup h.local_array_global_id s.known.arrays ≡ some arr)
      × IsReplica arr.connection (vol_prefix csi_nfs_parameter params h.local_uuid)
          (trim_prefix (vol_prefix csi_nfs_parameter params h.local_uuid) h.local_uuid) h.protocol v

  abbrev id_of : (remote_id protocol : String) → RemoteSystem → String
  id_of remote_id protocol there = remote_id <> ("/" <> (there.serial_number <> ("/" <> protocol)))

  get_remote_csi_volume-id :
      (remote_id protocol : String) (vol : Volume) (here : Cluster) (there : RemoteSystem)
      → (get_remote_csi_volume
          (constant answer)
          s
          csi_nfs_parameter
          remote_id
          protocol
          vol
          here
          there).volume_id
        ≡ id_of remote_id protocol there
  unfolding get_remote_csi_volume
  get_remote_csi_volume-id remote_id protocol vol here there = simp lookup-insert_prefixed

  get_remote_csi_volume-size :
      (remote_id protocol : String) (vol : Volume) (here : Cluster) (there : RemoteSystem)
      → (get_remote_csi_volume
          (constant answer)
          s
          csi_nfs_parameter
          remote_id
          protocol
          vol
          here
          there).capacity_bytes
        ≡ vol.size
  unfolding get_remote_csi_volume
  get_remote_csi_volume-size remote_id protocol vol here there = refl

  describe_remote_volume-found :
      (connection remote_id protocol : String) (rs : ReplicationSession) (vol : Volume)
      (v : RemoteVolume) (w : World)
      → (describe_remote_volume
          (constant answer)
          s
          csi_nfs_parameter
          connection
          remote_id
          protocol
          rs
          vol
          w).0
        ≡ ok v
      → (v.volume_id
          ≡ id_of remote_id protocol
              (answer connection (get_remote_system rs.remote_system_id)).value)
        × (v.capacity_bytes ≡ vol.size)
  unfolding describe_remote_volume
  describe_remote_volume-found connection remote_id protocol rs vol v w e =
      let (here, there, k, _, e1) =
        with_systems-ok (constant answer) connection rs
          (λ here there. ret (
            get_remote_csi_volume (constant answer) s csi_nfs_parameter remote_id protocol vol here
              there))
          v w e in
      answered
        (λ x.
          (x.volume_id
            ≡ id_of remote_id protocol
                (answer connection (get_remote_system rs.remote_system_id)).value)
          × (x.capacity_bytes ≡ vol.size))
        (
          get_remote_csi_volume-id remote_id protocol vol here there
              ∙ ap (id_of remote_id protocol) k,
          get_remote_csi_volume-size remote_id protocol vol here there,
        )
        e1

  module _ (connection prefix id protocol : String) (rs : ReplicationSession)
      (v : RemoteVolume) where
    abbrev remote : String
    remote = remote_volume_id id rs.storage_element_pairs ""

    describe_remote-found :
        (w : World)
        → (describe_remote
            (constant answer)
            s
            csi_nfs_parameter
            connection
            prefix
            id
            protocol
            rs
            w).0
          ≡ ok v
        → (remote ≢ "")
          × (v.volume_id
              ≡ id_of
                  (prefix <> remote)
                  protocol
                  (answer connection (get_remote_system rs.remote_system_id)).value)
          × (v.capacity_bytes ≡ (answer connection (get_volume id)).value.size)
    unfolding describe_remote
    describe_remote-found w e =
        let (n, e1) = refused-ok (is_empty remote) internal _ v w e in
        elim (Option-cases (answer connection (get_volume id)).error) [
          | inr (x, k) ↦ absurd (err-≢ (rw k at e1))
          | inl k ↦
              let (a, b) =
                describe_remote_volume-found connection (prefix <> remote) protocol rs
                  (answer connection (get_volume id)).value v (asked connection (get_volume id) w)
                  (rw k at e1) in
              (ground (arith, eq_iff remote ""), a, b)
        ]

    -- What was found, as a replica: the session has a pair, since its other volume is not empty.
    described-IsReplica :
        (vg : VolumeGroup) (more : List VolumeGroup) (w : World)
        → (answer connection (get_volume_groups_by_volume id)).value ≡ vg ∷ more
        → rs ≡ (answer connection (get_session_by_resource vg.id)).value
        → (describe_remote
            (constant answer)
            s
            csi_nfs_parameter
            connection
            prefix
            id
            protocol
            rs
            w).0
          ≡ ok v
        → IsReplica connection prefix id protocol v
    described-IsReplica vg more w g k e =
        let (n, handle, size) = describe_remote-found w e in
        elim (remote_volume_id-pair id rs.storage_element_pairs "") [
          | inl missing ↦ absurd (n missing)
          | inr (pair, listed, own, found) ↦ record {
            vg = vg;
            more = more;
            groups = g;
            rs = rs;
            session = k;
            pair = pair;
            listed = listed;
            own = own;
            handle =
                handle
                ∙ ap
                    (λ r.
                      id_of (prefix <> r) protocol
                        (answer connection (get_remote_system rs.remote_system_id)).value)
                    found;
            size = size;
          }
        ]

  create_remote_of-IsReplica :
      (h : VolumeHandle) (v : RemoteVolume) (w : World)
      → (create_remote_of (constant answer) s csi_nfs_parameter params h w).0 ≡ ok v
      → IsReplicaOf h v
  unfolding create_remote_of
  create_remote_of-IsReplica h v w e =
      let prefix = vol_prefix csi_nfs_parameter params h.local_uuid in
      let id = trim_prefix prefix h.local_uuid in
      let (arr, k, e1) =
        if_missing-ok (lookup h.local_array_global_id s.known.arrays) invalid_argument _ v w e in
      let (vg, more, g, rs, q, u, e2) =
        with_session-ok (constant answer) arr.connection id
          (λ vg.
            describe_remote (constant answer) s csi_nfs_parameter arr.connection prefix id
              h.protocol)
          v w e1 in
      (arr, k, described-IsReplica arr.connection prefix id h.protocol rs v vg more u g q e2)

  -- If `CreateRemoteVolume` succeeds on arrays that answer the same at all times, the handle of its
  -- request is parsed, its array is known, and the answer is the replica of the volume: the session of
  -- the volume's first group pairs the volume with it, its handle carries the serial number of the
  -- session's remote system and the protocol, behind the prefix of the volume's ID, and it has the
  -- volume's size.
  pub create_remote_volume-IsReplica :
      (handle : String) (v : RemoteVolume) (w : World)
      → (create_remote_volume (constant answer) s csi_nfs_parameter params handle w).0 ≡ ok v
      → (h : VolumeHandle) × ((parse_volume_id (constant answer) s.known handle none w).0 ≡ ok h)
        × IsReplicaOf h v
  unfolding create_remote_volume
  create_remote_volume-IsReplica handle v w e =
      let (_, e1) = refused-ok (is_empty handle) invalid_argument _ v w e in
      let parsed = parse_volume_id (constant answer) s.known handle none w in
      let (h, p, eq) =
        continue-ok parsed (create_remote_of (constant answer) s csi_nfs_parameter params) v e1 in
      (h, p, create_remote_of-IsReplica h v parsed.1 (sym (ap (λ o. o.0) eq) ∙ e1))
