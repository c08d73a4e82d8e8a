-- ===== src/Controller/Replication/Peers/Laws.antt =====
-- What the other side of a volume and of its group is.
use text.Mathlib.TextLemmas.{append_cancel_left}
use test_powerstore_automati.Base.{
  ◌≡◌, refl, ap, sym, ◌∙◌, none, some, List, [], ◌∷◌, String, ◌<>◌, ◌==◌, arith, Dict, lookup,
  insert, lookup-insert, eq_iff, Option-cases, inl, inr, is_empty, if◌then◌else◌, trim_prefix,
}
use test_powerstore_automati.Client.{
  Client, Cluster, RemoteSystem, ReplicationSession, VolumeGroup, Reply, get_cluster,
  get_remote_system, get_session_by_resource, get_volume_groups_by_volume,
}
use test_powerstore_automati.Client.Monad.{World, M, ret, throw, asked, if_error}
use test_powerstore_automati.Client.Results.{
  continue-ok, err-≢, ok_injective, if_missing-ok, refused-ok,
}
use test_powerstore_automati.Outcome.{ok, invalid_argument}
use test_powerstore_automati.Arrays.Handle.{VolumeHandle, parse_volume_id}
use test_powerstore_automati.Arrays.{PowerStoreArray}
use test_powerstore_automati.Controller.{Service}
use test_powerstore_automati.Controller.Replication.Peers.{
  ProtectionGroup, vol_prefix, with_systems, session_of, peer_of, describe_group, create_group_of,
  create_storage_protection_group, protection_group, with_session, with_first_group,
}

-- A step that succeeds behind a call says that the call had no error.
pub if_error-ok :
    {A B : Type 0} (reply : Reply A) (next : A → M B) (b : B) (w : World)
    → (if_error reply throw next w).0 ≡ ok b
    → (reply.error ≡ none) × ((next reply.value w).0 ≡ ok b)
if_error-ok reply next b w e = elim (Option-cases reply.error) [
  | inl n ↦ (n, rw n at e)
  | inr (x, n) ↦ absurd (err-≢ (rw n at e))
]

pub answered : {A : Type 0} (P : A → Type 0) {a b : A} → P a → (ok a) ≡ (ok b) → P b
answered P h e = rw (sym (ok_injective e)) h

module _ {B : Type 0} (c : Client) (connection : String) where
  first_group-ok :
      (groups : List VolumeGroup) (next : VolumeGroup → M B) (b : B) (w : World)
      → (with_first_group c connection groups next w).0 ≡ ok b
      → (vg : VolumeGroup) × (more : List VolumeGroup) × (groups ≡ vg ∷ more)
        × ((next vg w).0 ≡ ok b)
  first_group-ok [] next b w e = absurd (err-≢ e)
  first_group-ok (vg ∷ more) next b w e = (vg, more, refl, e)

  -- The first group of the volume, as it was listed, and the session that was read of it.
  pub with_session-ok :
      (id : String) (next : VolumeGroup → ReplicationSession → M B) (b : B) (w : World)
      → (with_session c connection id next w).0 ≡ ok b
      → let after = asked connection (get_volume_groups_by_volume id) w in
        (vg : VolumeGroup) × (more : List VolumeGroup) × ((c w.history connection
            (get_volume_groups_by_volume id)).value
          ≡ vg ∷ more)
        × (rs : ReplicationSession) × (rs
            ≡ (c after.history connection (get_session_by_resource vg.id)).value)
        × (v : World) × ((next vg rs v).0 ≡ ok b)
  with_session-ok id next b w e =
      let groups = c w.history connection (get_volume_groups_by_volume id) in
      let after = asked connection (get_volume_groups_by_volume id) w in
      let (_, e1) =
        if_error-ok groups (λ gs. with_first_group c connection gs (session_of c connection next)) b
          after e in
      let (vg, more, n, e2) =
        first_group-ok groups.value (session_of c connection next) b after e1 in
      let rs = c after.history connection (get_session_by_resource vg.id) in
      let next_world = asked connection (get_session_by_resource vg.id) after in
      let (_, e3) = if_error-ok rs (next vg) b next_world e2 in
      (vg, more, n, rs.value, refl, next_world, e3)

  -- The cluster and its peer that were read.
  pub with_systems-ok :
      (rs : ReplicationSession) (next : Cluster → RemoteSystem → M B) (b : B) (w : World)
      → (with_systems c connection rs next w).0 ≡ ok b
      → (here : Cluster) × (there : RemoteSystem) × (there
          ≡ (c
              (asked connection get_cluster w).history
              connection
              (get_remote_system rs.remote_system_id)).value)
        × (v : World) × ((next here there v).0 ≡ ok b)
  with_systems-ok rs next b w e =
      let here = c w.history connection get_cluster in
      let after = asked connection get_cluster w in
      let there = c after.history connection (get_remote_system rs.remote_system_id) in
      let (_, e1) = if_error-ok here (peer_of c connection rs next) b after e in
      let (_, e2) =
        if_error-ok there (next here.value) b
          (asked connection (get_remote_system rs.remote_system_id) after) e1 in
      (
        here.value,
        there.value,
        refl,
        asked connection (get_remote_system rs.remote_system_id) after,
        e2,
      )

-- Two keys with the same prefix are equal if they are behind it.
pub lookup-insert_prefixed :
    (p s t v : String) (m : Dict String)
    → lookup (p <> t) (insert (p <> s) v m) ≡ (if s == t then some v else lookup (p <> t) m)
lookup-insert_prefixed p s t v m =
    rw (lookup-insert (p <> s) (p <> t) v m)
      (ground (arith, append_cancel_left p s t, eq_iff s t, eq_iff (p <> s) (p <> t)))

module _ (c : Client) (s : Service) (csi_nfs_parameter : String) where
  abbrev key_of : String → String
  key_of name = s.replication_context_prefix <> name

  -- Each side's attributes describe the other side as that side's describe itself, and the local ones
  -- name the array `array_id`.
  pub record Mirrors (g : ProtectionGroup) : Type 0 where
    pub array_id : String
    pub arr : PowerStoreArray
    pub known : lookup array_id s.known.arrays ≡ some arr
    pub local_array : lookup (key_of "globalID") g.local_protection_group_attributes ≡ some array_id
    pub remote_array :
        lookup (key_of "remoteGlobalID") g.local_protection_group_attributes
        ≡ lookup (key_of "globalID") g.remote_protection_group_attributes
    pub remote_name :
        lookup (key_of "remoteSystemName") g.local_protection_group_attributes
        ≡ lookup (key_of "systemName") g.remote_protection_group_attributes
    pub local_name :
        lookup (key_of "systemName") g.local_protection_group_attributes
        ≡ lookup (key_of "remoteSystemName") g.remote_protection_group_attributes
    pub remote_address :
        lookup (key_of "remoteManagementAddress") g.local_protection_group_attributes
        ≡ lookup (key_of "managementAddress") g.remote_protection_group_attributes
    pub local_address :
        lookup (key_of "managementAddress") g.local_protection_group_attributes
        ≡ lookup (key_of "remoteManagementAddress") g.remote_protection_group_attributes
    pub group_name :
        lookup (key_of "VolumeGroupName") g.local_protection_group_attributes
        ≡ lookup (key_of "VolumeGroupName") g.remote_protection_group_attributes

  described :
      (array_id : String) (arr : PowerStoreArray) (vg : VolumeGroup) (rs : ReplicationSession)
      (here : Cluster) (there : RemoteSystem)
      → lookup array_id s.known.arrays ≡ some arr
      → Mirrors (protection_group c s csi_nfs_parameter array_id vg rs here there)
  described array_id arr vg rs here there k = record {
    array_id = array_id;
    arr = arr;
    known = k;
    local_array = simp lookup-insert_prefixed;
    remote_array = simp lookup-insert_prefixed;
    remote_name = simp lookup-insert_prefixed;
    local_name = simp lookup-insert_prefixed;
    remote_address = simp lookup-insert_prefixed;
    local_address = simp lookup-insert_prefixed;
    group_name = simp lookup-insert_prefixed;
  }

  module _ (params : Dict String) where
    describe_group-Mirrors :
        (connection array_id : String) (arr : PowerStoreArray) (vg : VolumeGroup)
        (rs : ReplicationSession) (g : ProtectionGroup) (w : World)
        → lookup array_id s.known.arrays ≡ some arr
        → (describe_group c s csi_nfs_parameter connection array_id vg rs w).0 ≡ ok g
        → Mirrors g
    unfolding describe_group
    describe_group-Mirrors connection array_id arr vg rs g w k e =
        let (here, there, _, _, e1) =
          with_systems-ok c connection rs
            (λ here there. ret (protection_group c s csi_nfs_parameter array_id vg rs here there)) g
            w e in
        answered Mirrors (described array_id arr vg rs here there k) e1

    create_group_of-Mirrors :
        (h : VolumeHandle) (g : ProtectionGroup) (w : World)
        → (create_group_of c s csi_nfs_parameter params h w).0 ≡ ok g
        → Mirrors g
    unfolding create_group_of
    create_group_of-Mirrors h g w e =
        let (arr, k, e1) =
          if_missing-ok (lookup h.local_array_global_id s.known.arrays) invalid_argument _ g w e in
        let (_, e2) = refused-ok (h.protocol == "nfs") invalid_argument _ g w e1 in
        let (vg, _, _, rs, _, v, e3) =
          with_session-ok c arr.connection
            (trim_prefix (vol_prefix csi_nfs_parameter params h.local_uuid) h.local_uuid)
            (describe_group c s csi_nfs_parameter arr.connection h.local_array_global_id) g w e2 in
        describe_group-Mirrors arr.connection h.local_array_global_id arr vg rs g v k e3

    -- If `CreateStorageProtectionGroup` succeeds, the attributes of both sides mirror each other: each
    -- side calls the other by the name, the address and the volume group that the other side has for
    -- itself; and the local attributes name an array that the driver knows, by which the later calls
    -- for the group find it.
    pub create_storage_protection_group-Mirrors :
        (handle : String) (g : ProtectionGroup) (w : World)
        → (create_storage_protection_group c s csi_nfs_parameter params handle w).0 ≡ ok g
        → Mirrors g
    unfolding create_storage_protection_group
    create_storage_protection_group-Mirrors handle g w e =
        let (_, e1) = refused-ok (is_empty handle) invalid_argument _ g w e in
        let parsed = parse_volume_id c s.known handle none w in
        let (h, _, eq) = continue-ok parsed (create_group_of c s csi_nfs_parameter params) g e1 in
        create_group_of-Mirrors h g parsed.1 (sym (ap (λ o. o.0) eq) ∙ e1)
