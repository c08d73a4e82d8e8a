-- ===== src/Controller/Create/Guard.antt =====
-- What `CreateVolume` creates: a condition on each call, and the creators meet it.
use test_powerstore_automati.Base.{
  Bool, true, false, ◌≡◌, refl, none, ◌∷◌, Option, String, Dict, arith, Option-cases, Bool-cases,
  inl, inr,
}
use test_powerstore_automati.Base.Int64.{ℤ, ◌+ℤ◌, eq_ℤ}
use test_powerstore_automati.Outcome.{ok}
use test_powerstore_automati.Client.{
  Client, Clone, Reply, VolumeCreate, Headers, VolumeGroup, Event, History, Request,
  get_custom_http_headers, get_software_major_version, get_nas_by_name, get_volume, get_fs,
  create_volume, create_fs, clone_volume, create_volume_from_snapshot, clone_fs,
  create_fs_from_snapshot, delete_volume, delete_fs, delete_snapshot, delete_fs_snapshot,
  delete_volume_group, delete_policy, delete_rule, end_metro_volume, remove_members, detach_volume,
}
use test_powerstore_automati.Client.Monad.{asked}
use test_powerstore_automati.Client.Invariants.{Keeps}
use test_powerstore_automati.Size.{volume_name_validation, check_size_scsi, check_size_nfs}
use test_powerstore_automati.Controller.Snapshots.{reserved_size}
use test_powerstore_automati.Controller.Create.Requests.{
  GoText, CreateRequest, ContentSource, from_volume, from_snapshot,
}
use test_powerstore_automati.Controller.Create.Attributes.{
  HostIoSizes, set_volume_create_attributes, set_nfs_create_attributes,
}
use test_powerstore_automati.Controller.Create.Creators.{
  Creator, scsi_creator, nfs_creator, check_size, check_if_already_exists, create_and_reset,
  create_with, create_scsi, create_nfs, create, is_k8s_metadata_supported, copied, clone_params,
  create_volume_from_snapshot_by, clone_by,
}

abbrev event : String → Request → Event
event connection r = record { connection = connection; request = r }

module _ (c : Client) (auto_round_off : Bool) (req : CreateRequest) where
  -- A size that the request's range allows.
  abbrev pub ScsiSize : ℤ → Type 0
  ScsiSize size = check_size_scsi req.required_bytes req.limit_bytes ≡ ok size

  abbrev pub NfsSize : ℤ → Type 0
  NfsSize size = check_size_nfs req.required_bytes req.limit_bytes auto_round_off ≡ ok size

  abbrev Named : String → Type 0
  Named name = (name ≡ req.name) × (volume_name_validation req.name ≡ ok tt)

  -- The source was read just before, and has the size that the range allows.
  abbrev CopiesVolume : String → Clone → String → History → Type 0
  CopiesVolume connection p id h =
      Named p.name
      × ((size : ℤ) × (before : History) × ScsiSize size
          × (h ≡ event connection (get_volume id) ∷ before)
          × ((c before connection (get_volume id)).error ≡ none)
          × (eq_ℤ (c before connection (get_volume id)).value.size size ≡ true))

  abbrev CopiesFs : String → Clone → String → History → Type 0
  CopiesFs connection p id h =
      Named p.name
      × ((size : ℤ) × (before : History) × NfsSize size
          × (h ≡ event connection (get_fs id) ∷ before)
          × ((c before connection (get_fs id)).error ≡ none)
          × (eq_ℤ (c before connection (get_fs id)).value.size_total (size +ℤ reserved_size)
              ≡ true))

  abbrev CreationGuard : String → Request → History → Type 0
  CreationGuard connection (create_volume v) h = Named v.name × ScsiSize v.size
  CreationGuard connection (create_fs f) h =
      Named f.name × ((size : ℤ) × NfsSize size × (f.size ≡ size +ℤ reserved_size))
  CreationGuard connection (clone_volume p id) h = CopiesVolume connection p id h
  CreationGuard connection (create_volume_from_snapshot p id) h = CopiesVolume connection p id h
  CreationGuard connection (clone_fs p id) h = CopiesFs connection p id h
  CreationGuard connection (create_fs_from_snapshot p id) h = CopiesFs connection p id h
  CreationGuard connection (delete_volume id) h = ⊥
  CreationGuard connection (delete_fs id) h = ⊥
  CreationGuard connection (delete_snapshot id) h = ⊥
  CreationGuard connection (delete_fs_snapshot id) h = ⊥
  CreationGuard connection (delete_volume_group id) h = ⊥
  CreationGuard connection (delete_policy id) h = ⊥
  CreationGuard connection (delete_rule id) h = ⊥
  CreationGuard connection (end_metro_volume id delete_remote) h = ⊥
  CreationGuard connection (remove_members ids group) h = ⊥
  CreationGuard connection (detach_volume host id) h = ⊥
  CreationGuard connection _ h = Unit

  -- What is created has the request's name, which is valid, and a size that its range allows; a copy
  -- is made right after its source was read with that size; and nothing is deleted,
  -- ended, detached or taken out of a group.
  abbrev pub CreatesChecked : Event → History → Type 0
  CreatesChecked e h = CreationGuard e.connection e.request h

  abbrev pub Checked : Creator → ℤ → Type 0
  Checked creator size =
      (volume_name_validation req.name ≡ ok tt)
      × (check_size creator req.required_bytes req.limit_bytes auto_round_off ≡ ok size)

  module _ (connection : String) where
    pub check_if_already_exists-Keeps :
        (creator : Creator) (name : String) (size : ℤ)
        → Keeps CreatesChecked (check_if_already_exists c connection creator name size)
    unfolding check_if_already_exists
    check_if_already_exists-Keeps (scsi_creator vg) name size w g = ground arith
    check_if_already_exists-Keeps (nfs_creator nas) name size w g = ground arith

    create_and_reset-Keeps :
        (headers : Headers) (v : VolumeCreate)
        → Named v.name
        → ScsiSize v.size
        → Keeps CreatesChecked (create_and_reset c connection headers v)
    unfolding create_and_reset
    create_and_reset-Keeps headers v n s w g = ((tt, ((n, s), g)))

    create_with-Keeps :
        (vg : Option VolumeGroup) (size : ℤ) (params : Option (Dict String)) (headers : Headers)
        (metadata : Bool)
        → Checked (scsi_creator vg) size
        → Keeps CreatesChecked (create_with c connection vg req.name size params headers metadata)
    unfolding create_with check_size set_volume_create_attributes
    create_with-Keeps vg size params headers true (n, s) w g =
        create_and_reset-Keeps _ _ (refl, n) s _ (tt, g)
    create_with-Keeps vg size params headers false (n, s) w g =
        create_and_reset-Keeps _ _ (refl, n) s w g

    create_scsi-Keeps :
        (vg : Option VolumeGroup) (size : ℤ) (params : Option (Dict String))
        → Checked (scsi_creator vg) size
        → Keeps CreatesChecked (create_scsi c connection vg req.name size params)
    unfolding create_scsi is_k8s_metadata_supported
    create_scsi-Keeps vg size params k w g =
        let read = asked connection get_custom_http_headers w in
        elim (Option-cases (c read.history connection get_software_major_version).error) [
          | inl e ↦ rw e (create_with-Keeps vg size params _ _ k _ (tt, (tt, g)))
          | inr (x, e) ↦ rw e (create_with-Keeps vg size params _ _ k _ (tt, (tt, g)))
        ]

    module _ (go : GoText) (sizes : HostIoSizes) where
      create_nfs-Keeps :
          (nas : String) (size : ℤ) (params : Option (Dict String))
          → Checked (nfs_creator nas) size
          → Keeps CreatesChecked (create_nfs c connection go sizes nas req.name size params)
      unfolding create_nfs set_nfs_create_attributes check_size
      create_nfs-Keeps nas size params (n, s) w g =
          elim (Option-cases (c w.history connection (get_nas_by_name nas)).error) [
            | inl e ↦ rw e (((refl, n), (size, s, refl)), (tt, g))
            | inr (x, e) ↦ rw e (tt, g)
          ]

      pub create-Keeps :
          (creator : Creator) (size : ℤ) (params : Option (Dict String))
          → Checked creator size
          → Keeps CreatesChecked (create c connection go sizes creator req.name size params)
      unfolding create
      create-Keeps (scsi_creator vg) size params k = create_scsi-Keeps vg size params k
      create-Keeps (nfs_creator nas) size params k = create_nfs-Keeps nas size params k

    copied-Keeps :
        (made : Reply String) (source : ContentSource) (size : ℤ) (params : Option (Dict String))
        → Keeps CreatesChecked (copied c connection made source size params)
    copied-Keeps made source size params w g = elim (Option-cases made.error) [
      | inl e ↦ rw e g
      | inr (x, e) ↦ rw e g
    ]

    pub create_volume_from_snapshot_by-Keeps :
        (creator : Creator) (id : String) (size : ℤ) (params : Option (Dict String))
        → Checked creator size
        → Keeps CreatesChecked
            (create_volume_from_snapshot_by c connection creator id req.name size params)
    unfolding create_volume_from_snapshot_by check_size
    create_volume_from_snapshot_by-Keeps (scsi_creator vg) id size params (n, s) w g =
        let source = c w.history connection (get_volume id) in
        let read = asked connection (get_volume id) w in
        let copy = create_volume_from_snapshot (clone_params c connection req.name params) id in
        elim (Option-cases source.error) [
          | inr (x, e) ↦ rw e (tt, g)
          | inl e ↦ elim (Bool-cases (eq_ℤ source.value.size size)) [
            | inr f ↦ rw (e, f) (tt, g)
            | inl f ↦
                rw (e, f)
                  (copied-Keeps (c read.history connection copy) (from_snapshot id) size params
                    (asked connection copy read)
                    (((refl, n), (size, w.history, s, refl, e, f)), (tt, g)))
          ]
        ]
    create_volume_from_snapshot_by-Keeps (nfs_creator nas) id size params (n, s) w g =
        let source = c w.history connection (get_fs id) in
        let read = asked connection (get_fs id) w in
        let copy = create_fs_from_snapshot (clone_params c connection req.name params) id in
        elim (Option-cases source.error) [
          | inr (x, e) ↦ rw e (tt, g)
          | inl e ↦ elim (Bool-cases (eq_ℤ source.value.size_total (size +ℤ reserved_size))) [
            | inr f ↦ rw (e, f) (tt, g)
            | inl f ↦
                rw (e, f)
                  (copied-Keeps (c read.history connection copy) (from_snapshot id) size params
                    (asked connection copy read)
                    (((refl, n), (size, w.history, s, refl, e, f)), (tt, g)))
          ]
        ]

    pub clone_by-Keeps :
        (creator : Creator) (id : String) (size : ℤ) (params : Option (Dict String))
        → Checked creator size
        → Keeps CreatesChecked (clone_by c connection creator id req.name size params)
    unfolding clone_by check_size
    clone_by-Keeps (scsi_creator vg) id size params (n, s) w g =
        let source = c w.history connection (get_volume id) in
        let read = asked connection (get_volume id) w in
        let copy = clone_volume (clone_params c connection req.name params) id in
        elim (Option-cases source.error) [
          | inr (x, e) ↦ rw e (tt, g)
          | inl e ↦ elim (Bool-cases (eq_ℤ source.value.size size)) [
            | inr f ↦ rw (e, f) (tt, g)
            | inl f ↦
                rw (e, f)
                  (copied-Keeps (c read.history connection copy) (from_volume id) size params
                    (asked connection copy read)
                    (((refl, n), (size, w.history, s, refl, e, f)), (tt, g)))
          ]
        ]
    clone_by-Keeps (nfs_creator nas) id size params (n, s) w g =
        let source = c w.history connection (get_fs id) in
        let read = asked connection (get_fs id) w in
        let copy = clone_fs (clone_params c connection req.name params) id in
        elim (Option-cases source.error) [
          | inr (x, e) ↦ rw e (tt, g)
          | inl e ↦ elim (Bool-cases (eq_ℤ source.value.size_total (size +ℤ reserved_size))) [
            | inr f ↦ rw (e, f) (tt, g)
            | inl f ↦
                rw (e, f)
                  (copied-Keeps (c read.history connection copy) (from_volume id) size params
                    (asked connection copy read)
                    (((refl, n), (size, w.history, s, refl, e, f)), (tt, g)))
          ]
        ]
