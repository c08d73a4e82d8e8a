-- ===== src/Controller/Publish/Attach.antt =====
-- When `ControllerPublishVolume` maps a volume to a host.
use test_powerstore_automati.Base.{
  ◌≡◌, refl, false, Bool, Bool-cases, none, List, [], ◌∷◌, String, Dict, arith, Option-cases, inl,
  inr, ◌⊎◌,
}
use test_powerstore_automati.Client.{
  Client, Event, History, Request, TargetAddress, Volume, Host, HostVolumeMapping, attach_volume,
  get_host_volume_mapping, get_volume, get_iscsi_addresses, get_nvme_tcp_addresses, get_fc_ports,
  get_cluster,
}
use test_powerstore_automati.Client.Monad.{World, asked, M}
use test_powerstore_automati.Client.Invariants.{Guarded, Keeps, continue-Guarded}
use test_powerstore_automati.Arrays.Handle.{AccessMode}
use test_powerstore_automati.Controller.Targets.{
  get_iscsi_targets_info_from_storage, get_fc_targets_info_from_storage,
  get_nvme_fc_target_info_from_storage, get_nvme_tcp_targets_info_from_storage,
  add_targets_info_to_publish_context,
}
use test_powerstore_automati.Controller.Scsi.{
  single_node, mapping_of, find_host, attach, attach_unless_mapped, publish_scsi, publish_to_host,
  publish_found,
}

abbrev event : String → Request → Event
event connection r = record { connection = connection; request = r }

-- The calls before the latest ones that read the targets of the array.
abbrev pub before_targets : History → History
before_targets [] = []
before_targets (e ∷ h) = elim e.request [
  | get_iscsi_addresses ↦ before_targets h
  | get_nvme_tcp_addresses ↦ before_targets h
  | get_fc_ports ↦ before_targets h
  | get_cluster ↦ before_targets h
  | _ ↦ e ∷ h
]

module _ (c : Client) (mode : AccessMode) where
  abbrev AttachGuard : String → Request → History → Type 0
  AttachGuard connection (attach_volume host volume) h =
      (before : History) × (before_targets h
        ≡ event connection (get_host_volume_mapping volume) ∷ before)
      × ((c before connection (get_host_volume_mapping volume)).error ≡ none)
      × (mapping_of host (c before connection (get_host_volume_mapping volume)).value ≡ none)
      × (((c before connection (get_host_volume_mapping volume)).value ≡ [])
          ⊎ (single_node mode ≡ false))
  AttachGuard connection _ h = Unit

  -- A volume is attached to a host right after the array has listed, without an error, the hosts
  -- that it is attached to: not to this one, and to another only in a mode for several nodes.
  abbrev pub AttachesUnmapped : Event → History → Type 0
  AttachesUnmapped e h = AttachGuard e.connection e.request h

  abbrev Safe : World → Type 0
  Safe w = Guarded AttachesUnmapped w.history

  module _
      (sort_slice : (TargetAddress → TargetAddress → Bool)
        → List TargetAddress
        → List TargetAddress)
      (connection : String) where
    abbrev OnlyTargets : {A : Type 0} → M A → Type 0
    OnlyTargets m =
        (w : World)
        → (before_targets (m w).1.history ≡ before_targets w.history) × (Safe w → Safe (m w).1)

    module _ (appliance : String) where
      iscsi-OnlyTargets :
          OnlyTargets (get_iscsi_targets_info_from_storage c sort_slice connection appliance)
      unfolding get_iscsi_targets_info_from_storage
      iscsi-OnlyTargets w = ground arith

      fc-OnlyTargets :
          OnlyTargets (get_fc_targets_info_from_storage c sort_slice connection appliance)
      unfolding get_fc_targets_info_from_storage
      fc-OnlyTargets w = ground arith

      nvme_fc-OnlyTargets :
          OnlyTargets (get_nvme_fc_target_info_from_storage c sort_slice connection appliance)
      unfolding get_nvme_fc_target_info_from_storage
      nvme_fc-OnlyTargets w = ground arith

      nvme_tcp-OnlyTargets :
          OnlyTargets (get_nvme_tcp_targets_info_from_storage c sort_slice connection appliance)
      unfolding get_nvme_tcp_targets_info_from_storage
      nvme_tcp-OnlyTargets w = ground arith

      add_targets-OnlyTargets :
          (ctx : Dict String) (is_remote : Bool)
          → OnlyTargets
              (add_targets_info_to_publish_context c sort_slice connection appliance ctx is_remote)
      unfolding add_targets_info_to_publish_context
      add_targets-OnlyTargets ctx is_remote w =
          let w1 = (get_iscsi_targets_info_from_storage c sort_slice connection appliance w).1 in
          let w2 = (get_fc_targets_info_from_storage c sort_slice connection appliance w1).1 in
          let w3 = (get_nvme_fc_target_info_from_storage c sort_slice connection appliance w2).1 in
          ground (
            arith,
            iscsi-OnlyTargets w,
            fc-OnlyTargets w1,
            nvme_fc-OnlyTargets w2,
            nvme_tcp-OnlyTargets w3,
          )

    attach-Safe :
        (volume : Volume) (host : Host) (is_remote : Bool) (ctx : Dict String) (w : World)
        → AttachGuard connection (attach_volume host.id volume.id) w.history
        → Safe w
        → Safe (attach c sort_slice connection volume host is_remote ctx w).1
    unfolding attach
    attach-Safe volume host is_remote ctx w u g = ground arith

    module _ (volume : Volume) (host : Host) (is_remote : Bool) (ctx : Dict String)
        (before : History)
        (fine : (c before connection (get_host_volume_mapping volume.id)).error ≡ none) (w : World)
        (read : before_targets w.history
          ≡ event connection (get_host_volume_mapping volume.id) ∷ before)
        (g : Safe w) where
      attach_unless_mapped-Safe :
          (ms : List HostVolumeMapping)
          → (c before connection (get_host_volume_mapping volume.id)).value ≡ ms
          → Safe
              (attach_unless_mapped c sort_slice connection mode volume host is_remote ms ctx w).1
      unfolding attach_unless_mapped mapping_of
      attach_unless_mapped-Safe [] e =
          attach-Safe volume host is_remote ctx w (before, read, fine, rw e refl, inl e) g
      attach_unless_mapped-Safe (m ∷ more) e = elim (Option-cases (mapping_of host.id (m ∷ more))) [
        | inr (m, f) ↦ rw f g
        | inl f ↦ elim (Bool-cases (single_node mode)) [
          | inl many ↦ rw (f, many) g
          | inr one ↦
              rw (f, one)
                (attach-Safe volume host is_remote ctx w (before, read, fine, rw e f, inr one) g)
        ]
      ]

    find_host-Keeps :
        (node : String) → Keeps AttachesUnmapped (find_host c sort_slice connection node)
    unfolding find_host
    find_host-Keeps node w g = ground arith

    module _ (is_remote : Bool) (ctx : Dict String) where
      publish_to_host-Keeps :
          (volume : Volume) (host : Host)
          → Keeps AttachesUnmapped
              (publish_to_host c sort_slice connection mode volume is_remote ctx host)
      unfolding publish_to_host
      publish_to_host-Keeps volume host w g =
          let read = get_host_volume_mapping volume.id in
          let w1 = asked connection read w in
          let targets =
            add_targets_info_to_publish_context c sort_slice connection volume.appliance_id ctx
              is_remote w1 in
          elim (Option-cases (c w.history connection read).error) [
            | inr (x, e) ↦ rw e (ground arith)
            | inl e ↦ rw e (
                continue-Guarded AttachesUnmapped targets _
                  ((add_targets-OnlyTargets volume.appliance_id ctx is_remote w1).1 (ground arith))
                  (λ found.
                    attach_unless_mapped-Safe volume host is_remote found w.history e targets.1
                      ((add_targets-OnlyTargets volume.appliance_id ctx is_remote w1).0)
                      ((add_targets-OnlyTargets volume.appliance_id ctx is_remote w1).1
                        (ground arith))
                      _ refl))
          ]

      publish_found-Keeps :
          (node : String) (volume : Volume)
          → Keeps AttachesUnmapped
              (publish_found c sort_slice connection mode node is_remote ctx volume)
      unfolding publish_found
      publish_found-Keeps node volume w g =
          let found = find_host c sort_slice connection node w in
          continue-Guarded AttachesUnmapped found _ (find_host-Keeps node w g)
            (λ host. publish_to_host-Keeps volume host found.1 (find_host-Keeps node w g))

      pub publish_scsi-Keeps :
          (node volume_id : String)
          → Keeps AttachesUnmapped
              (publish_scsi c sort_slice connection mode node volume_id is_remote ctx)
      unfolding publish_scsi
      publish_scsi-Keeps node volume_id w g = ground (
        arith,
        publish_found-Keeps node (c w.history connection (get_volume volume_id)).value
            (asked connection (get_volume volume_id) w),
      )
