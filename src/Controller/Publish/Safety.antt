-- ===== src/Controller/Publish/Safety.antt =====
-- `ControllerPublishVolume` attaches a volume only to a host that it is not attached to.
use test_powerstore_automati.Base.{
  true, false, Bool, none, some, Option, List, [], String, Dict, ◌==◌, arith, lookup, Option-cases,
  Bool-cases, is_empty, inl, inr,
}
use test_powerstore_automati.Ip.{first_ip}
use test_powerstore_automati.Client.{Client, TargetAddress, NfsExport, FileSystem, get_fs}
use test_powerstore_automati.Client.Monad.{World, asked, M}
use test_powerstore_automati.Client.Invariants.{Guarded, Keeps, continue-Guarded}
use test_powerstore_automati.Arrays.{PowerStoreArray}
use test_powerstore_automati.Arrays.Handle.{
  AccessMode, AccessType, unknown_mode, single_node_writer, single_node_reader_only,
  multi_node_reader_only, multi_node_single_writer, multi_node_multi_writer,
  single_node_single_writer, single_node_multi_writer, other_mode, VolumeCapability, VolumeHandle,
  parse_volume_id,
}
use test_powerstore_automati.Arrays.Handle.Calls.{LetsRead, parse_volume_id-Keeps}
use test_powerstore_automati.Controller.{Service}
use test_powerstore_automati.Controller.Publish.Attach.{AttachesUnmapped, publish_scsi-Keeps}
use test_powerstore_automati.Controller.Publish.{
  PublishRequest, check_if_volume_exists, publish_on, publish_remote, publish_both, publish_checked,
  require_mode, find_remote, publish_parsed, controller_publish_volume,
}
use test_powerstore_automati.Controller.Nfs.{
  read_export, ensure_export, hosts_to_add, add_hosts, describe_export, grant_access,
  publish_export, publish_nfs,
}

-- The access mode of the request.
abbrev pub mode_of : Option VolumeCapability → AccessMode
mode_of none = unknown_mode
mode_of (some vc) = elim vc.access_mode [ none ↦ unknown_mode | some mode ↦ mode ]

module _ (c : Client) (mode : AccessMode) where
  module _ (parse_cidr ip_with_mask : String → Option String)
      (external_access connection : String) where
    ensure_export-Keeps :
        (fs : FileSystem) (id : String)
        → Keeps
            (AttachesUnmapped c mode)
            (ensure_export c parse_cidr ip_with_mask external_access connection fs id)
    unfolding ensure_export read_export
    ensure_export-Keeps fs id w g = ground arith

    hosts_to_add-Keeps :
        (ip : String) (export : NfsExport)
        → Keeps
            (AttachesUnmapped c mode)
            (hosts_to_add c parse_cidr ip_with_mask external_access connection ip export)
    unfolding hosts_to_add
    hosts_to_add-Keeps ip export w g = elim (Option-cases (ip_with_mask external_access)) [
      | inl e ↦ rw e (ground arith)
      | inr (a, e) ↦ rw e (ground arith)
    ]

    add_hosts-Keeps :
        (export : NfsExport) (hosts : List String)
        → Keeps
            (AttachesUnmapped c mode)
            (add_hosts c parse_cidr ip_with_mask external_access connection export hosts)
    unfolding add_hosts
    add_hosts-Keeps export hosts w g = ground arith

    describe_export-Keeps :
        (fs : FileSystem) (ip : String) (export : NfsExport) (volume_context ctx : Dict String)
        → Keeps (AttachesUnmapped c mode) (
            describe_export c parse_cidr ip_with_mask external_access connection fs ip export
              volume_context ctx)
    unfolding describe_export
    describe_export-Keeps fs ip export volume_context ctx w g = ground arith

    grant_access-Keeps :
        (fs : FileSystem) (ip : String) (volume_context ctx : Dict String) (export : NfsExport)
        → Keeps (AttachesUnmapped c mode) (
            grant_access c parse_cidr ip_with_mask external_access connection fs ip volume_context
              ctx export)
    unfolding grant_access
    grant_access-Keeps fs ip volume_context ctx export w g =
        continue-Guarded (AttachesUnmapped c mode)
          (hosts_to_add c parse_cidr ip_with_mask external_access connection ip export w) _
          (hosts_to_add-Keeps ip export w g)
          (λ hosts.
            let w1 =
              (hosts_to_add c parse_cidr ip_with_mask external_access connection ip export w).1 in
            let added =
              add_hosts c parse_cidr ip_with_mask external_access connection export hosts w1 in
            let g1 = add_hosts-Keeps export hosts w1 (hosts_to_add-Keeps ip export w g) in
            continue-Guarded (AttachesUnmapped c mode) added _ g1
              (λ _. describe_export-Keeps fs ip export volume_context ctx added.1 g1))

    publish_export-Keeps :
        (fs : FileSystem) (ip id : String) (volume_context ctx : Dict String)
        → Keeps (AttachesUnmapped c mode) (
            publish_export c parse_cidr ip_with_mask external_access connection fs ip id
              volume_context ctx)
    unfolding publish_export
    publish_export-Keeps fs ip id volume_context ctx w g =
        let made = ensure_export c parse_cidr ip_with_mask external_access connection fs id w in
        continue-Guarded (AttachesUnmapped c mode) made _ (ensure_export-Keeps fs id w g) (λ export.
          grant_access-Keeps fs ip volume_context ctx export made.1 (ensure_export-Keeps fs id w g))

    publish_nfs-Keeps :
        (node id : String) (volume_context ctx : Dict String)
        → Keeps (AttachesUnmapped c mode) (
            publish_nfs c parse_cidr ip_with_mask external_access connection node id volume_context
              ctx)
    unfolding publish_nfs
    publish_nfs-Keeps node id volume_context ctx w g = elim (Option-cases (first_ip node)) [
      | inl e ↦ rw e (ground arith)
      | inr (ip, e) ↦ rw e (
          ground (
            arith,
            publish_export-Keeps (c w.history connection (get_fs id)).value ip id volume_context ctx
                (asked connection (get_fs id) w),
          ))
    ]

module _ (c : Client)
    (sort_slice : (TargetAddress → TargetAddress → Bool) → List TargetAddress → List TargetAddress)
    (parse_cidr ip_with_mask : String → Option String) (s : Service) where
  module _ (mode : AccessMode) where
    check_if_volume_exists-Keeps :
        (nfs : Bool) (connection id : String)
        → Keeps
            (AttachesUnmapped c mode)
            (check_if_volume_exists c sort_slice parse_cidr ip_with_mask s nfs connection id)
    unfolding check_if_volume_exists
    check_if_volume_exists-Keeps true connection id w g = ground arith
    check_if_volume_exists-Keeps false connection id w g = ground arith

    publish_on-Keeps :
        (nfs : Bool) (req : PublishRequest) (connection id : String) (is_remote : Bool)
        (ctx : Dict String)
        → Keeps (AttachesUnmapped c mode) (
            publish_on c sort_slice parse_cidr ip_with_mask s nfs req mode connection id is_remote
              ctx)
    unfolding publish_on
    publish_on-Keeps true req connection id is_remote ctx =
        publish_nfs-Keeps c mode parse_cidr ip_with_mask s.external_access connection req.node_id id
          req.volume_context ctx
    publish_on-Keeps false req connection id is_remote ctx =
        publish_scsi-Keeps c mode sort_slice connection is_remote ctx req.node_id id

    module _ (req : PublishRequest) (h : VolumeHandle) where
      publish_remote-Keeps :
          (remote : Option PowerStoreArray) (ctx : Dict String)
          → Keeps
              (AttachesUnmapped c mode)
              (publish_remote c sort_slice parse_cidr ip_with_mask s req mode h remote ctx)
      unfolding publish_remote
      publish_remote-Keeps none ctx w g = ground arith
      publish_remote-Keeps (some arr) ctx w g = ground (
        arith,
        publish_on-Keeps (h.protocol == "nfs") req arr.connection h.remote_uuid true ctx w g,
      )

      publish_both-Keeps :
          (arr : PowerStoreArray) (remote : Option PowerStoreArray)
          → Keeps
              (AttachesUnmapped c mode)
              (publish_both c sort_slice parse_cidr ip_with_mask s req mode h arr remote)
      unfolding publish_both
      publish_both-Keeps arr remote w g =
          let nfs = h.protocol == "nfs" in
          let kept = publish_on-Keeps nfs req arr.connection h.local_uuid false [] w g in
          let local =
            publish_on c sort_slice parse_cidr ip_with_mask s nfs req mode arr.connection
              h.local_uuid false [] w in
          continue-Guarded (AttachesUnmapped c mode) local _ kept
            (λ ctx. publish_remote-Keeps remote ctx local.1 kept)

      publish_checked-Keeps :
          (arr : PowerStoreArray) (remote : Option PowerStoreArray)
          → Keeps
              (AttachesUnmapped c mode)
              (publish_checked c sort_slice parse_cidr ip_with_mask s req mode h arr remote)
      unfolding publish_checked
      publish_checked-Keeps arr remote w g =
          let nfs = h.protocol == "nfs" in
          let kept = check_if_volume_exists-Keeps nfs arr.connection h.local_uuid w g in
          let checked =
            check_if_volume_exists c sort_slice parse_cidr ip_with_mask s nfs arr.connection
              h.local_uuid w in
          continue-Guarded (AttachesUnmapped c mode) checked _ kept
            (λ _. publish_both-Keeps arr remote checked.1 kept)

  module _ (req : PublishRequest) where
    module _ (h : VolumeHandle) (arr : PowerStoreArray) (remote : Option PowerStoreArray) where
      abbrev checked : AccessMode → M (Dict String)
      checked mode = publish_checked c sort_slice parse_cidr ip_with_mask s req mode h arr remote

      known_mode-Keeps :
          (mode : Option AccessMode) (t : AccessType)
          → Keeps
              (AttachesUnmapped c (mode_of (some (record { access_type = t; access_mode = mode }))))
              (require_mode c sort_slice parse_cidr ip_with_mask s
                (some (record { access_type = t; access_mode = mode }))
                checked)
      unfolding require_mode
      known_mode-Keeps none t w g = g
      known_mode-Keeps (some unknown_mode) t w g = g
      known_mode-Keeps (some single_node_writer) t w g =
          publish_checked-Keeps _ req h arr remote w g
      known_mode-Keeps (some single_node_reader_only) t w g =
          publish_checked-Keeps _ req h arr remote w g
      known_mode-Keeps (some multi_node_reader_only) t w g =
          publish_checked-Keeps _ req h arr remote w g
      known_mode-Keeps (some multi_node_single_writer) t w g =
          publish_checked-Keeps _ req h arr remote w g
      known_mode-Keeps (some multi_node_multi_writer) t w g =
          publish_checked-Keeps _ req h arr remote w g
      known_mode-Keeps (some single_node_single_writer) t w g =
          publish_checked-Keeps _ req h arr remote w g
      known_mode-Keeps (some single_node_multi_writer) t w g =
          publish_checked-Keeps _ req h arr remote w g
      known_mode-Keeps (some other_mode) t w g = publish_checked-Keeps _ req h arr remote w g

      require_mode-Keeps :
          (capability : Option VolumeCapability)
          → Keeps
              (AttachesUnmapped c (mode_of capability))
              (require_mode c sort_slice parse_cidr ip_with_mask s capability checked)
      unfolding require_mode
      require_mode-Keeps none w g = g
      require_mode-Keeps (some vc) w g = known_mode-Keeps vc.access_mode vc.access_type w g

    module _ (h : VolumeHandle) where
      publish_parsed-Keeps :
          Keeps
            (AttachesUnmapped c (mode_of req.capability))
            (publish_parsed c sort_slice parse_cidr ip_with_mask s req h)
      unfolding publish_parsed find_remote
      publish_parsed-Keeps w g =
          elim (Option-cases (lookup h.local_array_global_id s.known.arrays)) [
            | inl e ↦ rw e g
            | inr (arr, e) ↦ elim (Bool-cases (is_empty h.remote_array_global_id)) [
              | inl f ↦ rw (e, f) (require_mode-Keeps h arr none req.capability w g)
              | inr f ↦ elim (Option-cases (lookup h.remote_array_global_id s.known.arrays)) [
                | inl k ↦ rw (e, f, k) g
                | inr (remote, k) ↦
                    rw (e, f, k) (require_mode-Keeps h arr (some remote) req.capability w g)
              ]
            ]
          ]

    reads : LetsRead (AttachesUnmapped c (mode_of req.capability))
    reads = record { reads_volume = λ k id h. tt; reads_fs = λ k id h. tt }

    -- Whatever the arrays answer, `ControllerPublishVolume` attaches a volume to a host only if the
    -- array has answered the last call before the reading of its targets with the hosts that the
    -- volume is attached to, without an error: not this host, and no host at all if the access
    -- mode of the request is one for a single node. The calls before the handler's are taken to be
    -- such.
    pub controller_publish_volume-Keeps :
        (w : World)
        → Guarded (AttachesUnmapped c (mode_of req.capability)) w.history
        → Guarded
            (AttachesUnmapped c (mode_of req.capability))
            (controller_publish_volume c sort_slice parse_cidr ip_with_mask s req w).1.history
    unfolding controller_publish_volume
    controller_publish_volume-Keeps w g =
        let parsed = parse_volume_id c s.known req.volume_id req.capability w in
        let kept =
          parse_volume_id-Keeps c s.known req.capability
            (AttachesUnmapped c (mode_of req.capability)) reads req.volume_id w g in
        let published =
          continue-Guarded (AttachesUnmapped c (mode_of req.capability)) parsed
            (publish_parsed c sort_slice parse_cidr ip_with_mask s req) kept
            (λ h. publish_parsed-Keeps h parsed.1 kept) in
        ground (arith, published)
