-- ===== src/Controller/Scsi.antt =====
-- The publisher of block volumes (`SCSIPublisher` of pkg/controller/publisher.go).
use Prim.Native.String.{len, slice}
use test_powerstore_automati.Base.{
  ◌+◌, ◌-◌, ltb, Bool, true, false, Option, none, some, List, [], ◌∷◌, String, Dict, insert, ◌==◌,
  if◌then◌else◌, trim_prefix, decimal,
}
use test_powerstore_automati.Outcome.{
  says, internal, not_found, failed_precondition, host_not_exist,
}
use test_powerstore_automati.Client.{
  Client, TargetAddress, Volume, Host, HostVolumeMapping, get_volume, get_host_by_name,
  get_host_volume_mapping, attach_volume,
}
use test_powerstore_automati.Client.Monad.{M, ret, fail, crash, call, ◌>>=◌, if_error, if_missing}
use test_powerstore_automati.Ip.{last_ip}
use test_powerstore_automati.Arrays.Handle.{
  AccessMode, single_node_writer, single_node_reader_only, single_node_single_writer,
  single_node_multi_writer,
}
use test_powerstore_automati.Controller.Targets.{add_targets_info_to_publish_context, remote_key}

abbrev pub single_node : AccessMode → Bool
single_node single_node_writer = true
single_node single_node_reader_only = true
single_node single_node_single_writer = true
single_node single_node_multi_writer = true
single_node _ = false

-- The mapping to a host, the first if there are several.
unfoldable pub mapping_of : String → List HostVolumeMapping → Option HostVolumeMapping
mapping_of host [] = none
mapping_of host (m ∷ ms) =
    let rest = mapping_of host ms in if m.host_id == host then some m else rest

unfoldable pub add_lun_id_to_publish_context :
    HostVolumeMapping → Volume → Bool → Dict String → Dict String
add_lun_id_to_publish_context m volume is_remote ctx =
    insert (remote_key is_remote "LUN_ADDRESS") (decimal m.logical_unit_number)
      (insert (remote_key is_remote "DEVICE_WWN") (trim_prefix "naa." volume.wwn) ctx)

-- `kubeNodeID[:len(kubeNodeID)-len(ip)-1]`, with `none` for the panic on a negative bound.
unfoldable pub node_without_ip : String → String → Option String
node_without_ip node ip =
    if ltb (len node) (len ip + 1) then none else some (slice node 0 (len node - (len ip + 1)))

module _ (c : Client)
    (sort_slice : (TargetAddress → TargetAddress → Bool) → List TargetAddress → List TargetAddress)
    (connection : String) where
  -- A host that is not registered under the node's name may be so without its IP.
  unfoldable pub find_host : String → M Host
  find_host node = do
    found ← call c connection (get_host_by_name node)
    if_error found
        (λ x.
          if says host_not_exist x
          then if_missing (last_ip node) (fail not_found) (λ ip.
            if_missing (node_without_ip node ip) crash (λ name.
              call c connection (get_host_by_name name)
              >>= (λ again. if_error again (λ _. fail not_found) ret)))
          else fail internal)
        ret

  -- The attachment itself, and the mapping that it makes.
  unfoldable pub attach : Volume → Host → Bool → Dict String → M (Dict String)
  attach volume host is_remote ctx = do
    attached ← call c connection (attach_volume host.id volume.id)
    if_error attached (λ _. fail internal)
        (λ _. call c connection (get_host_volume_mapping volume.id) >>= (λ mapping.
          if_error mapping (λ _. fail internal)
            (λ ms.
              if_missing (mapping_of host.id ms) (fail internal)
                (λ m. ret (add_lun_id_to_publish_context m volume is_remote ctx)))))

  -- A volume that is mapped elsewhere is attached only in a mode for several nodes.
  unfoldable pub attach_unless_mapped :
      AccessMode → Volume → Host → Bool → List HostVolumeMapping → Dict String → M (Dict String)
  attach_unless_mapped mode volume host is_remote ms ctx =
      if_missing (mapping_of host.id ms)
        (elim ms [
          | [] ↦ attach volume host is_remote ctx
          | m ∷ more ↦
              if single_node mode
              then fail failed_precondition
              else attach volume host is_remote ctx
        ])
        (λ m. ret (add_lun_id_to_publish_context m volume is_remote ctx))

  unfoldable pub publish_to_host : AccessMode → Volume → Bool → Dict String → Host → M (Dict String)
  publish_to_host mode volume is_remote ctx host = do
    mapping ← call c connection (get_host_volume_mapping volume.id)
    if_error mapping (λ _. fail internal)
        (λ ms.
          add_targets_info_to_publish_context c sort_slice connection volume.appliance_id ctx
            is_remote
          >>= attach_unless_mapped mode volume host is_remote ms)

  unfoldable pub publish_found : AccessMode → String → Bool → Dict String → Volume → M (Dict String)
  publish_found mode node is_remote ctx volume = do
    host ← find_host node
    publish_to_host mode volume is_remote ctx host

  -- `Publish` of `SCSIPublisher`
  unfoldable pub publish_scsi : AccessMode → String → String → Bool → Dict String → M (Dict String)
  publish_scsi mode node volume_id is_remote ctx = do
    found ← call c connection (get_volume volume_id)
    if_error found (λ x. if says not_found x then fail not_found else fail internal)
        (publish_found mode node is_remote ctx)
