-- ===== src/Arrays/Handle.antt =====
-- `ParseVolumeID` of pkg/array/array.go: the parts of a volume handle as Kubernetes passes it.
pub mod RoundTrip
pub mod Calls
use test_powerstore_automati.Base.{
  Option, none, some, List, [], ◌∷◌, String, lookup, or_default, split, is_empty, ◌==◌,
  if◌then◌else◌,
}
use test_powerstore_automati.Outcome.{says, not_found, failed_precondition, unknown}
use test_powerstore_automati.Client.{Client, get_volume, get_fs}
use test_powerstore_automati.Client.Monad.{◌>>=◌, M, ret, throw, fail, crash, call, if_error}
use test_powerstore_automati.Arrays.{PowerStoreArray, Arrays}
use test_powerstore_automati.Ip.{first_ip}

pub record VolumeHandle : Type 0 where
  pub local_uuid : String
  pub local_array_global_id : String
  pub remote_uuid : String
  pub remote_array_global_id : String
  pub protocol : String

-- A volume capability, as far as handlers look into it. An access type is set at most once.
pub data AccessType : Type 0 where
  block : AccessType
  mount : (fs_type : String) → AccessType
  no_access_type : AccessType

-- `csi.VolumeCapability_AccessMode_Mode`
pub data AccessMode : Type 0 where
  unknown_mode single_node_writer single_node_reader_only multi_node_reader_only : AccessMode
  multi_node_single_writer multi_node_multi_writer : AccessMode
  single_node_single_writer single_node_multi_writer other_mode : AccessMode

pub record VolumeCapability : Type 0 where
  pub access_type : AccessType
  pub access_mode : Option AccessMode

abbrev handle : String → String → String → VolumeHandle
handle uuid global_id protocol = record {
  local_uuid = uuid;
  local_array_global_id = global_id;
  remote_uuid = "";
  remote_array_global_id = "";
  protocol = protocol;
}

-- The protocol of a volume without one in its handle is asked of the default array.
unfoldable pub query_protocol : Client → PowerStoreArray → String → M VolumeHandle
query_protocol c arr uuid = do
  volume ← call c arr.connection (get_volume uuid)
  if_error volume
      (λ _. do
        fs ← call c arr.connection (get_fs uuid)
        if_error fs (λ e. if says not_found e then throw e else fail unknown)
            (λ _. ret (handle uuid arr.global_id "nfs")))
      (λ _. ret (handle uuid arr.global_id "scsi"))

unfoldable pub legacy_handle :
    Client → PowerStoreArray → Option VolumeCapability → String → M VolumeHandle
legacy_handle c arr none uuid = query_protocol c arr uuid
legacy_handle c arr (some vc) uuid = elim vc.access_type [
  | mount fs_type ↦ ret (handle uuid arr.global_id (if fs_type == "nfs" then "nfs" else "scsi"))
  | _ ↦ query_protocol c arr uuid
]

-- Legacy handles have an IP in place of a Global ID. An unknown IP gives "".
unfoldable pub global_id_of : Arrays → String → String
global_id_of s part = elim (first_ip part) [
  | none ↦ part
  | some ip ↦ or_default (lookup ip s.ip_to_array) ""
]

unfoldable pub parse_local :
    Client → Arrays → Option VolumeCapability → List String → M VolumeHandle
parse_local c s vc [] = crash
parse_local c s vc (uuid ∷ []) = elim s.default_array [
  | none ↦ crash
  | some arr ↦ legacy_handle c arr vc uuid
]
parse_local c s vc (uuid ∷ part ∷ []) = crash
parse_local c s vc (uuid ∷ part ∷ protocol ∷ more) =
    ret (handle uuid (global_id_of s part) protocol)

-- The second portion of a metro handle.
unfoldable pub parse_remote : VolumeHandle → List String → M VolumeHandle
parse_remote h (uuid ∷ global_id ∷ more) =
    ret (record h { remote_uuid = uuid; remote_array_global_id = global_id })
parse_remote h _ = crash

unfoldable pub parse_parts :
    Client → Arrays → Option VolumeCapability → List String → M VolumeHandle
parse_parts c s vc [] = crash
parse_parts c s vc (first ∷ []) = parse_local c s vc (split b'/' first)
parse_parts c s vc (first ∷ second ∷ more) = do
  h ← parse_local c s vc (split b'/' first)
  parse_remote h (split b'/' second)

unfoldable pub parse_volume_id : Client → Arrays → String → Option VolumeCapability → M VolumeHandle
parse_volume_id c s raw vc =
    if is_empty raw then fail failed_precondition else parse_parts c s vc (split b':' raw)
