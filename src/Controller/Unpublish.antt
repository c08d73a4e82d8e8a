-- ===== src/Controller/Unpublish.antt =====
-- `ControllerUnpublishVolume` of pkg/controller/controller.go and `detachVolumeFromHost` of base.go.
pub mod Idempotent
use test_powerstore_automati.Base.{
  Bool, not, ◌||◌, Option, none, some, [], ◌∷◌, String, ◌<>◌, lookup, is_empty, ◌==◌, if◌then◌else◌,
  contains_text,
}
use test_powerstore_automati.Outcome.{
  Error, status, api, other, says, invalid_argument, internal, not_found, unknown, host_not_exist,
  host_removed_from_export, volume_not_attached, host_not_attached, volume_detached, Outcome, ok,
  err, panic,
}
use test_powerstore_automati.Client.{
  Client, Host, NfsExport, NfsExportModify, get_host_by_name, detach_volume, get_fs,
  get_nfs_export_by_fs, modify_nfs_export,
}
use test_powerstore_automati.Client.Monad.{
  World, M, ret, throw, fail, crash, call, ◌>>=◌, continue, if_error, if_missing,
}
use test_powerstore_automati.Ip.{first_ip, last_ip}
use test_powerstore_automati.Arrays.{PowerStoreArray}
use test_powerstore_automati.Arrays.Handle.{VolumeHandle, parse_volume_id}
use test_powerstore_automati.Controller.{Service}
use test_powerstore_automati.Controller.Delete.{is_nil}
use test_powerstore_automati.Controller.Scsi.{node_without_ip}
use test_powerstore_automati.Controller.Nfs.{contains_host}

-- An error by which the volume is known not to be attached.
abbrev pub is_detached : Error → Bool
is_detached x =
    says volume_not_attached x
    || (says host_not_attached x || (says not_found x || says volume_detached x))

-- `detachVolumeFromHost`: what is made of an error.
unfoldable pub detach_failed : Error → M (Unit {0})
detach_failed (status code) = fail unknown
detach_failed (other m) = fail unknown
detach_failed (api e) =
    if contains_text e.message "Host is not attached to volume"
    then ret tt
    else if says host_not_exist (api e)
    then fail not_found
    else if is_detached (api e)
    then ret tt
    else fail unknown

-- The addresses that are taken off an export. `sort.SearchStrings` never gives a negative index, so
-- the read-only lists are only tested for being empty.
abbrev pub remove_host : String → NfsExport → NfsExportModify
remove_host host e = record {
  add_rw_root_hosts = [];
  remove_ro_hosts = if is_nil e.ro_hosts then [] else host ∷ [];
  remove_ro_root_hosts = if is_nil e.ro_root_hosts then [] else host ∷ [];
  remove_rw_hosts = if contains_host e.rw_hosts host then host ∷ [] else [];
  remove_rw_root_hosts = if contains_host e.rw_root_hosts host then host ∷ [] else [];
}

module _ (c : Client) where
  unfoldable pub detach_volume_from_host : String → String → String → M (Unit {0})
  detach_volume_from_host connection host volume = do
    detached ← call c connection (detach_volume host volume)
    if_error detached detach_failed (λ _. ret tt)

  -- The host of the node, looked up a second time without its IP. The first error here is not a
  -- gRPC status.
  unfoldable pub find_attached_host : String → String → M Host
  find_attached_host connection node = do
    found ← call c connection (get_host_by_name node)
    if_error found
        (λ x.
          if says host_not_exist x
          then if_missing (last_ip node) (throw (other "can't find IP in nodeID")) (λ ip.
            if_missing (node_without_ip node ip) crash (λ name.
              call c connection (get_host_by_name name)
              >>= (λ again. if_error again (λ _. fail not_found) ret)))
          else fail internal)
        ret

  unfoldable pub detach_remote : String → VolumeHandle → Option PowerStoreArray → M (Unit {0})
  detach_remote node h remote =
      if is_empty h.remote_array_global_id || is_empty h.remote_uuid
      then ret tt
      else if_missing remote crash (λ arr.
        call c arr.connection (get_host_by_name node) >>= (λ found.
          if_error found (λ _. fail internal)
            (λ host. detach_volume_from_host arr.connection host.id h.remote_uuid)))

  unfoldable pub unpublish_scsi :
      String → String → VolumeHandle → Option PowerStoreArray → M (Unit {0})
  unpublish_scsi connection node h remote = do
    host ← find_attached_host connection node
    detached ← detach_volume_from_host connection host.id h.local_uuid
    detach_remote node h remote

  unfoldable pub remove_from_export : String → String → NfsExport → M (Unit {0})
  remove_from_export connection ip e = do
    changed ← call c connection (modify_nfs_export (remove_host (ip <> "/255.255.255.255") e) e.id)
    if_error changed (λ x. if says host_removed_from_export x then ret tt else fail internal)
        (λ _. ret tt)

  unfoldable pub unpublish_nfs : String → String → String → M (Unit {0})
  unpublish_nfs connection node id = do
    found ← call c connection (get_fs id)
    if_error found (λ x. if says not_found x then ret tt else fail unknown)
        (λ fs. if_missing (first_ip node) (throw (other "can't find IP in nodeID")) (λ ip.
          call c connection (get_nfs_export_by_fs fs.id) >>= (λ export.
            if_error export (λ x. if says not_found x then ret tt else fail internal)
              (remove_from_export connection ip))))

  unfoldable pub unpublish_on :
      String → String → VolumeHandle → Option PowerStoreArray → M (Unit {0})
  unpublish_on connection node h remote =
      if h.protocol == "scsi"
      then unpublish_scsi connection node h remote
      else if h.protocol == "nfs"
      then unpublish_nfs connection node h.local_uuid
      else fail invalid_argument

  -- `if apiError.NotFound() { return &resp{}, nil }; return nil, status.Errorf(codes.Unknown, …)`
  abbrev pub parsed_or_unknown :
      Outcome VolumeHandle × World → (VolumeHandle → M (Unit {0})) → Outcome (Unit {0}) × World
  parsed_or_unknown (ok h, w) next = next h w
  parsed_or_unknown (err e, w) next =
      if says not_found e then (ok tt, w) else (err (status unknown), w)
  parsed_or_unknown (panic, w) next = (panic, w)

  unfoldable pub unpublish_parsed : Service → String → VolumeHandle → M (Unit {0})
  unpublish_parsed s node h =
      if_missing (lookup h.local_array_global_id s.known.arrays) (fail invalid_argument) (λ arr.
        if is_empty h.remote_array_global_id
        then unpublish_on arr.connection node h none
        else if_missing (lookup h.remote_array_global_id s.known.arrays) (fail invalid_argument)
            (λ remote. unpublish_on arr.connection node h (some remote)))

  unfoldable pub controller_unpublish_volume : Service → String → String → M (Unit {0})
  controller_unpublish_volume s id node =
      if is_empty id
      then fail invalid_argument
      else if is_empty node
      then fail invalid_argument
      else λ w. parsed_or_unknown (parse_volume_id c s.known id none w) (unpublish_parsed s node)
