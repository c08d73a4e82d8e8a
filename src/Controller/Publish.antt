-- ===== src/Controller/Publish.antt =====
-- `ControllerPublishVolume` of pkg/controller/controller.go with `CheckIfVolumeExists` of the publishers.
pub mod Attach
pub mod Safety
use test_powerstore_automati.Base.{
  Bool, true, false, ◌||◌, Option, none, some, List, [], String, Dict, lookup, is_empty, ◌==◌,
  if◌then◌else◌,
}
use test_powerstore_automati.Outcome.{says, invalid_argument, internal, not_found}
use test_powerstore_automati.Client.{Client, TargetAddress, get_volume, get_fs}
use test_powerstore_automati.Client.Monad.{
  M, ret, fail, crash, call, ◌>>=◌, ◌>>◌, continue, if_error, if_missing,
}
use test_powerstore_automati.Arrays.{PowerStoreArray}
use test_powerstore_automati.Arrays.Handle.{
  AccessMode, unknown_mode, VolumeCapability, VolumeHandle, parse_volume_id,
}
use test_powerstore_automati.Controller.{Service}
use test_powerstore_automati.Controller.Scsi.{publish_scsi}
use test_powerstore_automati.Controller.Nfs.{publish_nfs}

-- What the handler reads of the request.
pub record PublishRequest : Type 0 where
  pub volume_id : String
  pub node_id : String
  pub capability : Option VolumeCapability
  pub volume_context : Dict String

module _ (c : Client)
    (sort_slice : (TargetAddress → TargetAddress → Bool) → List TargetAddress → List TargetAddress)
    (parse_cidr ip_with_mask : String → Option String) (s : Service) where
  -- `CheckIfVolumeExists` of both publishers.
  unfoldable pub check_if_volume_exists : Bool → String → String → M (Unit {0})
  check_if_volume_exists true connection id = do
    found ← call c connection (get_fs id)
    if_error found (λ x. if says not_found x then fail not_found else fail internal) (λ _. ret tt)
  check_if_volume_exists false connection id = do
    found ← call c connection (get_volume id)
    if_error found (λ x. if says not_found x then fail not_found else fail internal) (λ _. ret tt)

  unfoldable pub publish_on :
      Bool → PublishRequest → AccessMode → String → String → Bool → Dict String → M (Dict String)
  publish_on true req mode connection id is_remote ctx =
      publish_nfs c parse_cidr ip_with_mask s.external_access connection req.node_id id
        req.volume_context ctx
  publish_on false req mode connection id is_remote ctx =
      publish_scsi c sort_slice connection mode req.node_id id is_remote ctx

  -- The remote volume of a metro pair is published behind the local one.
  unfoldable pub publish_remote :
      PublishRequest
      → AccessMode
      → VolumeHandle
      → Option PowerStoreArray
      → Dict String
      → M (Dict String)
  publish_remote req mode h remote ctx =
      if is_empty h.remote_array_global_id || is_empty h.remote_uuid
      then ret ctx
      else if_missing remote crash
          (λ arr. publish_on (h.protocol == "nfs") req mode arr.connection h.remote_uuid true ctx)

  unfoldable pub publish_both :
      PublishRequest
      → AccessMode
      → VolumeHandle
      → PowerStoreArray
      → Option PowerStoreArray
      → M (Dict String)
  publish_both req mode h arr remote = do
    ctx ← publish_on (h.protocol == "nfs") req mode arr.connection h.local_uuid false []
    publish_remote req mode h remote ctx

  unfoldable pub publish_checked :
      PublishRequest
      → AccessMode
      → VolumeHandle
      → PowerStoreArray
      → Option PowerStoreArray
      → M (Dict String)
  publish_checked req mode h arr remote = do
    check_if_volume_exists (h.protocol == "nfs") arr.connection h.local_uuid
    publish_both req mode h arr remote

  -- The access mode of the request, which must be there and known.
  unfoldable pub require_mode :
      Option VolumeCapability → (AccessMode → M (Dict String)) → M (Dict String)
  require_mode capability next = if_missing capability (fail invalid_argument) (λ vc.
      if_missing vc.access_mode (fail invalid_argument)
        (λ mode. elim mode [ unknown_mode ↦ fail invalid_argument | known ↦ next known ]))

  -- The remote array, if the handle names one.
  unfoldable pub find_remote :
      VolumeHandle → (Option PowerStoreArray → M (Dict String)) → M (Dict String)
  find_remote h next =
      if is_empty h.remote_array_global_id
      then next none
      else if_missing (lookup h.remote_array_global_id s.known.arrays) (fail invalid_argument)
          (λ arr. next (some arr))

  unfoldable pub publish_parsed : PublishRequest → VolumeHandle → M (Dict String)
  publish_parsed req h =
      if_missing (lookup h.local_array_global_id s.known.arrays) (fail invalid_argument) (λ arr.
        find_remote h
          (λ remote. require_mode req.capability (λ mode. publish_checked req mode h arr remote)))

  unfoldable pub controller_publish_volume : PublishRequest → M (Dict String)
  controller_publish_volume req =
      if is_empty req.volume_id
      then fail invalid_argument
      else if is_empty req.node_id
      then fail invalid_argument
      else parse_volume_id c s.known req.volume_id req.capability >>= publish_parsed req
