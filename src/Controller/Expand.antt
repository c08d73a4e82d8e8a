-- ===== src/Controller/Expand.antt =====
-- `ControllerExpandVolume` of pkg/controller/controller.go. `client.ModifyVolume` and the size
-- arithmetic are over int64.
pub mod Laws
pub mod Result
use test_powerstore_automati.Base.{
  Bool, true, false, not, ◌&&◌, none, String, lookup, is_empty, ◌==◌, if◌then◌else◌,
}
use test_powerstore_automati.Base.Int64.{ℤ, pos, ◌+ℤ◌, lt_ℤ}
use test_powerstore_automati.Outcome.{
  Outcome, ok, err, panic, invalid_argument, internal, not_found, out_of_range, aborted,
}
use test_powerstore_automati.Client.{
  Client, Volume, get_volume, get_session, modify_volume, get_fs, modify_fs,
}
use test_powerstore_automati.Client.Monad.{
  World, M, ret, throw, fail, call, ◌>>=◌, continue, if_error, if_missing,
}
use test_powerstore_automati.Arrays.Handle.{VolumeHandle, parse_volume_id}
use test_powerstore_automati.Controller.{Service}
use test_powerstore_automati.Controller.Snapshots.{reserved_size}
use test_powerstore_automati.Size.{max_volume_size_bytes}

pub record ExpandResponse : Type 0 where
  pub capacity_bytes : ℤ
  pub node_expansion_required : Bool

module _ (paused_state : String) (c : Client) (connection : String) (required : ℤ) where
  unfoldable pub modify_size : String → M ExpandResponse
  modify_size id = do
    changed ←
        call c connection (modify_volume (record { size = required; protection_policy_id = "" }) id)
    if_error changed (λ _. fail internal)
        (λ _. ret (record { capacity_bytes = required; node_expansion_required = true }))

  -- `paused_state` stands for gopowerstore.RsStatePaused.
  -- A metro session must be paused before the volume is changed (`GetMetroSessionState`).
  unfoldable pub require_paused : Volume → M (Unit {0})
  require_paused vol = do
    session ← call c connection (get_session vol.metro_session_id)
    if_error session (λ _. fail internal)
        (λ found. if found.state == paused_state then ret tt else fail aborted)

  unfoldable pub grow : Bool → String → Volume → M ExpandResponse
  grow is_metro id vol =
      if lt_ℤ vol.size required
      then if is_metro then require_paused vol >>= (λ _. modify_size id) else modify_size id
      else ret (record { capacity_bytes = pos 0; node_expansion_required = false })

  unfoldable pub expand_scsi : Bool → String → M ExpandResponse
  expand_scsi is_metro id = do
    found ← call c connection (get_volume id)
    if_error found (λ _. fail not_found)
        (λ vol.
          if is_metro && is_empty vol.metro_session_id then fail internal else grow is_metro id vol)

  abbrev expanded_fs : ExpandResponse
  expanded_fs = record { capacity_bytes = required; node_expansion_required = false }

  -- An error of `GetFS` is not looked at: the answer is as if the filesystem were large enough.
  unfoldable pub expand_nfs : String → M ExpandResponse
  expand_nfs id = do
    found ← call c connection (get_fs id)
    if_error found (λ _. ret expanded_fs)
        (λ fs.
          if lt_ℤ fs.size_total required
          then call c connection (modify_fs (required +ℤ reserved_size) id)
            >>= (λ changed. if_error changed throw (λ _. ret expanded_fs))
          else ret expanded_fs)

module _ (paused_state : String) (c : Client) (s : Service) (required : ℤ) where
  unfoldable pub expand_parsed : VolumeHandle → M ExpandResponse
  expand_parsed h =
      if lt_ℤ (pos max_volume_size_bytes) required
      then fail out_of_range
      else if_missing (lookup h.local_array_global_id s.known.arrays) (fail invalid_argument)
          (λ arr.
            if h.protocol == "scsi"
            then expand_scsi paused_state c arr.connection required (not (is_empty h.remote_uuid))
                h.local_uuid
            else expand_nfs paused_state c arr.connection required h.local_uuid)

  abbrev parsed_or_range : Outcome VolumeHandle × World → Outcome ExpandResponse × World
  parsed_or_range (ok h, w) = expand_parsed h w
  parsed_or_range (err e, w) = fail out_of_range w
  parsed_or_range (panic, w) = (panic, w)

  unfoldable pub controller_expand_volume : String → M ExpandResponse
  controller_expand_volume id w = parsed_or_range (parse_volume_id c s.known id none w)
