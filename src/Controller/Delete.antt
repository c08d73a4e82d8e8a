-- ===== src/Controller/Delete.antt =====
-- `DeleteVolume` of pkg/controller/controller.go.
pub mod Safety
pub mod Result
use test_powerstore_automati.Base.{
  Bool, true, false, not, ◌&&◌, ◌||◌, Option, none, List, [], ◌∷◌, String, lookup, is_empty, ◌==◌,
  if◌then◌else◌,
}
use test_powerstore_automati.Base.Int64.{pos}
use test_powerstore_automati.Outcome.{
  says, invalid_argument, internal, unknown, failed_precondition, not_found,
  host_removed_from_export, volume_removed_from_group, volume_attached_to_host, Outcome, ok, err,
  panic,
}
use test_powerstore_automati.Client.{
  Client, NfsExport, NfsExportModify, Volume, VolumeGroup, get_fs_snapshots_by_volume,
  get_nfs_export_by_fs, modify_nfs_export, delete_fs, get_volume_groups_by_volume, remove_members,
  modify_volume, get_snapshots_by_volume, get_volume, end_metro_volume, delete_volume,
}
use test_powerstore_automati.Client.Monad.{
  World, M, ret, throw, fail, call, ◌>>=◌, continue, if_error, if_missing,
}
use test_powerstore_automati.Arrays.Handle.{VolumeHandle, parse_volume_id}
use test_powerstore_automati.Controller.{Service}

-- `if apiError.NotFound() { return &resp{}, nil }; return nil, err` behind `ParseVolumeID`.
abbrev pub parsed_or_gone :
    {A : Type 0} → A → Outcome VolumeHandle × World → (VolumeHandle → M A) → Outcome A × World
parsed_or_gone gone (ok h, w) next = next h w
parsed_or_gone gone (err e, w) next = if says not_found e then (ok gone, w) else (err e, w)
parsed_or_gone gone (panic, w) next = (panic, w)

abbrev pub catch_not_found : {A : Type 0} → A → M VolumeHandle → (VolumeHandle → M A) → M A
catch_not_found gone m next w = parsed_or_gone gone (m w) next

abbrev pub has_one : List String → Bool
has_one (x ∷ []) = true
has_one _ = false

abbrev pub is_only : String → List String → Bool
is_only access (x ∷ []) = access == x
is_only access _ = false

abbrev pub is_nil {ℓ} : {A : Type ℓ} → List A → Bool
is_nil [] = true
is_nil (x ∷ xs) = false

unfoldable pub has_hosts : NfsExport → Bool
has_hosts e =
    not (is_nil e.ro_hosts)
    || (not (is_nil e.ro_root_hosts) || (not (is_nil e.rw_hosts) || not (is_nil e.rw_root_hosts)))

unfoldable pub may_revoke : Service → NfsExport → Bool
may_revoke s e = (has_one e.rw_root_hosts || has_one e.rw_hosts) && not (is_empty s.external_access)

-- The request that takes the external access away from the export.
abbrev pub remove_access : String → NfsExport → NfsExportModify
remove_access access e = record {
  add_rw_root_hosts = [];
  remove_ro_hosts = [];
  remove_ro_root_hosts = [];
  remove_rw_hosts = if is_only access e.rw_hosts then access ∷ [] else [];
  remove_rw_root_hosts = if is_only access e.rw_root_hosts then access ∷ [] else [];
}

-- `parse_cidr` stands for `identifiers.ParseCIDR`, which rests on net.ParseCIDR and a CIDR library;
-- `none` is its error.
module _ (c : Client) (parse_cidr : String → Option String) where
  unfoldable pub revoke_access : String → NfsExport → String → M (Unit {0})
  revoke_access connection e access =
      if is_only access e.rw_root_hosts || is_only access e.rw_hosts
      then call c connection (modify_nfs_export (remove_access access e) e.id) >>= (λ reply.
        if_error reply
          (λ x. if says host_removed_from_export x then ret tt else fail failed_precondition)
          (λ _. ret tt))
      else fail failed_precondition

  -- Only the configured external access may still be on the export, and it is removed.
  unfoldable pub release_export : Service → String → NfsExport → M (Unit {0})
  release_export s connection e =
      if not (has_hosts e)
      then ret tt
      else if may_revoke s e
      then if_missing (parse_cidr s.external_access) (fail failed_precondition)
          (revoke_access connection e)
      else fail failed_precondition

  unfoldable pub remove_fs : String → String → M (Unit {0})
  remove_fs connection id = do
    reply ← call c connection (delete_fs id)
    if_error reply (λ x. if says not_found x then ret tt else throw x) (λ _. ret tt)

  unfoldable pub delete_nfs : Service → String → String → M (Unit {0})
  delete_nfs s connection id = do
    snaps ← call c connection (get_fs_snapshots_by_volume id)
    if_error snaps (λ _. fail unknown)
        (λ listed.
          if not (is_nil listed)
          then fail failed_precondition
          else call c connection (get_nfs_export_by_fs id) >>= (λ export.
            release_export s connection export.value >>= (λ _. remove_fs connection id)))

module _ (c : Client) where
  unfoldable pub drop_policy : String → String → M (Unit {0})
  drop_policy connection id = do
    changed ←
        call c connection (modify_volume (record { size = pos 0; protection_policy_id = "" }) id)
    if_error changed throw (λ _. ret tt)

  -- Takes the volume out of its first volume group and drops its protection policy.
  unfoldable pub leave_group : String → String → List VolumeGroup → M (Unit {0})
  leave_group connection id [] = ret tt
  leave_group connection id (group ∷ groups) = do
    removed ← call c connection (remove_members (id ∷ []) group.id)
    if_error removed
        (λ x. if says volume_removed_from_group x then drop_policy connection id else fail internal)
        (λ _. drop_policy connection id)

  unfoldable pub end_metro : String → Volume → String → M (Unit {0})
  end_metro connection volume id =
      if is_empty volume.metro_session_id
      then ret tt
      else call c connection (end_metro_volume id true)
        >>= (λ ended. if_error ended (λ _. fail internal) (λ _. ret tt))

  unfoldable pub remove_volume : String → String → M (Unit {0})
  remove_volume connection id = do
    reply ← call c connection (delete_volume id)
    if_error reply
        (λ x.
          if says not_found x
          then ret tt
          else if says volume_attached_to_host x
          then fail internal
          else throw x)
        (λ _. ret tt)

  -- The part of `DeleteVolume` behind the volume groups.
  unfoldable pub delete_unless_snapped : String → String → M (Unit {0})
  delete_unless_snapped connection id = do
    snaps ← call c connection (get_snapshots_by_volume id)
    if_error snaps (λ _. fail unknown)
        (λ listed.
          if not (is_nil listed)
          then fail failed_precondition
          else call c connection (get_volume id) >>= (λ found.
            if_error found (λ x. if says not_found x then ret tt else fail internal)
              (λ volume. end_metro connection volume id >>= (λ _. remove_volume connection id))))

  unfoldable pub delete_scsi : String → String → M (Unit {0})
  delete_scsi connection id = do
    groups ← call c connection (get_volume_groups_by_volume id)
    if_error groups
        (λ x.
          if says not_found x
          then leave_group connection id groups.value >>= (λ _. delete_unless_snapped connection id)
          else throw x)
        (λ listed. leave_group connection id listed >>= (λ _. delete_unless_snapped connection id))

module _ (c : Client) (parse_cidr : String → Option String) (s : Service) where
  unfoldable pub delete_by_protocol : String → VolumeHandle → M (Unit {0})
  delete_by_protocol connection h =
      if h.protocol == "nfs"
      then delete_nfs c parse_cidr s connection h.local_uuid
      else if h.protocol == "scsi"
      then delete_scsi c connection h.local_uuid
      else fail invalid_argument

  unfoldable pub delete_parsed : VolumeHandle → M (Unit {0})
  delete_parsed h =
      if_missing (lookup h.local_array_global_id s.known.arrays) (fail internal)
        (λ arr. delete_by_protocol arr.connection h)

  -- Answers `tt` for an empty `DeleteVolumeResponse`.
  unfoldable pub delete_volume_request : String → M (Unit {0})
  delete_volume_request id =
      if is_empty id
      then fail invalid_argument
      else catch_not_found tt (parse_volume_id c s.known id none) delete_parsed
