-- ===== src/Controller/Create/Grouping.antt =====
-- The replication of a new volume in `CreateVolume` of pkg/controller/controller.go: the volume group
-- for synchronous and asynchronous replication, and the remote system for metro. `valid_rpo` is
-- gopowerstore's `RPOEnum.IsValid`.
use test_powerstore_automati.Base.{
  Bool, not, ◌&&◌, ◌||◌, Option, none, some, [], String, ◌<>◌, Dict, ltb, is_empty, ◌==◌,
  if◌then◌else◌,
}
use test_powerstore_automati.Outcome.{says, invalid_argument, internal, not_found}
use test_powerstore_automati.Client.{
  Client, VolumeGroup, RemoteSystem, get_volume_group_by_name, get_volume_group,
  create_volume_group, update_volume_group_policy, get_remote_by_name,
}
use test_powerstore_automati.Client.Monad.{M, ret, fail, call, if_error, if_missing, ◌>>=◌}
use test_powerstore_automati.Arrays.{PowerStoreArray}
use test_powerstore_automati.Controller.{Service}
use test_powerstore_automati.Controller.Replication.{with_rp}
use test_powerstore_automati.Controller.Replication.Policies.{ensure_protection_policy_exists}
use test_powerstore_automati.Controller.Create.Requests.{GoText, read, find}
use test_powerstore_automati.Controller.Create.Prepare.{internal_error, with_arr}

pub data Replicated : Type 0 where
  not_replicated : Replicated
  in_group : VolumeGroup → Replicated
  metro : RemoteSystem → Replicated

module _ (c : Client) (connection : String) where
  -- The policy, with an error wrapped as an internal one.
  abbrev pub ensured_policy : String → String → String → M String
  ensured_policy vg_name remote_name rpo w =
      internal_error (ensure_protection_policy_exists c connection vg_name remote_name rpo w)

  unfoldable pub new_group : String → String → String → M VolumeGroup
  new_group vg_name remote_name rpo = do
    policy ← ensured_policy vg_name remote_name rpo
    made ← call c connection (
        create_volume_group (record {
          name = vg_name;
          description = "";
          volume_ids = [];
          protection_policy_id = policy;
        }))
    if_error made (λ _. fail internal)
        (λ id.
          call c connection (get_volume_group id)
          >>= (λ group. if_error group (λ _. fail internal) ret))

  -- A group that exists gets a policy if it has none.
  unfoldable pub existing_group :
      VolumeGroup → (mode vg_name remote_name rpo : String) → M VolumeGroup
  existing_group vg mode vg_name remote_name rpo =
      if mode == "SYNC" && not vg.is_write_order_consistent
      then fail internal
      else if not (is_empty vg.protection_policy_id)
      then ret vg
      else ensured_policy vg_name remote_name rpo >>= (λ policy.
        call c connection (update_volume_group_policy policy vg.id)
        >>= (λ updated. if_error updated (λ _. fail internal) (λ _. ret vg)))

  unfoldable pub find_or_make_group : (mode vg_name remote_name rpo : String) → M VolumeGroup
  find_or_make_group mode vg_name remote_name rpo = do
    found ← call c connection (get_volume_group_by_name vg_name)
    if_error found
        (λ e. if says not_found e then new_group vg_name remote_name rpo else fail internal)
        (λ vg. existing_group vg mode vg_name remote_name rpo)

-- The RPO that is asked for: none if it is missing in asynchronous mode.
abbrev pub rpo_of : (mode : String) → Option String → Option String
rpo_of mode (some rpo) = some rpo
rpo_of mode none = if mode == "ASYNC" then none else some "Zero"

-- The RPO is valid, and is Zero exactly in synchronous mode.
unfoldable pub rpo_fits : (String → Bool) → (mode rpo : String) → Bool
rpo_fits valid_rpo mode rpo =
    valid_rpo rpo
    && (not (mode == "ASYNC" && rpo == "Zero") && not (mode == "SYNC" && not (rpo == "Zero")))

module _ (go : GoText) (valid_rpo : String → Bool) (c : Client) (s : Service)
    (params : Option (Dict String)) where
  -- The claim's namespace is part of the name only if `ignoreNamespaces` is "false".
  unfoldable pub namespace_part : String
  namespace_part =
      if read (with_rp s "ignoreNamespaces") params == "false"
      then elim (find "csi.storage.k8s.io/pvc/namespace" params) [
        | none ↦ ""
        | some namespace ↦ namespace <> "-"
      ]
      else ""

  unfoldable pub group_name : (vg_prefix remote_name rpo : String) → String
  group_name vg_prefix remote_name rpo =
      let name = vg_prefix <> ("-" <> (namespace_part <> (remote_name <> ("-" <> rpo)))) in
      if ltb 128 (go.byte_length name) then go.byte_prefix 128 name else name

  -- The mode, in upper case, and ASYNC by default.
  abbrev pub replication_mode : String
  replication_mode =
      let given = read (with_rp s "mode") params in
      go.to_upper (if is_empty given then "ASYNC" else given)

  abbrev pub replication_enabled : Bool
  replication_enabled = read (with_rp s "isReplicationEnabled") params == "true"

  unfoldable pub prepare_group :
      Option PowerStoreArray → (mode remote_name : String) → M VolumeGroup
  prepare_group arr mode remote_name =
      if_missing (find (with_rp s "volumeGroupPrefix") params) (fail invalid_argument) (λ vg_prefix.
        if_missing (rpo_of mode (find (with_rp s "rpo") params)) (fail invalid_argument) (λ rpo.
          if not (rpo_fits valid_rpo mode rpo)
          then fail invalid_argument
          else with_arr arr (λ known.
            find_or_make_group c known.connection mode (group_name vg_prefix remote_name rpo)
              remote_name rpo)))

  unfoldable pub prepare_mode : Option PowerStoreArray → (mode remote_name : String) → M Replicated
  prepare_mode arr mode remote_name =
      if mode == "SYNC" || mode == "ASYNC"
      then prepare_group arr mode remote_name >>= (λ vg. ret (in_group vg))
      else if mode == "METRO"
      then with_arr arr (λ known.
        call c known.connection (get_remote_by_name remote_name)
        >>= (λ remote. if_error remote (λ _. fail internal) (λ system. ret (metro system))))
      else fail invalid_argument

  unfoldable pub prepare_replication : Option PowerStoreArray → (use_nfs : Bool) → M Replicated
  prepare_replication arr use_nfs =
      if not replication_enabled
      then ret not_replicated
      else if use_nfs
      then fail invalid_argument
      else if_missing (find (with_rp s "remoteSystem") params) (fail invalid_argument)
          (λ remote_name. prepare_mode arr replication_mode remote_name)
