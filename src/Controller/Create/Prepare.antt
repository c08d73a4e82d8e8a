-- ===== src/Controller/Create/Prepare.antt =====
-- What `CreateVolume` of pkg/controller/controller.go decides before it creates anything: the array,
-- the protocol, the NAS server and the access lists.
use test_powerstore_automati.Base.{
  ℕ, Bool, true, false, not, ◌&&◌, ◌||◌, Option, none, some, List, [], ◌∷◌, String, Dict, lookup,
  insert, is_empty, ◌==◌, split, contains_text, if◌then◌else◌,
}
use test_powerstore_automati.Base.Int64.{ℤ}
use test_powerstore_automati.Outcome.{Outcome, ok, err, panic, invalid_argument, internal}
use test_powerstore_automati.Cooldown.{NasCooldown}
use test_powerstore_automati.Client.{Client}
use test_powerstore_automati.Client.Monad.{
  World, M, ret, fail, crash, lift, if_missing, ◌>>=◌, ◌>>◌,
}
use test_powerstore_automati.Arrays.{PowerStoreArray}
use test_powerstore_automati.Arrays.Handle.{
  AccessType, block, mount, no_access_type, VolumeCapability,
}
use test_powerstore_automati.Nas.{get_least_used_active_nas}
use test_powerstore_automati.Size.{volume_name_validation}
use test_powerstore_automati.Controller.{Service}
use test_powerstore_automati.Controller.Create.Requests.{
  GoText, Accessibility, CreateRequest, read, find, has_required_topology,
}
use test_powerstore_automati.Controller.Create.Creators.{
  Creator, scsi_creator, nfs_creator, check_size,
}

-- The readings of the clock: in the two loops over NAS servers, and when a failure is marked.
pub record Times : Type 0 where
  pub selecting : ℕ
  pub falling_back : ℕ
  pub marking : ℕ

-- `GetMount().GetFsType()`
abbrev pub fs_type_of : AccessType → String
fs_type_of block = ""
fs_type_of (mount fs_type) = fs_type
fs_type_of no_access_type = ""

abbrev pub is_block : AccessType → Bool
is_block block = true
is_block (mount fs_type) = false
is_block no_access_type = false

unfoldable pub uses_nfs : AccessType → Option (Dict String) → Bool
uses_nfs access params =
    fs_type_of access == "nfs" || read "csi.storage.k8s.io/fstype" params == "nfs"

unfoldable pub raw_block_of_nfs : AccessType → Option (Dict String) → Bool
raw_block_of_nfs access params =
    is_block access
    && (read "csi.storage.k8s.io/fstype" params == "nfs" || read "FsType" params == "nfs")

-- An error of a step becomes an internal one.
abbrev pub internal_error : {A : Type 0} → Outcome A × World → Outcome A × World
internal_error (ok a, w) = (ok a, w)
internal_error (err e, w) = fail internal w
internal_error (panic, w) = (panic, w)

-- The request's array may be nil, which panics where a field of it is read.
abbrev pub with_arr : {A : Type 0} → Option PowerStoreArray → (PowerStoreArray → M A) → M A
with_arr arr next = if_missing arr crash next

-- The tracker of an array. Each known array has one.
abbrev pub tracker_of : {A : Type 0} → PowerStoreArray → (NasCooldown → M A) → M A
tracker_of arr next w = if_missing (lookup arr.global_id w.trackers) crash next w

-- A call of the tracker's methods `MarkFailure` and `ResetFailure`.
abbrev pub update_tracker : PowerStoreArray → (NasCooldown → NasCooldown) → M (Unit {0})
update_tracker arr change = tracker_of arr (λ tracker.
    λ w. (ok tt, record w { trackers = insert arr.global_id (change tracker) w.trackers }))

module _ (go : GoText) where
  -- The names between commas, without blanks, and without empty ones.
  unfoldable pub trimmed : List String → List String
  trimmed [] = []
  trimmed (name ∷ names) =
      let rest = trimmed names in
      let short = go.trim_space name in if is_empty short then rest else short ∷ rest

  unfoldable pub require_topology :
      Option PowerStoreArray → (use_nfs : Bool) → Option Accessibility → M (Unit {0})
  require_topology arr false accessibility = ret tt
  require_topology arr true none = ret tt
  require_topology arr true (some a) = with_arr arr (λ known.
      if has_required_topology go a.preferred known.ip "nfs"
        || has_required_topology go a.requisite known.ip "nfs"
      then ret tt
      else fail invalid_argument)

-- What is decided. The NAS server and the access lists are those of NFS only.
pub record Plan : Type 0 where
  pub arr : Option PowerStoreArray
  pub use_nfs : Bool
  pub nas_name : String
  pub nfs_acls : String
  pub size : ℤ

abbrev pub creator_of : Plan → Creator
creator_of plan = if plan.use_nfs then nfs_creator plan.nas_name else scsi_creator none

abbrev pub protocol_of : Plan → String
protocol_of plan = if plan.use_nfs then "nfs" else "scsi"

module _ (go : GoText) (sort_slice : (String → String → Bool) → List String → List String)
    (times : Times) (c : Client) (s : Service) where
  -- The array that the parameters name, or the default one. An IP in place of an id is refused.
  unfoldable pub array_named : (array_ip array_id : Option String) → M (Option PowerStoreArray)
  array_named array_ip (some id) =
      if_missing (lookup id s.known.arrays) (fail internal) (λ arr. ret (some arr))
  array_named (some ip) none = fail internal
  array_named none none = ret s.known.default_array

  unfoldable pub choose_array : Option (Dict String) → M (Option PowerStoreArray)
  choose_array params = array_named (find "arrayIP" params) (find "arrayID" params)

  -- The least used of several names, the name itself, or the array's.
  unfoldable pub select_named : Option PowerStoreArray → Option String → M String
  select_named arr none = with_arr arr (λ known. ret known.nas_name)
  select_named arr (some names) =
      if contains_text names ","
      then with_arr arr (λ known. tracker_of known (λ tracker. λ w. internal_error (
          get_least_used_active_nas c sort_slice tracker times.selecting times.falling_back
            known.connection (trimmed go (split b',' names)) w)))
      else ret names

  unfoldable pub select_nas : Option PowerStoreArray → Option (Dict String) → M String
  select_nas arr params = select_named arr (find "nasName" params)

  -- The storage class takes precedence, then the array's secret, then the driver's setting.
  unfoldable pub choose_acls : Option PowerStoreArray → Option (Dict String) → M String
  choose_acls arr params =
      if not (is_empty (read "nfsAcls" params))
      then ret (read "nfsAcls" params)
      else with_arr arr
          (λ known. ret (if not (is_empty known.nfs_acls) then known.nfs_acls else s.nfs_acls))

  unfoldable pub choose_nas :
      Option PowerStoreArray → (use_nfs : Bool) → Option (Dict String) → M (String × String)
  choose_nas arr false params = ret ("", s.nfs_acls)
  choose_nas arr true params = do
    nas_name ← select_nas arr params
    nfs_acls ← choose_acls arr params
    ret (nas_name, nfs_acls)

  -- `CheckName` and `CheckSize`
  unfoldable pub check_request : CreateRequest → Creator → M ℤ
  check_request req creator =
      lift (volume_name_validation req.name)
      >> lift (
          check_size creator req.required_bytes req.limit_bytes s.is_auto_round_off_fs_size_enabled)

  -- The plan, once the name and the size are checked for its protocol.
  unfoldable pub sized_plan :
      CreateRequest → Option PowerStoreArray → (use_nfs : Bool) → String × String → M Plan
  sized_plan req arr use_nfs nas =
      check_request req (if use_nfs then nfs_creator nas.0 else scsi_creator none) >>= (λ size.
        ret (record {
          arr = arr;
          use_nfs = use_nfs;
          nas_name = nas.0;
          nfs_acls = nas.1;
          size = size;
        }))

  unfoldable pub nas_plan : CreateRequest → Option PowerStoreArray → (use_nfs : Bool) → M Plan
  nas_plan req arr use_nfs = choose_nas arr use_nfs req.parameters >>= sized_plan req arr use_nfs

  unfoldable pub plan_for : CreateRequest → Option PowerStoreArray → AccessType → M Plan
  plan_for req arr access =
      let use_nfs = uses_nfs access req.parameters in
      if raw_block_of_nfs access req.parameters
      then fail invalid_argument
      else require_topology go arr use_nfs req.accessibility >> nas_plan req arr use_nfs

  unfoldable pub plan_first :
      CreateRequest → Option PowerStoreArray → List VolumeCapability → M Plan
  plan_first req arr [] = crash
  plan_first req arr (vc ∷ more) = plan_for req arr vc.access_type

  -- `req.VolumeCapabilities[0]` panics if there is none.
  unfoldable pub prepare : CreateRequest → M Plan
  prepare req = do arr ← choose_array req.parameters; plan_first req arr req.volume_capabilities
