-- ===== src/Controller/Create/Requests.antt =====
-- What `CreateVolume` of pkg/controller/controller.go reads and answers, and the functions of Go's
-- standard library on texts that it calls.
use test_powerstore_automati.Base.{
  ℕ, Bool, false, ◌||◌, Option, none, some, List, [], ◌∷◌, String, ◌<>◌, Dict, lookup, or_default,
  is_empty, if◌then◌else◌,
}
use test_powerstore_automati.Base.Int64.{ℤ}
use test_powerstore_automati.Arrays.Handle.{VolumeCapability}

-- strings.ToUpper, ToLower, EqualFold and TrimSpace, strconv.ParseBool, the length of a text in
-- bytes, its first bytes, and what stands in front of a text's first occurrence of another.
pub record GoText : Type 0 where
  pub to_upper : String → String
  pub to_lower : String → String
  pub equal_fold : String → String → Bool
  pub trim_space : String → String
  pub parse_bool : String → Option Bool
  pub byte_length : String → ℕ
  pub byte_prefix : ℕ → String → String
  pub before : String → String → String

pub record Topology : Type 0 where
  pub segments : Dict String

pub record Accessibility : Type 0 where
  pub preferred : List Topology
  pub requisite : List Topology

-- `csi.VolumeContentSource`, whose type may be nil.
pub data ContentSource : Type 0 where
  from_volume from_snapshot : (id : String) → ContentSource
  from_nothing : ContentSource

-- `csi.CreateVolumeRequest`. A range that is nil has 0 bytes; the map of parameters may be nil.
pub record CreateRequest : Type 0 where
  pub name : String
  pub required_bytes : ℤ
  pub limit_bytes : ℤ
  pub volume_capabilities : List VolumeCapability
  pub parameters : Option (Dict String)
  pub accessibility : Option Accessibility
  pub content_source : Option ContentSource

-- `csi.Volume`
pub record CreatedVolume : Type 0 where
  pub volume_id : String
  pub capacity_bytes : ℤ
  pub volume_context : Option (Dict String)
  pub content_source : Option ContentSource
  pub accessible_topology : List Topology

-- Reading a key of a map, which may be nil: a missing one reads "".
abbrev pub read : String → Option (Dict String) → String
read key none = ""
read key (some m) = or_default (lookup key m) ""

abbrev pub find : String → Option (Dict String) → Option String
find key none = none
find key (some m) = lookup key m

-- The driver's name, `identifiers.Name`.
abbrev pub driver_name : String
driver_name = "csi-powerstore.dellemc.com"

module _ (go : GoText) where
  unfoldable pub any_topology : String → List Topology → Bool
  any_topology key [] = false
  any_topology key (topology ∷ topologies) =
      let rest = any_topology key topologies in
      elim (lookup key topology.segments) [
        | none ↦ rest
        | some value ↦ go.equal_fold value "true" || rest
      ]

  -- `HasRequiredTopology`
  unfoldable pub has_required_topology : List Topology → (arr_ip required : String) → Bool
  has_required_topology topologies arr_ip required =
      if is_empty arr_ip || is_empty required
      then false
      else any_topology (driver_name <> ("/" <> (arr_ip <> ("-" <> go.to_lower required))))
          topologies

-- `GetNfsTopology`
abbrev pub get_nfs_topology : String → List Topology
get_nfs_topology arr_ip =
    record { segments = (driver_name <> ("/" <> (arr_ip <> "-nfs")), "true") ∷ [] } ∷ []

-- `getDescription`
unfoldable pub get_description : Option (Dict String) → String
get_description params = elim (find "csi.dell.com/description" params) [
  | some description ↦ description
  | none ↦
      read "csi.storage.k8s.io/pvc/name" params
      <> ("-" <> read "csi.storage.k8s.io/pvc/namespace" params)
]
