-- ===== src/Controller/Queries/Laws.antt =====
-- When capabilities are confirmed, and which hosts a volume is said to be published to.
use mathlib.Core.List.{append-nil, append_assoc}
use test_powerstore_automati.Base.{
  Bool, true, false, not, ◌≡◌, refl, sym, ap, ◌∙◌, arith, Option, none, some, List, [], ◌∷◌, ◌++◌,
  String, ◌==◌, if◌then◌else◌, All, lookup, Bool-cases, Option-cases, inl, inr,
}
use test_powerstore_automati.Outcome.{Error, Outcome, ok, err, panic, says, not_found, internal}
use test_powerstore_automati.Client.{
  Client, Host, Request, Response, Reply, HostVolumeMapping, get_host, get_volume,
  get_host_volume_mapping,
}
use test_powerstore_automati.Client.Monad.{World, M, ret, fail, asked}
use test_powerstore_automati.Client.Results.{err-≢}
use test_powerstore_automati.Arrays.{PowerStoreArray}
use test_powerstore_automati.Arrays.Handle.{
  VolumeHandle, parse_volume_id, VolumeCapability, AccessType, AccessMode, block, mount,
  no_access_type, unknown_mode, single_node_writer, single_node_reader_only, multi_node_reader_only,
  multi_node_single_writer, multi_node_multi_writer, single_node_single_writer,
  single_node_multi_writer, other_mode,
}
use test_powerstore_automati.Arrays.Handle.RoundTrip.{
  print_local, IsPrintable, parse_volume_id-print_local,
}
use test_powerstore_automati.Controller.{Service}
use test_powerstore_automati.Controller.Queries.{
  acc_type_is_block, check_valid_access_types, after_mode, all_supported, ValidateRequest,
  Confirmed, caught, confirmed, require_volume, validate_volume_capabilities, parsed_or,
  VolumeStatus, mapped_hosts, published_hosts, get_volume_status, get_volume_parsed,
  controller_get_volume,
}

-- A mode in which the driver serves volumes, with raw block access or without.
abbrev pub Served : (is_block : Bool) → AccessMode → Type 0
Served is_block unknown_mode = ⊥
Served is_block other_mode = ⊥
Served is_block multi_node_single_writer = is_block ≡ true
Served is_block multi_node_multi_writer = is_block ≡ true
Served is_block single_node_writer = Unit
Served is_block single_node_reader_only = Unit
Served is_block multi_node_reader_only = Unit
Served is_block single_node_single_writer = Unit
Served is_block single_node_multi_writer = Unit

abbrev pub HasAccess : AccessType → Type 0
HasAccess block = Unit
HasAccess (mount fs_type) = Unit
HasAccess no_access_type = ⊥

abbrev pub ModeServed : (is_block : Bool) → Option AccessMode → Type 0
ModeServed is_block none = Unit
ModeServed is_block (some mode) = Served is_block mode

-- A capability with an access type, and with a mode that is served if it has one.
abbrev pub Capable : (is_block : Bool) → Option VolumeCapability → Type 0
Capable is_block none = Unit
Capable is_block (some vc) = HasAccess vc.access_type × ModeServed is_block vc.access_mode

after_mode-Served :
    (is_block : Bool) (mode : AccessMode) (supported : Bool)
    → after_mode is_block mode supported ≡ true
    → (supported ≡ true) × Served is_block mode
after_mode-Served is_block unknown_mode supported e = ground arith
after_mode-Served is_block other_mode supported e = ground arith
after_mode-Served is_block multi_node_single_writer supported e = ground arith
after_mode-Served is_block multi_node_multi_writer supported e = ground arith
after_mode-Served is_block single_node_writer supported e = (e, tt)
after_mode-Served is_block single_node_reader_only supported e = (e, tt)
after_mode-Served is_block multi_node_reader_only supported e = (e, tt)
after_mode-Served is_block single_node_single_writer supported e = (e, tt)
after_mode-Served is_block single_node_multi_writer supported e = (e, tt)

-- One turn of `checkValidAccessTypes`, and one of the loop over the modes.
valid-HasAccess :
    (access : AccessType) (rest : Bool)
    → (elim access [ block ↦ rest | mount fs_type ↦ rest | no_access_type ↦ false ]) ≡ true
    → HasAccess access × (rest ≡ true)
valid-HasAccess block rest e = (tt, e)
valid-HasAccess (mount fs_type) rest e = (tt, e)
valid-HasAccess no_access_type rest e = ground arith

modes-Served :
    (is_block : Bool) (mode : Option AccessMode) (rest : Bool → Bool) (supported : Bool)
    → (elim mode [ none ↦ rest supported | some m ↦ rest (after_mode is_block m supported) ]) ≡ true
    → (b : Bool) × ((rest b ≡ true) × (b ≡ true → (supported ≡ true) × ModeServed is_block mode))
modes-Served is_block none rest supported e = (supported, (e, λ q. (q, tt)))
modes-Served is_block (some m) rest supported e =
    (after_mode is_block m supported, (e, after_mode-Served is_block m supported))

all_supported-Capable :
    (is_block : Bool) (vcs : List (Option VolumeCapability)) (supported : Bool)
    → check_valid_access_types vcs ≡ true
    → all_supported is_block vcs supported ≡ true
    → (supported ≡ true) × All (Capable is_block) vcs
unfolding all_supported check_valid_access_types
all_supported-Capable is_block [] supported v e = (e, tt)
all_supported-Capable is_block (none ∷ vcs) supported v e =
    let (q, rest) = all_supported-Capable is_block vcs supported v e in (q, (tt, rest))
all_supported-Capable is_block (some vc ∷ vcs) supported v e =
    let (access, valid) = valid-HasAccess vc.access_type (check_valid_access_types vcs) v in
    let (b, (more, served)) =
      modes-Served is_block vc.access_mode (all_supported is_block vcs) supported e in
    let (q, rest) = all_supported-Capable is_block vcs b valid more in
    let (was, mode) = served q in (was, ((access, mode), rest))

module _ (c : Client) (s : Service) (req : ValidateRequest) (r : Confirmed) where
  require_volume-ok :
      (supported : Bool) (h : VolumeHandle) (w : World)
      → (require_volume c s h (if supported then ret (confirmed req) else fail internal) w).0 ≡ ok r
      → (supported ≡ true) × (r ≡ confirmed req)
  unfolding require_volume
  require_volume-ok supported h w e = ground arith

  parsed_or-ok :
      (parse : Outcome VolumeHandle) (supported : Bool) (w : World)
      → (caught parse
          (fail not_found)
          (λ h. require_volume c s h (if supported then ret (confirmed req) else fail internal))
          w).0
        ≡ ok r
      → (supported ≡ true) × (r ≡ confirmed req)
  parsed_or-ok (ok h) supported w e = require_volume-ok supported h w e
  parsed_or-ok (err x) supported w e = ground arith
  parsed_or-ok panic supported w e = ground arith

  checked-ok :
      (valid supported : Bool) (parse : M VolumeHandle) (w : World)
      → ((if not valid
            then fail internal
            else parsed_or parse (fail not_found) (λ h.
              require_volume c s h (if supported then ret (confirmed req) else fail internal)))
          w).0
        ≡ ok r
      → (valid ≡ true) × ((supported ≡ true) × (r ≡ confirmed req))
  checked-ok true supported parse w e = (refl, parsed_or-ok (parse w).0 supported (parse w).1 e)
  checked-ok false supported parse w e = ground arith

  -- If `ValidateVolumeCapabilities` confirms, then it gives the request's capabilities, context
  -- and parameters back. Every capability that is not nil has an access type; and if it has an access
  -- mode, the driver serves the mode: it is one that is known, and one for writers on several nodes
  -- only if some capability asks for block access. Nothing is said of a capability that is nil, nor of
  -- the mode of one that has none: both are confirmed.
  pub validate_volume_capabilities-Capable :
      (w : World)
      → (validate_volume_capabilities c s req w).0 ≡ ok r
      → (r ≡ confirmed req)
        × All (Capable (acc_type_is_block req.volume_capabilities)) req.volume_capabilities
  unfolding validate_volume_capabilities
  validate_volume_capabilities-Capable w e =
      let vcs = req.volume_capabilities in
      let is_block = acc_type_is_block vcs in
      let (valid, (supported, same)) =
        checked-ok (check_valid_access_types vcs) (all_supported is_block vcs true)
          (parse_volume_id c s.known req.volume_id none) w e in
      let (_, capable) = all_supported-Capable is_block vcs true valid supported in (same, capable)

-- The names of the hosts of the mappings, in order, without those that are not found.
module _ (answer : String → (r : Request) → Reply (Response r)) (connection : String) where
  abbrev pub found_name : HostVolumeMapping → List String
  found_name mapping =
      let host = answer connection (get_host mapping.host_id) in
      elim host.error [ none ↦ host.value.name ∷ [] | some e ↦ [] ]

  abbrev pub found_names : List HostVolumeMapping → List String
  found_names [] = []
  found_names (mapping ∷ mappings) = found_name mapping ++ found_names mappings

-- An array with the same answers at all times.
abbrev pub constant : (String → (r : Request) → Reply (Response r)) → Client
constant answer history = answer

module _ (answer : String → (r : Request) → Reply (Response r)) (connection : String) where
  found_name-found :
      (mapping : HostVolumeMapping)
      → (answer connection (get_host mapping.host_id)).error ≡ none
      → found_name answer connection mapping
        ≡ (answer connection (get_host mapping.host_id)).value.name ∷ []
  found_name-found mapping q = rw (found_name, q) refl

  found_name-missing :
      (mapping : HostVolumeMapping) (x : Error)
      → (answer connection (get_host mapping.host_id)).error ≡ some x
      → found_name answer connection mapping ≡ []
  found_name-missing mapping x q = rw (found_name, q) refl

  mapped_hosts-names :
      (mappings : List HostVolumeMapping) (hosts l : List String) (w : World)
      → (mapped_hosts (constant answer) connection mappings hosts w).0 ≡ ok l
      → l ≡ hosts ++ found_names answer connection mappings
  unfolding mapped_hosts
  mapped_hosts-names [] hosts l w e = rw append-nil (ground arith)
  mapped_hosts-names (mapping ∷ mappings) hosts l w e =
      elim (Option-cases (answer connection (get_host mapping.host_id)).error) [
        | inl q ↦
            (mapped_hosts-names mappings (hosts ++ (host.value.name ∷ [])) l next (rw q at e)
              ∙ append_assoc hosts (host.value.name ∷ []) (found_names answer connection mappings)
              ∙ rest_of (sym (found_name-found mapping q)))
        | inr (x, q) ↦ elim (Bool-cases (says not_found x)) [
          | inl n ↦
              mapped_hosts-names mappings hosts l next (rw (q, n) at e)
              ∙ rest_of (sym (found_name-missing mapping x q))
          | inr n ↦ absurd (err-≢ (rw (q, n) at e))
        ]
      ]
    where
      host : Reply Host
      host = answer connection (get_host mapping.host_id)

      next : World
      next = asked connection (get_host mapping.host_id) w

      rest_of :
          {a b : List String}
          → a ≡ b
          → hosts ++ (a ++ found_names answer connection mappings)
            ≡ hosts ++ (b ++ found_names answer connection mappings)
      rest_of = ap (λ a. hosts ++ (a ++ found_names answer connection mappings))

  get_volume_status-names :
      (ready_state id : String) (st : VolumeStatus) (w : World)
      → (get_volume_status (constant answer) connection ready_state id w).0 ≡ ok st
      → st.abnormal ≡ false
      → st.published_node_ids
        ≡ found_names answer connection (answer connection (get_host_volume_mapping id)).value
  unfolding get_volume_status published_hosts
  get_volume_status-names ready_state id st w e f = ground (
    arith,
    mapped_hosts-names (answer connection (get_host_volume_mapping id)).value []
        st.published_node_ids
        (asked connection (get_host_volume_mapping id) (asked connection (get_volume id) w)),
  )

  get_volume_status-ready :
      (ready_state id : String) (st : VolumeStatus) (w : World)
      → (get_volume_status (constant answer) connection ready_state id w).0 ≡ ok st
      → st.abnormal ≡ false
      → (answer connection (get_volume id)).value.state == ready_state ≡ true
  unfolding get_volume_status published_hosts
  get_volume_status-ready ready_state id st w e f = ground arith

  -- On an array that answers the same at all times, if `ControllerGetVolume` says of the handle of
  -- a SCSI volume without a remote one, on a known array, whose parts hold no separator and whose
  -- Global ID holds no IP, that it is not abnormal, then the volume is ready, and it is published to
  -- the hosts of its mappings, in their order, without the hosts that are not found.
  pub controller_get_volume-names :
      (s : Service) (ready_state : String) (h : VolumeHandle) (arr : PowerStoreArray)
      (st : VolumeStatus) (w : World)
      → IsPrintable h
      → h.remote_uuid ≡ ""
      → h.remote_array_global_id ≡ ""
      → h.protocol ≡ "scsi"
      → lookup h.local_array_global_id s.known.arrays ≡ some arr
      → arr.connection ≡ connection
      → (controller_get_volume (constant answer) s ready_state (print_local h) w).0 ≡ ok st
      → st.abnormal ≡ false
      → ((answer connection (get_volume h.local_uuid)).value.state == ready_state ≡ true)
        × (st.published_node_ids
            ≡ found_names answer connection
                (answer connection (get_host_volume_mapping h.local_uuid)).value)
  unfolding controller_get_volume get_volume_parsed
  controller_get_volume-names s ready_state h arr st w p r q t a k e f =
      let e1 =
        rw (parse_volume_id-print_local (constant answer) s.known none h w p r q, a, t, k) at e in
      (
        get_volume_status-ready ready_state h.local_uuid st w e1 f,
        get_volume_status-names ready_state h.local_uuid st w e1 f,
      )
