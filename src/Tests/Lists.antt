-- ===== src/Tests/Lists.antt =====
-- Lists, queries and the capacity on concrete requests.
use test_powerstore_automati.Base.{
  ℕ, suc, ◌<◌, zero, ◌≡◌, refl, arith, true, false, Option, none, some, List, [], ◌∷◌, All, String,
  decimal, length, split, ◌==◌, if◌then◌else◌, lookup,
}
use mathlib.Core.List.Perm
use test_powerstore_automati.Arrays.{PowerStoreArray}
use test_powerstore_automati.Base.Int64.{ℤ, pos}
use test_powerstore_automati.Outcome.{ok}
use test_powerstore_automati.Client.{
  Request, Response, Reply, get_volumes, list_fs, get_host_volume_mapping,
}
use test_powerstore_automati.Ip.{first_ip, get_ip_list_from_string}
use test_powerstore_automati.Arrays.Handle.{
  block, multi_node_multi_writer, single_node_writer, mount, parse_volume_id, parse_parts,
  parse_local, global_id_of,
}
use test_powerstore_automati.Arrays.Handle.RoundTrip.{print_local}
use test_powerstore_automati.Controller.Lists.Pages.{
  Page, page_length, page_from, page, start_token_of, volume_page_limit,
}
use test_powerstore_automati.Controller.Lists.{
  CsiVolume, collect_volumes, collect_filesystems, list_power_store_volumes, list_volumes,
}
use test_powerstore_automati.Controller.Lists.Laws.{Fits, list_volumes-Fits}
use test_powerstore_automati.Controller.Lists.Steady.{steady}
use test_powerstore_automati.Controller.Lists.Walk.{walk, everything, walk-everything}
use test_powerstore_automati.Controller.Queries.{
  ValidateRequest, confirmed, acc_type_is_block, check_valid_access_types, all_supported,
  require_volume, validate_volume_capabilities, VolumeStatus, mapped_hosts, published_hosts,
  get_volume_status, get_volume_parsed, controller_get_volume,
}
use test_powerstore_automati.Controller.Queries.Laws.{
  Capable, validate_volume_capabilities-Capable, found_names, controller_get_volume-names,
}
use test_powerstore_automati.Controller.Capacity.{Cache}
use test_powerstore_automati.Tests.{
  answer, volume, filesystem, array_a, array_config, service, start, handle_of, scsi-IsPrintable,
}

-- An array with two volumes and a filesystem.
abbrev stored : String → (r : Request) → Response r
stored connection get_volumes = volume ∷ volume ∷ []
stored connection list_fs = filesystem ∷ []
stored connection (get_host_volume_mapping id) =
    record { host_id = "host"; logical_unit_number = 1 } ∷ []
stored connection r = answer r

-- The decimal numbers up to 2.
abbrev read_small : String → Option ℤ
read_small text =
    if text == "0"
    then some (pos 0)
    else if text == "1"
    then some (pos 1)
    else if text == "2"
    then some (pos 2)
    else none

read_small-decimal : (n : ℕ) → n < 3 → read_small (decimal n) ≡ some (pos n)
unfolding decimal
read_small-decimal zero h = refl
read_small-decimal (suc zero) h = refl
read_small-decimal (suc (suc zero)) h = refl
read_small-decimal (suc (suc (suc n))) h = ground arith

abbrev only_order : ℕ → List PowerStoreArray
only_order turn = array_config ∷ []

walk-everything_example :
    (walk
      (steady stored)
      read_small
      only_order
      only_order
      2
      (suc (length (everything stored (array_config ∷ []) (array_config ∷ []))))
      0
      ""
      start).0
    ≡ ok (some (everything stored (array_config ∷ []) (array_config ∷ [])))
walk-everything_example =
    walk-everything stored read_small array_config only_order only_order 2 read_small-decimal
      (λ turn. Perm.refl (array_config ∷ [])) (λ turn. Perm.refl (array_config ∷ [])) start

abbrev no_mapping : String → (r : Request) → Reply (Response r)
no_mapping connection r = record { value = stored connection r; error = none }

abbrev first_page : Page CsiVolume
first_page = record {
  entries = record { volume_id = "vol"; capacity_bytes = pos 8192 } ∷ [];
  next_token = "1";
}

list_volumes-Fits_example : Fits volume_page_limit (pos 1) first_page
unfolding list_volumes start_token_of list_power_store_volumes collect_volumes collect_filesystems
    page page_from page_length decimal
list_volumes-Fits_example =
    list_volumes-Fits (steady stored) read_small (array_config ∷ []) (array_config ∷ []) (pos 1)
      start first_page "" refl

abbrev writers : ValidateRequest
writers = record {
  volume_id = print_local (handle_of "scsi");
  volume_context = [];
  volume_capabilities =
      some (record { access_type = block; access_mode = some multi_node_multi_writer })
      ∷ some (record { access_type = mount "ext4"; access_mode = some single_node_writer })
      ∷ [];
  parameters = [];
}

validate_volume_capabilities-Capable_example :
    (confirmed writers ≡ confirmed writers)
    × All (Capable (acc_type_is_block writers.volume_capabilities)) writers.volume_capabilities
unfolding validate_volume_capabilities check_valid_access_types all_supported acc_type_is_block
    parse_volume_id parse_parts parse_local global_id_of first_ip get_ip_list_from_string split
    require_volume lookup
validate_volume_capabilities-Capable_example =
    validate_volume_capabilities-Capable array_a service writers (confirmed writers) start refl

abbrev ready : VolumeStatus
ready = record {
  volume_id = "vol";
  published_node_ids = "node" ∷ [];
  abnormal = false;
  message = "";
}

controller_get_volume-names_example :
    ("Ready" == "Ready" ≡ true)
    × (ready.published_node_ids
        ≡ found_names no_mapping "c1" (no_mapping "c1" (get_host_volume_mapping "vol")).value)
unfolding controller_get_volume get_volume_parsed get_volume_status published_hosts mapped_hosts
    parse_volume_id parse_parts parse_local global_id_of first_ip get_ip_list_from_string split
    lookup
controller_get_volume-names_example =
    controller_get_volume-names no_mapping "c1" service "Ready" (handle_of "scsi") array_config
      ready start scsi-IsPrintable refl refl refl refl refl refl refl

abbrev cached : Cache
cached = ("PS1", pos 500000) ∷ []
