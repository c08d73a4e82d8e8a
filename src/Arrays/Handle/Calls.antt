-- ===== src/Arrays/Handle/Calls.antt =====
-- What is asked of an array while a handle is parsed: at most the volume and the filesystem.
use test_powerstore_automati.Base.{
  List, [], ◌∷◌, String, Option, arith, split, Option-cases, inl, inr,
}
use test_powerstore_automati.Client.{Client, Event, History, get_volume, get_fs}
use test_powerstore_automati.Client.Monad.{asked}
use test_powerstore_automati.Client.Invariants.{Keeps}
use test_powerstore_automati.Arrays.{PowerStoreArray, Arrays}
use test_powerstore_automati.Arrays.Handle.{
  VolumeCapability, query_protocol, legacy_handle, parse_local, parse_remote, parse_parts,
  parse_volume_id,
}

-- A guard that lets a volume or a filesystem be read at any time.
pub record LetsRead (guard : Event → History → Type 0) : Type 0 where
  pub reads_volume :
      (connection id : String) (h : History)
      → guard (record { connection = connection; request = get_volume id }) h
  pub reads_fs :
      (connection id : String) (h : History)
      → guard (record { connection = connection; request = get_fs id }) h

module _ (c : Client) (s : Arrays) (vc : Option VolumeCapability) (guard : Event → History → Type 0)
    (reads : LetsRead guard) where
  query_protocol-Keeps :
      (arr : PowerStoreArray) (uuid : String) → Keeps guard (query_protocol c arr uuid)
  unfolding query_protocol
  query_protocol-Keeps arr uuid w g = ground (
    arith,
    reads.reads_volume arr.connection uuid w.history,
    reads.reads_fs arr.connection uuid (asked arr.connection (get_volume uuid) w).history,
  )

  legacy_handle-Keeps :
      (arr : PowerStoreArray) (uuid : String) → Keeps guard (legacy_handle c arr vc uuid)
  unfolding legacy_handle
  legacy_handle-Keeps arr uuid w g = ground (arith, query_protocol-Keeps arr uuid w g)

  parse_local-Keeps : (parts : List String) → Keeps guard (parse_local c s vc parts)
  unfolding parse_local
  parse_local-Keeps [] w g = g
  parse_local-Keeps (u ∷ []) w g = elim (Option-cases s.default_array) [
    | inl e ↦ rw e g
    | inr (arr, e) ↦ rw e (legacy_handle-Keeps arr u w g)
  ]
  parse_local-Keeps (u ∷ p ∷ []) w g = g
  parse_local-Keeps (u ∷ p ∷ q ∷ more) w g = g

  parse_parts-Keeps : (parts : List String) → Keeps guard (parse_parts c s vc parts)
  unfolding parse_parts parse_remote
  parse_parts-Keeps [] w g = g
  parse_parts-Keeps (a ∷ []) w g = parse_local-Keeps _ w g
  parse_parts-Keeps (a ∷ b ∷ more) w g = ground (arith, parse_local-Keeps (split b'/' a) w g)

  pub parse_volume_id-Keeps : (raw : String) → Keeps guard (parse_volume_id c s raw vc)
  unfolding parse_volume_id
  parse_volume_id-Keeps raw w g = ground (arith, parse_parts-Keeps (split b':' raw) w g)
