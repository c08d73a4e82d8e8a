-- ===== src/Arrays.antt =====
-- The known arrays (pkg/array/array.go): what `Locker` holds, and volume handles.
pub mod Handle
use test_powerstore_automati.Base.{Option, String, Dict}

-- The fields of `PowerStoreArray` that the handlers read. `connection` names its client.
pub record PowerStoreArray : Type 0 where
  pub global_id : String
  pub ip : String
  pub nas_name : String
  pub nfs_acls : String
  pub connection : String

-- `Locker` and the global `IPToArray`. The default array is nil if none is configured.
pub record Arrays : Type 0 where
  pub arrays : Dict PowerStoreArray
  pub default_array : Option PowerStoreArray
  pub ip_to_array : Dict String
