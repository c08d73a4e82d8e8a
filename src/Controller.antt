-- ===== src/Controller.antt =====
-- The controller service of pkg/controller: one module for each group of CSI calls.
pub mod Targets
pub mod Scsi
pub mod Nfs
pub mod Publish
pub mod Delete
pub mod Unpublish
pub mod Expand
pub mod Snapshots
pub mod Replication
pub mod Lists
pub mod Queries
pub mod Capacity
pub mod Create
use test_powerstore_automati.Base.{String, Dict, Bool}
use test_powerstore_automati.Arrays.{Arrays}

-- `Service` of controller.go, with what its handlers read.
pub record Service : Type 0 where
  pub known : Arrays
  pub external_access : String
  pub nfs_acls : String
  pub replication_context_prefix : String
  pub replication_prefix : String
  pub is_auto_round_off_fs_size_enabled : Bool
