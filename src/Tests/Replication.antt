-- ===== src/Tests/Replication.antt =====
-- The handlers of replication on concrete requests.
use test_powerstore_automati.Base.{[], ◌∷◌, String, Dict}
use test_powerstore_automati.Client.Invariants.{Guarded}
use test_powerstore_automati.Controller.Replication.{
  execute_action_request, delete_storage_protection_group, delete_local_volume,
}
use test_powerstore_automati.Controller.Replication.States.{StateName, rs_ok, suspend}
use test_powerstore_automati.Controller.Replication.Sessions.{
  ActsWhenNeeded, execute_action_request-Keeps,
}
use test_powerstore_automati.Controller.Replication.Groups.{
  DeletesUnused, DeletesFree, delete_storage_protection_group-Keeps, delete_local_volume-Keeps,
}
use test_powerstore_automati.Tests.{array_a, service, start}

abbrev state_text : StateName → String
state_text rs_ok = "OK"
state_text _ = "other"

abbrev attributes : Dict String
attributes = ("globalID", "PS1") ∷ ("VolumeGroupName", "vg") ∷ []

execute_action_request-Keeps_example :
    Guarded
      (ActsWhenNeeded array_a)
      (execute_action_request array_a service state_text attributes "vg" suspend start).1.history
execute_action_request-Keeps_example =
    execute_action_request-Keeps array_a service state_text attributes "vg" suspend start tt

delete_storage_protection_group-Keeps_example :
    Guarded
      (DeletesUnused array_a)
      (delete_storage_protection_group array_a service state_text attributes "vg" start).1.history
delete_storage_protection_group-Keeps_example =
    delete_storage_protection_group-Keeps array_a service state_text attributes "vg" start tt

delete_local_volume-Keeps_example :
    Guarded
      (DeletesFree array_a)
      (delete_local_volume array_a service state_text "vol/PS1/scsi" start).1.history
delete_local_volume-Keeps_example =
    delete_local_volume-Keeps array_a service state_text "vol/PS1/scsi" start tt
