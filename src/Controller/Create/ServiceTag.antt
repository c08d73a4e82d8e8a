-- ===== src/Controller/Create/ServiceTag.antt =====
-- `GetServiceTag` of pkg/controller/controller.go: errors are logged, and the values beside them are
-- read all the same.
use test_powerstore_automati.Base.{none, some, String, Dict, lookup, is_empty, ◌==◌, if◌then◌else◌}
use test_powerstore_automati.Client.{
  Client, get_appliance, get_appliance_by_name, get_volume, get_fs, get_nas,
}
use test_powerstore_automati.Client.Monad.{M, ret, call, ◌>>=◌}
use test_powerstore_automati.Controller.Create.Requests.{GoText}

module _ (go : GoText) (c : Client) (connection : String) where
  unfoldable pub tag_of_appliance : String → M String
  tag_of_appliance id = do found ← call c connection (get_appliance id); ret found.value

  -- The appliance of a volume, by its id.
  unfoldable pub tag_of_volume : String → M String
  tag_of_volume id = do
    vol ← call c connection (get_volume id)
    if is_empty vol.value.appliance_id then ret "" else tag_of_appliance vol.value.appliance_id

  -- The appliance of a filesystem's NAS server, by the name in front of "-node-".
  unfoldable pub tag_of_nas : String → M String
  tag_of_nas nas_server_id = do
    nas ← call c connection (get_nas nas_server_id)
    if is_empty nas.value.current_node_id
        then ret ""
        else call c connection
            (get_appliance_by_name (go.before "-node-" nas.value.current_node_id))
          >>= (λ found. ret found.value)

  unfoldable pub tag_of_fs : String → M String
  tag_of_fs id = do
    f ← call c connection (get_fs id)
    if is_empty f.value.nas_server_id then ret "" else tag_of_nas f.value.nas_server_id

  unfoldable pub get_service_tag : Dict String → (id protocol : String) → M String
  get_service_tag params id protocol = elim (lookup "appliance_id" params) [
    | some appliance ↦ tag_of_appliance appliance
    | none ↦ if protocol == "nfs" then tag_of_fs id else tag_of_volume id
  ]
