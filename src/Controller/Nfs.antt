-- ===== src/Controller/Nfs.antt =====
-- The publisher of filesystems (`NfsPublisher` of pkg/controller/publisher.go).
use test_powerstore_automati.Base.{
  Bool, false, not, ◌&&◌, ◌||◌, Option, List, [], ◌∷◌, String, ◌<>◌, Dict, insert, lookup, is_empty,
  ◌==◌, if◌then◌else◌, or_default,
}
use test_powerstore_automati.Outcome.{
  says, invalid_argument, internal, not_found, host_present_in_export,
}
use test_powerstore_automati.Client.{
  Client, FileSystem, NfsExport, get_fs, get_nfs_export_by_fs, create_nfs_export, modify_nfs_export,
  get_nas, get_file_interface,
}
use test_powerstore_automati.Client.Monad.{M, ret, fail, call, ◌>>=◌, ◌>>◌, if_error, if_missing}
use test_powerstore_automati.Ip.{first_ip}

abbrev pub contains_host : List String → String → Bool
contains_host [] host = false
contains_host (h ∷ hs) host = h == host || contains_host hs host

-- `ExternalAccessAlreadyAdded`, from the parsed access.
abbrev pub has_access : NfsExport → String → Bool
has_access e access =
    contains_host e.rw_root_hosts access
    || (contains_host e.rw_hosts access
        || (contains_host e.ro_root_hosts access || contains_host e.ro_hosts access))

-- `parse_cidr` and `ip_with_mask` stand for `ParseCIDR` and `GetIPListWithMaskFromString` of
-- identifiers.go, which rest on package net; `none` is their error.
module _ (c : Client) (parse_cidr ip_with_mask : String → Option String) (external_access : String)
    (connection : String) where
  unfoldable pub read_export : FileSystem → M NfsExport
  read_export fs = do
    export ← call c connection (get_nfs_export_by_fs fs.id)
    if_error export (λ _. fail internal) ret

  -- Makes the export if the filesystem has none, and reads it.
  unfoldable pub ensure_export : FileSystem → String → M NfsExport
  ensure_export fs volume_id = do
    found ← call c connection (get_nfs_export_by_fs fs.id)
    if_error found
        (λ x.
          if says not_found x
          then call c connection (create_nfs_export fs.name volume_id ("/" <> fs.name))
            >>= (λ made. if_error made (λ _. fail internal) (λ _. read_export fs))
          else fail internal)
        (λ _. read_export fs)

  -- The addresses that get access: the node's, and the external one if it is not there yet.
  unfoldable pub hosts_to_add : String → NfsExport → M (List String)
  hosts_to_add ip export =
      if not (is_empty external_access)
        && not (has_access export (or_default (parse_cidr external_access) ""))
      then if_missing (ip_with_mask external_access) (fail invalid_argument)
          (λ access. ret (ip ∷ access ∷ []))
      else ret (ip ∷ [])

  unfoldable pub add_hosts : NfsExport → List String → M (Unit {0})
  add_hosts export hosts = do
    added ← call c connection (
        modify_nfs_export
          (record {
            add_rw_root_hosts = hosts;
            remove_ro_hosts = [];
            remove_ro_root_hosts = [];
            remove_rw_hosts = [];
            remove_rw_root_hosts = [];
          })
          export.id)
    if_error added
        (λ x. if says not_found x || says host_present_in_export x then ret tt else fail internal)
        (λ _. ret tt)

  abbrev nfs_context :
      String → String → String → NfsExport → Dict String → Dict String → Dict String
  nfs_context nas_name address ip export volume_context ctx =
      let c1 = insert "HostIP" ip (
        insert "NfsExportPath" (address <> (":/" <> export.name))
          (insert "nasName" nas_name ctx)) in
      let c2 =
        if not (is_empty external_access)
        then insert "NatIP" (or_default (ip_with_mask external_access) "") c1
        else c1 in
      insert "nfsAcls" (or_default (lookup "nfsAcls" volume_context) "") (
        insert "allowRoot" (or_default (lookup "allowRoot" volume_context) "")
          (insert "ExportID" export.id c2))

  -- The context, for which the array is asked for the address of the filesystem's server.
  unfoldable pub describe_export :
      FileSystem → String → NfsExport → Dict String → Dict String → M (Dict String)
  describe_export fs ip export volume_context ctx = do
    nas ← call c connection (get_nas fs.nas_server_id)
    if_error nas (λ _. fail internal)
        (λ n. call c connection (get_file_interface n.preferred_interface_id) >>= (λ address.
          if_error address (λ _. fail internal)
            (λ a. ret (nfs_context n.name a ip export volume_context ctx))))

  unfoldable pub grant_access :
      FileSystem → String → Dict String → Dict String → NfsExport → M (Dict String)
  grant_access fs ip volume_context ctx export = do
    hosts ← hosts_to_add ip export
    add_hosts export hosts
    describe_export fs ip export volume_context ctx

  unfoldable pub publish_export :
      FileSystem → String → String → Dict String → Dict String → M (Dict String)
  publish_export fs ip volume_id volume_context ctx = do
    export ← ensure_export fs volume_id
    grant_access fs ip volume_context ctx export

  -- `Publish` of `NfsPublisher`
  unfoldable pub publish_nfs : String → String → Dict String → Dict String → M (Dict String)
  publish_nfs node volume_id volume_context ctx = do
    found ← call c connection (get_fs volume_id)
    if_error found (λ x. if says not_found x then fail not_found else fail internal)
        (λ fs.
          if_missing (first_ip node) (fail not_found)
            (λ ip. publish_export fs ip volume_id volume_context ctx))
