-- ===== src/Controller/Targets.antt =====
-- The SCSI targets of an array (pkg/identifiers/identifiers.go, `Get…TargetsInfoFromStorage`), and
-- what `addTargetsInfoToPublishContext` of pkg/controller/publisher.go writes of them.
use test_powerstore_automati.Base.{
  ℕ, suc, Bool, true, false, ◌&&◌, ◌||◌, List, [], ◌∷◌, String, ◌<>◌, Dict, insert, is_empty, ◌==◌,
  if◌then◌else◌, text_lt, remove_char, decimal,
}
use test_powerstore_automati.Outcome.{internal}
use test_powerstore_automati.Client.{
  Client, TargetAddress, FcPort, get_iscsi_addresses, get_nvme_tcp_addresses, get_fc_ports,
  get_cluster,
}
use test_powerstore_automati.Client.Monad.{M, ret, fail, call, ◌>>=◌, if_error}

-- `ISCSITargetInfo` and `NVMeTargetInfo` of gobrick.
pub record TargetInfo : Type 0 where
  pub target : String
  pub portal : String

abbrev pub id_less : TargetAddress → TargetAddress → Bool
id_less a b = text_lt a.id b.id

-- The appliance is "" if all appliances are asked for.
abbrev pub of_appliance : String → String → Bool
of_appliance wanted appliance = appliance == wanted || is_empty wanted

unfoldable pub iscsi_infos : String → List TargetAddress → List TargetInfo
iscsi_infos wanted [] = []
iscsi_infos wanted (t ∷ ts) =
    let rest = iscsi_infos wanted ts in
    if of_appliance wanted t.appliance_id
    then record { target = t.target_iqn; portal = t.address <> ":3260" } ∷ rest
    else rest

unfoldable pub nvme_tcp_infos : String → String → List TargetAddress → List TargetInfo
nvme_tcp_infos nqn wanted [] = []
nvme_tcp_infos nqn wanted (t ∷ ts) =
    let rest = nvme_tcp_infos nqn wanted ts in
    if of_appliance wanted t.appliance_id
    then record { target = nqn; portal = t.address <> ":4420" } ∷ rest
    else rest

-- World wide port names.
unfoldable pub fc_infos : String → List FcPort → List String
fc_infos wanted [] = []
fc_infos wanted (t ∷ ts) =
    let rest = fc_infos wanted ts in
    if t.is_link_up && t.appliance_id == wanted then remove_char b':' t.wwn ∷ rest else rest

abbrev pub nvme_fc_address : FcPort → String
nvme_fc_address t =
    remove_char 10
      ("nn-0x" <> (remove_char b':' t.wwn_node <> (":pn-0x" <> remove_char b':' t.wwn_nvme)))

unfoldable pub nvme_fc_infos : String → String → List FcPort → List TargetInfo
nvme_fc_infos nqn wanted [] = []
nvme_fc_infos nqn wanted (t ∷ ts) =
    let rest = nvme_fc_infos nqn wanted ts in
    if t.is_link_up && of_appliance wanted t.appliance_id
    then record { target = nqn; portal = nvme_fc_address t } ∷ rest
    else rest

-- `sort.Slice` of the standard library is the parameter. An error gives no targets: the only
-- caller logs it and goes on.
module _ (c : Client)
    (sort_slice : (TargetAddress → TargetAddress → Bool) → List TargetAddress → List TargetAddress)
    (connection appliance : String) where
  unfoldable pub get_iscsi_targets_info_from_storage : M (List TargetInfo)
  get_iscsi_targets_info_from_storage = do
    addresses ← call c connection get_iscsi_addresses
    if_error addresses (λ _. ret []) (λ ts. ret (iscsi_infos appliance (sort_slice id_less ts)))

  unfoldable pub get_nvme_tcp_targets_info_from_storage : M (List TargetInfo)
  get_nvme_tcp_targets_info_from_storage = do
    cluster ← call c connection get_cluster
    if_error cluster (λ _. ret [])
        (λ found. call c connection get_nvme_tcp_addresses >>= (λ addresses.
          if_error addresses (λ _. ret [])
            (λ ts. ret (nvme_tcp_infos found.nvme_nqn appliance (sort_slice id_less ts)))))

  unfoldable pub get_fc_targets_info_from_storage : M (List String)
  get_fc_targets_info_from_storage = do
    ports ← call c connection get_fc_ports
    if_error ports (λ _. ret []) (λ ts. ret (fc_infos appliance ts))

  -- The error of `GetCluster` is not looked at.
  unfoldable pub get_nvme_fc_target_info_from_storage : M (List TargetInfo)
  get_nvme_fc_target_info_from_storage = do
    cluster ← call c connection get_cluster
    ports ← call c connection get_fc_ports
    if_error ports (λ _. ret []) (λ ts. ret (nvme_fc_infos cluster.value.nvme_nqn appliance ts))

-- The keys of the context, local or remote.
abbrev pub remote_key : Bool → String → String
remote_key true key = "REMOTE_" <> key
remote_key false key = key

unfoldable pub put_targets : String → String → ℕ → List TargetInfo → Dict String → Dict String
put_targets portals targets i [] ctx = ctx
put_targets portals targets i (t ∷ ts) ctx =
    put_targets portals targets (suc i) ts
      (insert (targets <> decimal i) t.target (insert (portals <> decimal i) t.portal ctx))

unfoldable pub put_wwpns : String → ℕ → List String → Dict String → Dict String
put_wwpns key i [] ctx = ctx
put_wwpns key i (w ∷ ws) ctx = put_wwpns key (suc i) ws (insert (key <> decimal i) w ctx)

abbrev pub is_none_of : List TargetInfo → List String → List TargetInfo → List TargetInfo → Bool
is_none_of [] [] [] [] = true
is_none_of _ _ _ _ = false

module _ (c : Client)
    (sort_slice : (TargetAddress → TargetAddress → Bool) → List TargetAddress → List TargetAddress)
    (connection appliance : String) where
  -- `addTargetsInfoToPublishContext`, with the context that it leaves. The targets are written to
  -- the context as they are found, and there is an error if there are none.
  unfoldable pub add_targets_info_to_publish_context : Dict String → Bool → M (Dict String)
  add_targets_info_to_publish_context ctx is_remote = do
    iscsi ← get_iscsi_targets_info_from_storage c sort_slice connection appliance
    fc ← get_fc_targets_info_from_storage c sort_slice connection appliance
    nvme_fc ← get_nvme_fc_target_info_from_storage c sort_slice connection appliance
    nvme_tcp ← get_nvme_tcp_targets_info_from_storage c sort_slice connection appliance
    let key = remote_key is_remote
    let c1 = put_targets (key "PORTAL") (key "TARGET") 0 iscsi ctx
    let c2 = put_wwpns (key "FCWWPN") 0 fc c1
    let c3 = put_targets (key "NVMEFCPORTAL") (key "NVMEFCTARGET") 0 nvme_fc c2
    let c4 = put_targets (key "NVMETCPPORTAL") (key "NVMETCPTARGET") 0 nvme_tcp c3
    if is_none_of iscsi fc nvme_fc nvme_tcp then fail internal else ret c4
