-- ===== src/Controller/Replication/Policies.antt =====
-- The protection policy and the replication rule of a volume group: the two Ensure functions of
-- pkg/controller/replication.go.
use test_powerstore_automati.Base.{String, ◌<>◌}
use test_powerstore_automati.Outcome.{internal, Outcome, ok, err, panic}
use test_powerstore_automati.Client.{
  Client, get_policy_by_name, get_rule_by_name, get_remote_by_name, create_policy, create_rule,
}
use test_powerstore_automati.Client.Monad.{World, M, ret, fail, call, ◌>>=◌, if_error}

module _ (c : Client) (connection : String) where
  -- `EnsureReplicationRuleExists`
  unfoldable pub ensure_replication_rule_exists : String → String → String → M String
  ensure_replication_rule_exists vg_name remote rpo = do
    found ← call c connection (get_rule_by_name ("rr-" <> vg_name))
    if_error found
        (λ _.
          call c connection (create_rule ("rr-" <> vg_name) rpo remote)
          >>= (λ made. if_error made (λ _. fail internal) ret))
        (λ rule. ret rule.id)

  -- An error of the step before becomes an internal one.
  abbrev pub wrapped : {A : Type 0} → Outcome String × World → (String → M A) → Outcome A × World
  wrapped (ok a, w) next = next a w
  wrapped (err e, w) next = fail internal w
  wrapped (panic, w) next = (panic, w)

  unfoldable pub create_with_rule : String → String → String → M String
  create_with_rule vg_name remote rpo w =
      wrapped (ensure_replication_rule_exists vg_name remote rpo w) (λ rule.
        call c connection (create_policy ("pp-" <> vg_name) rule)
        >>= (λ made. if_error made (λ _. fail internal) ret))

  -- `EnsureProtectionPolicyExists`
  unfoldable pub ensure_protection_policy_exists : String → String → String → M String
  ensure_protection_policy_exists vg_name remote_name rpo = do
    remote ← call c connection (get_remote_by_name remote_name)
    if_error remote (λ _. fail internal)
        (λ rs.
          call c connection (get_policy_by_name ("pp-" <> vg_name))
          >>= (λ found. if_error found (λ _. create_with_rule vg_name rs.id rpo) (λ pp. ret pp.id)))
