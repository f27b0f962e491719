-- ===== src/Networking/Iptables.antt =====
-- plugin/pkg/networking/iptables.go: rules are applied in order, up to the first error.
use flannel_network_plugin.Prelude.{List, String, string_eq, ◌==◌, if◌then◌else◌}
use flannel_network_plugin.Common.Act.{Act, ◌>>◌, fail, for_each}
use flannel_network_plugin.External.Host.{Host}

pub record IptablesRule : Type 0 where
  pub table : String
  pub chain : String
  pub rule_spec : List String

module _ (host : Host) where
  unfoldable pub apply_ip_tables_rules : List IptablesRule → String → Act host.H (Unit {0})
  apply_ip_tables_rules rules action =
      host.new_iptables
      >> (if action == "create"
          then for_each (λ rule. host.append_unique rule.table rule.chain rule.rule_spec) rules
          else if action == "delete"
          then for_each (λ rule. host.delete_rule rule.table rule.chain rule.rule_spec) rules
          else fail)
