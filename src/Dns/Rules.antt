-- ===== src/Dns/Rules.antt =====
-- plugin/pkg/dns/server.go: the iptables rules that lead the queries of a container to its name
-- server, in the network namespace of the container.
pub mod Waiting
use flannel_network_plugin.Prelude.{
  ℕ, Bool, true, false, not, ◌&&◌, Option, none, some, List, [], ◌∷◌, ◌++◌, String, string_eq,
  if◌then◌else◌, leb, length,
}
use flannel_network_plugin.Prelude.Dict.{Dict, insert}
use flannel_network_plugin.Common.Act.{Act, ◌>>=◌, ◌>>◌, pure, fail, for_each}
use flannel_network_plugin.External.Texts.{◌+++◌}

-- `iptables.New`, `ChainExists`, `NewChain`, `List`, `Insert` and `Delete` in the table nat, on the
-- kernel's state; `is_done` says whether the context has ended, and `fields` is `strings.Fields`.
pub record Chains : Type 1 where
  pub N : Type 0
  pub new_iptables : Act N (Unit {0})
  pub chain_exists : String → Act N Bool
  pub new_chain : String → Act N (Unit {0})
  pub list_rules : String → Act N (List String)
  pub insert_first : String → List String → Act N (Unit {0})
  pub delete_rule : String → List String → Act N (Unit {0})
  pub is_done : N → Bool
  pub fields : String → List String

-- The address and the ports that the name server listens on, and the texts of the ports.
pub record Listening : Type 0 where
  pub listen_ip : String
  pub port_tcp : String
  pub port_udp : String

-- A rule, by its chain and its specification.
abbrev pub ChainRule : Type 0
ChainRule = String × List String

dnat_rule : String → String → String → ChainRule
dnat_rule protocol ip port = (
  "FLANNEL_DNS_OUTPUT",
  "-d"
      ∷ "127.0.0.11/32"
      ∷ "-p"
      ∷ protocol
      ∷ "-m"
      ∷ protocol
      ∷ "--dport"
      ∷ "53"
      ∷ "-j"
      ∷ "DNAT"
      ∷ "--to-destination"
      ∷ (ip +++ ":" +++ port)
      ∷ [],
)

snat_rule : String → String → String → ChainRule
snat_rule protocol ip port = (
  "FLANNEL_DNS_POSTROUTING",
  "-s"
      ∷ (ip +++ "/32")
      ∷ "-p"
      ∷ protocol
      ∷ "-m"
      ∷ protocol
      ∷ "--sport"
      ∷ port
      ∷ "-j"
      ∷ "SNAT"
      ∷ "--to-source"
      ∷ ":53"
      ∷ [],
)

jump_rule : String → String → ChainRule
jump_rule chain target = (chain, "-d" ∷ "127.0.0.11" ∷ "-j" ∷ target ∷ [])

-- The rules of `replaceDNATSNATRules`, in their order.
unfoldable pub dns_rules : Listening → List ChainRule
unfolding dnat_rule snat_rule jump_rule
dns_rules l =
    dnat_rule "tcp" l.listen_ip l.port_tcp
    ∷ dnat_rule "udp" l.listen_ip l.port_udp
    ∷ snat_rule "tcp" l.listen_ip l.port_tcp
    ∷ snat_rule "udp" l.listen_ip l.port_udp
    ∷ jump_rule "OUTPUT" "FLANNEL_DNS_OUTPUT"
    ∷ jump_rule "POSTROUTING" "FLANNEL_DNS_POSTROUTING"
    ∷ []

module _ (chains : Chains) where
  open chains use {N}

  -- `createChainIfNecessary`
  unfoldable pub create_chain_if_necessary : String → Act N (Unit {0})
  create_chain_if_necessary chain = do
    exists ← chains.chain_exists chain
    (if exists then pure tt else chains.new_chain chain)

  -- A look at the context.
  check_context : Act N (Unit {0})
  check_context n = if chains.is_done n then (none, n) else (some tt, n)

  unfoldable pub apply_rule : ChainRule → Act N (Unit {0})
  unfolding create_chain_if_necessary check_context
  apply_rule rule = do
    create_chain_if_necessary rule.0
    chains.insert_first rule.0 rule.1
    check_context

  -- Whether a chain exists and has a rule beside its header.
  has_rule : Bool → String → Act N Bool
  has_rule false chain = pure false
  has_rule true chain = do rules ← chains.list_rules chain; pure (not (leb (length rules) 1))

  unfoldable pub chain_ready : String → Act N Bool
  unfolding check_context has_rule
  chain_ready chain = do check_context; exists ← chains.chain_exists chain; has_rule exists chain

  -- Whether all chains of the group are ready; the loop ends with the first that is not.
  unfoldable pub chains_ready : List String → Act N Bool
  unfolding chain_ready
  chains_ready [] = pure true
  chains_ready (chain ∷ group) = do
    ready ← chain_ready chain
    (if ready then chains_ready group else pure false)

  -- The time that a round finds: whether the deadline has passed, and what others do until the
  -- next round.
  pub record Tick : Type 0 where
    pub is_late : Bool
    pub meanwhile : N → N

  -- The end of the look at a group: a group that is not ready is followed by a look at the time.
  after_group : Act N Bool → Tick → Option Bool × N → Option Bool × N
  after_group others tick (none, n) = (none, n)
  after_group others tick (some true, n) = (some true, n)
  after_group others tick (some false, n) = if tick.is_late then (none, n) else others n

  -- Whether one of the groups is ready; the loop ends with the first that is.
  unfoldable pub some_group_ready : Tick → List (List String) → Act N Bool
  unfolding after_group chains_ready
  some_group_ready tick [] n = (some false, n)
  some_group_ready tick (group ∷ groups) n =
      after_group (some_group_ready tick groups) tick (chains_ready group n)

  -- The end of a round.
  after_round :
      (N → Option (Option (Unit {0}) × N)) → Tick → Option Bool × N → Option (Option (Unit {0}) × N)
  after_round again tick (none, n) = some (none, n)
  after_round again tick (some true, n) = some (some tt, n)
  after_round again tick (some false, n) = again (tick.meanwhile n)

  -- `waitForChainsWithRules`; no result if the rounds of the list do not reach the deadline.
  unfoldable pub wait_for_chains_with_rules :
      List (List String) → List Tick → N → Option (Option (Unit {0}) × N)
  unfolding after_round some_group_ready
  wait_for_chains_with_rules groups [] n = none
  wait_for_chains_with_rules groups (tick ∷ ticks) n =
      after_round (wait_for_chains_with_rules groups ticks) tick (some_group_ready tick groups n)

  -- The rules to delete: an error of `List` is logged.
  listed :
      String → Dict String (List String) → Option (List String) × N → Dict String (List String) × N
  listed chain rules (none, n) = (rules, n)
  listed chain rules (some found, n) = (insert chain found rules, n)

  -- Of the chains of Docker an error leaves the chain with no rules.
  listed_or_nil :
      String → Dict String (List String) → Option (List String) × N → Dict String (List String) × N
  listed_or_nil chain rules (none, n) = (insert chain [] rules, n)
  listed_or_nil chain rules (some found, n) = (insert chain found rules, n)

  -- `[2:]` of the fields; fewer are a panic.
  delete_fields : String → List String → Act N (Unit {0})
  delete_fields chain (a ∷ b ∷ f ∷ fs) n = (some tt, (chains.delete_rule chain (f ∷ fs) n).1)
  delete_fields chain (a ∷ b ∷ []) n = (some tt, n)
  delete_fields chain _ n = (none, n)

  unfoldable pub delete_raw_rule : String → String → Act N (Unit {0})
  unfolding check_context delete_fields
  delete_raw_rule chain raw_rule = do check_context; delete_fields chain (chains.fields raw_rule)

  unfoldable pub delete_rules : Dict String (List String) → Act N (Unit {0})
  unfolding delete_raw_rule
  delete_rules = for_each (λ entry. for_each (delete_raw_rule entry.0) entry.1)

  -- The rules that stood before, if the chain of the name server was there.
  unfoldable pub own_rules : Bool → N → Dict String (List String) × N
  unfolding listed
  own_rules false n = ([], n)
  own_rules true n = listed "FLANNEL_DNS_OUTPUT" [] (chains.list_rules "FLANNEL_DNS_OUTPUT" n)

  unfoldable pub docker_rules : Dict String (List String) → N → Dict String (List String) × N
  unfolding listed_or_nil
  docker_rules rules n =
      let (rules1, n1) =
        listed_or_nil "DOCKER_OUTPUT" rules (chains.list_rules "DOCKER_OUTPUT" n) in
      listed_or_nil "DOCKER_POSTROUTING" rules1 (chains.list_rules "DOCKER_POSTROUTING" n1)

  waited :
      Dict String (List String) → Option (Option (Unit {0}) × N) → Option (Option (Unit {0}) × N)
  unfolding docker_rules delete_rules
  waited rules none = none
  waited rules (some (none, n)) = some (none, n)
  waited rules (some (some _, n)) =
      let (all, n1) = docker_rules rules n in some (delete_rules all n1)

  -- The end of `replaceDNATSNATRules`, once the new rules stand.
  clean_up :
      Bool
      → Dict String (List String)
      → List Tick
      → Option (Unit {0}) × N
      → Option (Option (Unit {0}) × N)
  unfolding waited wait_for_chains_with_rules delete_rules
  clean_up existed rules ticks (none, n) = some (none, n)
  clean_up true rules ticks (some _, n) = some (delete_rules rules n)
  clean_up false rules ticks (some _, n) =
      waited rules
        (wait_for_chains_with_rules (("DOCKER_OUTPUT" ∷ "DOCKER_POSTROUTING" ∷ []) ∷ []) ticks n)

  apply_rules : Listening → Bool → List Tick → N → Option (Option (Unit {0}) × N)
  unfolding own_rules clean_up apply_rule
  apply_rules l existed ticks n =
      let (rules, n1) = own_rules existed n in
      clean_up existed rules ticks (for_each apply_rule (dns_rules l) n1)

  begun : Listening → List Tick → Option Bool × N → Option (Option (Unit {0}) × N)
  unfolding apply_rules
  begun l ticks (none, n) = some (none, n)
  begun l ticks (some existed, n) = apply_rules l existed ticks n

  unfoldable pub replace_dnat_snat_rules :
      Listening → List Tick → N → Option (Option (Unit {0}) × N)
  unfolding begun
  replace_dnat_snat_rules l ticks n =
      begun l ticks ((chains.new_iptables >> chains.chain_exists "FLANNEL_DNS_OUTPUT") n)
