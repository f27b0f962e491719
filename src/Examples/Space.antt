-- ===== src/Examples/Space.antt =====
-- Subnets known by their texts, on concrete stores.
use flannel_network_plugin.Prelude.{◌≡◌, refl, none, some, List, [], ◌∷◌, ◌++◌, String, string_eq}
use flannel_network_plugin.Prelude.Dict.{lookup, insert}
use flannel_network_plugin.Common.Result.{ok}
use flannel_network_plugin.External.Etcd.{Reaches}
use flannel_network_plugin.External.Etcd.Single
use flannel_network_plugin.External.Etcd.Single.{Db, single}
use flannel_network_plugin.Examples.{plugin}
use flannel_network_plugin.External.Texts
use flannel_network_plugin.Ipam.Space
use flannel_network_plugin.Ipam.Space.{
  Nets, Space, WatchEvent, delete_event, on_event, subnet_key, claim_subnet, release_pool,
  etcd_failed,
}
use flannel_network_plugin.Ipam.Space.Reserve.{IsLeased, claim_subnet-IsLeased}

abbrev texts_of_nets : Nets
texts_of_nets = record {
  Net = String;
  print_net = λ net. net;
  parse_cidr = λ s. some s;
  ones = λ net. 24;
  nth_subnet = λ net new_bits i. none;
}

-- Another network has the first subnet.
abbrev one_leased : Db
one_leased = ("/flannel/10.0.0.0-24", "theirs") ∷ []

abbrev leased : Db
leased =
    (claim_subnet single texts_of_nets plugin "ours"
      ("10.0.0.0/24" ∷ "10.0.1.0/24" ∷ "10.0.2.0/24" ∷ []) [] one_leased).1.2

claims :
    claim_subnet single texts_of_nets plugin "ours"
      ("10.0.0.0/24" ∷ "10.0.1.0/24" ∷ "10.0.2.0/24" ∷ [])
      []
      one_leased
    ≡ (ok "10.0.1.0/24", ("10.0.2.0/24" ∷ [], ("theirs", "10.0.0.0/24") ∷ [], leased))
unfolding claim_subnet Space.reserve_pool_subnet Single.commit lookup subnet_key Texts.replace_all
    insert
claims = refl

claim_subnet-IsLeased_example :
    (skipped : List String) × ("10.0.0.0/24" ∷ "10.0.1.0/24" ∷ "10.0.2.0/24" ∷ []
      ≡ skipped ++ "10.0.1.0/24" ∷ "10.0.2.0/24" ∷ [])
    × (db1 : Db) × Reaches single one_leased db1
    × IsLeased single plugin "10.0.1.0/24" "ours" db1 leased
claim_subnet-IsLeased_example =
    claim_subnet-IsLeased single plugin texts_of_nets "ours"
      ("10.0.0.0/24" ∷ "10.0.1.0/24" ∷ "10.0.2.0/24" ∷ []) ("10.0.2.0/24" ∷ []) []
      (("theirs", "10.0.0.0/24") ∷ []) one_leased leased "10.0.1.0/24" claims
