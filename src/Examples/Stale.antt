-- ===== src/Examples/Stale.antt =====
-- Rules in the kernel, one of which belongs to a stale service.
use mathlib.Core.Bool.{false≢true}
use flannel_network_plugin.Prelude.{
  ◌≡◌, ◌≢◌, refl, true, false, List, [], ◌∷◌, String, string_eq, nat_eq, ◌==◌, arith, Bool-cases,
  inl, inr,
}
use flannel_network_plugin.Common.Act.{pure}
use flannel_network_plugin.Common.Compare.{compare_string_slices}
use flannel_network_plugin.External.Etcd.Single.{single}
use flannel_network_plugin.Examples.{ticks, slices, plugin}
use flannel_network_plugin.Examples.Fwmarks.{unary}
use flannel_network_plugin.Examples.Balancer.{host, stands, without, Rules}
use flannel_network_plugin.ServiceLb.Management.Stale.{Listings, clean_up_stale_load_balancers}
use flannel_network_plugin.ServiceLb.Management.Stale.Rules.{
  IsApart, rules-clean_up_stale_load_balancers,
}
use flannel_network_plugin.Examples.Node.{address_eq}

abbrev listings : Listings host
listings = record {
  get_services = pure [];
  list_rules = λ table chain. pure ("-A x -d ttt" ∷ []);
  contains_text = λ text part. true;
  fields = λ text. "-A" ∷ "x" ∷ "-d" ∷ "ttt" ∷ [];
  hex = ticks;
}

still_stands :
    (table chain : String) (spec : List String) (table' chain' : String) (spec' : List String)
    (rules : Rules)
    → (table == table') ≡ false
    → stands rules table chain spec ≡ true
    → stands (without table' chain' spec' rules) table chain spec ≡ true
unfolding stands
still_stands table chain spec table' chain' spec' [] ne s = s
still_stands table chain spec table' chain' spec' ((t, c, p) ∷ rules) ne s = ground (
  arith,
  s,
  ne,
  still_stands table chain spec table' chain' spec' rules ne,
  string_eq.beq_iff t table,
  string_eq.beq_iff t table',
  string_eq.beq_iff table table',
)

apart_tables : (table table' : String) → table ≢ table' → (table == table') ≡ false
apart_tables table table' other = elim (Bool-cases (table == table')) [
  | inl same ↦ absurd (other ((string_eq.beq_iff table table').0 same))
  | inr differ ↦ differ
]

listings-IsApart : IsApart host listings
listings-IsApart = record {
  keeps_delete_rule = λ table chain spec table' chain' spec' other h s.
      still_stands table chain spec table' chain' spec' h.0 (apart_tables table table' other) s;
  keeps_del_service = λ table chain spec svc h s. s;
  keeps_new_iptables = λ table chain spec h s. s;
  keeps_new_ipvs = λ table chain spec h s. s;
  keeps_get_services = λ table chain spec h s. s;
  keeps_list_rules = λ table chain spec table' chain' h s. s;
}

nat_stands :
    stands (("nat", "POSTROUTING", "-d" ∷ "ttt" ∷ []) ∷ []) "nat" "POSTROUTING" ("-d" ∷ "ttt" ∷ [])
    ≡ true
unfolding stands compare_string_slices
nat_stands = refl

nat_is_elsewhere : ◌≢◌ {A = String} "nat" "mangle"
nat_is_elsewhere e = false≢true ((string_eq.beq_iff "nat" "mangle").1 e)

rules-clean_up_stale_load_balancers_example :
    stands
      (clean_up_stale_load_balancers single host listings unary slices plugin "node" [] (
        (("nat", "POSTROUTING", "-d" ∷ "ttt" ∷ []) ∷ [], []),
        ("/flannel/node/fwmarks/net/by-service/web", "ttt") ∷ [],
      )).1.0.0
      "nat"
      "POSTROUTING"
      ("-d" ∷ "ttt" ∷ [])
    ≡ true
rules-clean_up_stale_load_balancers_example =
    rules-clean_up_stale_load_balancers single host listings unary slices listings-IsApart "nat"
      "POSTROUTING" ("-d" ∷ "ttt" ∷ []) nat_is_elsewhere plugin "node" []
      (("nat", "POSTROUTING", "-d" ∷ "ttt" ∷ []) ∷ [], [])
      (("/flannel/node/fwmarks/net/by-service/web", "ttt") ∷ []) nat_stands
