-- ===== src/Examples/Balancer.antt =====
-- A kernel whose iptables rules and addresses are lists, and on which every call succeeds.
use flannel_network_plugin.Prelude.{
  ◌≡◌, Bool-cases, inl, inr, refl, ap, ◌∙◌, sym, ==_refl, Option, none, if◌then◌else◌, Bool, true,
  false, ◌&&◌, ◌||◌, some, List, [], ◌∷◌, String, string_eq, ◌==◌, arith, not, filter,
}
use flannel_network_plugin.Common.Act.{pure}
use flannel_network_plugin.Common.Compare.{compare_string_slices}
use flannel_network_plugin.External.Host.{Host, IsSeparate, link_found}
use flannel_network_plugin.ServiceLb.Balancer.{ServiceLb, update_frontend_ip}
use flannel_network_plugin.ServiceLb.Balancer.Rules.{rules-update_frontend_ip}
use flannel_network_plugin.External.Texts.{has_slash}
use flannel_network_plugin.Networking.Interfaces.{with_prefix}
use flannel_network_plugin.Networking.Interfaces.Addresses.{HasAddresses}
use flannel_network_plugin.Examples.{Address, first, second, print_address, two_addresses}
use flannel_network_plugin.Examples.Fwmarks.{unary}

abbrev pub Rules : Type 0
Rules = List (String × String × List String)

unfoldable pub stands : Rules → String → String → List String → Bool
stands [] table chain spec = false
stands ((t, c, s) ∷ rules) table chain spec =
    (t == table && c == chain && compare_string_slices s spec) || stands rules table chain spec

abbrev pub without : String → String → List String → Rules → Rules
without table chain spec =
    filter (λ r. not (r.0 == table && r.1 == chain && compare_string_slices r.2 spec))

-- The addresses of the devices.
abbrev pub Addresses : Type 0
Addresses = List (String × Address)

unfoldable pub holds : Addresses → String → Address → Bool
holds [] d ip = false
holds ((link, addr) ∷ more) d ip =
    (link == d && print_address addr == print_address ip) || holds more d ip

unfoldable pub given_up : String → Address → Addresses → Addresses
given_up link addr [] = []
given_up link addr ((l, a) ∷ more) =
    let rest = given_up link addr more in
    if l == link && print_address a == print_address addr then rest else (l, a) ∷ rest

abbrev pub Kernel : Type 0
Kernel = Rules × Addresses

abbrev parse_prefix : String → Option Address
parse_prefix text =
    if text == "10.0.0.1/32"
    then some first
    else if text == "10.0.0.2/32"
    then some second
    else none

abbrev pub host : Host
host = record {
  H = Kernel;
  Link = String;
  Addr = Address;
  parse_addr = parse_prefix;
  addr_text = print_address;
  addr_replace = λ link addr h. (some tt, (h.0, (link, addr) ∷ h.1));
  addr_del = λ link addr h. (some tt, (h.0, given_up link addr h.1));
  addr_list = λ link. pure [];
  link_by_name = λ name h. link_found name;
  link_type = λ link. "dummy";
  link_mtu = λ link. 1500;
  link_up = λ link. true;
  link_add = λ name kind mtu up. pure tt;
  link_set_mtu = λ link mtu. pure tt;
  link_set_down = λ link. pure tt;
  link_set_up = λ link. pure tt;
  rules = λ h. stands h.0;
  new_iptables = pure tt;
  append_unique = λ table chain spec h. (some tt, ((table, chain, spec) ∷ h.0, h.1));
  delete_rule = λ table chain spec h. (some tt, (without table chain spec h.0, h.1));
  new_ipvs = pure tt;
  is_service_present = λ svc h. true;
  new_service = λ svc. pure tt;
  get_service = λ svc. pure svc;
  update_service = λ svc. pure tt;
  del_service = λ svc. pure tt;
  new_destination = λ svc dest. pure tt;
  update_destination = λ svc dest. pure tt;
  del_destination = λ svc dest. pure tt;
  get_destinations = λ svc. pure [];
}

host-IsSeparate : IsSeparate host
unfolding stands
host-IsSeparate = record {
  keeps_addr_replace = λ table chain spec link addr h s. s;
  keeps_addr_del = λ table chain spec link addr h s. s;
  keeps_new_iptables = λ table chain spec h s. s;
  keeps_append_unique = λ table chain spec table' chain' spec' h s. ground (arith, s);
  keeps_new_ipvs = λ table chain spec h s. s;
  keeps_new_service = λ table chain spec svc h s. s;
  keeps_get_service = λ table chain spec svc h s. s;
  keeps_update_service = λ table chain spec svc h s. s;
}

parse_prefix_lem :
    (ip addr : Address)
    → parse_prefix (with_prefix (print_address ip)) ≡ some addr
    → print_address addr ≡ print_address ip
unfolding with_prefix has_slash
parse_prefix_lem first addr e = ap print_address (chosen e)
  where
    chosen : some first ≡ some addr → addr ≡ first
    chosen e = cc
parse_prefix_lem second addr e = ap print_address (chosen e)
  where
    chosen : some second ≡ some addr → addr ≡ second
    chosen e = cc

-- An address stays where another one, or one of another device, is given up.
holds-given_up :
    (d : String) (ip : Address) (link : String) (addr : Address) (more : Addresses)
    → ((link == d) && (print_address addr == print_address ip)) ≡ false
    → holds more d ip ≡ true
    → holds (given_up link addr more) d ip ≡ true
unfolding holds given_up
holds-given_up d ip link addr [] differs h = h
holds-given_up d ip link addr ((l, a) ∷ more) differs h = ground (
  arith,
  h,
  differs,
  holds-given_up d ip link addr more differs,
  string_eq.beq_iff l link,
  string_eq.beq_iff l d,
  string_eq.beq_iff link d,
  string_eq.beq_iff (print_address a) (print_address addr),
  string_eq.beq_iff (print_address a) (print_address ip),
  string_eq.beq_iff (print_address addr) (print_address ip),
)

apart_links :
    (link d shown old given : String)
    → shown ≡ old
    → (link ≡ d → old ≡ given → ⊥)
    → ((link == d) && (shown == given)) ≡ false
apart_links link d shown old given e differs = elim (Bool-cases (link == d)) [
  | inr other ↦ rw (other) refl
  | inl here ↦ elim (Bool-cases (shown == given)) [
    | inr other ↦ rw (here, other) refl
    | inl same ↦ absurd (
        differs ((string_eq.beq_iff link d).0 here)
          (sym e ∙ (string_eq.beq_iff shown given).0 same))
  ]
]

pub host-HasAddresses : HasAddresses host two_addresses
unfolding holds
host-HasAddresses = record {
  device = λ link. link;
  has = λ h d ip. holds h.1 d ip;
  link_by_name_lem = λ name h link e. cc;
  addr_replace_lem = λ link addr ip h e.
      rw (==_refl link, parse_prefix_lem ip addr e, ==_refl (print_address ip)) refl;
  keeps_addr_replace = λ d ip link addr h s. ground (arith, s);
  keeps_addr_del = λ d ip link addr old e differs h s.
      holds-given_up d ip link addr h.1
        (apart_links link d (print_address addr) (print_address old) (print_address ip)
          (parse_prefix_lem old addr e) differs)
        s;
  keeps_new_iptables = λ d ip h s. s;
  keeps_append_unique = λ d ip table chain spec h s. s;
  keeps_delete_rule = λ d ip table chain spec h s. s;
  keeps_new_ipvs = λ d ip h s. s;
  keeps_new_service = λ d ip svc h s. s;
  keeps_get_service = λ d ip svc h s. s;
  keeps_update_service = λ d ip svc h s. s;
}

abbrev old_spec : List String
old_spec = "-d" ∷ "10.0.0.1" ∷ "-p" ∷ "udp" ∷ "-j" ∷ "MARK" ∷ "--set-mark" ∷ "ttt" ∷ []

abbrev balancer : ServiceLb Address String
balancer = record {
  docker_network_id = "net";
  service_id = "svc";
  fwmark = 3;
  frontend_ip = some first;
  backend_ips = [];
  iptables_rules = record { table = "mangle"; chain = "PREROUTING"; rule_spec = old_spec } ∷ [];
  link = "lbf_net";
}

old_stands : stands (("mangle", "PREROUTING", old_spec) ∷ []) "mangle" "PREROUTING" old_spec ≡ true
unfolding stands compare_string_slices
old_stands = refl

rules-update_frontend_ip_example :
    stands
      (update_frontend_ip host two_addresses unary second
        (balancer, (("mangle", "PREROUTING", old_spec) ∷ [], []))).1.1.0
      "mangle"
      "PREROUTING"
      old_spec
    ≡ true
rules-update_frontend_ip_example =
    rules-update_frontend_ip host two_addresses unary host-IsSeparate "mangle" "PREROUTING" old_spec
      second balancer (("mangle", "PREROUTING", old_spec) ∷ [], []) old_stands
