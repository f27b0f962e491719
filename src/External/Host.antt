-- ===== src/External/Host.antt =====
-- The kernel of a node through the packages vishvananda/netlink, moby/ipvs and coreos/go-iptables,
-- as an interface. `H` is all that they act on; each call may fail.
use flannel_network_plugin.Prelude.{ℕ, Bool, true, ◌≡◌, Option, List, String}
use flannel_network_plugin.Common.Act.{Act, Keeps}

-- `ipvs.Service` and `ipvs.Destination`, the fields that the program sets or compares.
pub record IpvsService : Type 0 where
  pub fwmark : ℕ
  pub sched_name : String
  pub flags : ℕ
  pub timeout : ℕ
  pub pe_name : String

pub record Destination : Type 0 where
  pub address : String
  pub masquerades : Bool

-- The reply of `LinkByName`.
pub data LinkReply (Link : Type 0) : Type 0 where
  link_found : Link → LinkReply Link
  link_not_found : LinkReply Link
  link_failed : LinkReply Link

pub record Host : Type 1 where
  pub H : Type 0
  pub Link : Type 0
  pub Addr : Type 0
  -- `netlink.ParseAddr`, and the text of an address with its prefix
  pub parse_addr : String → Option Addr
  pub addr_text : Addr → String
  pub addr_replace : Link → Addr → Act H (Unit {0})
  pub addr_del : Link → Addr → Act H (Unit {0})
  pub addr_list : Link → Act H (List Addr)
  pub link_by_name : String → H → LinkReply Link
  pub link_type : Link → String
  pub link_mtu : Link → ℕ
  pub link_up : Link → Bool
  -- `LinkAdd` of a link with this name, type and MTU, up or not
  pub link_add : String → String → ℕ → Bool → Act H (Unit {0})
  pub link_set_mtu : Link → ℕ → Act H (Unit {0})
  pub link_set_down : Link → Act H (Unit {0})
  pub link_set_up : Link → Act H (Unit {0})
  -- the rules that stand: table, chain and specification
  pub rules : H → String → String → List String → Bool
  -- `iptables.New`, `AppendUnique` and `Delete`
  pub new_iptables : Act H (Unit {0})
  pub append_unique : String → String → List String → Act H (Unit {0})
  pub delete_rule : String → String → List String → Act H (Unit {0})
  -- `ipvs.New` and the calls of a handle
  pub new_ipvs : Act H (Unit {0})
  pub is_service_present : IpvsService → H → Bool
  pub new_service : IpvsService → Act H (Unit {0})
  pub get_service : IpvsService → Act H IpvsService
  pub update_service : IpvsService → Act H (Unit {0})
  pub del_service : IpvsService → Act H (Unit {0})
  pub new_destination : IpvsService → Destination → Act H (Unit {0})
  pub update_destination : IpvsService → Destination → Act H (Unit {0})
  pub del_destination : IpvsService → Destination → Act H (Unit {0})
  pub get_destinations : IpvsService → Act H (List Destination)

-- The calls of one package leave what the others act on alone, and to append a rule removes none:
-- of a rule that stands, all calls but `Delete` leave it standing.
pub record IsSeparate (host : Host) : Type 0 where
  pub keeps_addr_replace :
      (table chain : String) (spec : List String) (link : host.Link) (addr : host.Addr)
      → Keeps (λ h. host.rules h table chain spec ≡ true) (host.addr_replace link addr)
  pub keeps_addr_del :
      (table chain : String) (spec : List String) (link : host.Link) (addr : host.Addr)
      → Keeps (λ h. host.rules h table chain spec ≡ true) (host.addr_del link addr)
  pub keeps_new_iptables :
      (table chain : String) (spec : List String)
      → Keeps (λ h. host.rules h table chain spec ≡ true) host.new_iptables
  pub keeps_append_unique :
      (table chain : String) (spec : List String) (table' chain' : String) (spec' : List String)
      → Keeps (λ h. host.rules h table chain spec ≡ true) (host.append_unique table' chain' spec')
  pub keeps_new_ipvs :
      (table chain : String) (spec : List String)
      → Keeps (λ h. host.rules h table chain spec ≡ true) host.new_ipvs
  pub keeps_new_service :
      (table chain : String) (spec : List String) (svc : IpvsService)
      → Keeps (λ h. host.rules h table chain spec ≡ true) (host.new_service svc)
  pub keeps_get_service :
      (table chain : String) (spec : List String) (svc : IpvsService)
      → Keeps (λ h. host.rules h table chain spec ≡ true) (host.get_service svc)
  pub keeps_update_service :
      (table chain : String) (spec : List String) (svc : IpvsService)
      → Keeps (λ h. host.rules h table chain spec ≡ true) (host.update_service svc)
