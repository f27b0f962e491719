-- ===== src/Networking/Interfaces/Addresses.antt =====
-- Which addresses an interface has, as vishvananda/netlink documents it, for
-- plugin/pkg/networking/interface_management.go: `AddrReplace` adds an address, `AddrDel` removes
-- the one that it is given from the device of its link, and no other call removes an address.
use flannel_network_plugin.Prelude.{◌≡◌, Bool, true, some, String, List}
use flannel_network_plugin.Common.Act.{Keeps, Outcome}
use flannel_network_plugin.External.Texts.{Texts}
use flannel_network_plugin.External.Host.{Host, IpvsService, link_found}
use flannel_network_plugin.Networking.Interfaces.{with_prefix}

-- `has h device ip`: whether the device has the address.
pub record HasAddresses (host : Host) (texts : Texts) : Type 0 where
  pub device : host.Link → String
  pub has : host.H → String → texts.Ip → Bool
  -- `LinkByName` finds the device of that name.
  pub link_by_name_lem :
      (name : String) (h : host.H) (link : host.Link)
      → host.link_by_name name h ≡ link_found link
      → device link ≡ name
  pub addr_replace_lem :
      (link : host.Link) (addr : host.Addr) (ip : texts.Ip) (h : host.H)
      → host.parse_addr (with_prefix (texts.print_ip ip)) ≡ some addr
      → Outcome (λ _ h1. has h1 (device link) ip ≡ true) (host.addr_replace link addr h)
  pub keeps_addr_replace :
      (d : String) (ip : texts.Ip) (link : host.Link) (addr : host.Addr)
      → Keeps (λ h. has h d ip ≡ true) (host.addr_replace link addr)
  pub keeps_addr_del :
      (d : String) (ip : texts.Ip) (link : host.Link) (addr : host.Addr) (old : texts.Ip)
      → host.parse_addr (with_prefix (texts.print_ip old)) ≡ some addr
      → (device link ≡ d → texts.print_ip old ≡ texts.print_ip ip → ⊥)
      → Keeps (λ h. has h d ip ≡ true) (host.addr_del link addr)
  pub keeps_new_iptables :
      (d : String) (ip : texts.Ip) → Keeps (λ h. has h d ip ≡ true) host.new_iptables
  pub keeps_append_unique :
      (d : String) (ip : texts.Ip) (table chain : String) (spec : List String)
      → Keeps (λ h. has h d ip ≡ true) (host.append_unique table chain spec)
  pub keeps_delete_rule :
      (d : String) (ip : texts.Ip) (table chain : String) (spec : List String)
      → Keeps (λ h. has h d ip ≡ true) (host.delete_rule table chain spec)
  pub keeps_new_ipvs : (d : String) (ip : texts.Ip) → Keeps (λ h. has h d ip ≡ true) host.new_ipvs
  pub keeps_new_service :
      (d : String) (ip : texts.Ip) (svc : IpvsService)
      → Keeps (λ h. has h d ip ≡ true) (host.new_service svc)
  pub keeps_get_service :
      (d : String) (ip : texts.Ip) (svc : IpvsService)
      → Keeps (λ h. has h d ip ≡ true) (host.get_service svc)
  pub keeps_update_service :
      (d : String) (ip : texts.Ip) (svc : IpvsService)
      → Keeps (λ h. has h d ip ≡ true) (host.update_service svc)
