-- ===== src/Networking/Interfaces/Listening.antt =====
-- What listening on addresses leaves alone: plugin/pkg/networking/interface_management.go.
use flannel_network_plugin.Prelude.{Option, none, some, String}
use flannel_network_plugin.Common.Act.{Keeps, >>=-Keeps}
use flannel_network_plugin.External.Host.{Host}
use flannel_network_plugin.Networking.Interfaces.{
  with_prefix, parsed_addr, parse_address, ensure_interface_listens_on_address,
  stop_listening_on_address,
}

module _ (host : Host) (P : host.H → Type 0) where
  parsed_addr-Keeps : (addr : Option host.Addr) → Keeps P (parsed_addr host addr)
  unfolding parsed_addr
  parsed_addr-Keeps none s h = h
  parsed_addr-Keeps (some addr) s h = h

  parse_address-Keeps : (ip : String) → Keeps P (parse_address host ip)
  unfolding parse_address
  parse_address-Keeps ip = parsed_addr-Keeps (host.parse_addr (with_prefix ip))

  pub ensure_interface_listens_on_address-Keeps :
      (link : host.Link) (ip : String)
      → ((addr : host.Addr) → Keeps P (host.addr_replace link addr))
      → Keeps P (ensure_interface_listens_on_address host link ip)
  unfolding ensure_interface_listens_on_address
  ensure_interface_listens_on_address-Keeps link ip keeps =
      >>=-Keeps P (parse_address host ip) (host.addr_replace link) (parse_address-Keeps ip) keeps

  pub stop_listening_on_address-Keeps :
      (link : host.Link) (ip : String)
      → ((addr : host.Addr) → Keeps P (host.addr_del link addr))
      → Keeps P (stop_listening_on_address host link ip)
  unfolding stop_listening_on_address
  stop_listening_on_address-Keeps link ip keeps =
      >>=-Keeps P (parse_address host ip) (host.addr_del link) (parse_address-Keeps ip) keeps
