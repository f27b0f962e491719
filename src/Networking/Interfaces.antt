-- ===== src/Networking/Interfaces.antt =====
-- plugin/pkg/networking/interface_management.go.
pub mod Listening
pub mod Addresses
use Prim.Native.String.{len, slice}
use flannel_network_plugin.Prelude.{
  ℕ, Bool, true, false, not, ◌&&◌, ◌||◌, Option, none, some, List, [], ◌∷◌, String, string_eq,
  nat_beq, ◌==◌, if◌then◌else◌, ltb,
}
use flannel_network_plugin.Common.Act.{Act, ◌>>=◌, ◌>>◌, pure, fail, for_each}
use flannel_network_plugin.External.Texts.{◌+++◌, has_slash}
use flannel_network_plugin.External.Host.{Host, LinkReply, link_found, link_not_found, link_failed}

abbrev pub max_interface_name_length : ℕ
max_interface_name_length = 15

unfoldable pub get_interface_name : String → String → String → String
get_interface_name prefix separator network_id =
    let name = prefix +++ separator +++ network_id in
    if ltb max_interface_name_length (len name)
    then slice name 0 max_interface_name_length
    else name

-- An address without a prefix is one of a single host.
unfoldable pub with_prefix : String → String
with_prefix ip = if has_slash ip then ip else ip +++ "/32"

module _ (host : Host) where
  open host use {H, Link, Addr}

  unfoldable pub parsed_addr : Option Addr → Act H Addr
  parsed_addr none = fail
  parsed_addr (some addr) = pure addr

  unfoldable pub parse_address : String → Act H Addr
  unfolding with_prefix parsed_addr
  parse_address ip = parsed_addr (host.parse_addr (with_prefix ip))

  unfoldable pub ensure_interface_listens_on_address : Link → String → Act H (Unit {0})
  ensure_interface_listens_on_address link ip = do
    addr ← parse_address ip
    host.addr_replace link addr

  unfoldable pub stop_listening_on_address : Link → String → Act H (Unit {0})
  stop_listening_on_address link ip = do addr ← parse_address ip; host.addr_del link addr

  parse_addresses : List String → Act H (List Addr)
  parse_addresses [] = pure []
  parse_addresses (ip ∷ ips) = do
    addr ← parse_address ip
    addrs ← parse_addresses ips
    pure (addr ∷ addrs)

  abbrev addresses_equal : Addr → Addr → Bool
  addresses_equal a1 a2 = host.addr_text a1 == host.addr_text a2

  is_wanted : Addr → List Addr → Bool
  is_wanted a [] = false
  is_wanted a (b ∷ bs) = addresses_equal a b || is_wanted a bs

  -- All addresses are parsed before the first call.
  unfoldable pub replace_ips_of_interface : Link → List String → Act H (Unit {0})
  unfolding parse_addresses is_wanted
  replace_ips_of_interface link ips = do
    parsed_ips ← parse_addresses ips
    for_each (λ addr. host.addr_replace link addr) parsed_ips
    addrs ← host.addr_list link
    for_each (λ a. if is_wanted a parsed_ips then pure tt else host.addr_del link a) addrs

  of_type : String → LinkReply Link → Act H Bool
  of_type interface_type link_not_found = pure false
  of_type interface_type link_failed = fail
  of_type interface_type (link_found link) =
      if host.link_type link == interface_type then pure true else fail

  unfoldable pub interface_exists : String → String → Act H Bool
  unfolding of_type
  interface_exists name interface_type h = of_type interface_type (host.link_by_name name h) h

  unfoldable pub found_link : LinkReply Link → Act H Link
  found_link (link_found link) = pure link
  found_link link_not_found = fail
  found_link link_failed = fail

  -- Only dummies and bridges are added.
  unfoldable pub add_interface : String → String → ℕ → Bool → Act H (Unit {0})
  add_interface name interface_type mtu up =
      if interface_type == "dummy" || interface_type == "bridge"
      then host.link_add name interface_type mtu up
      else fail

  unfoldable pub ensure_interface : String → String → ℕ → Bool → Act H Link
  unfolding found_link add_interface
  ensure_interface name interface_type mtu up = do
    exists ← interface_exists name interface_type
    (if exists then pure tt else add_interface name interface_type mtu up)
    link ← (λ h. found_link (host.link_by_name name h) h)
    (if nat_beq (host.link_mtu link) mtu then pure tt else host.link_set_mtu link mtu)
    (if host.link_up link && not up
        then host.link_set_down link
        else if not (host.link_up link) && up
        then host.link_set_up link
        else pure tt)
    pure link
