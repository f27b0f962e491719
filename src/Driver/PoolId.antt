-- ===== src/Driver/PoolId.antt =====
-- plugin/pkg/driver/ipam.go: the identifiers of the pools that Docker is given, and the requests for
-- pools and addresses. The driver's lock is held by each request throughout.
pub mod RoundTrip
use Prim.Native.Char.{Char, code}
use flannel_network_plugin.Prelude.{
  ℕ, Bool, true, false, not, ◌&&◌, Option, none, some, List, [], ◌∷◌, String, string_eq, nat_beq,
  ◌==◌, if◌then◌else◌,
}
use flannel_network_plugin.Prelude.Dict.{Dict, lookup}
use flannel_network_plugin.Common.Act.{Act, ◌>>=◌, ◌>>◌, pure, fail}
use flannel_network_plugin.External.Texts.{◌+++◌}
use flannel_network_plugin.ServiceLb.Management.{Parts, World}
use flannel_network_plugin.Driver.{Flannels, Driver, on_outside}
use flannel_network_plugin.Driver.Networks.{
  Known, network_known, network_nil, network_unknown, get_network, get_or_create_network,
}

push_to_first : Char → List String → List String
push_to_first c [] = String.◌∷◌ c "" ∷ []
push_to_first c (p ∷ ps) = String.◌∷◌ c p ∷ ps

-- `strings.Split(s, "-")` and `strings.Join(parts, "-")`
unfoldable pub split_dashes : String → List String
unfolding push_to_first
split_dashes String.[] = "" ∷ []
split_dashes (String.◌∷◌ c s) =
    let rest = split_dashes s in if nat_beq (code c) b'-' then "" ∷ rest else push_to_first c rest

unfoldable pub join_dashes : List String → String
join_dashes [] = ""
join_dashes (p ∷ []) = p
join_dashes (p ∷ q ∷ ps) = p +++ "-" +++ join_dashes (q ∷ ps)

-- `[1:]` of what `Split` returns, which is never empty.
abbrev pub rest_of : List String → List String
rest_of [] = []
rest_of (p ∷ ps) = ps

unfoldable pub pool_id_to_network_id : String → String
unfolding split_dashes join_dashes
pool_id_to_network_id pool_id = join_dashes (rest_of (split_dashes pool_id))

abbrev pub pool_prefix : String
pool_prefix = "FlannelPool"

-- A missing option is the empty string.
abbrev pub option : String → Dict String String → String
option name options = elim (lookup name options) [ none ↦ "" | some value ↦ value ]

pub record RequestAddressRequest : Type 0 where
  pub pool_id : String
  pub address : String
  pub options : Dict String String

-- What the requests use of a network: the texts of its subnet and of its gateway, the size of its
-- host subnet, and `AllocateContainerIP`, `ReserveIP` and `ReleaseIP` of its pool.
pub record Addresses (parts : Parts) (flannels : Flannels parts) : Type 0 where
  pub subnet_text : flannels.Flannel → String
  pub local_gateway : flannels.Flannel → String
  pub host_subnet_ones : flannels.Flannel → String
  pub allocate_container_ip :
      flannels.Flannel → String → String → Act (flannels.Outside × World parts) parts.texts.Ip
  pub reserve_ip : flannels.Flannel → Act (flannels.Outside × World parts) parts.texts.Ip
  pub release_ip : flannels.Flannel → String → Act (flannels.Outside × World parts) (Unit {0})

module _ (parts : Parts) (flannels : Flannels parts) (addresses : Addresses parts flannels) where
  open parts use {texts}
  open flannels use {Flannel}

  -- The response to `RequestPool`: the pool's identifier and the network's subnet.
  unfoldable pub request_pool :
      Bool → Dict String String → Act (Driver parts flannels) (String × String)
  unfolding get_or_create_network
  request_pool v6 options =
      if v6 then fail else if option "flannel-id" options == "" then fail else (do
        network ← get_or_create_network parts flannels "" (option "flannel-id" options)
        pure (pool_prefix +++ "-" +++ option "flannel-id" options, addresses.subnet_text network))

  -- A network that is missing is an error, and a nil one a panic.
  existing : Known parts flannels × Driver parts flannels → Option Flannel × Driver parts flannels
  existing (network_known network, d) = (some network, d)
  existing (network_nil, d) = (none, d)
  existing (network_unknown, d) = (none, d)

  network_of_pool : String → Act (Driver parts flannels) Flannel
  unfolding get_network pool_id_to_network_id existing
  network_of_pool pool_id d =
      existing (get_network parts flannels "" (pool_id_to_network_id pool_id) d)

  address_text : Flannel → texts.Ip → String
  address_text network ip = texts.print_ip ip +++ "/" +++ addresses.host_subnet_ones network

  choose_address : String → String → Flannel → Act (Driver parts flannels) texts.Ip
  choose_address address mac network =
      if not (address == "") && not (mac == "")
      then on_outside parts flannels (addresses.allocate_container_ip network address mac)
      else on_outside parts flannels (addresses.reserve_ip network)

  -- The response to `RequestAddress`. The gateway is no address of the pool.
  unfoldable pub request_address : RequestAddressRequest → Act (Driver parts flannels) String
  unfolding network_of_pool choose_address address_text
  request_address request = do
    network ← network_of_pool request.pool_id
    (if option "RequestAddressType" request.options == "com.docker.network.gateway"
        then pure (addresses.local_gateway network +++ "/32")
        else (do
          ip ←
              choose_address request.address
                (option "com.docker.network.endpoint.macaddress" request.options) network
          pure (address_text network ip)))

  -- The error of `ReleaseIP` is ignored.
  ignored : Option (Unit {0}) × Driver parts flannels → Option (Unit {0}) × Driver parts flannels
  ignored (_, d) = (some tt, d)

  unfoldable pub release_address : String → String → Act (Driver parts flannels) (Unit {0})
  unfolding network_of_pool ignored
  release_address pool_id address = if address == "" then pure tt else (do
    network ← network_of_pool pool_id
    (λ d. ignored (on_outside parts flannels (addresses.release_ip network address) d)))
