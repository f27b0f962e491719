-- ===== src/Driver/Networks.antt =====
-- plugin/pkg/driver/flannel_driver.go: networks that are added, changed and removed, and the two
-- kinds of their identifiers.
use flannel_network_plugin.Prelude.{
  ℕ, ◌+◌, Bool, not, Option, none, some, List, [], ◌∷◌, String, string_eq, ◌==◌, if◌then◌else◌,
}
use flannel_network_plugin.Common.Act.{Act, ◌>>=◌, ◌>>◌, pure, fail, for_each}
use flannel_network_plugin.Common.DualKeyMap
use flannel_network_plugin.Common.DualKeyMap.{DualKeyMap, Reply, found, missing, conflict}
use flannel_network_plugin.Dns.Resolver.{NetworkInfo, add_network, remove_network}
use flannel_network_plugin.ServiceLb.Management.{
  Parts, set_flannel_network, register_other_network, delete_network,
}
use flannel_network_plugin.Driver.{NetworkKey, keys_of, Flannels, Driver, on_world, on_outside}

-- `IsFlannelNetwork` of common.go
unfoldable pub is_flannel_network : NetworkInfo → Bool
is_flannel_network n = not (n.flannel_id == "")

abbrev pub key : String → String → NetworkKey
key docker_id flannel_id = record { docker_id = docker_id; flannel_id = flannel_id }

module _ (parts : Parts) (flannels : Flannels parts) where
  open flannels use {Flannel, flannel_eq}

  -- What `getNetwork` returns: a conflict is logged, and gives a nil network that exists.
  pub data Known : Type 0 where
    network_known : Flannel → Known
    network_nil : Known
    network_unknown : Known

  found_network :
      Reply Flannel × DualKeyMap String String Flannel
      → Driver parts flannels
      → Known × Driver parts flannels
  found_network (found n, networks) d = (network_known n, record d { networks = networks })
  found_network (missing, networks) d = (network_unknown, record d { networks = networks })
  found_network (conflict, networks) d = (network_nil, record d { networks = networks })

  -- `getNetwork`
  unfoldable pub get_network :
      String → String → Driver parts flannels → Known × Driver parts flannels
  unfolding found_network
  get_network docker_id flannel_id d =
      found_network (DualKeyMap.get keys_of ⦃ev = flannel_eq⦄ (key docker_id flannel_id) d.networks)
        d

  store_network : String → String → Flannel → Act (Driver parts flannels) (Unit {0})
  store_network docker_id flannel_id network d = (
    some tt,
    record d { networks = DualKeyMap.set keys_of (key docker_id flannel_id) network d.networks },
  )

  next_vni : Act (Driver parts flannels) ℕ
  next_vni d = (some (d.vni_start + DualKeyMap.count d.networks + 1), d)

  unfoldable pub create_network : String → String → Act (Driver parts flannels) Flannel
  unfolding store_network next_vni
  create_network docker_id flannel_id = if flannel_id == "" then fail else (do
    subnet ← on_outside parts flannels (flannels.get_new_or_existing_pool flannel_id)
    vni ← next_vni
    on_outside parts flannels (flannels.init (flannels.new_network flannel_id subnet vni))
    store_network docker_id flannel_id (flannels.new_network flannel_id subnet vni)
    pure (flannels.new_network flannel_id subnet vni))

  -- A nil network is passed on, and panics where it is used; it is an error here.
  or_create :
      String → String → Known × Driver parts flannels → Option Flannel × Driver parts flannels
  unfolding create_network
  or_create docker_id flannel_id (network_known network, d) = (some network, d)
  or_create docker_id flannel_id (network_nil, d) = (none, d)
  or_create docker_id flannel_id (network_unknown, d) = create_network docker_id flannel_id d

  announce_network : String → Flannel → Act (Driver parts flannels) Flannel
  announce_network docker_id network = if docker_id == "" then pure network else (do
    on_world parts flannels (set_flannel_network parts docker_id (flannels.network_of network))
    pure network)

  -- `getOrCreateNetwork`
  unfoldable pub get_or_create_network : String → String → Act (Driver parts flannels) Flannel
  unfolding or_create announce_network get_network
  get_or_create_network docker_id flannel_id = do
    network ← (λ d. or_create docker_id flannel_id (get_network docker_id flannel_id d))
    announce_network docker_id network

  register_other : String → Driver parts flannels → Driver parts flannels
  register_other network_id d = record d { world = register_other_network parts network_id d.world }

  -- One round of `handleNetworksAdded`; an error is logged.
  unfoldable pub handle_network_added : NetworkInfo → Driver parts flannels → Driver parts flannels
  unfolding get_or_create_network register_other is_flannel_network
  handle_network_added n d =
      let d1 = record d { dns_resolver = add_network n d.dns_resolver } in
      if is_flannel_network n
      then (get_or_create_network n.docker_id n.flannel_id d1).1
      else register_other n.docker_id d1

  unfoldable pub handle_networks_added :
      List NetworkInfo → Driver parts flannels → Driver parts flannels
  unfolding handle_network_added
  handle_networks_added [] d = d
  handle_networks_added (n ∷ added) d = handle_networks_added added (handle_network_added n d)

  -- One round of `handleNetworksChanged`: another network is registered under its name.
  unfoldable pub handle_network_changed :
      NetworkInfo → Driver parts flannels → Driver parts flannels
  unfolding get_or_create_network register_other is_flannel_network
  handle_network_changed n d =
      if is_flannel_network n
      then (get_or_create_network n.docker_id n.flannel_id d).1
      else register_other n.name d

  unfoldable pub handle_networks_changed :
      List (NetworkInfo × NetworkInfo) → Driver parts flannels → Driver parts flannels
  unfolding handle_network_changed
  handle_networks_changed [] d = d
  handle_networks_changed ((previous, current) ∷ changed) d =
      handle_networks_changed changed (handle_network_changed current d)

  -- `Delete` of a nil network panics; an error is logged.
  delete_found : Known × Driver parts flannels → Option (Unit {0}) × Driver parts flannels
  delete_found (network_unknown, d) = (some tt, d)
  delete_found (network_nil, d) = (none, d)
  delete_found (network_known network, d) =
      (some tt, (on_outside parts flannels (flannels.delete network) d).1)

  remove_key : NetworkInfo → Driver parts flannels → Driver parts flannels
  remove_key n d = record d {
    networks =
        (DualKeyMap.delete keys_of ⦃ev = flannel_eq⦄ (key n.docker_id n.flannel_id) d.networks).1;
  }

  -- The end of a round of `handleNetworksRemoved`.
  release_removed : NetworkInfo → Act (Driver parts flannels) (Unit {0})
  unfolding remove_key
  release_removed n d =
      (some tt, remove_key n (on_outside parts flannels (flannels.release_pool n.flannel_id) d).1)

  -- One round of `handleNetworksRemoved`: every error is logged, and only a panic ends the loop.
  unfoldable pub handle_network_removed : NetworkInfo → Act (Driver parts flannels) (Unit {0})
  unfolding get_network delete_found release_removed
  handle_network_removed n d =
      let d1 = record d { dns_resolver = remove_network n d.dns_resolver } in
      let d2 = (on_world parts flannels (delete_network parts n.docker_id) d1).1 in
      ((λ d. delete_found (get_network n.docker_id n.flannel_id d)) >> release_removed n) d2

  unfoldable pub handle_networks_removed : List NetworkInfo → Act (Driver parts flannels) (Unit {0})
  unfolding handle_network_removed
  handle_networks_removed = for_each handle_network_removed
