-- ===== src/Driver/Containers/Valid.antt =====
-- Which networks a name server answers for, as plugin/pkg/driver/flannel_driver.go follows the
-- endpoints of its container.
use flannel_network_plugin.Prelude.{
  ◌≡◌, refl, Bool, not, ◌&&◌, ◌||◌, some, List, [], ◌∷◌, String, string_eq, nat_beq_iff, contains,
  ap, ◌∙◌, arith,
}
use flannel_network_plugin.Prelude.Dict.{lookup, keys, is_some, lookup-insert, lookup-remove}
use flannel_network_plugin.Common.Service.{ContainerInfo}
use flannel_network_plugin.Dns.Resolver.{update_container}
use flannel_network_plugin.ServiceLb.Management.{Parts, entries}
use flannel_network_plugin.Driver.{Flannels, NameserverRef}
use flannel_network_plugin.Driver.Containers.{
  D, DockerContainerInfo, leave_networks, join_networks, follow_endpoints, handle_container_changed,
}

module _ (parts : Parts) (flannels : Flannels parts) (n : NameserverRef) (network_id : String) where
  open parts use {texts, lo}

  -- Whether the name server answers for the network.
  abbrev pub is_valid : D parts flannels → Bool
  is_valid d = is_some (lookup network_id (d.valid_network_ids n))

  leave_networks_lem :
      (previous : ContainerInfo texts.Ip) (removed : List String) (d : D parts flannels)
      → is_valid (leave_networks parts flannels n previous removed d)
        ≡ (is_valid d && not (contains network_id removed))
  unfolding leave_networks contains
  leave_networks_lem previous [] d = ground arith
  leave_networks_lem previous (id ∷ removed) d =
      leave_networks_lem previous removed _
      ∙ rw ((nat_beq_iff n n).1 refl, lookup-remove id network_id (d.valid_network_ids n))
          (ground arith)

  join_networks_lem :
      (current : ContainerInfo texts.Ip) (added : List String) (d : D parts flannels)
      → is_valid (join_networks parts flannels n current added d)
        ≡ (is_valid d || contains network_id added)
  unfolding join_networks contains
  join_networks_lem current [] d = ground arith
  join_networks_lem current (id ∷ added) d =
      join_networks_lem current added _
      ∙ rw ((nat_beq_iff n n).1 refl, lookup-insert id network_id tt (d.valid_network_ids n))
          (ground arith)

  follow_endpoints_lem :
      (previous current : ContainerInfo texts.Ip) (d : D parts flannels)
      → is_valid d ≡ contains network_id (keys (entries previous.endpoints))
      → is_valid (follow_endpoints parts flannels (some n) previous current d)
        ≡ contains network_id (keys (entries current.endpoints))
  unfolding follow_endpoints
  follow_endpoints_lem previous current d before =
      join_networks_lem current added (leave_networks parts flannels n previous removed d)
      ∙ ap (λ b. b || contains network_id added) (leave_networks_lem previous removed d)
      ∙ table (is_valid d) (contains network_id (keys (entries previous.endpoints)))
          (contains network_id (keys (entries current.endpoints))) (contains network_id removed)
          (contains network_id added) before
          (lo.difference_left network_id (keys (entries previous.endpoints))
            (keys (entries current.endpoints)))
          (lo.difference_right network_id (keys (entries previous.endpoints))
            (keys (entries current.endpoints)))
    where
      removed : List String
      removed =
          (lo.difference (keys (entries previous.endpoints)) (keys (entries current.endpoints))).0

      added : List String
      added =
          (lo.difference (keys (entries previous.endpoints)) (keys (entries current.endpoints))).1

      table :
          (v p c r a : Bool) → v ≡ p → r ≡ (p && not c) → a ≡ (c && not p) → ((v && not r) || a) ≡ c
      table v p c r a e f g = ground arith

  -- If the name server of a container answers for exactly the networks in which the container has
  -- had endpoints, then after a change it answers for exactly those in which it has endpoints now.
  pub handle_container_changed_lem :
      (previous current : DockerContainerInfo texts.Ip) (d : D parts flannels)
      → lookup current.container.sandbox_key d.nameservers_by_sandbox_key ≡ some n
      → is_valid d ≡ contains network_id (keys (entries previous.container.endpoints))
      → is_valid (handle_container_changed parts flannels previous current d)
        ≡ contains network_id (keys (entries current.container.endpoints))
  unfolding handle_container_changed
  handle_container_changed_lem previous current d known before = rw (known) (
      follow_endpoints_lem previous.container current.container
        (record d { dns_resolver = update_container lo current.container d.dns_resolver }) before)
