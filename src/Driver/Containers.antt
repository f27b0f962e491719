-- ===== src/Driver/Containers.antt =====
-- plugin/pkg/driver/flannel_driver.go: containers that are added, changed and removed. How a name
-- server is activated and deactivated in its namespace is left out.
pub mod Valid
use flannel_network_plugin.Prelude.{
  ℕ, Bool, true, false, not, Option, none, some, Eq, List, [], ◌∷◌, ◌++◌, String, string_eq, nat_eq,
  ◌==◌, if◌then◌else◌,
}
use flannel_network_plugin.Prelude.Dict.{Dict, lookup, insert, remove, keys}
use flannel_network_plugin.Common.DualKeyMap
use flannel_network_plugin.Common.DualKeyMap.{DualKeyMap, Reply, found, missing, conflict}
use flannel_network_plugin.Common.Service.{
  ContainerInfo, calls_add_container, calls_remove_container,
}
use flannel_network_plugin.Dns.Resolver.{add_container, remove_container, update_container}
use flannel_network_plugin.ServiceLb.Management.{Parts, entries, ips_equal, set_at}
use flannel_network_plugin.Driver.{
  keys_of, Flannels, Driver, NameserverRef, on_outside, call_service, get_or_add_service,
}
use flannel_network_plugin.Driver.Networks.{key}

-- `docker.ContainerInfo`
pub record DockerContainerInfo (Ip : Type 0) : Type 0 where
  pub container : ContainerInfo Ip
  pub ipam_ips : Dict String Ip

module _ (parts : Parts) (flannels : Flannels parts) where
  open parts use {texts, lo, ip_eq}
  open flannels use {Flannel, flannel_eq}

  abbrev D : Type 0
  D = Driver parts flannels

  -- An address of IPAM that the container does not use goes back to the pool, if it is one of this
  -- node; an error is logged.
  release_ipam_ip : Option texts.Ip → texts.Ip → Reply Flannel → D → D
  release_ipam_ip used ipam_ip missing d = d
  release_ipam_ip used ipam_ip conflict d = d
  release_ipam_ip used ipam_ip (found network) d =
      if ips_equal ⦃ip = ip_eq⦄ (some ipam_ip) used
      then d
      else if flannels.host_subnet_contains network ipam_ip
      then (on_outside parts flannels
          (flannels.release_ip_if_reserved network (texts.print_ip ipam_ip)) d).1
      else d

  with_networks : DualKeyMap String String Flannel → D → D
  with_networks networks d = record d { networks = networks }

  unfoldable pub release_ipam_ips : ContainerInfo texts.Ip → Dict String texts.Ip → D → D
  unfolding release_ipam_ip with_networks
  release_ipam_ips container [] d = d
  release_ipam_ips container ((docker_id, ipam_ip) ∷ more) d =
      let (reply, networks) =
        DualKeyMap.get keys_of ⦃ev = flannel_eq⦄ (key docker_id "") d.networks in
      release_ipam_ips container more (
        release_ipam_ip (lookup docker_id (entries container.ips)) ipam_ip reply
          (with_networks networks d))

  add_to_service : ContainerInfo texts.Ip → D → D
  add_to_service container d =
      if container.service_id == ""
      then d
      else (let (s, d1) =
            get_or_add_service parts flannels container.service_id container.service_name d in
          call_service parts flannels s (calls_add_container container) d1)

  -- One round of `handleContainersAdded`.
  unfoldable pub handle_container_added : DockerContainerInfo texts.Ip → D → D
  unfolding release_ipam_ips add_to_service get_or_add_service call_service
  handle_container_added info d = add_to_service info.container (
      release_ipam_ips info.container info.ipam_ips
        (record d { dns_resolver = add_container lo info.container d.dns_resolver }))

  unfoldable pub handle_containers_added : List (DockerContainerInfo texts.Ip) → D → D
  unfolding handle_container_added
  handle_containers_added [] d = d
  handle_containers_added (info ∷ added) d =
      handle_containers_added added (handle_container_added info d)

  -- A key that is missing gives the empty string.
  endpoint_of : String → ContainerInfo texts.Ip → String
  endpoint_of network_id container = elim (lookup network_id (entries container.endpoints)) [
    | none ↦ ""
    | some endpoint_id ↦ endpoint_id
  ]

  -- The networks that the container has left, and those that it has joined.
  unfoldable pub leave_networks : NameserverRef → ContainerInfo texts.Ip → List String → D → D
  unfolding endpoint_of
  leave_networks n previous [] d = d
  leave_networks n previous (network_id ∷ more) d = leave_networks n previous more (record d {
    nameservers_by_endpoint_id =
        remove (endpoint_of network_id previous) d.nameservers_by_endpoint_id;
    valid_network_ids =
        set_at parts n (remove network_id (d.valid_network_ids n)) d.valid_network_ids;
  })

  unfoldable pub join_networks : NameserverRef → ContainerInfo texts.Ip → List String → D → D
  unfolding endpoint_of
  join_networks n current [] d = d
  join_networks n current (network_id ∷ more) d = join_networks n current more (record d {
    nameservers_by_endpoint_id =
        insert (endpoint_of network_id current) n d.nameservers_by_endpoint_id;
    valid_network_ids =
        set_at parts n (insert network_id tt (d.valid_network_ids n)) d.valid_network_ids;
  })

  follow_endpoints : Option NameserverRef → ContainerInfo texts.Ip → ContainerInfo texts.Ip → D → D
  unfolding leave_networks join_networks
  follow_endpoints none previous current d = d
  follow_endpoints (some n) previous current d =
      let (removed, added) =
        lo.difference (keys (entries previous.endpoints)) (keys (entries current.endpoints)) in
      join_networks n current added (leave_networks n previous removed d)

  -- One round of `handleContainersChanged`.
  unfoldable pub handle_container_changed :
      DockerContainerInfo texts.Ip → DockerContainerInfo texts.Ip → D → D
  unfolding follow_endpoints
  handle_container_changed previous current d =
      follow_endpoints (lookup current.container.sandbox_key d.nameservers_by_sandbox_key)
        previous.container current.container
        (record d { dns_resolver = update_container lo current.container d.dns_resolver })

  unfoldable pub handle_containers_changed :
      List (DockerContainerInfo texts.Ip × DockerContainerInfo texts.Ip) → D → D
  unfolding handle_container_changed
  handle_containers_changed [] d = d
  handle_containers_changed ((previous, current) ∷ changed) d =
      handle_containers_changed changed (handle_container_changed previous current d)

  remove_from_service : ContainerInfo texts.Ip → D → D
  remove_from_service container d = elim (lookup container.service_id d.services) [
    | none ↦ d
    | some s ↦ call_service parts flannels s (calls_remove_container container.id) d
  ]

  deactivate : String → D → D
  deactivate sandbox_key d = elim (lookup sandbox_key d.nameservers_by_sandbox_key) [
    | none ↦ d
    | some n ↦ record d {
      nameservers_by_sandbox_key = remove sandbox_key d.nameservers_by_sandbox_key;
      deactivated = d.deactivated ++ (n ∷ []);
    }
  ]

  -- One round of `handleContainersRemoved`.
  unfoldable pub handle_container_removed : DockerContainerInfo texts.Ip → D → D
  unfolding remove_from_service deactivate call_service
  handle_container_removed info d = deactivate info.container.sandbox_key (
      remove_from_service info.container
        (record d { dns_resolver = remove_container lo info.container d.dns_resolver }))

  unfoldable pub handle_containers_removed : List (DockerContainerInfo texts.Ip) → D → D
  unfolding handle_container_removed
  handle_containers_removed [] d = d
  handle_containers_removed (info ∷ removed) d =
      handle_containers_removed removed (handle_container_removed info d)
