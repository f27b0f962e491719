-- ===== src/Driver/Services.antt =====
-- plugin/pkg/driver/flannel_driver.go: services that are added, changed and removed.
mod Objects
pub mod Owned
pub mod Followed
use flannel_network_plugin.Prelude.{
  Option, none, some, List, [], ◌∷◌, String, string_eq, ◌==◌, if◌then◌else◌,
}
use flannel_network_plugin.Prelude.Dict.{Dict, lookup, remove}
use flannel_network_plugin.Common.Service.{calls_set_networks, calls_set_endpoint_mode, mode_vip}
use flannel_network_plugin.Dns.Resolver.{remove_service}
use flannel_network_plugin.ServiceLb.Management.{Parts, ServiceRef}
use flannel_network_plugin.ServiceLb.Management.Deletion.{delete_load_balancer}
use flannel_network_plugin.Driver.{Flannels, Driver, on_world, call_service, get_or_add_service}

-- `docker.ServiceInfo`
pub record ServiceInfo (Ip : Type 0) : Type 0 where
  pub id : String
  pub name : String
  pub endpoint_mode : String
  pub networks : List String
  pub ipam_vips : Option (Dict String Ip)

module _ (parts : Parts) (flannels : Flannels parts) where
  open parts use {texts}

  unfoldable pub update_service :
      ServiceInfo texts.Ip → ServiceRef × Driver parts flannels → Driver parts flannels
  update_service info (s, d) =
      call_service parts flannels s (calls_set_networks info.networks info.ipam_vips)
        (call_service parts flannels s (calls_set_endpoint_mode info.endpoint_mode) d)

  -- One round of `handleServicesAdded`, and of `handleServicesChanged`.
  unfoldable pub handle_service :
      ServiceInfo texts.Ip → Driver parts flannels → Driver parts flannels
  unfolding update_service get_or_add_service call_service
  handle_service info d =
      update_service info (get_or_add_service parts flannels info.id info.name d)

  unfoldable pub handle_services_added :
      List (ServiceInfo texts.Ip) → Driver parts flannels → Driver parts flannels
  unfolding handle_service
  handle_services_added [] d = d
  handle_services_added (info ∷ added) d = handle_services_added added (handle_service info d)

  unfoldable pub handle_services_changed :
      List (ServiceInfo texts.Ip × ServiceInfo texts.Ip)
      → Driver parts flannels
      → Driver parts flannels
  unfolding handle_service
  handle_services_changed [] d = d
  handle_services_changed ((previous, current) ∷ changed) d =
      handle_services_changed changed (handle_service current d)

  delete_balancers : ServiceInfo texts.Ip → Driver parts flannels → Driver parts flannels
  delete_balancers info d =
      if info.endpoint_mode == mode_vip
      then (on_world parts flannels (delete_load_balancer parts info.id) d).1
      else d

  forget_name : ServiceRef → Driver parts flannels → Driver parts flannels
  forget_name s d = record d { dns_resolver = remove_service d.world.objects s d.dns_resolver }

  -- One round of `handleServicesRemoved`; an error of the load balancers is logged.
  unfoldable pub handle_service_removed :
      ServiceInfo texts.Ip → Driver parts flannels → Driver parts flannels
  unfolding delete_balancers forget_name
  handle_service_removed info d = elim (lookup info.id d.services) [
    | none ↦ d
    | some s ↦
        forget_name s (delete_balancers info (record d { services = remove info.id d.services }))
  ]

  unfoldable pub handle_services_removed :
      List (ServiceInfo texts.Ip) → Driver parts flannels → Driver parts flannels
  unfolding handle_service_removed
  handle_services_removed [] d = d
  handle_services_removed (info ∷ removed) d =
      handle_services_removed removed (handle_service_removed info d)
