-- ===== src/ServiceLb/Management/Subscriptions.antt =====
-- plugin/pkg/service_lb/service_lbs_management.go: `CreateLoadBalancer`, and the functions that it
-- subscribes to the events of a service.
pub mod Handlers
use flannel_network_plugin.Prelude.{
  Bool, true, false, ◌||◌, Option, none, some, List, [], ◌∷◌, String, string_eq, ◌==◌,
  if◌then◌else◌, nat_eq,
}
use flannel_network_plugin.Prelude.Dict.{Dict, insert}
use flannel_network_plugin.Common.Act.{Act}
use flannel_network_plugin.Common.Event.{EventSource, subscribe}
use flannel_network_plugin.Common.Service.{ContainerInfo, mode_vip, mode_dnsrr}
use flannel_network_plugin.ServiceLb.Management.{
  Parts, World, ServiceRef, ServiceEvents, Unsubscriber, Handler, updates_balancers, adds_backends,
  removes_backends, switches_mode, set_at,
}
use flannel_network_plugin.ServiceLb.Management.Backends.{add_backend_ips, remove_backend_ips}
use flannel_network_plugin.ServiceLb.Management.Creation.{create_or_update}
use flannel_network_plugin.ServiceLb.Management.Deletion.{delete_load_balancer}

-- The subscriptions to the events of a service.
unfoldable pub subscribe_to : ServiceRef → ServiceEvents → Unsubscriber × ServiceEvents
subscribe_to ref events =
    let (networks_id, networks) = subscribe (updates_balancers ref) events.on_networks_changed in
    let (added_id, added) = subscribe (adds_backends ref) events.on_container_added in
    let (removed_id, removed) = subscribe (removes_backends ref) events.on_container_removed in
    (
      record {
        service = ref;
        networks_changed_id = networks_id;
        container_added_id = added_id;
        container_removed_id = removed_id;
      },
      record {
        on_networks_changed = networks;
        on_container_added = added;
        on_container_removed = removed;
        on_endpoint_mode_changed =
            (subscribe (switches_mode ref) events.on_endpoint_mode_changed).1;
      },
    )

module _ (parts : Parts) where
  open parts use {texts}

  -- `servicesEventsUnsubscribers.Set` keeps three of the four subscriptions.
  unfoldable pub subscribe_all : ServiceRef → World parts → World parts
  unfolding subscribe_to
  subscribe_all ref w =
      let (u, events) = subscribe_to ref (w.events ref) in
      record w {
        services_events_unsubscribers = insert (w.objects ref).id u w.services_events_unsubscribers;
        events = set_at parts ref events w.events;
      }

  on_created :
      ServiceRef
      → Option (Option (Unit {0}) × World parts)
      → Option (Option (Unit {0}) × World parts)
  unfolding subscribe_all
  on_created ref none = none
  on_created ref (some (none, w)) = some (none, w)
  on_created ref (some (some done, w)) = some (some done, subscribe_all ref w)

  -- `CreateLoadBalancer`; no result if it still waits for a network.
  unfoldable pub create_load_balancer :
      ServiceRef
      → List (World parts → World parts)
      → World parts
      → Option (Option (Unit {0}) × World parts)
  unfolding on_created create_or_update
  create_load_balancer ref meanwhile w = on_created ref (create_or_update parts ref meanwhile w)

  -- The functions that are subscribed: a change of the networks or of the endpoint mode, for the
  -- service that the event carries, and a container that comes or goes.
  unfoldable pub on_networks_changed :
      ServiceRef
      → List (World parts → World parts)
      → World parts
      → Option (Option (Unit {0}) × World parts)
  unfolding create_or_update
  on_networks_changed s meanwhile w = create_or_update parts s meanwhile w

  unfoldable pub on_container_added :
      ServiceRef → ContainerInfo texts.Ip → World parts → World parts
  unfolding add_backend_ips
  on_container_added service container w =
      (add_backend_ips parts (w.objects service).id container.ips w).1

  unfoldable pub on_container_removed :
      ServiceRef → ContainerInfo texts.Ip → World parts → World parts
  unfolding remove_backend_ips
  on_container_removed service container w =
      (remove_backend_ips parts (w.objects service).id container.ips w).1

  unfoldable pub on_endpoint_mode_changed :
      ServiceRef
      → List (World parts → World parts)
      → World parts
      → Option (Option (Unit {0}) × World parts)
  unfolding delete_load_balancer create_load_balancer
  on_endpoint_mode_changed s meanwhile w =
      if (w.objects s).endpoint_mode == mode_dnsrr
      then some (delete_load_balancer parts (w.objects s).id w)
      else if (w.objects s).endpoint_mode == mode_vip
      then create_load_balancer s meanwhile w
      else some (some tt, w)
