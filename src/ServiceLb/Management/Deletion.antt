-- ===== src/ServiceLb/Management/Deletion.antt =====
-- plugin/pkg/service_lb/service_lbs_management.go: `DeleteLoadBalancer`.
pub mod Twice
use flannel_network_plugin.Prelude.{Option, none, some, List, [], ◌∷◌, String, string_eq, nat_eq}
use flannel_network_plugin.Prelude.Dict.{Dict, lookup, remove}
use flannel_network_plugin.Common.Act.{Act, ◌>>=◌, ◌>>◌, for_each}
use flannel_network_plugin.Common.Event.{unsubscribe}
use flannel_network_plugin.Common.Service.{Service}
use flannel_network_plugin.ServiceLb.Management.{
  Parts, World, ServiceRef, ServiceEvents, Unsubscriber, set_at,
}
use flannel_network_plugin.ServiceLb.Management.Creation.{Balancer, delete_for_network, forget_vips}

-- The three unsubscribing functions that `CreateLoadBalancer` keeps.
unfoldable pub unsubscribe_from : Unsubscriber → ServiceEvents → ServiceEvents
unsubscribe_from u events = record events {
  on_networks_changed = unsubscribe u.networks_changed_id events.on_networks_changed;
  on_container_added = unsubscribe u.container_added_id events.on_container_added;
  on_container_removed = unsubscribe u.container_removed_id events.on_container_removed;
}

module _ (parts : Parts) where
  open parts use {texts}

  -- A service without an unsubscriber is only logged.
  unfoldable pub run_unsubscriber : String → World parts → World parts
  unfolding unsubscribe_from
  run_unsubscriber service_id w = elim (lookup service_id w.services_events_unsubscribers) [
    | none ↦ w
    | some u ↦ record w {
      services_events_unsubscribers = remove service_id w.services_events_unsubscribers;
      events = set_at parts u.service (unsubscribe_from u (w.events u.service)) w.events;
    }
  ]

  -- What is left to do for the load balancers that have been taken out of the map.
  unfoldable pub delete_balancers :
      String → Dict String (Balancer parts) → Service texts.Ip → Act (World parts) (Unit {0})
  unfolding delete_for_network forget_vips
  delete_balancers service_id lbs info = do
    for_each (λ entry. delete_for_network parts info entry.0 entry.1) lbs
    forget_vips parts service_id

  unfoldable pub delete_service :
      String → Dict String (Balancer parts) → Act (World parts) (Unit {0})
  unfolding delete_balancers
  delete_service service_id lbs w = elim (lookup service_id w.services) [
    | none ↦ (none, w)
    | some ref ↦
        delete_balancers service_id lbs (w.objects ref)
          (record w { services = remove service_id w.services })
  ]

  -- `DeleteLoadBalancer`
  unfoldable pub delete_load_balancer : String → Act (World parts) (Unit {0})
  unfolding run_unsubscriber delete_service
  delete_load_balancer service_id w = elim (lookup service_id w.load_balancers) [
    | none ↦ (none, w)
    | some lbs ↦ delete_service service_id lbs (
        run_unsubscriber service_id
          (record w { load_balancers = remove service_id w.load_balancers }))
  ]
