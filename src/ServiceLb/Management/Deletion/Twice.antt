-- ===== src/ServiceLb/Management/Deletion/Twice.antt =====
-- What `DeleteLoadBalancer` of plugin/pkg/service_lb/service_lbs_management.go leaves behind, whether
-- it fails or not.
use flannel_network_plugin.Prelude.{
  ◌≡◌, refl, Bool, Option, none, some, List, String, string_eq, ==_refl, inl, inr, Option-cases,
  if◌then◌else◌, nat_beq, true, false, nat_beq_iff, ap, ◌∙◌,
}
use flannel_network_plugin.Prelude.Dict.{Dict, lookup, remove, lookup-remove}
use flannel_network_plugin.Common.Act.{Act, ◌>>◌, for_each, Keeps, >>=-Keeps, for_each-Keeps}
use flannel_network_plugin.Common.Event.{EventSource}
use flannel_network_plugin.Common.Result.{Result, ok, err}
use flannel_network_plugin.Common.Service.{Service}
use flannel_network_plugin.Etcd.Store.{StoreBase}
use flannel_network_plugin.Etcd.Store.Notices.{Notice}
use flannel_network_plugin.Etcd.Connection.{StoreError}
use flannel_network_plugin.Etcd.WriteOnly.{delete_item}
use flannel_network_plugin.ServiceLb.Fwmarks.{release_mark, MarkError}
use flannel_network_plugin.ServiceLb.Balancer.{Balancing, delete}
use flannel_network_plugin.ServiceLb.Management.{
  Parts, World, Network, ServiceRef, ServiceEvents, Unsubscriber, Handler, LoadBalancerData, set_at,
  on_removed, in_removed, on_pools, in_pools, on_db, in_db,
}
use flannel_network_plugin.ServiceLb.Management.Creation.{
  Balancer, delete_for_network, forget_vips, release_vip, in_store, released, no_handlers,
}
use flannel_network_plugin.ServiceLb.Management.Deletion.{
  unsubscribe_from, run_unsubscriber, delete_balancers, delete_service, delete_load_balancer,
}

module _ (parts : Parts) (service_id : String) (ref : ServiceRef)
    (modes : EventSource Handler) where
  open parts use {etcd, texts, host, marks, lo, pools, fwmarks_client}

  -- The service has no load balancers, and its object has these handlers of endpoint modes.
  abbrev pub Forgotten : World parts → Type 0
  Forgotten w =
      (lookup service_id w.load_balancers ≡ none)
      × ((w.events ref).on_endpoint_mode_changed ≡ modes)

  on_removed-Keeps :
      {A : Type 0} (lb : Balancer parts) (m : Act (Balancing host texts marks) A)
      → Keeps Forgotten (on_removed parts lb m)
  unfolding on_removed in_removed
  on_removed-Keeps lb m w h = h

  on_pools-Keeps : {A : Type 0} (m : Act (pools.P × etcd.Db) A) → Keeps Forgotten (on_pools parts m)
  unfolding on_pools in_pools
  on_pools-Keeps m w h = h

  on_db-Keeps :
      {E A : Type 0} (m : etcd.Db → Result E A × etcd.Db) → Keeps Forgotten (on_db parts m)
  unfolding on_db in_db
  on_db-Keeps {E} {A} m w h = go (m w.db)
    where
      go : (r : Result E A × etcd.Db) → Forgotten (in_db parts w r).1
      go (ok a, db) = h
      go (err e, db) = h

  release_vip-Keeps :
      (info : Service texts.Ip) (network_id : String) (ip : Option texts.Ip)
      → Keeps Forgotten (release_vip parts info network_id ip)
  unfolding release_vip
  release_vip-Keeps info network_id none w h = h
  release_vip-Keeps info network_id (some ip) w h = go _ (lookup network_id w.flannel_networks)
    where
      go :
          (same : Bool) (network : Option Network)
          → Forgotten
              (if◌then◌else◌ {A = Option (Unit {0}) × World parts} same
                ((some tt, w))
                (elim network [
                  | none ↦ (none, w)
                  | some network ↦ on_pools parts (pools.release_ip network (texts.print_ip ip)) w
                ])).1
      go true network = h
      go false none = h
      go false (some network) = on_pools-Keeps (pools.release_ip network (texts.print_ip ip)) w h

  delete_for_network-Keeps :
      (info : Service texts.Ip) (network_id : String) (lb : Balancer parts)
      → Keeps Forgotten (delete_for_network parts info network_id lb)
  unfolding delete_for_network
  delete_for_network-Keeps info network_id lb =
      >>=-Keeps Forgotten (on_removed parts lb drop) (λ _. release >> forget)
        (on_removed-Keeps lb drop)
        (λ _.
          >>=-Keeps Forgotten release (λ _. forget)
            (release_vip-Keeps info network_id lb.frontend_ip) (λ _. on_db-Keeps released_mark))
    where
      drop : Act (Balancing host texts marks) (Unit {0})
      drop = delete host texts marks ⦃ip_eq = parts.ip_eq⦄ lo

      release : Act (World parts) (Unit {0})
      release = release_vip parts info network_id lb.frontend_ip

      released_mark : etcd.Db → Result MarkError (Unit {0}) × etcd.Db
      released_mark db =
          released parts (release_mark etcd marks fwmarks_client info.id network_id lb.fwmark db)

      forget : Act (World parts) (Unit {0})
      forget = on_db parts released_mark

  forget_vips-Keeps : Keeps Forgotten (forget_vips parts service_id)
  unfolding forget_vips in_store
  forget_vips-Keeps w h = go (
      delete_item etcd parts.codec parts.data_client no_handlers service_id w.load_balancers_data
        w.db)
    where
      go :
          (r : Result StoreError (List (Notice (LoadBalancerData texts.Ip)))
            × StoreBase (LoadBalancerData texts.Ip)
            × etcd.Db)
          → Forgotten (in_store parts w r).1
      go (ok calls, s, db) = h
      go (err e, s, db) = h

  delete_service-Keeps :
      (lbs : Dict String (Balancer parts)) → Keeps Forgotten (delete_service parts service_id lbs)
  unfolding delete_service delete_balancers
  delete_service-Keeps lbs w h = go (lookup service_id w.services)
    where
      go :
          (found : Option ServiceRef)
          → Forgotten
              (elim found as (λ _. Option (Unit {0}) × World parts) [
                | none ↦ (none, w)
                | some ref ↦
                    delete_balancers parts service_id lbs
                      (w.objects ref)
                      (record w { services = remove service_id w.services })
              ]).1
      go none = h
      go (some object) =
          >>=-Keeps Forgotten
            (for_each (λ entry. delete_for_network parts (w.objects object) entry.0 entry.1) lbs)
            (λ _. forget_vips parts service_id)
            (for_each-Keeps Forgotten _ lbs
              (λ entry. delete_for_network-Keeps (w.objects object) entry.0 entry.1))
            (λ _. forget_vips-Keeps) (record w { services = remove service_id w.services }) h

  run_unsubscriber-Forgotten :
      (w : World parts) → Forgotten w → Forgotten (run_unsubscriber parts service_id w)
  unfolding run_unsubscriber unsubscribe_from
  run_unsubscriber-Forgotten w h = go (lookup service_id w.services_events_unsubscribers)
    where
      modes_of : ServiceEvents → EventSource Handler
      modes_of events = events.on_endpoint_mode_changed

      mode_kept :
          (u : Unsubscriber) (same : Bool)
          → nat_beq u.service ref ≡ same
          → modes_of (if same then unsubscribe_from u (w.events u.service) else w.events ref)
            ≡ modes
      mode_kept u true e =
          ap (λ object. modes_of (w.events object)) ((nat_beq_iff u.service ref).0 e) ∙ h.1
      mode_kept u false e = h.1

      go :
          (found : Option Unsubscriber)
          → Forgotten (elim found [
            | none ↦ w
            | some u ↦ record w {
              services_events_unsubscribers = remove service_id w.services_events_unsubscribers;
              events = set_at parts u.service (unsubscribe_from u (w.events u.service)) w.events;
            }
          ])
      go none = h
      go (some u) = (h.0, mode_kept u (nat_beq u.service ref) refl)

module _ (parts : Parts) (service_id : String) where
  -- Whether a deletion succeeds or fails, the service has no load balancers after it.
  forgotten :
      (ref : ServiceRef) (w : World parts)
      → Forgotten parts service_id ref
          (w.events ref).on_endpoint_mode_changed
          (delete_load_balancer parts service_id w).1
  unfolding delete_load_balancer
  forgotten ref w = elim (Option-cases (lookup service_id w.load_balancers)) [
    | inl gone ↦ rw (gone, delete_load_balancer) (gone, refl)
    | inr (lbs, there) ↦
        rw (there, delete_load_balancer)
          (delete_service-Keeps parts service_id ref (w.events ref).on_endpoint_mode_changed lbs
            (run_unsubscriber parts service_id (taken_out w))
            (run_unsubscriber-Forgotten parts service_id ref (w.events ref).on_endpoint_mode_changed
              (taken_out w)
              (
                lookup-remove service_id service_id w.load_balancers ∙ rw (==_refl service_id) refl,
                refl,
              )))
  ]
    where
      taken_out : World parts → World parts
      taken_out w = record w { load_balancers = remove service_id w.load_balancers }

  -- A deletion that is repeated fails and changes nothing, however the first one ended.
  pub delete_load_balancer-delete_load_balancer :
      (w : World parts)
      → let w1 = (delete_load_balancer parts service_id w).1 in
        delete_load_balancer parts service_id w1 ≡ (none, w1)
  unfolding delete_load_balancer
  delete_load_balancer-delete_load_balancer w =
      no_balancers (delete_load_balancer parts service_id w).1 (forgotten 0 w).0
    where
      no_balancers :
          (w1 : World parts)
          → lookup service_id w1.load_balancers ≡ none
          → delete_load_balancer parts service_id w1 ≡ (none, w1)
      no_balancers w1 gone = rw (delete_load_balancer, gone) refl

  -- No deletion ends the subscription to changes of the endpoint mode: the handlers of every
  -- service object stay, whether the deletion succeeds or fails.
  pub on_endpoint_mode_changed-delete_load_balancer :
      (ref : ServiceRef) (w : World parts)
      → ((delete_load_balancer parts service_id w).1.events ref).on_endpoint_mode_changed
        ≡ (w.events ref).on_endpoint_mode_changed
  on_endpoint_mode_changed-delete_load_balancer ref w = (forgotten ref w).1
