-- ===== src/ServiceLb/Management/Subscriptions/Handlers.antt =====
-- The handlers that plugin/pkg/service_lb/service_lbs_management.go leaves on a service object.
use flannel_network_plugin.Prelude.{
  ℕ, ◌+◌, ◌≡◌, refl, none, [], ◌∷◌, String, string_eq, nat_eq, nat_beq_iff, length, arith,
}
use flannel_network_plugin.Prelude.Dict.{Dict, lookup, insert, values}
use flannel_network_plugin.Common.Event.{subscribe, raise_event}
use flannel_network_plugin.ServiceLb.Management.{Parts, World, ServiceRef, switches_mode}
use flannel_network_plugin.ServiceLb.Management.Deletion.{delete_load_balancer}
use flannel_network_plugin.ServiceLb.Management.Deletion.Twice.{
  on_endpoint_mode_changed-delete_load_balancer,
}
use flannel_network_plugin.ServiceLb.Management.Subscriptions.{subscribe_to, subscribe_all}

length-insert :
    {V : Type 0} (k : ℕ) (v : V) (m : Dict ℕ V)
    → lookup k m ≡ none
    → length (values (insert k v m)) ≡ length (values m) + 1
unfolding lookup insert
length-insert k v [] fresh = refl
length-insert k v ((j, w) ∷ m) fresh = ground (arith, fresh, length-insert k v m)

module _ (parts : Parts) where
  -- The subscriptions at the end of `CreateLoadBalancer`, made after a deletion of load balancers,
  -- leave one more handler of changes of the endpoint mode than before the deletion, where the
  -- number of the new subscription is free.
  pub handlers-subscribe_all-delete_load_balancer :
      (service_id : String) (ref : ServiceRef) (w : World parts)
      → lookup
          (w.events ref).on_endpoint_mode_changed.next_id
          (w.events ref).on_endpoint_mode_changed.handlers
        ≡ none
      → let w1 = (delete_load_balancer parts service_id w).1 in
        length (raise_event ((subscribe_all parts ref w1).events ref).on_endpoint_mode_changed)
        ≡ length (raise_event (w.events ref).on_endpoint_mode_changed) + 1
  unfolding raise_event subscribe_all subscribe_to subscribe
  handlers-subscribe_all-delete_load_balancer service_id ref w fresh =
      rw
        (
          (nat_beq_iff ref ref).1 refl,
          on_endpoint_mode_changed-delete_load_balancer parts service_id ref w,
        )
        (length-insert (w.events ref).on_endpoint_mode_changed.next_id (switches_mode ref)
          (w.events ref).on_endpoint_mode_changed.handlers fresh)
