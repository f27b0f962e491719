-- ===== src/ServiceLb/Management/Creation/Listening.antt =====
-- On which addresses the interfaces listen after `createOrUpdateLoadBalancer` of
-- plugin/pkg/service_lb/service_lbs_management.go: the part that holds the lock.
use mathlib.Core.Path.{subst}
use flannel_network_plugin.Prelude.{
  ◌≡◌, refl, sym, ap, ◌∙◌, Bool, true, false, not, ◌&&◌, ◌||◌, contains, List, [], String,
  string_eq, some,
}
use flannel_network_plugin.Prelude.Dict.{Dict, lookup, keys, is_some}
use flannel_network_plugin.Common.Act.{
  Outcome, Ensures, >>=-Ensures, both-Ensures, for_each, on_success,
}
use flannel_network_plugin.Common.Result.{Result, ok, err}
use flannel_network_plugin.Common.Service.{Service}
use flannel_network_plugin.Etcd.Store.{StoreBase}
use flannel_network_plugin.Etcd.Store.Notices.{Notice}
use flannel_network_plugin.Etcd.Connection.{StoreError}
use flannel_network_plugin.Etcd.WriteOnly.{add_or_update_item}
use flannel_network_plugin.Networking.Interfaces.Addresses.{HasAddresses}
use flannel_network_plugin.ServiceLb.Management.{
  Parts, World, ServiceRef, LoadBalancerData, entries, balancers_of,
}
use flannel_network_plugin.ServiceLb.Management.Creation.{
  begin, vips_for, in_store, store_vips, announce, finish, locked, create_or_update_locked,
  existing_vips, no_handlers, ensure_network, drop_network,
}
use flannel_network_plugin.ServiceLb.Management.Creation.Loops.{
  HasLb, ensure_networks-HasLb, drop_networks-HasLb,
}
use flannel_network_plugin.ServiceLb.Management.Creation.Networks.{begin-balancers_of}
use flannel_network_plugin.ServiceLb.Management.Creation.Devices.{
  Named, ensure_networks-Named, drop_networks-Named,
}
use flannel_network_plugin.ServiceLb.Management.Creation.Heard.{
  Heard, IsHeard, IsApart, vips_for-Heard,
}

module _ (parts : Parts) (addresses : HasAddresses parts.host parts.texts) (ref : ServiceRef)
    (info : Service parts.texts.Ip) (others : Dict String (Unit {0})) (network_id : String)
    (flannel : is_some (lookup network_id others) ≡ false)
    (has_vip : is_some (lookup network_id (entries info.ipam_vips)) ≡ true) where
  open parts use {etcd, texts, lo}

  abbrev Gathered : Bool → World parts → Type 0
  Gathered = Heard parts addresses info others [] network_id flannel

  store_vips-Heard :
      (vips : Dict String texts.Ip)
      → Ensures (Gathered true) (store_vips parts info.id vips) (λ _. Gathered true)
  unfolding store_vips in_store balancers_of
  store_vips-Heard vips w h = go (
      add_or_update_item etcd parts.codec parts.data_client no_handlers info.id
        (record { frontend_ips = vips }) w.load_balancers_data w.db)
    where
      go :
          (r : Result StoreError (List (Notice (LoadBalancerData texts.Ip)))
            × StoreBase (LoadBalancerData texts.Ip)
            × etcd.Db)
          → Outcome (λ _. Gathered true) (in_store parts w r)
      go (err e, s, db) = tt
      go (ok calls, s, db) = h

  announce-Heard :
      (vips : Dict String texts.Ip) (w : World parts)
      → Gathered true w
      → Gathered true (announce parts ref vips w)
  unfolding announce balancers_of
  announce-Heard vips w h = h

  abbrev Begun : World parts → Type 0
  Begun w = (w.other_networks ≡ others) × Named parts addresses info w

  finish-Heard :
      IsApart parts network_id (entries info.ipam_vips)
      → Ensures Begun (finish parts ref info) (λ _. Gathered true)
  unfolding finish
  finish-Heard apart w h =
      >>=-Ensures Begun (λ _. Gathered true) (λ _. Gathered true) _ _ gathers
        (λ vips.
          >>=-Ensures (Gathered true) (λ _. Gathered true) (λ _. Gathered true) _ _
            (store_vips-Heard vips) (λ _ w h. announce-Heard vips w h))
        w h
    where
      gathers :
          Ensures Begun
            (vips_for parts info (existing_vips parts info.id w) (entries info.ipam_vips) [])
            (λ _. Gathered true)
      gathers s begun =
          subst
            (λ b.
              Outcome (λ _. Gathered b)
                (vips_for parts info (existing_vips parts info.id w) (entries info.ipam_vips) [] s))
            has_vip
            (vips_for-Heard parts addresses info others (existing_vips parts info.id w) network_id
              flannel (entries info.ipam_vips) [] false apart s (begun.0, begun.1, λ never. cc))

  -- What the loops over the networks leave alone.
  abbrev K : Dict String (Unit {0}) → StoreBase (LoadBalancerData texts.Ip) → Type 0
  K known stored = known ≡ others

  locked-Heard :
      IsApart parts network_id (entries info.ipam_vips)
      → (w : World parts) → Begun w
      → Outcome (λ _. Gathered true) (locked parts ref info w)
  unfolding locked
  locked-Heard apart w h =
      >>=-Ensures (Both (here w)) (λ _. Both ensured) (λ _. Gathered true) _ _
        (both-Ensures (Has (here w)) Names (λ _. Has ensured) (λ _. Names)
          (for_each (ensure_network parts info) info.networks)
          (ensure_networks-HasLb parts w.flannel_networks info network_id K info.networks (here w))
          (ensure_networks-Named parts addresses info info.networks))
        (λ _.
          >>=-Ensures (Both ensured) (λ _. Both (ensured && not (contains network_id deleted)))
            (λ _. Gathered true) _ _
            (both-Ensures (Has ensured) Names
              (λ _. Has (ensured && not (contains network_id deleted))) (λ _. Names)
              (for_each (drop_network parts info) deleted)
              (drop_networks-HasLb parts w.flannel_networks info network_id K deleted ensured)
              (drop_networks-Named parts addresses info deleted))
            (λ _ w1 h1. finish-Heard apart w1 (h1.0.1.1, h1.1)))
        w ((refl, (refl, h.0)), h.1)
    where
      Has : Bool → World parts → Type 0
      Has = HasLb parts w.flannel_networks info network_id K

      Names : World parts → Type 0
      Names = Named parts addresses info

      Both : Bool → World parts → Type 0
      Both b v = Has b v × Names v

      here : World parts → Bool
      here w = is_some (lookup network_id (balancers_of parts info.id w))

      ensured : Bool
      ensured =
          here w
          || (contains network_id info.networks && is_some (lookup network_id w.flannel_networks))

      deleted : List String
      deleted = (lo.difference (keys (balancers_of parts info.id w)) info.networks).0

-- After an update that succeeds, the interface of a flannel network in which the service has an
-- IPAM VIP has the frontend address of the network's load balancer.
pub create_or_update_locked-IsHeard :
    (parts : Parts) (addresses : HasAddresses parts.host parts.texts) (ref : ServiceRef)
    (info : Service parts.texts.Ip) (network_id : String) (w : World parts)
    (flannel : is_some (lookup network_id w.other_networks) ≡ false)
    → is_some (lookup network_id (entries info.ipam_vips)) ≡ true
    → IsApart parts network_id (entries info.ipam_vips)
    → Named parts addresses info w
    → (create_or_update_locked parts ref info w).0 ≡ some tt
    → IsHeard parts addresses info network_id (create_or_update_locked parts ref info w).1
unfolding create_or_update_locked begin
create_or_update_locked-IsHeard parts addresses ref info network_id w flannel has_vip apart named
      done =
    (on_success
        (λ _. Gathered parts addresses ref info w.other_networks network_id flannel has_vip true) _
        done
        (locked-Heard parts addresses ref info w.other_networks network_id flannel has_vip apart
          (begin parts ref info w) (begin-Begun))).2
      refl
  where
    begin-Begun :
        Begun parts addresses ref info w.other_networks network_id flannel has_vip
          (begin parts ref info w)
    begin-Begun = (
      refl,
      λ id lb there.
          named id lb (sym (ap (lookup id) (begin-balancers_of parts ref info w)) ∙ there),
    )
