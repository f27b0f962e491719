-- ===== src/ServiceLb/Management/Creation/Announced.antt =====
-- What `createOrUpdateLoadBalancer` of plugin/pkg/service_lb/service_lbs_management.go announces,
-- beside the load balancers, the interfaces and the store.
use flannel_network_plugin.Prelude.{
  ◌≡◌, refl, Bool, true, false, ◌||◌, ◌&&◌, not, contains, Option, none, some, List, [], String,
  string_eq, ==_refl, inl, inr, Option-cases, ap, ◌∙◌, sym, nat_beq_iff,
}
use flannel_network_plugin.Prelude.Dict.{Dict, lookup, insert, keys, is_some, lookup-insert}
use flannel_network_plugin.Common.Act.{Outcome, Ensures, >>=-Ensures, on_success}
use flannel_network_plugin.Common.Result.{Result, ok, err}
use flannel_network_plugin.Common.Service.{Service, set_vips}
use flannel_network_plugin.Etcd.Store.{StoreBase, get_item}
use flannel_network_plugin.Etcd.Store.Notices.{Notice}
use flannel_network_plugin.Etcd.Connection.{StoreError}
use flannel_network_plugin.Etcd.WriteOnly.Items.{items-add_or_update_item}
use flannel_network_plugin.ServiceLb.Management.{
  Parts, World, ServiceRef, LoadBalancerData, entries, balancers_of, lb_interface_name,
}
use flannel_network_plugin.ServiceLb.Management.Creation.{
  Balancer, begin, vips_for, in_store, store_vips, announce, finish, locked,
  create_or_update_locked, existing_vips, vips_in, no_handlers,
}
use flannel_network_plugin.Networking.Interfaces.Addresses.{HasAddresses}
use flannel_network_plugin.ServiceLb.Management.Creation.Devices.{Named}
use flannel_network_plugin.ServiceLb.Management.Creation.Heard.{IsHeard, IsApart}
use flannel_network_plugin.ServiceLb.Management.Creation.Listening.{create_or_update_locked-IsHeard}
use flannel_network_plugin.ServiceLb.Management.Creation.Loops.{
  HasLb, ensure_networks-HasLb, drop_networks-HasLb,
}
use flannel_network_plugin.ServiceLb.Management.Creation.Vips.{frontend_of, Agrees, vips_for-Agrees}

module _ (parts : Parts) (ref : ServiceRef) (info : Service parts.texts.Ip)
    (others : Dict String (Unit {0})) (existing : Dict String parts.texts.Ip)
    (network_id : String) where
  open parts use {etcd, texts, lo}

  abbrev Gathered : Dict String texts.Ip → World parts → Type 0
  Gathered vips w =
      (is_some (lookup network_id vips) ≡ is_some (lookup network_id (entries info.ipam_vips)))
      × Agrees parts info others existing network_id vips w

  -- The addresses that the service has in the end.
  abbrev Announced : World parts → Type 0
  Announced w =
      (vips : Dict String texts.Ip) × ((w.objects ref).vips ≡ some vips)
      × (existing_vips parts info.id w ≡ vips)
      × Gathered vips w

  store_vips-Gathered :
      (vips : Dict String texts.Ip)
      → Ensures
          (Gathered vips)
          (store_vips parts info.id vips)
          (λ _ w. (existing_vips parts info.id w ≡ vips) × Gathered vips w)
  unfolding store_vips in_store balancers_of existing_vips get_item
  store_vips-Gathered vips w h = go _ (
      items-add_or_update_item etcd parts.codec parts.data_client no_handlers info.id
        (record { frontend_ips = vips }) w.load_balancers_data w.db)
    where
      go :
          (r : Result StoreError (List (Notice (LoadBalancerData texts.Ip)))
            × StoreBase (LoadBalancerData texts.Ip)
            × etcd.Db)
          → r.1.items ≡ insert info.id (record { frontend_ips = vips }) w.load_balancers_data.items
          → Outcome
              (λ _ w. (existing_vips parts info.id w ≡ vips) × Gathered vips w)
              (in_store parts w r)
      go (err e, s, db) same = tt
      go (ok calls, s, db) same = (stored, h)
        where
          stored :
              existing_vips parts info.id (record w { load_balancers_data = s; db = db }) ≡ vips
          stored =
              ap (λ items. vips_in parts (lookup info.id items)) same
              ∙ ap (vips_in parts) (
                  lookup-insert info.id info.id (record { frontend_ips = vips })
                    w.load_balancers_data.items)
              ∙ rw (==_refl info.id) refl

  announce-Announced :
      (vips : Dict String texts.Ip) (w : World parts)
      → (existing_vips parts info.id w ≡ vips) × Gathered vips w
      → Announced (announce parts ref vips w)
  unfolding announce set_vips existing_vips balancers_of
  announce-Announced vips w h = (vips, rw ((nat_beq_iff ref ref).1 refl) refl, h.0, h.1)

  finish-Announced :
      Ensures
        (λ w. (w.other_networks ≡ others) × (existing_vips parts info.id w ≡ existing))
        (finish parts ref info)
        (λ _. Announced)
  unfolding finish lookup
  finish-Announced w h =
      >>=-Ensures Begun Gathered (λ _. Announced) _ _ (λ w h. kept w h)
        (λ vips.
          >>=-Ensures (Gathered vips)
            (λ _ w. (existing_vips parts info.id w ≡ vips) × Gathered vips w) (λ _. Announced) _ _
            (store_vips-Gathered vips) (λ _ w h. announce-Announced vips w h))
        w h
    where
      Begun : World parts → Type 0
      Begun w = (w.other_networks ≡ others) × (existing_vips parts info.id w ≡ existing)

      kept :
          Ensures Begun
            (vips_for parts info (existing_vips parts info.id w) (entries info.ipam_vips) [])
            Gathered
      kept s begun = rw (h.1) (
          vips_for-Agrees parts info others existing network_id (entries info.ipam_vips) []
            (is_some (lookup network_id (entries info.ipam_vips))) refl s
            (begun.0, λ flannel ip never. cc))

  -- What the loops over the networks leave alone.
  abbrev K : Dict String (Unit {0}) → StoreBase (LoadBalancerData texts.Ip) → Type 0
  K known stored = (known ≡ others) × (vips_in parts (lookup info.id stored.items) ≡ existing)

  locked-Announced :
      (w : World parts)
      → (w.other_networks ≡ others) × (existing_vips parts info.id w ≡ existing)
      → Outcome (λ _. Announced) (locked parts ref info w)
  unfolding locked existing_vips get_item
  locked-Announced w h =
      >>=-Ensures (Has (here w)) _ _ _ _
        (ensure_networks-HasLb parts w.flannel_networks info network_id K info.networks (here w))
        (λ _.
          >>=-Ensures (Has ensured) (λ _. Has (ensured && not (contains network_id deleted)))
            (λ _. Announced) _ _
            (drop_networks-HasLb parts w.flannel_networks info network_id K deleted ensured)
            (λ _ w1 h1. finish-Announced w1 h1.1.1))
        w (refl, (refl, h))
    where
      Has : Bool → World parts → Type 0
      Has = HasLb parts w.flannel_networks info network_id K

      here : World parts → Bool
      here w = is_some (lookup network_id (balancers_of parts info.id w))

      ensured : Bool
      ensured =
          here w
          || (contains network_id info.networks && is_some (lookup network_id w.flannel_networks))

      deleted : List String
      deleted = (lo.difference (keys (balancers_of parts info.id w)) info.networks).0

module _ (parts : Parts) (ref : ServiceRef) (info : Service parts.texts.Ip) (network_id : String)
    (w : World parts) (done : (create_or_update_locked parts ref info w).0 ≡ some tt) where
  open parts use {texts}

  abbrev after : World parts
  after = (create_or_update_locked parts ref info w).1

  announced :
      Announced parts ref info w.other_networks (existing_vips parts info.id w) network_id after
  unfolding create_or_update_locked begin existing_vips
  announced = on_success _ _ done (
      locked-Announced parts ref info w.other_networks (existing_vips parts info.id w) network_id
        (begin parts ref info w) (refl, refl))

  -- The address of the network among those gathered.
  address :
      is_some (lookup network_id w.other_networks) ≡ false
      → is_some (lookup network_id (entries info.ipam_vips)) ≡ true
      → (ip : texts.Ip) × (lookup network_id announced.0 ≡ some ip)
        × (frontend_of (lookup network_id (balancers_of parts info.id after)) ≡ some ip)
        × ((old : texts.Ip)
            → lookup network_id (existing_vips parts info.id w) ≡ some old
            → ip ≡ old)
  address flannel has_vip = elim (Option-cases (lookup network_id announced.0)) [
    | inl unseen ↦ cc (ap is_some (sym unseen) ∙ announced.3.0 ∙ has_vip)
    | inr (ip, shown) ↦
        (ip, shown, (announced.3.1.1 flannel ip shown).0, (announced.3.1.1 flannel ip shown).1)
  ]

  -- The interface has the address of the load balancer.
  listens_on :
      (addresses : HasAddresses parts.host texts)
      → IsHeard parts addresses info network_id after
      → (there : Option (Balancer parts))
      → lookup network_id (balancers_of parts info.id after) ≡ there
      → (ip : texts.Ip) → frontend_of there ≡ some ip
      → addresses.has after.kernel (lb_interface_name parts network_id) ip ≡ true
  unfolding frontend_of
  listens_on addresses heard none found ip shown = cc
  listens_on addresses heard (some lb) found ip shown = heard lb ip found shown

  -- After an update that succeeds, in a flannel network in which the service has an IPAM VIP, the
  -- service object has an address, which is the address that is stored and the frontend address of
  -- the network's load balancer, and the network's interface in the kernel has it. The load
  -- balancers had the links of their networks' interfaces, and the interface names of the other
  -- networks with an IPAM VIP are others.
  pub announced_vip_lem :
      (addresses : HasAddresses parts.host texts)
      → is_some (lookup network_id w.other_networks) ≡ false
      → is_some (lookup network_id (entries info.ipam_vips)) ≡ true
      → IsApart parts network_id (entries info.ipam_vips)
      → Named parts addresses info w
      → (ip : texts.Ip) × (lookup network_id (entries (after.objects ref).vips) ≡ some ip)
        × (lookup network_id (existing_vips parts info.id after) ≡ some ip)
        × (frontend_of (lookup network_id (balancers_of parts info.id after)) ≡ some ip)
        × (addresses.has after.kernel (lb_interface_name parts network_id) ip ≡ true)
  announced_vip_lem addresses flannel has_vip apart named =
      let (ip, shown, fronts, kept) = address flannel has_vip in
      (
        ip,
        ap (λ vips. lookup network_id (entries vips)) announced.1 ∙ shown,
        ap (lookup network_id) announced.2 ∙ shown,
        fronts,
        listens_on addresses
            (create_or_update_locked-IsHeard parts addresses ref info network_id w flannel has_vip
              apart named done)
            _ refl ip fronts,
      )

  -- An update that succeeds keeps the address that is stored for a service in a flannel network
  -- where the service has an IPAM VIP: the service object has that address again, it is the
  -- frontend address of the network's load balancer, and the network's interface in the kernel has
  -- it. The load balancers had the links of their networks' interfaces, and the interface names of
  -- the other networks with an IPAM VIP are others.
  pub stored_vip_lem :
      (addresses : HasAddresses parts.host texts)
      → is_some (lookup network_id w.other_networks) ≡ false
      → is_some (lookup network_id (entries info.ipam_vips)) ≡ true
      → IsApart parts network_id (entries info.ipam_vips)
      → Named parts addresses info w
      → {old : texts.Ip} → lookup network_id (existing_vips parts info.id w) ≡ some old
      → (lookup network_id (entries (after.objects ref).vips) ≡ some old)
        × (frontend_of (lookup network_id (balancers_of parts info.id after)) ≡ some old)
        × (addresses.has after.kernel (lb_interface_name parts network_id) old ≡ true)
  stored_vip_lem addresses flannel has_vip apart named {old} stored =
      let (ip, shown, fronts, kept) = address flannel has_vip in
      let front = fronts ∙ ap some (kept old stored) in
      (
        ap (λ vips. lookup network_id (entries vips)) announced.1
            ∙ shown
            ∙ ap some (kept old stored),
        front,
        listens_on addresses
            (create_or_update_locked-IsHeard parts addresses ref info network_id w flannel has_vip
              apart named done)
            _ refl old front,
      )
