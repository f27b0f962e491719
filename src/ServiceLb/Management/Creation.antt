-- ===== src/ServiceLb/Management/Creation.antt =====
-- plugin/pkg/service_lb/service_lbs_management.go: `createOrUpdateLoadBalancer`. Its goroutine first
-- waits until all networks are known, without the lock, and then holds the lock to its end. The
-- service's fields are those that it read before it waited.
mod Lifts
pub mod Devices
pub mod Heard
mod Listening
mod Loops
pub mod Networks
pub mod Vips
pub mod Announced
pub mod Waiting
use flannel_network_plugin.Prelude.{
  ℕ, ltb, Bool, true, false, not, Option, none, some, List, [], ◌∷◌, ◌++◌, String, string_eq, map,
  if◌then◌else◌,
}
use flannel_network_plugin.Prelude.Dict.{Dict, lookup, insert, remove, keys, is_some}
use flannel_network_plugin.Common.Act.{Act, ◌>>=◌, ◌>>◌, pure, fail, for_each}
use flannel_network_plugin.Common.Result.{Result, ok, err}
use flannel_network_plugin.Common.Service.{Service, Event, set_vips}
use flannel_network_plugin.Etcd.Store.{StoreBase, get_item}
use flannel_network_plugin.Etcd.Store.Notices.{Handlers, Notice}
use flannel_network_plugin.Etcd.Connection.{StoreError}
use flannel_network_plugin.Etcd.WriteOnly.{add_or_update_item, delete_item}
use flannel_network_plugin.Networking.Interfaces.{ensure_interface}
use flannel_network_plugin.ServiceLb.Fwmarks.{get_mark, release_mark, MarkError}
use flannel_network_plugin.ServiceLb.Balancer.{
  ServiceLb, new_service_lb, update_frontend_ip, delete, show_ip,
}
use flannel_network_plugin.ServiceLb.Management.{
  Parts, World, Network, ServiceRef, LoadBalancerData, entries, ips_equal, set_at, balancers_of,
  put_balancer, without_balancer, on_kernel, on_pools, on_db, on_balancer, on_removed, get_world,
  set_world, lb_interface_name, has_missing_networks,
}

-- No handlers are set on the store.
abbrev pub no_handlers : Handlers
no_handlers = record { on_changed = false; on_added = false; on_removed = false }

module _ (parts : Parts) where
  open parts use {etcd, texts, host, marks, lo, pools, codec, ip_eq, fwmarks_client, data_client}

  abbrev pub Balancer : Type 0
  Balancer = ServiceLb texts.Ip host.Link

  -- `services.Set`, and `GetOrAdd` of an empty map of load balancers.
  unfoldable pub begin : ServiceRef → Service texts.Ip → World parts → World parts
  unfolding balancers_of
  begin ref info w = record w {
    services = insert info.id ref w.services;
    load_balancers = insert info.id (balancers_of parts info.id w) w.load_balancers;
  }

  -- `TryAdd`, and its factory.
  unfoldable pub add_balancer : Service texts.Ip → String → host.Link → Act (World parts) (Unit {0})
  unfolding balancers_of
  add_balancer info network_id link w =
      if is_some (lookup network_id (balancers_of parts info.id w))
      then (some tt, w)
      else (do
        fwmark ← on_db parts (
            get_mark etcd marks fwmarks_client info.id network_id
              (parts.suffixes info.id network_id))
        w1 ← get_world parts
        set_world parts (
            put_balancer parts info.id network_id
              (new_service_lb host texts marks link network_id info.id fwmark) w1))
          w

  -- One round of the loop over the service's networks.
  unfoldable pub ensure_network : Service texts.Ip → String → Act (World parts) (Unit {0})
  unfolding add_balancer
  ensure_network info network_id w = elim (lookup network_id w.flannel_networks) [
    | none ↦ if is_some (lookup network_id w.other_networks) then (some tt, w) else (none, w)
    | some network ↦
        (do
          link ←
              on_kernel parts (
                ensure_interface host (lb_interface_name parts network_id) "dummy" network.mtu true)
          add_balancer info network_id link)
          w
  ]

  -- The address goes back to the pool if it was allocated: if the service's two addresses differ.
  unfoldable pub release_vip :
      Service texts.Ip → String → Option texts.Ip → Act (World parts) (Unit {0})
  release_vip info network_id none w = (some tt, w)
  release_vip info network_id (some ip) w =
      if ips_equal ⦃ip = ip_eq⦄ (lookup network_id (entries info.ipam_vips))
        (lookup network_id (entries info.vips))
      then (some tt, w)
      else elim (lookup network_id w.flannel_networks) [
        | none ↦ (none, w)
        | some network ↦ on_pools parts (pools.release_ip network (texts.print_ip ip)) w
      ]

  unfoldable pub released : Option MarkError × etcd.Db → Result MarkError (Unit {0}) × etcd.Db
  released (none, db) = (ok tt, db)
  released (some e, db) = (err e, db)

  -- `deleteForNetwork`
  unfoldable pub delete_for_network :
      Service texts.Ip → String → Balancer → Act (World parts) (Unit {0})
  unfolding release_vip released
  delete_for_network info network_id lb = do
    on_removed parts lb (delete host texts marks ⦃ip_eq = ip_eq⦄ lo)
    release_vip info network_id lb.frontend_ip
    on_db parts
        (λ db. released (release_mark etcd marks fwmarks_client info.id network_id lb.fwmark db))

  -- One round of the loop over the networks that the service has left.
  unfoldable pub drop_network : Service texts.Ip → String → Act (World parts) (Unit {0})
  unfolding delete_for_network balancers_of
  drop_network info network_id w = elim (lookup network_id (balancers_of parts info.id w)) [
    | none ↦ (some tt, w)
    | some lb ↦ delete_for_network info network_id lb (without_balancer parts info.id network_id w)
  ]

  -- The address that the store has for the network, or a new one.
  unfoldable pub frontend_ip_for :
      Service texts.Ip → String → texts.Ip → Option texts.Ip → Act (World parts) texts.Ip
  frontend_ip_for info network_id ipam_vip (some ip) w = (some ip, w)
  frontend_ip_for info network_id ipam_vip none w = elim (lookup network_id w.flannel_networks) [
    | none ↦ (none, w)
    | some network ↦
        on_pools parts (pools.allocate_service_vip network (texts.print_ip ipam_vip) info.id) w
  ]

  unfoldable pub set_frontend : Service texts.Ip → String → texts.Ip → Act (World parts) (Unit {0})
  set_frontend info network_id ip w = elim (lookup network_id (balancers_of parts info.id w)) [
    | none ↦ (none, w)
    | some lb ↦ on_balancer parts info.id network_id lb (update_frontend_ip host texts marks ip) w
  ]

  -- One round of the loop over the IPAM VIPs: the address that the service has in the network.
  unfoldable pub vip_for :
      Service texts.Ip → Dict String texts.Ip → String → texts.Ip → Act (World parts) texts.Ip
  unfolding frontend_ip_for set_frontend
  vip_for info existing network_id ipam_vip w =
      if is_some (lookup network_id w.other_networks)
      then (some ipam_vip, w)
      else (do
        ip ← frontend_ip_for info network_id ipam_vip (lookup network_id existing)
        set_frontend info network_id ip
        pure ip)
          w

  unfoldable pub vips_for :
      Service texts.Ip
      → Dict String texts.Ip
      → Dict String texts.Ip
      → Dict String texts.Ip
      → Act (World parts) (Dict String texts.Ip)
  unfolding vip_for
  vips_for info existing [] vips = pure vips
  vips_for info existing ((network_id, ipam_vip) ∷ ipam_vips) vips = do
    ip ← vip_for info existing network_id ipam_vip
    vips_for info existing ipam_vips (insert network_id ip vips)

  -- The addresses in the store for a service; none if it has no data.
  abbrev pub vips_in : Option (LoadBalancerData texts.Ip) → Dict String texts.Ip
  vips_in none = []
  vips_in (some d) = d.frontend_ips

  unfoldable pub existing_vips : String → World parts → Dict String texts.Ip
  unfolding get_item
  existing_vips service_id w =
      vips_in (get_item codec.equals codec.zero_item service_id w.load_balancers_data)

  unfoldable pub in_store :
      World parts
      → Result StoreError (List (Notice (LoadBalancerData texts.Ip)))
        × StoreBase (LoadBalancerData texts.Ip)
        × etcd.Db
      → Option (Unit {0}) × World parts
  in_store w (ok calls, s, db) = (some tt, record w { load_balancers_data = s; db = db })
  in_store w (err e, s, db) = (none, record w { load_balancers_data = s; db = db })

  unfoldable pub store_vips : String → Dict String texts.Ip → Act (World parts) (Unit {0})
  unfolding in_store
  store_vips service_id vips w = in_store w (
      add_or_update_item etcd codec data_client no_handlers service_id
        (record { frontend_ips = vips }) w.load_balancers_data w.db)

  unfoldable pub forget_vips : String → Act (World parts) (Unit {0})
  unfolding in_store
  forget_vips service_id w =
      in_store w
        (delete_item etcd codec data_client no_handlers service_id w.load_balancers_data w.db)

  -- `SetVIPs` of the object, with the events that it raises.
  unfoldable pub announce : ServiceRef → Dict String texts.Ip → World parts → World parts
  announce ref vips w =
      let (service, raised) = set_vips ⦃ip = ip_eq⦄ (some vips) (w.objects ref) in
      record w {
        objects = set_at parts ref service w.objects;
        raised = w.raised ++ map (λ event. (ref, event)) raised;
      }

  -- The end: the addresses, stored and announced.
  finish : ServiceRef → Service texts.Ip → Act (World parts) (Unit {0})
  unfolding vips_for existing_vips store_vips announce
  finish ref info = do
    w1 ← get_world parts
    vips ← vips_for info (existing_vips info.id w1) (entries info.ipam_vips) []
    store_vips info.id vips
    w2 ← get_world parts
    set_world parts (announce ref vips w2)

  -- The part that holds the lock, after its first two calls.
  locked : ServiceRef → Service texts.Ip → Act (World parts) (Unit {0})
  unfolding ensure_network drop_network finish
  locked ref info = do
    w1 ← get_world parts
    for_each (ensure_network info) info.networks
    for_each (drop_network info)
        (lo.difference (keys (balancers_of parts info.id w1)) info.networks).0
    finish ref info

  unfoldable pub create_or_update_locked :
      ServiceRef → Service texts.Ip → Act (World parts) (Unit {0})
  unfolding begin locked
  create_or_update_locked ref info w = locked ref info (begin ref info w)

  -- The goroutine, in turns with others. While it looks for missing networks it is not waiting, and
  -- the first turn of the others falls between its look and its `Wait`, where a broadcast wakes no
  -- one. Then it waits, with the number of broadcasts so far, until a turn in which there is one
  -- more. If it still waits after the last turn, there is no result.
  unfoldable pub create_or_update_from :
      Service texts.Ip
      → ServiceRef
      → Option ℕ
      → List (World parts → World parts)
      → World parts
      → Option (Option (Unit {0}) × World parts)
  unfolding create_or_update_locked
  create_or_update_from info ref none [] w =
      if has_missing_networks parts ref w then none else some (create_or_update_locked ref info w)
  create_or_update_from info ref (some n) [] w = none
  create_or_update_from info ref none (others ∷ turns) w =
      let waiting = create_or_update_from info ref (some (others w).broadcasts) turns (others w) in
      if has_missing_networks parts ref w
      then waiting
      else some (create_or_update_locked ref info w)
  create_or_update_from info ref (some n) (others ∷ turns) w =
      let woken = create_or_update_from info ref none turns (others w) in
      let waiting = create_or_update_from info ref (some n) turns (others w) in
      if ltb n (others w).broadcasts then woken else waiting

  unfoldable pub create_or_update :
      ServiceRef
      → List (World parts → World parts)
      → World parts
      → Option (Option (Unit {0}) × World parts)
  unfolding create_or_update_from
  create_or_update ref turns w = create_or_update_from (w.objects ref) ref none turns w
