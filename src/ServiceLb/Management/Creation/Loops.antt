-- ===== src/ServiceLb/Management/Creation/Loops.antt =====
-- Which load balancers a service has after the two loops over networks of
-- `createOrUpdateLoadBalancer`, plugin/pkg/service_lb/service_lbs_management.go.
use flannel_network_plugin.Prelude.{
  ◌≡◌, Bool, true, false, not, ◌&&◌, ◌||◌, Option, none, some, List, [], ◌∷◌, String, string_eq,
  ◌==◌, if◌then◌else◌, contains, inl, inr, Bool-cases, Option-cases, arith, ap, ◌∙◌, sym,
}
use flannel_network_plugin.Prelude.Dict.{Dict, lookup, is_some, lookup-insert, lookup-remove}
use flannel_network_plugin.Common.Act.{for_each, Outcome, Ensures, >>=-Ensures}
use flannel_network_plugin.Common.Service.{Service}
use flannel_network_plugin.Etcd.Store.{StoreBase}
use flannel_network_plugin.Networking.Interfaces.{ensure_interface}
use flannel_network_plugin.ServiceLb.Fwmarks.{get_mark, release_mark}
use flannel_network_plugin.ServiceLb.Balancer.{new_service_lb, delete}
use flannel_network_plugin.ServiceLb.Management.{
  Parts, World, Network, balancers_of, put_balancer, without_balancer, on_pools, lb_interface_name,
  LoadBalancerData,
}
use flannel_network_plugin.ServiceLb.Management.Creation.{
  Balancer, add_balancer, ensure_network, release_vip, released, delete_for_network, drop_network,
}
use flannel_network_plugin.ServiceLb.Management.Creation.Lifts.{
  on_kernel-Ensures, on_pools-Ensures, on_db-Ensures, on_removed-Ensures, balancers_of-put_balancer,
  balancers_of-without_balancer,
}

module _ (parts : Parts) (flannel : Dict String Network) (info : Service parts.texts.Ip)
    (network_id : String)
    (K : Dict String (Unit {0}) → StoreBase (LoadBalancerData parts.texts.Ip) → Type 0) where
  open parts use {etcd, texts, host, marks, lo, pools, fwmarks_client}

  abbrev pub Beside : World parts → Type 0
  Beside w = (w.flannel_networks ≡ flannel) × K w.other_networks w.load_balancers_data

  -- Whether the service has a load balancer in the network, beside the networks that are known and
  -- what holds of the other networks and of the store.
  abbrev pub HasLb : Bool → World parts → Type 0
  HasLb b w = (is_some (lookup network_id (balancers_of parts info.id w)) ≡ b) × Beside w

  pub put_balancer-HasLb :
      (id : String) (lb : Balancer parts) (b : Bool) (w : World parts)
      → HasLb b w
      → HasLb (b || id == network_id) (put_balancer parts info.id id lb w)
  unfolding put_balancer
  put_balancer-HasLb id lb b w h = (
    rw
        (
          balancers_of-put_balancer parts info.id id lb w,
          lookup-insert id network_id lb (balancers_of parts info.id w),
        )
        (found (id == network_id) (lookup network_id (balancers_of parts info.id w)) h.0),
    h.1,
  )
    where
      found :
          (same : Bool) (there : Option (Balancer parts))
          → is_some there ≡ b
          → is_some (if same then some lb else there) ≡ (b || same)
      found same there e = ground arith

  -- A load balancer that is there changes nothing.
  pub present :
      (id : String) (b : Bool) (w : World parts)
      → HasLb b w
      → is_some (lookup id (balancers_of parts info.id w)) ≡ true
      → (b || id == network_id) ≡ b
  present id b w h here = ground (arith, h, here, string_eq.beq_iff id network_id)

  add_balancer-HasLb :
      (id : String) (link : host.Link) (b : Bool)
      → Ensures (HasLb b) (add_balancer parts info id link) (λ _. HasLb (b || id == network_id))
  unfolding add_balancer
  add_balancer-HasLb id link b w h =
      elim (Bool-cases (is_some (lookup id (balancers_of parts info.id w)))) [
        | inl here ↦ rw (here, present id b w h here) h
        | inr fresh ↦ rw (fresh) (
            >>=-Ensures (HasLb b) (λ _. HasLb b) (λ _. HasLb (b || id == network_id)) _ _
              (on_db-Ensures parts (HasLb b)
                (get_mark etcd marks fwmarks_client info.id id (parts.suffixes info.id id))
                (λ w db h. h))
              (λ fwmark w h.
                put_balancer-HasLb id (new_service_lb host texts marks link id info.id fwmark) b w
                  h)
              w h)
      ]

  ensure_network-HasLb :
      (id : String) (b : Bool)
      → Ensures
          (HasLb b)
          (ensure_network parts info id)
          (λ _. HasLb (b || (id == network_id && is_some (lookup network_id flannel))))
  unfolding ensure_network
  ensure_network-HasLb id b w h = elim (Option-cases (lookup id w.flannel_networks)) [
    | inl unknown ↦
        rw (unknown, ensure_network) (elsewhere (is_some (lookup id w.other_networks)) unknown)
    | inr (network, known) ↦
        rw (known, ensure_network, counts (ap is_some (sym (ap (lookup id) h.1.0) ∙ known)))
          (>>=-Ensures (HasLb b) (λ _. HasLb b) (λ _. HasLb (b || id == network_id)) _ _
            (on_kernel-Ensures parts (HasLb b)
              (ensure_interface host (lb_interface_name parts id) "dummy" network.mtu true)
              (λ w k h. h))
            (λ link w h. add_balancer-HasLb id link b w h) w h)
  ]
    where
      elsewhere :
          (other : Bool)
          → lookup id w.flannel_networks ≡ none
          → Outcome
              (λ _. HasLb (b || (id == network_id && is_some (lookup network_id flannel))))
              (if other then (some tt, w) else (none, w))
      elsewhere false unknown = tt
      elsewhere true unknown = (ground (arith, h, unknown, string_eq.beq_iff id network_id), h.1)

      counts :
          is_some (lookup id flannel) ≡ true
          → (id == network_id && is_some (lookup network_id flannel)) ≡ (id == network_id)
      counts known = ground (arith, known, string_eq.beq_iff id network_id)

  release_vip-HasLb :
      (id : String) (ip : Option texts.Ip) (b : Bool)
      → Ensures (HasLb b) (release_vip parts info id ip) (λ _. HasLb b)
  unfolding release_vip balancers_of
  release_vip-HasLb id none b w h = h
  release_vip-HasLb id (some ip) b w h = go _ (lookup id w.flannel_networks)
    where
      go :
          (same : Bool) (network : Option Network)
          → Outcome
              (λ _. HasLb b)
              (if same then (some tt, w) else elim network [
                | none ↦ (none, w)
                | some network ↦ on_pools parts (pools.release_ip network (texts.print_ip ip)) w
              ])
      go true network = h
      go false none = tt
      go false (some network) =
          on_pools-Ensures parts (HasLb b) (pools.release_ip network (texts.print_ip ip))
            (λ w p db h. h) w h

  delete_for_network-HasLb :
      (id : String) (lb : Balancer parts) (b : Bool)
      → Ensures (HasLb b) (delete_for_network parts info id lb) (λ _. HasLb b)
  unfolding delete_for_network balancers_of
  delete_for_network-HasLb id lb b =
      >>=-Ensures (HasLb b) (λ _. HasLb b) (λ _. HasLb b) _ _
        (on_removed-Ensures parts (HasLb b) lb (delete host texts marks ⦃ip_eq = parts.ip_eq⦄ lo)
          (λ w k h. h))
        (λ _.
          >>=-Ensures (HasLb b) (λ _. HasLb b) (λ _. HasLb b) _ _
            (release_vip-HasLb id lb.frontend_ip b)
            (λ _.
              on_db-Ensures parts (HasLb b)
                (λ db.
                  released parts (release_mark etcd marks fwmarks_client info.id id lb.fwmark db))
                (λ w db h. h)))

  remove_balancer-HasLb :
      (id : String) (b : Bool) (w : World parts)
      → HasLb b w
      → HasLb (b && not (id == network_id)) (without_balancer parts info.id id w)
  unfolding without_balancer
  remove_balancer-HasLb id b w h = (
    rw
        (
          balancers_of-without_balancer parts info.id id w,
          lookup-remove id network_id (balancers_of parts info.id w),
        )
        (gone (id == network_id) (lookup network_id (balancers_of parts info.id w)) h.0),
    h.1,
  )
    where
      gone :
          (same : Bool) (there : Option (Balancer parts))
          → is_some there ≡ b
          → is_some (if same then none else there) ≡ (b && not same)
      gone same there e = ground arith

  -- A network that is dropped has no load balancer; the others keep theirs.
  drop_network-HasLb :
      (id : String) (b : Bool)
      → Ensures (HasLb b) (drop_network parts info id) (λ _. HasLb (b && not (id == network_id)))
  unfolding drop_network
  drop_network-HasLb id b w h = elim (Option-cases (lookup id (balancers_of parts info.id w))) [
    | inl gone ↦
        rw (gone, drop_network) (ground (arith, h, gone, string_eq.beq_iff id network_id), h.1)
    | inr (lb, here) ↦
        rw (here, drop_network)
          (delete_for_network-HasLb id lb (b && not (id == network_id))
            (without_balancer parts info.id id w) (remove_balancer-HasLb id b w h))
  ]

  -- The two loops.
  pub ensure_networks-HasLb :
      (ids : List String) (b : Bool)
      → Ensures
          (HasLb b)
          (for_each (ensure_network parts info) ids)
          (λ _. HasLb (b || (contains network_id ids && is_some (lookup network_id flannel))))
  unfolding for_each contains
  ensure_networks-HasLb [] b w h = (ground (arith, h), h.1)
  ensure_networks-HasLb (id ∷ ids) b w h =
      rw (both b (id == network_id) (contains network_id ids) (is_some (lookup network_id flannel)))
        (>>=-Ensures (HasLb b) _ _ (ensure_network parts info id) _ (ensure_network-HasLb id b)
          (λ _.
            ensure_networks-HasLb ids
              (b || (id == network_id && is_some (lookup network_id flannel))))
          w h)
    where
      both : (b c d f : Bool) → (b || ((c || d) && f)) ≡ ((b || (c && f)) || (d && f))
      both b c d f = ground arith

  pub drop_networks-HasLb :
      (ids : List String) (b : Bool)
      → Ensures
          (HasLb b)
          (for_each (drop_network parts info) ids)
          (λ _. HasLb (b && not (contains network_id ids)))
  unfolding for_each contains
  drop_networks-HasLb [] b w h = (ground (arith, h), h.1)
  drop_networks-HasLb (id ∷ ids) b w h =
      rw (neither b (id == network_id) (contains network_id ids)) (
        >>=-Ensures (HasLb b) _ _ (drop_network parts info id) _ (drop_network-HasLb id b)
          (λ _. drop_networks-HasLb ids (b && not (id == network_id))) w h)
    where
      neither : (b c d : Bool) → (b && not (c || d)) ≡ ((b && not c) && not d)
      neither b c d = ground arith
