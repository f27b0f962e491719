-- ===== src/ServiceLb/Management/Creation/Networks.antt =====
-- Which load balancers a service has after `createOrUpdateLoadBalancer` of
-- plugin/pkg/service_lb/service_lbs_management.go.
use flannel_network_plugin.Prelude.{
  ◌≡◌, refl, Bool, not, ◌&&◌, ◌||◌, Option, none, some, List, [], ◌∷◌, String, string_eq, ==_refl,
  contains, inl, inr, Bool-cases, Option-cases, arith, ap, ◌∙◌, sym,
}
use flannel_network_plugin.Prelude.Dict.{
  Dict, lookup, insert, keys, is_some, lookup-insert, contains-keys,
}
use flannel_network_plugin.Common.Act.{Outcome, Ensures, >>=-Ensures, any, on_success}
use flannel_network_plugin.Common.Result.{Result, ok, err}
use flannel_network_plugin.Common.Service.{Service}
use flannel_network_plugin.Etcd.Store.{StoreBase}
use flannel_network_plugin.Etcd.Store.Notices.{Notice}
use flannel_network_plugin.Etcd.Connection.{StoreError}
use flannel_network_plugin.Etcd.WriteOnly.{add_or_update_item}
use flannel_network_plugin.ServiceLb.Balancer.{update_frontend_ip}
use flannel_network_plugin.ServiceLb.Management.{
  Parts, World, Network, ServiceRef, entries, balancers_of, put_balancer, on_pools,
  LoadBalancerData,
}
use flannel_network_plugin.ServiceLb.Management.Creation.{
  begin, frontend_ip_for, set_frontend, vip_for, vips_for, in_store, store_vips, announce,
  create_or_update_locked, finish, locked, existing_vips, no_handlers,
}
use flannel_network_plugin.ServiceLb.Management.Creation.Loops.{
  HasLb, put_balancer-HasLb, present, ensure_networks-HasLb, drop_networks-HasLb,
}
use flannel_network_plugin.ServiceLb.Management.Creation.Lifts.{
  on_pools-Ensures, on_balancer-Outcome,
}

module _ (parts : Parts) (flannel : Dict String Network) (info : Service parts.texts.Ip)
    (network_id : String) where
  open parts use {etcd, texts, host, marks, lo, pools, fwmarks_client}

  abbrev K : Dict String (Unit {0}) → StoreBase (LoadBalancerData texts.Ip) → Type 0
  K others stored = Unit

  abbrev Has : Bool → World parts → Type 0
  Has = HasLb parts flannel info network_id K

  set_frontend-Has :
      (id : String) (ip : texts.Ip) (b : Bool)
      → Ensures (Has b) (set_frontend parts info id ip) (λ _. Has b)
  unfolding set_frontend put_balancer
  set_frontend-Has id ip b w h = elim (Option-cases (lookup id (balancers_of parts info.id w))) [
    | inl gone ↦ rw (gone, set_frontend) tt
    | inr (lb, here) ↦
        rw (here, set_frontend)
          (on_balancer-Outcome parts info.id id lb (update_frontend_ip host texts marks ip)
            (λ _. Has b) w (λ _ _. Unit {0}) (any _)
            (λ a lb' k _.
              rw (sym (present parts flannel info network_id K id b w h (ap is_some here))) (
                put_balancer-HasLb parts flannel info network_id K id lb' b
                  (record w { kernel = k }) h)))
  ]

  frontend_ip_for-Has :
      (id : String) (ipam_vip : texts.Ip) (existing : Option texts.Ip) (b : Bool)
      → Ensures (Has b) (frontend_ip_for parts info id ipam_vip existing) (λ _. Has b)
  unfolding frontend_ip_for balancers_of
  frontend_ip_for-Has id ipam_vip (some ip) b w h = h
  frontend_ip_for-Has id ipam_vip none b w h = go (lookup id w.flannel_networks)
    where
      go :
          (network : Option Network)
          → Outcome {A = texts.Ip}
              (λ _. Has b)
              (elim network [
                | none ↦ (none, w)
                | some network ↦
                    on_pools parts
                      (pools.allocate_service_vip network (texts.print_ip ipam_vip) info.id)
                      w
              ])
      go none = tt
      go (some network) =
          on_pools-Ensures parts (Has b)
            (pools.allocate_service_vip network (texts.print_ip ipam_vip) info.id) (λ w p db h. h) w
            h

  vip_for-Has :
      (existing : Dict String texts.Ip) (id : String) (ipam_vip : texts.Ip) (b : Bool)
      → Ensures (Has b) (vip_for parts info existing id ipam_vip) (λ _. Has b)
  unfolding vip_for
  vip_for-Has existing id ipam_vip b w h =
      elim (Bool-cases (is_some (lookup id w.other_networks))) [
        | inl other ↦ rw (other) h
        | inr flannel ↦ rw (flannel) (
            >>=-Ensures (Has b) (λ _. Has b) (λ _. Has b)
              (frontend_ip_for parts info id ipam_vip (lookup id existing)) _
              (frontend_ip_for-Has id ipam_vip (lookup id existing) b)
              (λ ip.
                >>=-Ensures (Has b) (λ _. Has b) (λ _. Has b) _ _ (set_frontend-Has id ip b)
                  (λ _ w h. h))
              w h)
      ]

  vips_for-Has :
      (existing ipam vips : Dict String texts.Ip) (b : Bool)
      → Ensures (Has b) (vips_for parts info existing ipam vips) (λ _. Has b)
  unfolding vips_for
  vips_for-Has existing [] vips b w h = h
  vips_for-Has existing ((id, ipam_vip) ∷ ipam) vips b w h =
      >>=-Ensures (Has b) (λ _. Has b) (λ _. Has b) (vip_for parts info existing id ipam_vip) _
        (vip_for-Has existing id ipam_vip b)
        (λ ip. vips_for-Has existing ipam (insert id ip vips) b) w h

  store_vips-Has :
      (vips : Dict String texts.Ip) (b : Bool)
      → Ensures (Has b) (store_vips parts info.id vips) (λ _. Has b)
  unfolding store_vips in_store balancers_of
  store_vips-Has vips b w h = go (
      add_or_update_item etcd parts.codec parts.data_client no_handlers info.id
        (record { frontend_ips = vips }) w.load_balancers_data w.db)
    where
      go :
          (r : Result StoreError (List (Notice (LoadBalancerData texts.Ip)))
            × StoreBase (LoadBalancerData texts.Ip)
            × etcd.Db)
          → Outcome (λ _. Has b) (in_store parts w r)
      go (ok calls, s, db) = h
      go (err e, s, db) = tt

  -- All that follows `services.Set` and `GetOrAdd`.
  locked-Has :
      (ref : ServiceRef) (b : Bool) (w : World parts)
      → Has b w
      → Outcome
          (λ _.
            Has (contains network_id info.networks && (is_some (lookup network_id flannel) || b)))
          (locked parts ref info w)
  unfolding locked announce balancers_of
  locked-Has ref b w h = rw (remains) (
      >>=-Ensures (Has b) _ _ _ _
        (ensure_networks-HasLb parts flannel info network_id K info.networks b)
        (λ _.
          >>=-Ensures (Has ensured) _ (λ _. Has kept) _ _
            (drop_networks-HasLb parts flannel info network_id K deleted ensured)
            (λ _. finish_with))
        w h)
    where
      deleted : List String
      deleted = (lo.difference (keys (balancers_of parts info.id w)) info.networks).0

      gone : contains network_id deleted ≡ (b && not (contains network_id info.networks))
      gone =
          lo.difference_left network_id (keys (balancers_of parts info.id w)) info.networks
          ∙ ap (λ x. x && not (contains network_id info.networks))
              (contains-keys network_id (balancers_of parts info.id w) ∙ h.0)

      table : (b c f : Bool) → (c && (f || b)) ≡ ((b || (c && f)) && not (b && not c))
      table b c f = ground arith

      ensured : Bool
      ensured = b || (contains network_id info.networks && is_some (lookup network_id flannel))

      kept : Bool
      kept = ensured && not (contains network_id deleted)

      remains :
          (contains network_id info.networks && (is_some (lookup network_id flannel) || b)) ≡ kept
      remains =
          rw (gone)
            (table b (contains network_id info.networks) (is_some (lookup network_id flannel)))

      finish_with : Ensures (Has kept) (finish parts ref info) (λ _. Has kept)
      finish_with w2 h2 =
          >>=-Ensures (Has kept) (λ _. Has kept) (λ _. Has kept) _ _
            (vips_for-Has (existing_vips parts info.id w2) (entries info.ipam_vips) [] kept)
            (λ vips.
              >>=-Ensures (Has kept) (λ _. Has kept) (λ _. Has kept) _ _ (store_vips-Has vips kept)
                (λ _ w3 h3. h3))
            w2 h2

module _ (parts : Parts) where
  open parts use {texts}

  pub begin-balancers_of :
      (ref : ServiceRef) (info : Service texts.Ip) (w : World parts)
      → balancers_of parts info.id (begin parts ref info w) ≡ balancers_of parts info.id w
  unfolding begin balancers_of
  begin-balancers_of ref info w =
      rw
        (
          lookup-insert info.id info.id (balancers_of parts info.id w) w.load_balancers,
          ==_refl info.id,
        )
        refl

  -- After an update that succeeds, a service has a load balancer in a network exactly if it
  -- belongs to the network and the network is a known flannel network or it had a load balancer
  -- there before.
  pub create_or_update_locked_lem :
      (ref : ServiceRef) (info : Service texts.Ip) (network_id : String) (w : World parts)
      → (create_or_update_locked parts ref info w).0 ≡ some tt
      → is_some (
          lookup network_id
            (balancers_of parts info.id (create_or_update_locked parts ref info w).1))
        ≡ (contains network_id info.networks
            && (is_some (lookup network_id w.flannel_networks)
                || is_some (lookup network_id (balancers_of parts info.id w))))
  unfolding create_or_update_locked begin
  create_or_update_locked_lem ref info network_id w done =
      (on_success _ _ done (
        locked-Has parts w.flannel_networks info network_id ref
          (is_some (lookup network_id (balancers_of parts info.id w))) (begin parts ref info w)
          (
            ap (λ lbs. is_some (lookup network_id lbs)) (begin-balancers_of ref info w),
            (refl, tt),
          ))).0
