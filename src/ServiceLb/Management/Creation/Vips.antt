-- ===== src/ServiceLb/Management/Creation/Vips.antt =====
-- The addresses that `createOrUpdateLoadBalancer` of
-- plugin/pkg/service_lb/service_lbs_management.go stores and announces.
use flannel_network_plugin.Prelude.{
  ◌≡◌, refl, Bool, true, false, ◌||◌, Option, none, some, [], ◌∷◌, String, string_eq, ◌==◌,
  if◌then◌else◌, inl, inr, Bool-cases, Option-cases, arith, ap, ◌∙◌, sym,
}
use flannel_network_plugin.Prelude.Dict.{Dict, lookup, insert, is_some, lookup-insert}
use flannel_network_plugin.Common.Act.{Outcome, Ensures, >>=-Ensures, Outcome-map}
use flannel_network_plugin.Common.Service.{Service}
use flannel_network_plugin.ServiceLb.Balancer.{ServiceLb, update_frontend_ip}
use flannel_network_plugin.ServiceLb.Balancer.Frontend.{update_frontend_ip_lem}
use flannel_network_plugin.ServiceLb.Management.{
  Parts, World, Network, balancers_of, put_balancer, on_pools,
}
use flannel_network_plugin.ServiceLb.Management.Creation.{
  Balancer, frontend_ip_for, set_frontend, vip_for, vips_for,
}
use flannel_network_plugin.ServiceLb.Management.Creation.Lifts.{
  on_pools-Ensures, balancers_of-put_balancer, on_balancer-Outcome,
}

-- The frontend address of a load balancer, if there is one.
unfoldable pub frontend_of : {Ip Link : Type 0} → Option (ServiceLb Ip Link) → Option Ip
frontend_of none = none
frontend_of (some lb) = lb.frontend_ip

module _ (parts : Parts) (info : Service parts.texts.Ip) (others : Dict String (Unit {0}))
    (existing : Dict String parts.texts.Ip) (network_id : String) where
  open parts use {etcd, texts, host, marks, lo, pools}

  -- Of the addresses gathered so far, the one in a flannel network is the frontend address
  -- of the load balancer, and it is the address that was stored, if there was one.
  abbrev pub Agrees : Dict String texts.Ip → World parts → Type 0
  Agrees vips w =
      (w.other_networks ≡ others)
      × (is_some (lookup network_id others) ≡ false
          → (ip : texts.Ip) → lookup network_id vips ≡ some ip
          → (frontend_of (lookup network_id (balancers_of parts info.id w)) ≡ some ip)
            × ((old : texts.Ip) → lookup network_id existing ≡ some old → ip ≡ old))

  abbrev IsKept : String → texts.Ip → Type 0
  IsKept id ip = (old : texts.Ip) → lookup id existing ≡ some old → ip ≡ old

  some-injective : {A : Type 0} {a b : A} → some a ≡ some b → a ≡ b
  some-injective e = cc

  frontend_ip_for-Agrees :
      (id : String) (ipam_vip : texts.Ip) (vips : Dict String texts.Ip)
      → Ensures
          (Agrees vips)
          (frontend_ip_for parts info id ipam_vip (lookup id existing))
          (λ ip w. Agrees vips w × IsKept id ip)
  unfolding frontend_ip_for balancers_of
  frontend_ip_for-Agrees id ipam_vip vips w h = elim (Option-cases (lookup id existing)) [
    | inr (ip, stored) ↦ rw (stored) (h, λ old same. cc)
    | inl new ↦ rw (new) (go (lookup id w.flannel_networks))
  ]
    where
      go :
          (network : Option Network)
          → Outcome {A = texts.Ip}
              (λ ip w. Agrees vips w × ((old : texts.Ip) → none ≡ some old → ip ≡ old))
              (elim network [
                | none ↦ (none, w)
                | some network ↦
                    on_pools parts
                      (pools.allocate_service_vip network (texts.print_ip ipam_vip) info.id)
                      w
              ])
      go none = tt
      go (some network) =
          Outcome-map (λ _. Agrees vips) _ _ (λ ip w1 agrees. (agrees, λ old never. cc))
            (on_pools-Ensures parts (Agrees vips)
              (pools.allocate_service_vip network (texts.print_ip ipam_vip) info.id) (λ w p db h. h)
              w h)

  -- Once the load balancer of one network has a new address.
  put :
      (id : String) (ip : texts.Ip) (vips : Dict String texts.Ip) (w : World parts)
      → Agrees vips w × IsKept id ip
      → (lb' : Balancer parts) → lb'.frontend_ip ≡ some ip
      → is_some (lookup network_id others) ≡ false
      → (ip' : texts.Ip) (k : host.H) → lookup network_id (insert id ip vips) ≡ some ip'
      → (frontend_of (
            lookup network_id (
              balancers_of parts info.id
                (put_balancer parts info.id id lb' (record w { kernel = k }))))
          ≡ some ip')
        × ((old : texts.Ip) → lookup network_id existing ≡ some old → ip' ≡ old)
  unfolding frontend_of balancers_of
  put id ip vips w h lb' listens flannel ip' k announced =
      rw
        (
          balancers_of-put_balancer parts info.id id lb' (record w { kernel = k }),
          lookup-insert id network_id lb' (balancers_of parts info.id (record w { kernel = k })),
        )
        (go (id == network_id) refl (sym (lookup-insert id network_id ip vips) ∙ announced))
    where
      go :
          (b : Bool)
          → (id == network_id) ≡ b
          → (if b then some ip else lookup network_id vips) ≡ some ip'
          → (frontend_of (
                if b
                then some lb'
                else lookup network_id (balancers_of parts info.id (record w { kernel = k })))
              ≡ some ip')
            × ((old : texts.Ip) → lookup network_id existing ≡ some old → ip' ≡ old)
      go true e shown = (
        listens ∙ shown,
        λ old stored.
            some-injective (sym shown)
            ∙ h.1 old
                (ap (λ key. lookup key existing) ((string_eq.beq_iff id network_id).0 e) ∙ stored),
      )
      go false e shown = h.0.1 flannel ip' shown

  set_frontend-Agrees :
      (id : String) (ip : texts.Ip) (vips : Dict String texts.Ip)
      → Ensures
          (λ w. Agrees vips w × IsKept id ip)
          (set_frontend parts info id ip)
          (λ _. Agrees (insert id ip vips))
  unfolding set_frontend put_balancer
  set_frontend-Agrees id ip vips w h =
      elim (Option-cases (lookup id (balancers_of parts info.id w))) [
        | inl gone ↦ rw (gone, set_frontend) tt
        | inr (lb, here) ↦
            rw (here, set_frontend)
              (on_balancer-Outcome parts info.id id lb (update_frontend_ip host texts marks ip)
                (λ _. Agrees (insert id ip vips)) w
                (λ _ b. (b.0.frontend_ip ≡ some ip) × (b.0.link ≡ lb.link))
                (update_frontend_ip_lem host texts marks ip lb.link lb w.kernel refl)
                (λ a lb' k listens. (
                  h.0.0,
                  λ flannel ip' announced. put id ip vips w h lb' listens.0 flannel ip' k announced,
                )))
      ]

  vip_for-Agrees :
      (id : String) (ipam_vip : texts.Ip) (vips : Dict String texts.Ip)
      → Ensures
          (Agrees vips)
          (vip_for parts info existing id ipam_vip)
          (λ ip. Agrees (insert id ip vips))
  unfolding vip_for
  vip_for-Agrees id ipam_vip vips w h = elim (Bool-cases (is_some (lookup id w.other_networks))) [
    | inl other ↦ rw (other) (
      h.0,
      λ flannel ip announced. h.1 flannel ip (
          untouched other (id == network_id) refl flannel
            (sym (lookup-insert id network_id ipam_vip vips) ∙ announced)),
    )
    | inr flannel ↦ rw (flannel) (
        >>=-Ensures (Agrees vips) (λ ip w. Agrees vips w × IsKept id ip)
          (λ ip. Agrees (insert id ip vips)) _ _ (frontend_ip_for-Agrees id ipam_vip vips)
          (λ ip.
            >>=-Ensures (λ w. Agrees vips w × IsKept id ip) (λ _. Agrees (insert id ip vips))
              (λ ip. Agrees (insert id ip vips)) _ _ (set_frontend-Agrees id ip vips) (λ _ w h. h))
          w h)
  ]
    where
      untouched :
          {ip : texts.Ip}
          → is_some (lookup id w.other_networks) ≡ true
          → (b : Bool) → (id == network_id) ≡ b
          → is_some (lookup network_id others) ≡ false
          → (if b then some ipam_vip else lookup network_id vips) ≡ some ip
          → lookup network_id vips ≡ some ip
      untouched other true e flannel shown = cc (
          sym flannel
          ∙ ap (λ key. is_some (lookup key others)) (sym ((string_eq.beq_iff id network_id).0 e))
          ∙ ap (λ known. is_some (lookup id known)) (sym h.0)
          ∙ other)
      untouched other false e flannel shown = shown

  -- The loop.
  pub vips_for-Agrees :
      (ipam_vips vips : Dict String texts.Ip) (covered : Bool)
      → (is_some (lookup network_id vips) || is_some (lookup network_id ipam_vips)) ≡ covered
      → Ensures
          (Agrees vips)
          (vips_for parts info existing ipam_vips vips)
          (λ vips' w. (is_some (lookup network_id vips') ≡ covered) × Agrees vips' w)
  unfolding vips_for lookup
  vips_for-Agrees [] vips covered c w h = (ground (arith, c), h)
  vips_for-Agrees ((id, ipam_vip) ∷ ipam_vips) vips covered c w h =
      >>=-Ensures (Agrees vips) (λ ip. Agrees (insert id ip vips)) _ _ _
        (vip_for-Agrees id ipam_vip vips)
        (λ ip.
          vips_for-Agrees ipam_vips (insert id ip vips) covered
            (ground (arith, c, lookup-insert id network_id ip vips)))
        w h
