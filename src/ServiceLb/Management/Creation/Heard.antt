-- ===== src/ServiceLb/Management/Creation/Heard.antt =====
-- The addresses that the interfaces of load balancers have after `createOrUpdateLoadBalancer` of
-- plugin/pkg/service_lb/service_lbs_management.go.
use mathlib.Core.Path.{subst}
use flannel_network_plugin.Prelude.{
  ◌≡◌, refl, ap, sym, ◌∙◌, Bool, true, false, ◌||◌, Option, none, some, [], ◌∷◌, String, string_eq,
  ◌==◌, if◌then◌else◌, Option-cases, Bool-cases, inl, inr, arith,
}
use flannel_network_plugin.Prelude.Dict.{Dict, lookup, insert, is_some, lookup-insert}
use flannel_network_plugin.Common.Act.{Outcome, Ensures, >>=-Ensures}
use flannel_network_plugin.Common.Service.{Service}
use flannel_network_plugin.Networking.Interfaces.Addresses.{HasAddresses}
use flannel_network_plugin.ServiceLb.Balancer.{Balancing, update_frontend_ip}
use flannel_network_plugin.ServiceLb.Balancer.Frontend.{update_frontend_ip_lem}
use flannel_network_plugin.ServiceLb.Balancer.Addresses.{
  update_frontend_ip-other, update_frontend_ip-HasIn,
}
use flannel_network_plugin.ServiceLb.Management.{
  Parts, World, Network, balancers_of, put_balancer, on_pools, lb_interface_name,
}
use flannel_network_plugin.ServiceLb.Management.Creation.{
  Balancer, frontend_ip_for, set_frontend, vip_for, vips_for,
}
use flannel_network_plugin.ServiceLb.Management.Creation.Lifts.{
  on_pools-Ensures, balancers_of-put_balancer, on_balancer-Outcome,
}
use flannel_network_plugin.ServiceLb.Management.Creation.Devices.{Named, put_balancer-Named}

-- The interfaces of the other networks have other names than that of the network.
abbrev pub IsApart : (parts : Parts) → String → Dict String parts.texts.Ip → Type 0
IsApart parts network_id [] = Unit
IsApart parts network_id ((id, ipam_vip) ∷ more) =
    (lb_interface_name parts id ≡ lb_interface_name parts network_id → id ≡ network_id)
    × IsApart parts network_id more

-- The interface of the network has the frontend address of the service's load balancer.
abbrev pub IsHeard :
    (parts : Parts)
    → HasAddresses parts.host parts.texts
    → Service parts.texts.Ip
    → String
    → World parts
    → Type 0
IsHeard parts addresses info network_id w =
    (lb : Balancer parts) (ip : parts.texts.Ip)
    → lookup network_id (balancers_of parts info.id w) ≡ some lb
    → lb.frontend_ip ≡ some ip
    → addresses.has w.kernel (lb_interface_name parts network_id) ip ≡ true

module _ (parts : Parts) (addresses : HasAddresses parts.host parts.texts)
    (info : Service parts.texts.Ip) (others : Dict String (Unit {0}))
    (existing : Dict String parts.texts.Ip) (network_id : String)
    (flannel : is_some (lookup network_id others) ≡ false) where
  open parts use {texts, host, marks, pools}

  -- It has, once the network is among those whose addresses have been gathered.
  abbrev pub Heard : Bool → World parts → Type 0
  Heard gathered w =
      (w.other_networks ≡ others)
      × Named parts addresses info w
      × (gathered ≡ true → IsHeard parts addresses info network_id w)

  -- What `UpdateFrontendIP` leaves of a load balancer and of the kernel.
  abbrev Updated : texts.Ip → Balancer parts → host.H → Balancing host texts marks → Type 0
  Updated ip lb k s =
      (s.0.frontend_ip ≡ some ip)
      × (s.0.link ≡ lb.link)
      × (addresses.has s.1 (addresses.device lb.link) ip ≡ true)
      × ((d : String) (other : texts.Ip)
          → (addresses.device lb.link ≡ d → ⊥)
          → addresses.has k d other ≡ true
          → addresses.has s.1 d other ≡ true)

  updated :
      (ip : texts.Ip) (lb : Balancer parts) (k : host.H)
      → Outcome (λ _. Updated ip lb k) (update_frontend_ip host texts marks ip (lb, k))
  updated ip lb k =
      go (update_frontend_ip host texts marks ip (lb, k))
        (update_frontend_ip_lem host texts marks ip lb.link lb k refl)
        (update_frontend_ip-HasIn host texts marks addresses ip lb k)
        (λ d other elsewhere has.
          update_frontend_ip-other host texts marks addresses d other ip lb k elsewhere has)
    where
      go :
          (r : Option (Unit {0}) × Balancing host texts marks)
          → Outcome (λ _ s. (s.0.frontend_ip ≡ some ip) × (s.0.link ≡ lb.link)) r
          → Outcome (λ _ s. addresses.has s.1 (addresses.device lb.link) ip ≡ true) r
          → ((d : String) (other : texts.Ip)
              → (addresses.device lb.link ≡ d → ⊥)
              → addresses.has k d other ≡ true
              → addresses.has r.1.1 d other ≡ true)
          → Outcome (λ _. Updated ip lb k) r
      go (none, s) same mine rest = tt
      go (some _, s) same mine rest = (same.0, same.1, mine, rest)

  injective : {A : Type 0} {a b : A} → some a ≡ some b → a ≡ b
  injective e = cc

  -- Once the load balancer of one network has a new address.
  put-Heard :
      (id : String) (ip : texts.Ip) (gathered : Bool) (w : World parts)
      → Heard gathered w
      → (lb_interface_name parts id ≡ lb_interface_name parts network_id → id ≡ network_id)
      → (lb : Balancer parts) → lookup id (balancers_of parts info.id w) ≡ some lb
      → (lb' : Balancer parts) (k : host.H) → Updated ip lb w.kernel (lb', k)
      → Heard
          (id == network_id || gathered)
          (put_balancer parts info.id id lb' (record w { kernel = k }))
  unfolding put_balancer balancers_of
  put-Heard id ip gathered w h distinct lb there lb' k after = (
    h.0,
    put_balancer-Named parts addresses info id lb' (record w { kernel = k }) named h.1,
    λ counts mine ip' found shown.
        go (id == network_id) refl counts mine ip'
          (sym (lookup-insert id network_id lb' (balancers_of parts info.id w))
            ∙ ap (lookup network_id)
                (sym (balancers_of-put_balancer parts info.id id lb' (record w { kernel = k })))
            ∙ found)
          shown,
  )
    where
      named : addresses.device lb'.link ≡ lb_interface_name parts id
      named = ap addresses.device after.1 ∙ h.1 id lb there

      here : addresses.device lb.link ≡ lb_interface_name parts id
      here = h.1 id lb there

      go :
          (same : Bool)
          → (id == network_id) ≡ same
          → (same || gathered) ≡ true
          → (mine : Balancer parts) (ip' : texts.Ip)
          → (if same then some lb' else lookup network_id (balancers_of parts info.id w))
            ≡ some mine
          → mine.frontend_ip ≡ some ip'
          → addresses.has k (lb_interface_name parts network_id) ip' ≡ true
      go true e counts mine ip' chosen shown =
          subst (λ d. addresses.has k d ip' ≡ true)
            (here ∙ ap (lb_interface_name parts) ((string_eq.beq_iff id network_id).0 e))
            (subst (λ a. addresses.has k (addresses.device lb.link) a ≡ true)
              (injective (
                sym after.0
                ∙ ap (λ (b : Balancer parts). b.frontend_ip) (injective chosen)
                ∙ shown))
              after.2)
      go false e counts mine ip' chosen shown =
          after.3 (lb_interface_name parts network_id) ip'
            (λ same. cc (sym e ∙ (string_eq.beq_iff id network_id).1 (distinct (sym here ∙ same))))
            (h.2 counts mine ip' chosen shown)

  set_frontend-Heard :
      (id : String) (ip : texts.Ip) (gathered : Bool)
      → (lb_interface_name parts id ≡ lb_interface_name parts network_id → id ≡ network_id)
      → Ensures
          (Heard gathered)
          (set_frontend parts info id ip)
          (λ _. Heard (id == network_id || gathered))
  unfolding set_frontend
  set_frontend-Heard id ip gathered distinct w h =
      elim (Option-cases (lookup id (balancers_of parts info.id w))) [
        | inl gone ↦ rw (gone, set_frontend) tt
        | inr (lb, there) ↦
            rw (there, set_frontend)
              (on_balancer-Outcome parts info.id id lb (update_frontend_ip host texts marks ip)
                (λ _. Heard (id == network_id || gathered)) w (λ _. Updated ip lb w.kernel)
                (updated ip lb w.kernel)
                (λ a lb' k after. put-Heard id ip gathered w h distinct lb there lb' k after))
      ]

  frontend_ip_for-Heard :
      (id : String) (ipam_vip : texts.Ip) (stored : Option texts.Ip) (gathered : Bool)
      → Ensures
          (Heard gathered)
          (frontend_ip_for parts info id ipam_vip stored)
          (λ _. Heard gathered)
  unfolding frontend_ip_for balancers_of
  frontend_ip_for-Heard id ipam_vip (some ip) gathered w h = h
  frontend_ip_for-Heard id ipam_vip none gathered w h = go (lookup id w.flannel_networks)
    where
      go :
          (network : Option Network)
          → Outcome {A = texts.Ip}
              (λ _. Heard gathered)
              (elim network [
                | none ↦ (none, w)
                | some network ↦
                    on_pools parts
                      (pools.allocate_service_vip network (texts.print_ip ipam_vip) info.id)
                      w
              ])
      go none = tt
      go (some network) =
          on_pools-Ensures parts (Heard gathered)
            (pools.allocate_service_vip network (texts.print_ip ipam_vip) info.id) (λ w p db h. h) w
            h

  vip_for-Heard :
      (id : String) (ipam_vip : texts.Ip) (gathered : Bool)
      → (lb_interface_name parts id ≡ lb_interface_name parts network_id → id ≡ network_id)
      → Ensures
          (Heard gathered)
          (vip_for parts info existing id ipam_vip)
          (λ _. Heard (id == network_id || gathered))
  unfolding vip_for
  vip_for-Heard id ipam_vip gathered distinct w h =
      elim (Bool-cases (is_some (lookup id w.other_networks))) [
        | inl other ↦ rw (other, elsewhere other) h
        | inr here ↦ rw (here) (
            >>=-Ensures (Heard gathered) (λ _. Heard gathered)
              (λ _. Heard (id == network_id || gathered)) _ _
              (frontend_ip_for-Heard id ipam_vip (lookup id existing) gathered)
              (λ ip.
                >>=-Ensures (Heard gathered) (λ _. Heard (id == network_id || gathered))
                  (λ _. Heard (id == network_id || gathered)) _ _
                  (set_frontend-Heard id ip gathered distinct) (λ _ w h. h))
              w h)
      ]
    where
      elsewhere : is_some (lookup id w.other_networks) ≡ true → (id == network_id) ≡ false
      elsewhere other = elim (Bool-cases (id == network_id)) [
        | inr differs ↦ differs
        | inl same ↦ cc (
            sym flannel
            ∙ ap (λ key. is_some (lookup key others))
                (sym ((string_eq.beq_iff id network_id).0 same))
            ∙ ap (λ known. is_some (lookup id known)) (sym h.0)
            ∙ other)
      ]

  -- The loop.
  pub vips_for-Heard :
      (ipam_vips vips : Dict String texts.Ip) (gathered : Bool)
      → IsApart parts network_id ipam_vips
      → Ensures
          (Heard gathered)
          (vips_for parts info existing ipam_vips vips)
          (λ _. Heard (gathered || is_some (lookup network_id ipam_vips)))
  unfolding vips_for lookup
  vips_for-Heard [] vips gathered apart w h = rw (last gathered) h
    where
      last : (b : Bool) → (b || false) ≡ b
      last b = ground arith
  vips_for-Heard ((id, ipam_vip) ∷ ipam_vips) vips gathered apart w h =
      rw (both (id == network_id) gathered (lookup network_id ipam_vips)) (
        >>=-Ensures (Heard gathered) (λ _. Heard (id == network_id || gathered))
          (λ _. Heard ((id == network_id || gathered) || is_some (lookup network_id ipam_vips)))
          (vip_for parts info existing id ipam_vip) _ (vip_for-Heard id ipam_vip gathered apart.0)
          (λ ip.
            vips_for-Heard ipam_vips (insert id ip vips) (id == network_id || gathered) apart.1)
          w h)
    where
      both :
          (same g : Bool) (o : Option texts.Ip)
          → (g || is_some (if same then some ipam_vip else o)) ≡ ((same || g) || is_some o)
      both true g o = ground arith
      both false g o = ground arith
