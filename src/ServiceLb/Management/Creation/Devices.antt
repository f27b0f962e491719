-- ===== src/ServiceLb/Management/Creation/Devices.antt =====
-- The links of load balancers, which plugin/pkg/service_lb/service_lbs_management.go creates under
-- the name of their network's interface.
use flannel_network_plugin.Prelude.{
  ◌≡◌, refl, ap, sym, ◌∙◌, Bool, true, false, not, ◌&&◌, Option, none, some, List, [], ◌∷◌, String,
  string_eq, nat_beq, ◌==◌, if◌then◌else◌, ℕ, Bool-cases, inl, inr,
}
use flannel_network_plugin.Prelude.Dict.{lookup, is_some, lookup-insert, lookup-remove}
use flannel_network_plugin.Common.Act.{Act, ◌>>=◌, pure, for_each, Outcome, Ensures, >>=-Ensures}
use flannel_network_plugin.Common.Service.{Service}
use flannel_network_plugin.External.Host.{LinkReply, link_found, link_not_found, link_failed}
use flannel_network_plugin.Networking.Interfaces.{
  interface_exists, add_interface, found_link, ensure_interface,
}
use flannel_network_plugin.Networking.Interfaces.Addresses.{HasAddresses}
use flannel_network_plugin.ServiceLb.Fwmarks.{get_mark, release_mark}
use flannel_network_plugin.ServiceLb.Balancer.{new_service_lb, delete}
use flannel_network_plugin.ServiceLb.Management.{
  in_kernel, Parts, World, Network, balancers_of, put_balancer, without_balancer, on_kernel,
  on_pools, lb_interface_name,
}
use flannel_network_plugin.ServiceLb.Management.Creation.{
  Balancer, add_balancer, ensure_network, release_vip, released, delete_for_network, drop_network,
}
use flannel_network_plugin.ServiceLb.Management.Creation.Lifts.{
  on_pools-Ensures, on_db-Ensures, on_removed-Ensures, balancers_of-put_balancer,
  balancers_of-without_balancer,
}

-- What does not depend on the state.
fixed : {S A : Type 0} {X : Type 0} (m : Act S A) → Ensures (λ _. X) m (λ _ _. X)
fixed {S} {A} {X} m s x = go (m s)
  where
    go : (r : Option A × S) → Outcome (λ _ _. X) r
    go (none, s1) = tt
    go (some a, s1) = x

module _ (parts : Parts) (addresses : HasAddresses parts.host parts.texts)
    (info : Service parts.texts.Ip) where
  open parts use {etcd, texts, host, marks, lo, pools, fwmarks_client}

  -- Each load balancer of the service has the link of its network's interface.
  abbrev pub Named : World parts → Type 0
  Named w =
      (id : String) (lb : Balancer parts)
      → lookup id (balancers_of parts info.id w) ≡ some lb
      → addresses.device lb.link ≡ lb_interface_name parts id

  found_link_lem :
      (name : String) (h : host.H)
      → Outcome
          (λ link _. addresses.device link ≡ name)
          (found_link host (host.link_by_name name h) h)
  unfolding found_link
  found_link_lem name h = go (host.link_by_name name h) refl
    where
      go :
          (reply : LinkReply host.Link)
          → host.link_by_name name h ≡ reply
          → Outcome (λ link _. addresses.device link ≡ name) (found_link host reply h)
      go (link_found link) e = addresses.link_by_name_lem name h link e
      go link_not_found e = tt
      go link_failed e = tt

  ensure_interface_lem :
      (name kind : String) (mtu : ℕ) (up : Bool) (h : host.H)
      → Outcome (λ link _. addresses.device link ≡ name) (ensure_interface host name kind mtu up h)
  unfolding ensure_interface
  ensure_interface_lem name kind mtu up h =
      >>=-Ensures Any (λ _. Any) Right (interface_exists host name kind) _
        (fixed (interface_exists host name kind))
        (λ exists.
          >>=-Ensures Any (λ _. Any) Right (added exists) _ (fixed (added exists))
            (λ _.
              >>=-Ensures Any Right Right (λ h. found_link host (host.link_by_name name h) h) _
                (λ h _. found_link_lem name h)
                (λ link.
                  >>=-Ensures (Right link) (λ _. Right link) Right (sized link) _
                    (fixed (sized link))
                    (λ _.
                      >>=-Ensures (Right link) (λ _. Right link) Right (switched link)
                        (λ _. pure link) (fixed (switched link)) (λ _ h right. right)))))
        h tt
    where
      Any : host.H → Type 0
      Any _ = Unit {0}

      Right : host.Link → host.H → Type 0
      Right link _ = addresses.device link ≡ name

      added : Bool → Act host.H (Unit {0})
      added exists = if exists then pure tt else add_interface host name kind mtu up

      sized : host.Link → Act host.H (Unit {0})
      sized link = if nat_beq (host.link_mtu link) mtu then pure tt else host.link_set_mtu link mtu

      switched : host.Link → Act host.H (Unit {0})
      switched link =
          if host.link_up link && not up
          then host.link_set_down link
          else if not (host.link_up link) && up
          then host.link_set_up link
          else pure tt

  pub put_balancer-Named :
      (id : String) (lb : Balancer parts) (w : World parts)
      → addresses.device lb.link ≡ lb_interface_name parts id
      → Named w
      → Named (put_balancer parts info.id id lb w)
  put_balancer-Named id lb w mine named j lb' there = go (id == j) refl (
      sym (lookup-insert id j lb (balancers_of parts info.id w))
      ∙ ap (lookup j) (sym (balancers_of-put_balancer parts info.id id lb w))
      ∙ there)
    where
      go :
          (same : Bool)
          → (id == j) ≡ same
          → (if same then some lb else lookup j (balancers_of parts info.id w)) ≡ some lb'
          → addresses.device lb'.link ≡ lb_interface_name parts j
      go true e found =
          ap (λ (b : Balancer parts). addresses.device b.link) (sym (injective found))
          ∙ mine
          ∙ ap (lb_interface_name parts) ((string_eq.beq_iff id j).0 e)
        where
          injective : {a b : Balancer parts} → some a ≡ some b → a ≡ b
          injective e = cc
      go false e found = named j lb' found

  without_balancer-Named :
      (id : String) (w : World parts) → Named w → Named (without_balancer parts info.id id w)
  without_balancer-Named id w named j lb there = go (id == j) (
      sym (lookup-remove id j (balancers_of parts info.id w))
      ∙ ap (lookup j) (sym (balancers_of-without_balancer parts info.id id w))
      ∙ there)
    where
      go :
          (same : Bool)
          → (if same then none else lookup j (balancers_of parts info.id w)) ≡ some lb
          → addresses.device lb.link ≡ lb_interface_name parts j
      go true found = cc
      go false found = named j lb found

  add_balancer-Named :
      (id : String) (link : host.Link)
      → addresses.device link ≡ lb_interface_name parts id
      → Ensures Named (add_balancer parts info id link) (λ _. Named)
  unfolding add_balancer new_service_lb balancers_of
  add_balancer-Named id link mine w named =
      elim (Bool-cases (is_some (lookup id (balancers_of parts info.id w)))) [
        | inl here ↦ rw (here, add_balancer) named
        | inr fresh ↦
            rw (fresh, add_balancer)
              (>>=-Ensures Named (λ _. Named) (λ _. Named) _ _
                (on_db-Ensures parts Named
                  (get_mark etcd marks fwmarks_client info.id id (parts.suffixes info.id id))
                  (λ w db h. h))
                (λ fwmark w named.
                  put_balancer-Named id (new_service_lb host texts marks link id info.id fwmark) w
                    mine named)
                w named)
      ]

  -- The state of a new link, and its name.
  new_link-Named :
      (id : String) (mtu : ℕ)
      → Ensures Named
          (on_kernel parts (ensure_interface host (lb_interface_name parts id) "dummy" mtu true))
          (λ link w. Named w × (addresses.device link ≡ lb_interface_name parts id))
  unfolding on_kernel in_kernel balancers_of
  new_link-Named id mtu w named =
      go (ensure_interface host (lb_interface_name parts id) "dummy" mtu true w.kernel)
        (ensure_interface_lem (lb_interface_name parts id) "dummy" mtu true w.kernel)
    where
      go :
          (r : Option host.Link × host.H)
          → Outcome (λ link _. addresses.device link ≡ lb_interface_name parts id) r
          → Outcome
              (λ link w. Named w × (addresses.device link ≡ lb_interface_name parts id))
              (in_kernel parts w r)
      go (none, h) right = tt
      go (some link, h) right = (named, right)

  ensure_network-Named : (id : String) → Ensures Named (ensure_network parts info id) (λ _. Named)
  unfolding ensure_network
  ensure_network-Named id w named = go (lookup id w.flannel_networks)
    where
      elsewhere : (other : Bool) → Outcome (λ _. Named) (if other then (some tt, w) else (none, w))
      elsewhere true = named
      elsewhere false = tt

      go :
          (network : Option Network)
          → Outcome {A = Unit {0}}
              (λ _. Named)
              (elim network [
                | none ↦ if is_some (lookup id w.other_networks) then (some tt, w) else (none, w)
                | some network ↦
                    (on_kernel parts (
                          ensure_interface host
                            (lb_interface_name parts id)
                            "dummy"
                            network.mtu
                            true)
                        >>= (λ link. add_balancer parts info id link))
                      w
              ])
      go none = elsewhere (is_some (lookup id w.other_networks))
      go (some network) =
          >>=-Ensures Named
            (λ link w. Named w × (addresses.device link ≡ lb_interface_name parts id)) (λ _. Named)
            _ _ (new_link-Named id network.mtu) (λ link w h. add_balancer-Named id link h.1 w h.0) w
            named

  release_vip-Named :
      (id : String) (ip : Option texts.Ip)
      → Ensures Named (release_vip parts info id ip) (λ _. Named)
  unfolding release_vip balancers_of
  release_vip-Named id none w named = named
  release_vip-Named id (some ip) w named = go _ (lookup id w.flannel_networks)
    where
      go :
          (same : Bool) (network : Option Network)
          → Outcome
              (λ _. Named)
              (if same then (some tt, w) else elim network [
                | none ↦ (none, w)
                | some network ↦ on_pools parts (pools.release_ip network (texts.print_ip ip)) w
              ])
      go true network = named
      go false none = tt
      go false (some network) =
          on_pools-Ensures parts Named (pools.release_ip network (texts.print_ip ip))
            (λ w p db h. h) w named

  delete_for_network-Named :
      (id : String) (lb : Balancer parts)
      → Ensures Named (delete_for_network parts info id lb) (λ _. Named)
  unfolding delete_for_network balancers_of
  delete_for_network-Named id lb =
      >>=-Ensures Named (λ _. Named) (λ _. Named) _ _
        (on_removed-Ensures parts Named lb (delete host texts marks ⦃ip_eq = parts.ip_eq⦄ lo)
          (λ w k h. h))
        (λ _.
          >>=-Ensures Named (λ _. Named) (λ _. Named) _ _ (release_vip-Named id lb.frontend_ip)
            (λ _.
              on_db-Ensures parts Named
                (λ db.
                  released parts (release_mark etcd marks fwmarks_client info.id id lb.fwmark db))
                (λ w db h. h)))

  drop_network-Named : (id : String) → Ensures Named (drop_network parts info id) (λ _. Named)
  unfolding drop_network
  drop_network-Named id w named = go (lookup id (balancers_of parts info.id w))
    where
      go :
          (there : Option (Balancer parts))
          → Outcome {A = Unit {0}}
              (λ _. Named)
              (elim there [
                | none ↦ (some tt, w)
                | some lb ↦
                    delete_for_network parts info id lb (without_balancer parts info.id id w)
              ])
      go none = named
      go (some lb) =
          delete_for_network-Named id lb (without_balancer parts info.id id w)
            (without_balancer-Named id w named)

  loop-Named :
      (f : String → Act (World parts) (Unit {0}))
      → ((id : String) → Ensures Named (f id) (λ _. Named))
      → (ids : List String) → Ensures Named (for_each f ids) (λ _. Named)
  unfolding for_each
  loop-Named f round [] w named = named
  loop-Named f round (id ∷ ids) w named =
      >>=-Ensures Named (λ _. Named) (λ _. Named) (f id) _ (round id) (λ _. loop-Named f round ids)
        w named

  -- The two loops.
  pub ensure_networks-Named :
      (ids : List String) → Ensures Named (for_each (ensure_network parts info) ids) (λ _. Named)
  ensure_networks-Named = loop-Named (ensure_network parts info) ensure_network-Named

  pub drop_networks-Named :
      (ids : List String) → Ensures Named (for_each (drop_network parts info) ids) (λ _. Named)
  drop_networks-Named = loop-Named (drop_network parts info) drop_network-Named
