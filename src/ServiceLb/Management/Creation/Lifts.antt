-- ===== src/ServiceLb/Management/Creation/Lifts.antt =====
-- plugin/pkg/service_lb/service_lbs_management.go: what calls on one part of the state keep.
use flannel_network_plugin.Prelude.{none, some, Option, String, ◌≡◌, refl, ==_refl, string_eq}
use flannel_network_plugin.Prelude.Dict.{lookup, insert, remove, lookup-insert}
use flannel_network_plugin.Common.Act.{Act, Outcome, Ensures}
use flannel_network_plugin.Common.Result.{Result, ok, err}
use flannel_network_plugin.ServiceLb.Balancer.{Balancing}
use flannel_network_plugin.ServiceLb.Management.{
  Parts, World, on_kernel, in_kernel, on_pools, in_pools, on_db, in_db, on_removed, in_removed,
  entries, balancers_of, put_balancer, without_balancer, on_balancer, in_balancer,
}
use flannel_network_plugin.ServiceLb.Management.Creation.{Balancer}

module _ (parts : Parts) (P : World parts → Type 0) where
  open parts use {etcd, texts, host, marks, pools}

  pub on_kernel-Ensures :
      {A : Type 0} (m : Act host.H A)
      → ((w : World parts) (k : host.H) → P w → P (record w { kernel = k }))
      → Ensures P (on_kernel parts m) (λ _. P)
  unfolding on_kernel in_kernel
  on_kernel-Ensures {A} m indifferent w h = go (m w.kernel)
    where
      go : (r : Option A × host.H) → Outcome (λ _. P) (in_kernel parts w r)
      go (none, k) = tt
      go (some a, k) = indifferent w k h

  pub on_pools-Ensures :
      {A : Type 0} (m : Act (pools.P × etcd.Db) A)
      → ((w : World parts) (p : pools.P) (db : etcd.Db)
          → P w
          → P (record w { addresses = p; db = db }))
      → Ensures P (on_pools parts m) (λ _. P)
  unfolding on_pools in_pools
  on_pools-Ensures {A} m indifferent w h = go (m (w.addresses, w.db))
    where
      go : (r : Option A × (pools.P × etcd.Db)) → Outcome (λ _. P) (in_pools parts w r)
      go (none, (p, db)) = tt
      go (some a, (p, db)) = indifferent w p db h

  pub on_db-Ensures :
      {E A : Type 0} (m : etcd.Db → Result E A × etcd.Db)
      → ((w : World parts) (db : etcd.Db) → P w → P (record w { db = db }))
      → Ensures P (on_db parts m) (λ _. P)
  unfolding on_db in_db
  on_db-Ensures {E} {A} m indifferent w h = go (m w.db)
    where
      go : (r : Result E A × etcd.Db) → Outcome (λ _. P) (in_db parts w r)
      go (err e, db) = tt
      go (ok a, db) = indifferent w db h

  pub on_removed-Ensures :
      {A : Type 0} (lb : Balancer parts) (m : Act (Balancing host texts marks) A)
      → ((w : World parts) (k : host.H) → P w → P (record w { kernel = k }))
      → Ensures P (on_removed parts lb m) (λ _. P)
  unfolding on_removed in_removed
  on_removed-Ensures {A} lb m indifferent w h = go (m (lb, w.kernel))
    where
      go : (r : Option A × Balancing host texts marks) → Outcome (λ _. P) (in_removed parts w r)
      go (none, (lb', k)) = tt
      go (some a, (lb', k)) = indifferent w k h

module _ (parts : Parts) where
  open parts use {texts, host, marks}

  pub balancers_of-put_balancer :
      (service_id network_id : String) (lb : Balancer parts) (w : World parts)
      → balancers_of parts service_id (put_balancer parts service_id network_id lb w)
        ≡ insert network_id lb (balancers_of parts service_id w)
  unfolding put_balancer balancers_of
  balancers_of-put_balancer service_id network_id lb w =
      rw
        (
          lookup-insert service_id service_id
              (insert network_id lb (entries (lookup service_id w.load_balancers)))
              w.load_balancers,
          ==_refl service_id,
        )
        refl

  pub balancers_of-without_balancer :
      (service_id network_id : String) (w : World parts)
      → balancers_of parts service_id (without_balancer parts service_id network_id w)
        ≡ remove network_id (balancers_of parts service_id w)
  unfolding without_balancer balancers_of
  balancers_of-without_balancer service_id network_id w =
      rw
        (
          lookup-insert service_id service_id
              (remove network_id (entries (lookup service_id w.load_balancers))) w.load_balancers,
          ==_refl service_id,
        )
        refl

  pub on_balancer-Outcome :
      {A : Type 0} (service_id network_id : String) (lb : Balancer parts)
      (m : Act (Balancing host texts marks) A) (Q : A → World parts → Type 0) (w : World parts)
      (R : A → Balancing host texts marks → Type 0)
      → Outcome R (m (lb, w.kernel))
      → ((a : A) (lb' : Balancer parts) (k : host.H)
          → R a (lb', k)
          → Q a (put_balancer parts service_id network_id lb' (record w { kernel = k })))
      → Outcome Q (on_balancer parts service_id network_id lb m w)
  unfolding on_balancer in_balancer
  on_balancer-Outcome {A} service_id network_id lb m Q w R outcome then_put =
      go (m (lb, w.kernel)) outcome
    where
      go :
          (r : Option A × Balancing host texts marks)
          → Outcome R r
          → Outcome Q (in_balancer parts service_id network_id w r)
      go (none, (lb', k)) h = tt
      go (some a, (lb', k)) h = then_put a lb' k h
