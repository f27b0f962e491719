-- ===== src/Ipam/Pool/Watch/Turns.antt =====
-- Calls and events in any order.
use flannel_network_plugin.Prelude.{
  ℕ, ◌≡◌, refl, ap, ◌∙◌, Bool, true, false, Option, none, some, List, [], ◌∷◌, String, string_eq,
  arith, All, inl, inr, Option-cases,
}
use flannel_network_plugin.Prelude.Dict.{Dict, lookup, lookup-insert, lookup-remove}
use flannel_network_plugin.Common.Result.{Result, ok, err}
use flannel_network_plugin.External.Texts.{Texts}
use flannel_network_plugin.External.Etcd.{Etcd}
use flannel_network_plugin.Etcd.Client.{Client}
use flannel_network_plugin.Ipam.Lease.{Allocation, Fault, allocated_ip_key}
use flannel_network_plugin.Ipam.Lease.Read.{read_allocation}
use flannel_network_plugin.Ipam.Lease.Read.Single.{IsStrict, IsOwn, read_allocation-none}
use flannel_network_plugin.Ipam.Pool.{Pool, PoolError, State, sync_ips}
use flannel_network_plugin.Ipam.Pool.Partition.{IsPartition, sync_ips-IsPartition, step-IsPartition}
use flannel_network_plugin.Ipam.Pool.Watch.{
  IpEvent, put_event, delete_event, new_pool, on_synced, event_ip, put_allocation, Locked, on_read,
  on_put, drop_allocation, on_delete, on_ip_event, Turn, calls, sees, turn, turns,
}

module _ (etcd : Etcd) (texts : Texts) (client : Client) where
  open etcd use {Db}
  open texts use {Ip}

  put_allocation-IsPartition :
      (ip : String) (r : Allocation Ip) (p : Pool Ip)
      → IsPartition etcd texts client p
      → IsPartition etcd texts client
          (put_allocation etcd texts client ip (lookup ip p.allocated) r p)
  unfolding put_allocation
  put_allocation-IsPartition ip r p h = elim (Option-cases (lookup ip p.allocated)) [
    | inl gone ↦
        rw (gone, put_allocation)
          (record {
            apart = λ key. ground (
              arith,
              h.apart key,
              lookup-insert ip key r p.allocated,
              lookup-remove ip key p.unused,
            );
          })
    | inr (a, hit) ↦ record {
      apart = λ key. ground (
        arith,
        hit,
        h.apart key,
        h.apart ip,
        lookup-insert ip key r p.allocated,
        string_eq.beq_iff ip key,
      );
    }
  ]

  drop_allocation-IsPartition :
      (now : ℕ) (ip : String) (p : Pool Ip)
      → IsPartition etcd texts client p
      → IsPartition etcd texts client
          (drop_allocation etcd texts client now ip (lookup ip p.allocated) p)
  unfolding drop_allocation
  drop_allocation-IsPartition now ip p h = elim (Option-cases (lookup ip p.allocated)) [
    | inl gone ↦ rw (gone, drop_allocation) h
    | inr (a, hit) ↦
        rw (hit, drop_allocation)
          (record {
            apart = λ key. ground (
              arith,
              h.apart key,
              lookup-remove ip key p.allocated,
              lookup-insert ip key now p.unused,
            );
          })
  ]

  on_read-IsPartition :
      (ip : String) (p : Pool Ip) (r : Result Fault (Option (Allocation Ip)) × Db)
      → IsPartition etcd texts client p
      → IsPartition etcd texts client (on_read etcd texts client ip p r).1.0
  unfolding on_read
  on_read-IsPartition ip p (err e, db) h = h
  on_read-IsPartition ip p (ok none, db) h = h
  on_read-IsPartition ip p (ok (some r), db) h = put_allocation-IsPartition ip r p h

  on_ip_event-IsPartition :
      (now : ℕ) (event : IpEvent) (s : State etcd texts client)
      → IsPartition etcd texts client s.0
      → IsPartition etcd texts client (on_ip_event etcd texts client now event s).1.0
  unfolding on_ip_event
  on_ip_event-IsPartition now (put_event key) s h = put (event_ip etcd texts client key)
    where
      put : (ip : Option Ip) → IsPartition etcd texts client (on_put etcd texts client ip s).1.0
      put none = h
      put (some ip) =
          on_read-IsPartition (texts.print_ip ip) s.0
            (read_allocation etcd texts client (texts.print_ip ip) s.1) h
  on_ip_event-IsPartition now (delete_event key) s h = drop (event_ip etcd texts client key)
    where
      drop :
          (ip : Option Ip)
          → IsPartition etcd texts client (on_delete etcd texts client now ip s).1.0
      drop none = h
      drop (some ip) = drop_allocation-IsPartition now (texts.print_ip ip) s.0 h

  -- A new pool counts as unused only what is not allocated.
  new_pool-IsPartition :
      (now : ℕ) (all_ips : List Ip) (db db' : Db) (p : Pool Ip)
      → new_pool etcd texts client now all_ips db ≡ (ok p, db')
      → IsPartition etcd texts client p
  unfolding new_pool
  new_pool-IsPartition now all_ips db db' p h =
      go (sync_ips etcd texts client now start)
        (sync_ips-IsPartition etcd texts client now start apart) h
    where
      start : State etcd texts client
      start = (record { all_ips = all_ips; allocated = []; unused = [] }, db)

      apart : IsPartition etcd texts client start.0
      apart = record { apart = λ key. inl (unfold lookup in refl) }

      go :
          (r : Result PoolError (Unit {0}) × State etcd texts client)
          → IsPartition etcd texts client r.1.0
          → on_synced etcd texts client r ≡ (ok p, db')
          → IsPartition etcd texts client p
      go (err e, s) k e1 = cc
      go (ok _, (p1, db1)) k e1 = let same : p1 ≡ p = ground arith in rw (← same) k

  module _ (in_subnet : Ip → Bool) where
    turn-IsPartition :
        (t : Turn) (s : Locked etcd texts client)
        → IsPartition etcd texts client s.1.0
        → IsPartition etcd texts client (turn etcd texts client in_subnet t s).1.0
    unfolding turn
    turn-IsPartition t (true, s) h = h
    turn-IsPartition (calls c) (false, s) h = step-IsPartition etcd texts client in_subnet c s h
    turn-IsPartition (sees now event) (false, s) h = on_ip_event-IsPartition now event s h

    turns-IsPartition :
        (ts : List Turn) (s : Locked etcd texts client)
        → IsPartition etcd texts client s.1.0
        → IsPartition etcd texts client (turns etcd texts client in_subnet ts s).1.0
    unfolding turns
    turns-IsPartition [] s h = h
    turns-IsPartition (t ∷ ts) s h =
        turns-IsPartition ts (turn etcd texts client in_subnet t s) (turn-IsPartition t s h)

    -- In a pool that the constructor has made no address is ever both allocated and unused, whatever
    -- methods are called and whatever events the watch meets, in any order, whatever other nodes and
    -- etcd do.
    pub turns-new_pool :
        (now : ℕ) (all_ips : List Ip) (db db' : Db) (p : Pool Ip) (ts : List Turn)
        → new_pool etcd texts client now all_ips db ≡ (ok p, db')
        → IsPartition etcd texts client (turns etcd texts client in_subnet ts (false, (p, db'))).1.0
    turns-new_pool now all_ips db db' p ts h =
        turns-IsPartition ts (false, (p, db')) (new_pool-IsPartition now all_ips db db' p h)

    turns_locked :
        (ts : List Turn) (s : State etcd texts client)
        → turns etcd texts client in_subnet ts (true, s) ≡ (true, s)
    unfolding turns
    turns_locked [] s = refl
    turns_locked (t ∷ ts) s = turns_locked ts s

    -- Once the watch meets a PUT for an address, and the keys that etcd has under the address are
    -- those that the plugin writes for it, the lock of the pool is never given back: whatever is
    -- called or met afterwards, the pool stays as it was.
    pub turns-put_event :
        (now : ℕ) (key : String) (ip : Ip) (kvs : Dict String String) (p : Pool Ip) (db db' : Db)
        (ts : List Turn)
        → IsStrict texts
        → event_ip etcd texts client key ≡ some ip
        → etcd.get_prefix (allocated_ip_key client (texts.print_ip ip)) db ≡ (some kvs, db')
        → All (IsOwn client (texts.print_ip ip)) kvs
        → turns etcd texts client in_subnet (sees now (put_event key) ∷ ts) (false, (p, db))
          ≡ (true, (p, db'))
    unfolding turns on_ip_event
    turns-put_event now key ip kvs p db db' ts strict address got own =
        let nothing =
          read_allocation-none etcd texts client (texts.print_ip ip) kvs db db' strict got own in
        ap (turns etcd texts client in_subnet ts)
          (rw (address, on_put) (rw (nothing, on_read) refl))
        ∙ turns_locked ts (p, db')
