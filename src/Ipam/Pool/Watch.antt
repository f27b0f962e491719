-- ===== src/Ipam/Pool/Watch.antt =====
-- plugin/pkg/ipam/pool.go: the constructor of a pool, and the watch on its addresses, which takes
-- the pool's lock for each event.
pub mod Turns
use flannel_network_plugin.Prelude.{
  ℕ, Bool, true, false, not, ◌&&◌, Option, none, some, List, [], ◌∷◌, String, string_eq, nat_eq,
  ◌==◌, if◌then◌else◌,
}
use flannel_network_plugin.Prelude.Dict.{Dict, lookup, insert, remove}
use flannel_network_plugin.Common.Result.{Result, ok, err}
use flannel_network_plugin.External.Texts.{Texts, trim_prefix, trim_left, split}
use flannel_network_plugin.External.Etcd.{Etcd}
use flannel_network_plugin.Etcd.Client.{Client}
use flannel_network_plugin.Ipam.Lease.{Allocation, Fault, allocated_ips_key}
use flannel_network_plugin.Ipam.Lease.Read.{read_allocation}
use flannel_network_plugin.Ipam.Pool.{Pool, PoolError, State, sync_ips, Call, step}

-- The key of an event, and whether it is a PUT or a DELETE.
pub data IpEvent : Type 0 where
  put_event : String → IpEvent
  delete_event : String → IpEvent

-- `keyParts[0]`; `strings.Split` never returns an empty slice.
first_part : List String → String
first_part [] = ""
first_part (part ∷ parts) = part

module _ (etcd : Etcd) (texts : Texts) (client : Client) where
  open etcd use {Db}
  open texts use {Ip}

  on_synced :
      Result PoolError (Unit {0}) × State etcd texts client → Result PoolError (Pool Ip) × Db
  on_synced (err e, (p, db)) = (err e, db)
  on_synced (ok _, (p, db)) = (ok p, db)

  -- `NewEtcdBasedAddressPool` on the addresses that `ipsInSubnet` has listed. The error of the watch
  -- is dropped.
  unfoldable pub new_pool : ℕ → List Ip → Db → Result PoolError (Pool Ip) × Db
  unfolding on_synced sync_ips
  new_pool now all_ips db = on_synced (
      sync_ips etcd texts client now
        (record { all_ips = all_ips; allocated = []; unused = [] }, db))

  -- The address of an event.
  unfoldable pub event_ip : String → Option Ip
  unfolding first_part
  event_ip full_key =
      texts.parse_ip
        (first_part (split (trim_left (trim_prefix full_key (allocated_ips_key client)))))

  differs : Allocation Ip → Allocation Ip → Bool
  differs a r = not (
      a.allocation_type == r.allocation_type
      && a.allocated_at == r.allocated_at
      && a.data_value == r.data_value)

  put_allocation : String → Option (Allocation Ip) → Allocation Ip → Pool Ip → Pool Ip
  unfolding differs
  put_allocation ip none r p = record p {
    unused = remove ip p.unused;
    allocated = insert ip r p.allocated;
  }
  put_allocation ip (some existing) r p =
      if differs existing r then record p { allocated = insert ip r p.allocated } else p

  -- Whether the lock is still held when the loop goes on to the next event, and the state.
  abbrev pub Locked : Type 0
  Locked = Bool × State etcd texts client

  on_read : String → Pool Ip → Result Fault (Option (Allocation Ip)) × Db → Locked
  unfolding put_allocation
  on_read ip p (err e, db) = (true, (p, db))
  on_read ip p (ok none, db) = (true, (p, db))
  on_read ip p (ok (some r), db) = (false, (put_allocation ip (lookup ip p.allocated) r p, db))

  on_put : Option Ip → State etcd texts client → Locked
  unfolding on_read
  on_put none s = (false, s)
  on_put (some ip) (p, db) =
      on_read (texts.print_ip ip) p (read_allocation etcd texts client (texts.print_ip ip) db)

  drop_allocation : ℕ → String → Option (Allocation Ip) → Pool Ip → Pool Ip
  drop_allocation now ip none p = p
  drop_allocation now ip (some existing) p = record p {
    allocated = remove ip p.allocated;
    unused = insert ip now p.unused;
  }

  on_delete : ℕ → Option Ip → State etcd texts client → Locked
  unfolding drop_allocation
  on_delete now none s = (false, s)
  on_delete now (some ip) (p, db) =
      let shown = texts.print_ip ip in
      (false, (drop_allocation now shown (lookup shown p.allocated) p, db))

  -- The loop of `watchForIPUsageChanges`, for one event.
  unfoldable pub on_ip_event : ℕ → IpEvent → State etcd texts client → Locked
  unfolding on_put on_delete
  on_ip_event now (put_event key) s = on_put (event_ip key) s
  on_ip_event now (delete_event key) s = on_delete now (event_ip key) s

-- What happens on a node: a method of the pool is called, or the watch meets an event.
pub data Turn : Type 0 where
  calls : Call → Turn
  sees : ℕ → IpEvent → Turn

module _ (etcd : Etcd) (texts : Texts) (client : Client) (in_subnet : texts.Ip → Bool) where
  -- While the lock is held, a turn waits for it, and nothing changes.
  unfoldable pub turn : Turn → Locked etcd texts client → Locked etcd texts client
  unfolding on_ip_event step
  turn t (true, s) = (true, s)
  turn (calls c) (false, s) = (false, step etcd texts client in_subnet c s)
  turn (sees now event) (false, s) = on_ip_event etcd texts client now event s

  unfoldable pub turns : List Turn → Locked etcd texts client → Locked etcd texts client
  unfolding turn
  turns [] s = s
  turns (t ∷ ts) s = turns ts (turn t s)
