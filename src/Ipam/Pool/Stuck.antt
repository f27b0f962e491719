-- ===== src/Ipam/Pool/Stuck.antt =====
-- The loop of `allocateFreeIP` of plugin/pkg/ipam/pool.go, when an address is refused.
use flannel_network_plugin.Prelude.{ℕ, ◌≡◌, refl, false, List, [], ◌∷◌}
use flannel_network_plugin.Prelude.Dict.{values}
use flannel_network_plugin.Common.Result.{ok, err}
use flannel_network_plugin.External.Texts.{Texts}
use flannel_network_plugin.External.Etcd.{Etcd}
use flannel_network_plugin.Etcd.Client.{Client}
use flannel_network_plugin.Ipam.Lease.{zero_allocation}
use flannel_network_plugin.Ipam.Selection.{get_next_available_ip}
use flannel_network_plugin.Ipam.Pool.{
  Pool, Round, Allocator, get_available_unused_ips, gave_up, allocate_free_ip, try_available,
}

-- If the next address in order is refused, at every time and with no change to the cluster, and the
-- available addresses do not depend on the time, then the loop never ends: however many rounds it
-- is given, it neither returns an address nor an error of its own, and the pool stays as it is.
pub allocate_free_ip_stuck :
    (etcd : Etcd) (texts : Texts) (client : Client) (allocator : Allocator etcd texts client)
    (p : Pool texts.Ip) (db : etcd.Db) (available : List texts.Ip) (ip : texts.Ip)
    → ((now : ℕ) → get_available_unused_ips etcd texts client now (p, db) ≡ (ok available, (p, db)))
    → get_next_available_ip texts available (values p.allocated) ≡ ok ip
    → ((t : ℕ)
        → allocator t ip db ≡ (ok (record { success = false; allocation = zero_allocation }), db))
    → (rounds : List Round)
    → allocate_free_ip etcd texts client false allocator rounds (p, db) ≡ (err gave_up, (p, db))
unfolding allocate_free_ip
allocate_free_ip_stuck etcd texts client allocator p db available ip same next refuses [] = refl
allocate_free_ip_stuck etcd texts client allocator p db available ip same next refuses
      (round ∷ rounds) =
    rw (same round.now, try_available, next, refuses round.claim_time)
      (allocate_free_ip_stuck etcd texts client allocator p db available ip same next refuses
        rounds)
