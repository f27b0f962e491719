-- ===== src/Examples/Watch.antt =====
-- A pool of two addresses on a node that watches, on concrete inputs.
use flannel_network_plugin.Prelude.{
  ◌≡◌, refl, true, false, some, List, [], ◌∷◌, string_eq, In, inl, inr, All, arith,
}
use flannel_network_plugin.Prelude.Dict.{lookup, insert, keys}
use flannel_network_plugin.Common.Result.{ok}
use flannel_network_plugin.External.Texts
use flannel_network_plugin.External.Etcd.Single
use flannel_network_plugin.External.Etcd.Single.{Db, single, store_of, single-IsQuiet}
use flannel_network_plugin.Examples.{
  Address, first, second, two_addresses, two_addresses-IsStrict, plugin,
}
use flannel_network_plugin.Ipam.Lease.{
  allocate_ip_for_container, mac_key, allocated_ip_key, allocated_ips_key, type_container_ip,
}
use flannel_network_plugin.Ipam.Lease.Containers.{granted, container_may}
use flannel_network_plugin.Ipam.Lease.Read.{get_allocations}
use flannel_network_plugin.Ipam.Lease.Read.Single.{IsOwn}
use flannel_network_plugin.Ipam.Pool.{
  Pool, Round, allocates_container, releases, allocate_free_ip, record_claim,
}
use flannel_network_plugin.Ipam.Pool.Partition.{IsPartition}
use flannel_network_plugin.Ipam.Pool.Grant.{IsText, allocate_free_ip-granted}
use flannel_network_plugin.Ipam.Pool.Watch.{
  Turn, calls, sees, put_event, delete_event, event_ip, new_pool, turns,
}
use flannel_network_plugin.Ipam.Pool.Watch.Turns.{turns-new_pool, turns-put_event}

-- Nothing is in etcd: both addresses are unused.
abbrev fresh : Pool Address
fresh = record {
  all_ips = first ∷ second ∷ [];
  allocated = [];
  unused = ("10.0.0.1", 7) ∷ ("10.0.0.2", 7) ∷ [];
}

made : new_pool single two_addresses plugin 7 (first ∷ second ∷ []) [] ≡ (ok fresh, [])
unfolding new_pool get_allocations Single.select lookup insert
made = refl

abbrev history : List Turn
history =
    calls (allocates_container "10.0.0.2" "02:43" false 7 [])
    ∷ sees 8 (delete_event "/flannel/allocated-ips/10.0.0.2")
    ∷ sees 9 (put_event "/flannel/allocated-ips/10.0.0.1")
    ∷ calls (releases "10.0.0.2" 10)
    ∷ []

turns-new_pool_example :
    IsPartition single two_addresses plugin
      (turns single two_addresses plugin (λ ip. true) history (false, (fresh, []))).1.0
turns-new_pool_example =
    turns-new_pool single two_addresses plugin (λ ip. true) 7 (first ∷ second ∷ []) [] [] fresh
      history made

-- Another node's container has the first address.
abbrev taken : Db
taken =
    ("/flannel/allocated-ips/10.0.0.1", "container-ip")
    ∷ ("/flannel/allocated-ips/10.0.0.1/mac", "02:43")
    ∷ []

seen_ip : event_ip single two_addresses plugin "/flannel/allocated-ips/10.0.0.1" ≡ some first
unfolding event_ip Texts.split Texts.trim_left Texts.trim_prefix allocated_ips_key
seen_ip = refl

abbrev taken_keys : Db
taken_keys =
    ("/flannel/allocated-ips/10.0.0.1/mac", "02:43")
    ∷ ("/flannel/allocated-ips/10.0.0.1", "container-ip")
    ∷ []

finds : single.get_prefix (allocated_ip_key plugin "10.0.0.1") taken ≡ (some taken_keys, taken)
unfolding Single.select insert allocated_ip_key allocated_ips_key
finds = refl

taken_keys-IsOwn : All (IsOwn plugin "10.0.0.1") taken_keys
unfolding allocated_ip_key allocated_ips_key
taken_keys-IsOwn = (("/mac", inr (inl refl), refl), (("", inl refl, refl), tt))

turns-put_event_example :
    turns single two_addresses plugin
      (λ ip. true)
      (sees 9 (put_event "/flannel/allocated-ips/10.0.0.1") ∷ history)
      (false, (fresh, taken))
    ≡ (true, (fresh, taken))
turns-put_event_example =
    turns-put_event single two_addresses plugin (λ ip. true) 9 "/flannel/allocated-ips/10.0.0.1"
      first taken_keys fresh taken taken history two_addresses-IsStrict seen_ip finds
      taken_keys-IsOwn

abbrev round : Round
round = record { now = 9; claim_time = 10; intn = λ n. 0 }

may_first : container_may two_addresses plugin first "02:42" (store_of []) ≡ true
unfolding container_may lookup
may_first = refl

may_second : container_may two_addresses plugin second "02:42" (store_of []) ≡ true
unfolding container_may lookup
may_second = refl

texts_of :
    All
      (IsText single two_addresses plugin
        (λ ip. container_may two_addresses plugin ip "02:42" (store_of []) ≡ true))
      (keys fresh.unused)
texts_of = ((first, refl, may_first), ((second, refl, may_second), tt))

allocate_free_ip-granted_example :
    (ip : Address) × In (two_addresses.print_ip ip) (keys fresh.unused)
    × ((allocate_free_ip single two_addresses plugin true
          (λ t a db1. allocate_ip_for_container single two_addresses plugin t a "02:42" db1)
          (round ∷ [])
          (fresh, [])).0
        ≡ ok (some ip))
    × ((allocate_free_ip single two_addresses plugin true
          (λ t a db1. allocate_ip_for_container single two_addresses plugin t a "02:42" db1)
          (round ∷ [])
          (fresh, [])).1.0
        ≡ record_claim single two_addresses plugin
            (granted single two_addresses plugin ip 10 type_container_ip
              (mac_key plugin (two_addresses.print_ip ip))
              "02:42")
            fresh)
allocate_free_ip-granted_example =
    allocate_free_ip-granted single two_addresses plugin "02:42" single-IsQuiet round [] fresh []
      "10.0.0.1" ("10.0.0.2" ∷ []) refl refl texts_of (λ n. omega arith)
