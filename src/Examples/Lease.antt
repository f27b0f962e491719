-- ===== src/Examples/Lease.antt =====
-- The claims on two addresses, on concrete stores of one client's cluster.
use flannel_network_plugin.Prelude.{◌≡◌, refl, true, some, List, [], ◌∷◌, string_eq, All}
use flannel_network_plugin.Prelude.Dict.{lookup}
use flannel_network_plugin.Common.Result.{ok}
use flannel_network_plugin.External.Etcd.{Reaches}
use flannel_network_plugin.External.Etcd.Single
use flannel_network_plugin.External.Etcd.Single.{Db, single, store_of, single-IsQuiet}
use flannel_network_plugin.Examples.{
  Address, first, second, two_addresses, two_addresses-IsPlain, plugin,
}
use flannel_network_plugin.Ipam.Lease
use flannel_network_plugin.Ipam.Lease.{
  Allocation, zero_allocation, IpAllocationResult, allocate_ip_for_container,
  allocate_ip_for_service, release_allocation, mac_key, service_id_key, type_container_ip,
  type_service_vip, allocated_ip_key, allocated_ips_key,
}
use flannel_network_plugin.Ipam.Lease.Containers.{
  granted, container_may, service_may, IsClaimed, allocate_ip_for_container_safe,
  allocate_ip_for_service_safe, allocate_ip_for_container-granted,
}
use flannel_network_plugin.Ipam.Lease.Release.{
  IsReleased, release_allocation_safe, release-allocate,
}
use flannel_network_plugin.Ipam.Lease.Read.{read_kvs}
use flannel_network_plugin.Ipam.Lease.Read.RoundTrip.{
  Claim, nobody, service, all_kvs, read_back, read_kvs-all_kvs,
}

-- The first address is reserved.
abbrev reserved : Db
reserved = ("/flannel/allocated-ips/10.0.0.1", "reserved") ∷ []

-- The first address is another container's.
abbrev taken : Db
taken =
    ("/flannel/allocated-ips/10.0.0.1", "container-ip")
    ∷ ("/flannel/allocated-ips/10.0.0.1/mac", "02:43")
    ∷ []

abbrev claimed : Db
claimed = (allocate_ip_for_container single two_addresses plugin 0 first "02:42" reserved).1

abbrev mine : Allocation Address
mine =
    granted single two_addresses plugin first 0 type_container_ip (mac_key plugin "10.0.0.1")
      "02:42"

may : container_may two_addresses plugin first "02:42" (store_of reserved) ≡ true
unfolding container_may lookup allocated_ip_key mac_key allocated_ips_key
may = refl

runs :
    allocate_ip_for_container single two_addresses plugin 0 first "02:42" reserved
    ≡ (ok (record { success = true; allocation = mine }), claimed)
unfolding allocate_ip_for_container Single.commit mac_key allocated_ip_key lookup
    Lease.container_conditions Lease.on_commit allocated_ips_key
runs = refl

allocate_ip_for_container_safe_example :
    (db1 : Db) × Reaches single reserved db1
    × (container_may two_addresses plugin first "02:42" (store_of db1) ≡ true)
    × IsClaimed two_addresses plugin first type_container_ip ""
        (mac_key plugin "10.0.0.1")
        "02:42"
        (store_of db1)
        (store_of claimed)
allocate_ip_for_container_safe_example =
    allocate_ip_for_container_safe single two_addresses plugin first 0 "02:42" reserved claimed
      (record { success = true; allocation = mine }) refl runs refl

abbrev vip_claimed : Db
vip_claimed = (allocate_ip_for_service single two_addresses plugin 0 first "web" reserved).1

abbrev vip : Allocation Address
vip =
    granted single two_addresses plugin first 0 type_service_vip (service_id_key plugin "10.0.0.1")
      "web"

vip_runs :
    allocate_ip_for_service single two_addresses plugin 0 first "web" reserved
    ≡ (ok (record { success = true; allocation = vip }), vip_claimed)
unfolding allocate_ip_for_service Single.commit service_id_key allocated_ip_key lookup
    Lease.service_conditions Lease.on_commit allocated_ips_key
vip_runs = refl

allocate_ip_for_service_safe_example :
    (db1 : Db) × Reaches single reserved db1
    × (service_may two_addresses plugin first "web" (store_of db1) ≡ true)
    × IsClaimed two_addresses plugin first type_service_vip ""
        (service_id_key plugin "10.0.0.1")
        "web"
        (store_of db1)
        (store_of vip_claimed)
allocate_ip_for_service_safe_example =
    allocate_ip_for_service_safe single two_addresses plugin first 0 "web" reserved vip_claimed
      (record { success = true; allocation = vip }) refl vip_runs refl

allocate_ip_for_container-granted_example :
    ((allocate_ip_for_container single two_addresses plugin 0 first "02:42" reserved).0
      ≡ ok (record { success = true; allocation = mine }))
    × IsClaimed two_addresses plugin first type_container_ip ""
        (mac_key plugin "10.0.0.1")
        "02:42"
        (store_of reserved)
        (store_of claimed)
allocate_ip_for_container-granted_example =
    allocate_ip_for_container-granted single two_addresses plugin first 0 single-IsQuiet "02:42"
      reserved refl may

-- The allocation of the container that holds the first address.
abbrev theirs : Allocation Address
theirs = record {
  ip = some first;
  allocation_type = "container-ip";
  allocated_at = 0;
  data_key = "/flannel/allocated-ips/10.0.0.1/mac";
  data_value = "02:43";
}

abbrev given_back : Db
given_back = (release_allocation single two_addresses plugin theirs taken).1

gives_back :
    release_allocation single two_addresses plugin theirs taken
    ≡ (ok (record { success = true; allocation = zero_allocation }), given_back)
unfolding release_allocation Single.commit allocated_ip_key lookup Lease.release_cmps
    Lease.on_release allocated_ips_key
gives_back = refl

release_allocation_safe_example :
    (lookup (allocated_ip_key plugin "10.0.0.1") taken ≡ some "container-ip")
    × IsReleased single two_addresses plugin "10.0.0.1" (store_of taken) (store_of given_back)
release_allocation_safe_example =
    release_allocation_safe single two_addresses plugin first theirs taken given_back
      (record { success = true; allocation = zero_allocation }) refl gives_back refl

release-allocate_example :
    ((release_allocation single two_addresses plugin mine claimed).0
      ≡ ok (record { success = true; allocation = zero_allocation }))
    × IsReleased single two_addresses plugin "10.0.0.1"
        (store_of claimed)
        (store_of (release_allocation single two_addresses plugin mine claimed).1)
release-allocate_example =
    release-allocate single two_addresses plugin single-IsQuiet first 0 "02:42" reserved refl may

-- The first address is reserved, and a service has the second.
abbrev two_claims : List (Claim Address)
two_claims =
    record { ip = first; kind = "reserved"; time = 1_500_000_000; owner = nobody }
    ∷ record { ip = second; kind = "service-vip"; time = 2_000_000_000; owner = service "web" }
    ∷ []

read_kvs-all_kvs_example :
    All
      (λ c.
        lookup (two_addresses.print_ip c.ip) (
          read_kvs two_addresses
            (allocated_ips_key plugin)
            (all_kvs two_addresses two_addresses-IsPlain plugin two_claims)
            [])
        ≡ some (read_back two_addresses two_addresses-IsPlain plugin c))
      two_claims
read_kvs-all_kvs_example =
    read_kvs-all_kvs two_addresses two_addresses-IsPlain plugin two_claims ((refl, tt), (tt, tt))
