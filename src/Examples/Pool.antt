-- ===== src/Examples/Pool.antt =====
-- A pool of two addresses, and the choice of the next one, on concrete inputs.
use mathlib.Core.Path.{subst}
use flannel_network_plugin.Prelude.{
  Bool-cases, ltb, ℕ, ◌≡◌, refl, true, false, none, some, List, [], ◌∷◌, string_eq, ◌==◌, In, inl,
  inr, arith,
}
use flannel_network_plugin.Prelude.Dict.{lookup, values}
use flannel_network_plugin.Common.Result.{ok, err}
use flannel_network_plugin.External.Etcd.Single.{single}
use flannel_network_plugin.Examples.{Address, first, second, two_addresses, plugin}
use flannel_network_plugin.Ipam.Lease.{Allocation, zero_allocation}
use flannel_network_plugin.Ipam.Selection
use flannel_network_plugin.Ipam.Selection.{big_endian, get_next_available_ip, get_last_reserved_ip}
use flannel_network_plugin.Ipam.Selection.Order.{IsV4, IsNearest}
use flannel_network_plugin.Ipam.Selection.Next.{get_next_available_ip-IsNearest}
use flannel_network_plugin.Ipam.Pool
use flannel_network_plugin.Ipam.Pool.{
  Pool, PoolError, Round, Call, reserves, allocates_container, releases, Allocator, State, run,
  gave_up, allocate_free_ip, get_available_unused_ips,
}
use flannel_network_plugin.Ipam.Pool.Partition.{IsPartition, run-IsPartition}
use flannel_network_plugin.Ipam.Pool.Stuck.{allocate_free_ip_stuck}

abbrev lease : Allocation Address
lease = record {
  ip = some first;
  allocation_type = "container-ip";
  allocated_at = 5;
  data_key = "/flannel/allocated-ips/10.0.0.1/mac";
  data_value = "02:42";
}

-- The first address is allocated, the second is not.
abbrev half : Pool Address
half = record {
  all_ips = first ∷ second ∷ [];
  allocated = ("10.0.0.1", lease) ∷ [];
  unused = ("10.0.0.2", 0) ∷ [];
}

half-IsPartition : IsPartition single two_addresses plugin half
unfolding lookup
half-IsPartition = record {
  apart = λ key. elim (Bool-cases ("10.0.0.1" == key)) [
    | inl same ↦
        inr (
          subst (λ k. lookup k half.unused ≡ none) ((string_eq.beq_iff "10.0.0.1" key).0 same) refl)
    | inr other ↦ inl (rw other refl)
  ];
}

abbrev calls : List Call
calls =
    allocates_container "10.0.0.2" "02:43" false 7 []
    ∷ releases "10.0.0.1" 8
    ∷ reserves false (record { now = 400_000_000_000; claim_time = 9; intn = λ n. 0 } ∷ [])
    ∷ []

run-IsPartition_example :
    IsPartition single two_addresses plugin
      (run single two_addresses plugin (λ ip. true) calls (half, [])).0
run-IsPartition_example =
    run-IsPartition single two_addresses plugin (λ ip. true) calls (half, []) half-IsPartition

-- A claim that is always refused.
abbrev never : Allocator single two_addresses plugin
never t ip db = (ok (record { success = false; allocation = zero_allocation }), db)

-- The one unused address is available at any time, whether or not it has rested.
available_always :
    (now : ℕ)
    → get_available_unused_ips single two_addresses plugin now (half, [])
      ≡ (ok (second ∷ []), (half, []))
unfolding get_available_unused_ips Pool.rested Pool.parse_all
available_always now = elim (Bool-cases (ltb 300_000_000_000 now)) [
  | inl yep ↦ rw yep refl
  | inr nope ↦ rw nope refl
]

next_is_second :
    get_next_available_ip two_addresses (second ∷ []) (values half.allocated) ≡ ok second
unfolding get_next_available_ip Selection.get_last_reserved_ip Selection.sort_ips big_endian
next_is_second = refl

allocate_free_ip_stuck_example :
    allocate_free_ip single two_addresses plugin false never
      (record { now = 1; claim_time = 2; intn = λ n. 0 }
        ∷ record { now = 3; claim_time = 4; intn = λ n. 0 }
        ∷ [])
      (half, [])
    ≡ (err gave_up, (half, []))
allocate_free_ip_stuck_example =
    allocate_free_ip_stuck single two_addresses plugin never half [] (second ∷ []) second
      available_always next_is_second (λ t. refl)
      (record { now = 1; claim_time = 2; intn = λ n. 0 }
        ∷ record { now = 3; claim_time = 4; intn = λ n. 0 }
        ∷ [])

address-IsV4 : (ip : Address) → IsV4 two_addresses ip
unfolding Selection.ip_to_int big_endian
address-IsV4 first = record { converts = refl; small = omega arith }
address-IsV4 second = record { converts = refl; small = omega arith }

last_is_lease : get_last_reserved_ip two_addresses (lease ∷ []) ≡ some lease
unfolding get_last_reserved_ip
last_is_lease = refl

first_number : Selection.any_to_int two_addresses (some first) ≡ some 167_772_161
unfolding Selection.ip_to_int big_endian
first_number = refl

goes_on : get_next_available_ip two_addresses (first ∷ second ∷ []) (lease ∷ []) ≡ ok second
unfolding get_next_available_ip get_last_reserved_ip Selection.ip_to_int Selection.sort_ips
    Selection.ip_less big_endian
goes_on = refl

get_next_available_ip-IsNearest_example :
    In second (first ∷ second ∷ [])
    × IsNearest two_addresses 167_772_161 second (first ∷ second ∷ [])
get_next_available_ip-IsNearest_example =
    get_next_available_ip-IsNearest two_addresses (first ∷ second ∷ []) (lease ∷ []) lease
      167_772_161 second (address-IsV4 first, (address-IsV4 second, tt)) last_is_lease first_number
      (omega arith) goes_on
