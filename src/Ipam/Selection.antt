-- ===== src/Ipam/Selection.antt =====
-- plugin/pkg/ipam/util.go: which of the free addresses is tried next.
pub mod Order
pub mod Next
use Prim.Native.Nat.{bit_or}
use flannel_network_plugin.Prelude.{
  ℕ, ◌*◌, ◌^◌, ◌%◌, Bool, true, false, not, ◌&&◌, Option, none, some, List, [], ◌∷◌, ltb,
  if◌then◌else◌,
}
use flannel_network_plugin.Prelude.Dict.{Dict}
use flannel_network_plugin.Common.Result.{Result, ok, err}
use flannel_network_plugin.External.Texts.{Texts}
use flannel_network_plugin.Ipam.Lease.{Allocation}

-- The errors of the selection.
pub data NoAddress : Type 0 where
  no_unused_ips : NoAddress
  not_ipv4 : NoAddress

-- `uint32(b0)<<24 | uint32(b1)<<16 | uint32(b2)<<8 | uint32(b3)`
unfoldable pub big_endian : ℕ × ℕ × ℕ × ℕ → ℕ
big_endian (b0, b1, b2, b3) =
    bit_or (bit_or (bit_or (b0 * 2 ^ 24 % 2 ^ 32) (b1 * 2 ^ 16 % 2 ^ 32)) (b2 * 2 ^ 8 % 2 ^ 32)) b3

abbrev number_of : Option (ℕ × ℕ × ℕ × ℕ) → Option ℕ
number_of none = none
number_of (some bytes) = some (big_endian bytes)

module _ (texts : Texts) where
  open texts use {Ip}

  -- `ipToInt`; `none` is its error.
  unfoldable pub ip_to_int : Ip → Option ℕ
  ip_to_int ip = number_of (texts.to4 ip)

  -- `ipToInt` of an address that may be nil.
  abbrev pub any_to_int : Option Ip → Option ℕ
  any_to_int none = none
  any_to_int (some ip) = ip_to_int ip

  -- The order of `sortIPs`: what is no IPv4 address comes last.
  abbrev int_less : Option ℕ → Option ℕ → Bool
  int_less none b = false
  int_less (some a) none = true
  int_less (some a) (some b) = ltb a b

  unfoldable pub ip_less : Ip → Ip → Bool
  ip_less a b = int_less (ip_to_int a) (ip_to_int b)

  insert_sorted : Ip → List Ip → List Ip
  insert_sorted ip [] = ip ∷ []
  insert_sorted ip (x ∷ xs) =
      let rest = insert_sorted ip xs in if ip_less x ip then x ∷ rest else ip ∷ x ∷ xs

  -- `sortIPs`: `sort.Slice` on a copy, with this order.
  unfoldable pub sort_ips : List Ip → List Ip
  unfolding insert_sorted
  sort_ips [] = []
  sort_ips (ip ∷ ips) = insert_sorted ip (sort_ips ips)

  -- One round of the loop of `getLastReservedIP`.
  later_of : Allocation Ip → Option (Allocation Ip) → Option (Allocation Ip)
  later_of res none = some res
  later_of res (some last) = if ltb last.allocated_at res.allocated_at then some res else some last

  last_reserved_from : Option (Allocation Ip) → List (Allocation Ip) → Option (Allocation Ip)
  unfolding later_of
  last_reserved_from last [] = last
  last_reserved_from last (res ∷ rest) = last_reserved_from (later_of res last) rest

  -- `getLastReservedIP`: the allocation whose address it returns; `none` is its error.
  unfoldable pub get_last_reserved_ip : List (Allocation Ip) → Option (Allocation Ip)
  unfolding last_reserved_from
  get_last_reserved_ip reservations = last_reserved_from none reservations

  exceeds : ℕ → Option ℕ → Bool
  exceeds last none = false
  exceeds last (some current) = ltb last current

  -- The first address of a sorted list that is above the last one.
  first_above : ℕ → List Ip → Option Ip
  unfolding exceeds ip_to_int
  first_above last [] = none
  first_above last (ip ∷ ips) =
      let rest = first_above last ips in if exceeds last (ip_to_int ip) then some ip else rest

  -- `sorted[0]` of a list that is not empty.
  first_of_sorted : List Ip → Result NoAddress Ip
  first_of_sorted [] = err no_unused_ips
  first_of_sorted (ip ∷ ips) = ok ip

  or_first : Option Ip → List Ip → Result NoAddress Ip
  unfolding first_of_sorted
  or_first none ips = first_of_sorted ips
  or_first (some ip) ips = ok ip

  above_last : Option ℕ → List Ip → Result NoAddress Ip
  unfolding or_first first_above
  above_last none available = err not_ipv4
  above_last (some last) available =
      or_first (first_above last (sort_ips available)) (sort_ips available)

  next_after : Option (Allocation Ip) → List Ip → Result NoAddress Ip
  unfolding first_of_sorted above_last
  next_after none available = first_of_sorted (sort_ips available)
  next_after (some last) available = above_last (any_to_int last.ip) available

  unfoldable pub get_next_available_ip : List Ip → List (Allocation Ip) → Result NoAddress Ip
  unfolding next_after
  get_next_available_ip [] reserved = err no_unused_ips
  get_next_available_ip (ip ∷ ips) reserved = next_after (get_last_reserved_ip reserved) (ip ∷ ips)
