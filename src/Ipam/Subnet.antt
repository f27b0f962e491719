-- ===== src/Ipam/Subnet.antt =====
-- plugin/pkg/ipam/util.go: the addresses of a subnet. An address is its bytes, a `net.IP`; what the
-- package net does with addresses and masks is an interface.
pub mod Range
use Prim.Native.Nat.{bit_or}
use flannel_network_plugin.Prelude.{
  ℕ, zero, suc, ◌+◌, ◌-◌, ◌%◌, Bool, true, false, not, ◌&&◌, Option, none, some, List, [], ◌∷◌,
  nat_beq, if◌then◌else◌,
}

-- A `net.IP`: the bytes, each below 256.
abbrev pub Bytes : Type 0
Bytes = List ℕ

-- `net.IPNet`
pub record IpNet : Type 0 where
  pub ip : Bytes
  pub mask : Bytes

-- `IPNet.Contains`, `IP.Equal` and `IP.Mask`
pub record IpOps : Type 0 where
  pub contains_ip : IpNet → Bytes → Bool
  pub equal_ip : Bytes → Bytes → Bool
  pub mask_ip : Bytes → Bytes → Bytes

-- `broadcast[i] |= ^subnet.Mask[i]`; a mask is as long as its address.
unfoldable pub get_broadcast_ip : Bytes → Bytes → Bytes
get_broadcast_ip [] mask = []
get_broadcast_ip (b ∷ bs) [] = b ∷ bs
get_broadcast_ip (b ∷ bs) (m ∷ ms) = bit_or b (255 - m) ∷ get_broadcast_ip bs ms

-- The loop of `nextIP` over the bytes from the last one: the bytes, and whether the loop has not
-- been left yet.
increment : Bytes → Bytes × Bool
increment [] = ([], true)
increment (b ∷ bs) =
    let (rest, goes_on) = increment bs in
    if goes_on then (((b + 1) % 256) ∷ rest, nat_beq ((b + 1) % 256) 0) else (b ∷ rest, false)

unfoldable pub next_ip : Bytes → Bytes
unfolding increment
next_ip ip = (increment ip).0

module _ (ops : IpOps) where
  -- Whether an address of the subnet is left out.
  unfoldable pub is_excluded : IpNet → Bool → Bool → Bytes → Bool
  unfolding next_ip get_broadcast_ip
  is_excluded subnet exclude_gateway exclude_broadcast ip =
      if ops.equal_ip ip subnet.ip
      then true
      else if exclude_gateway && ops.equal_ip ip (next_ip subnet.ip)
      then true
      else exclude_broadcast && ops.equal_ip ip (get_broadcast_ip subnet.ip subnet.mask)

  add_unless : Bool → Bytes → Option (List Bytes) → Option (List Bytes)
  add_unless excluded ip none = none
  add_unless excluded ip (some ips) = if excluded then some ips else some (ip ∷ ips)

  -- The endless loop, from the address before the first one; `none` when the fuel is used up.
  unfoldable pub ips_after : ℕ → IpNet → Bool → Bool → Bytes → Option (List Bytes)
  unfolding is_excluded add_unless
  ips_after zero subnet exclude_gateway exclude_broadcast ip = none
  ips_after (suc fuel) subnet exclude_gateway exclude_broadcast ip =
      elim (ops.contains_ip subnet (next_ip ip)) [
        | false ↦ some []
        | true ↦
            add_unless (is_excluded subnet exclude_gateway exclude_broadcast (next_ip ip))
              (next_ip ip) (ips_after fuel subnet exclude_gateway exclude_broadcast (next_ip ip))
      ]

  unfoldable pub ips_in_subnet : ℕ → IpNet → Bool → Bool → Option (List Bytes)
  unfolding ips_after
  ips_in_subnet fuel subnet exclude_gateway exclude_broadcast =
      ips_after fuel subnet exclude_gateway exclude_broadcast (ops.mask_ip subnet.ip subnet.mask)
