-- ===== src/Examples/Subnet.antt =====
-- The addresses of the subnet 10.0.0.0/30.
use flannel_network_plugin.Prelude.{
  ◌+◌, ◌-◌, ◌%◌, ◌≡◌, refl, true, ◌&&◌, not, some, List, [], ◌∷◌, map, filter, leb, ltb, nat_beq,
  arith,
}
use flannel_network_plugin.Ipam.Subnet.{Bytes, IpNet, IpOps, get_broadcast_ip, ips_in_subnet}
use flannel_network_plugin.Ipam.Subnet.Range.{
  number, numbers_from, left_out, IsRange, ips_in_subnet_lem,
}

-- `IP.Mask` at the mask of the subnet.
abbrev mask_30 : Bytes → Bytes
mask_30 (b0 ∷ b1 ∷ b2 ∷ b3 ∷ []) = b0 ∷ b1 ∷ b2 ∷ (b3 - b3 % 4) ∷ []
mask_30 ip = ip

abbrev ops_30 : IpOps
ops_30 = record {
  contains_ip = λ subnet ip.
      leb (number (mask_30 subnet.ip)) (number ip)
      && ltb (number ip) (number (mask_30 subnet.ip) + 4);
  equal_ip = λ a b. nat_beq (number a) (number b);
  mask_ip = λ ip mask. mask_30 ip;
}

abbrev net_30 : IpNet
net_30 = record { ip = 10 ∷ 0 ∷ 0 ∷ 0 ∷ []; mask = 255 ∷ 255 ∷ 255 ∷ 252 ∷ [] }

net_30-IsRange : IsRange ops_30 net_30 167_772_160 4
unfolding get_broadcast_ip
net_30-IsRange = record {
  v4 = (omega arith, omega arith, omega arith, omega arith);
  masked_v4 = (omega arith, omega arith, omega arith, omega arith);
  masked = refl;
  contains = λ ip v. refl;
  equal = λ a b v w. refl;
  broadcast_v4 = (omega arith, omega arith, omega arith, omega arith);
  not_all = omega arith;
  in_bounds = omega arith;
}

ips_in_subnet_lem_example :
    (ips : List Bytes) × (ips_in_subnet ops_30 4 net_30 true true ≡ some ips)
    × (map number ips
        ≡ filter (λ k. not (left_out net_30 true true k)) (numbers_from 167_772_161 3))
ips_in_subnet_lem_example =
    ips_in_subnet_lem ops_30 net_30 167_772_160 4 net_30-IsRange true true 4 (omega arith)
      (omega arith)
