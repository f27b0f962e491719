-- ===== src/Ipam/Subnet/Range.antt =====
-- The addresses of an IPv4 subnet as a range of numbers.
use flannel_network_plugin.Prelude.{
  ℕ, zero, suc, ◌+◌, ◌-◌, ◌*◌, ◌^◌, ◌%◌, ◌≤◌, ◌<◌, ◌≡◌, refl, ap, ◌∙◌, Bool, true, false, not, ◌&&◌,
  ◌||◌, Option, none, some, List, [], ◌∷◌, map, filter, nat_beq, leb, ltb, arith, Bool-cases, inl,
  inr, ◌⊎◌,
}
use flannel_network_plugin.Ipam.Subnet.{
  Bytes, IpNet, IpOps, increment, next_ip, get_broadcast_ip, is_excluded, add_unless, ips_after,
  ips_in_subnet,
}

-- The four bytes of an IPv4 address.
abbrev pub IsV4 : Bytes → Type 0
IsV4 (b0 ∷ b1 ∷ b2 ∷ b3 ∷ []) = (b0 < 256) × (b1 < 256) × (b2 < 256) × (b3 < 256)
IsV4 _ = ⊥

-- The number whose digits to the base 256 they are.
abbrev pub number : Bytes → ℕ
number (b0 ∷ b1 ∷ b2 ∷ b3 ∷ []) = ((b0 * 256 + b1) * 256 + b2) * 256 + b3
number _ = 0

-- How far the carry runs.
next_cases :
    (b0 b1 b2 b3 : ℕ)
    → ((b3 < 255) × (next_ip (b0 ∷ b1 ∷ b2 ∷ b3 ∷ []) ≡ b0 ∷ b1 ∷ b2 ∷ (b3 + 1) ∷ []))
      ⊎ ((b3 ≡ 255) × (b2 < 255) × (next_ip (b0 ∷ b1 ∷ b2 ∷ b3 ∷ []) ≡ b0 ∷ b1 ∷ (b2 + 1) ∷ 0 ∷ []))
      ⊎ ((b3 ≡ 255)
          × (b2 ≡ 255)
          × (b1 < 255)
          × (next_ip (b0 ∷ b1 ∷ b2 ∷ b3 ∷ []) ≡ b0 ∷ (b1 + 1) ∷ 0 ∷ 0 ∷ []))
      ⊎ ((b3 ≡ 255)
          × (b2 ≡ 255)
          × (b1 ≡ 255)
          × (next_ip (b0 ∷ b1 ∷ b2 ∷ b3 ∷ []) ≡ ((b0 + 1) % 256) ∷ 0 ∷ 0 ∷ 0 ∷ []))
      ⊎ ((256 ≤ b3) ⊎ (256 ≤ b2) ⊎ (256 ≤ b1))
unfolding next_ip increment
next_cases b0 b1 b2 b3 = ground arith

-- The next address is the next number, and after the last one comes 0.0.0.0.
next_of :
    (b0 b1 b2 b3 : ℕ)
    → b0 < 256
    → b1 < 256
    → b2 < 256
    → b3 < 256
    → IsV4 (next_ip (b0 ∷ b1 ∷ b2 ∷ b3 ∷ []))
      × (number (next_ip (b0 ∷ b1 ∷ b2 ∷ b3 ∷ [])) ≡ (number (b0 ∷ b1 ∷ b2 ∷ b3 ∷ []) + 1) % 2 ^ 32)
next_of b0 b1 b2 b3 h0 h1 h2 h3 = elim (next_cases b0 b1 b2 b3) [
  | inl (n3, e) ↦ rw e (omega arith)
  | inr (inl (y3, n2, e)) ↦ rw e (omega arith)
  | inr (inr (inl (y3, y2, n1, e))) ↦ rw e (omega arith)
  | inr (inr (inr (inl (y3, y2, y1, e)))) ↦ rw e (omega arith)
  | inr (inr (inr (inr too_big))) ↦ absurd (omega (arith, too_big))
]

next-V4 :
    (ip : Bytes) → IsV4 ip → IsV4 (next_ip ip) × (number (next_ip ip) ≡ (number ip + 1) % 2 ^ 32)
next-V4 (b0 ∷ b1 ∷ b2 ∷ b3 ∷ []) (h0, h1, h2, h3) = next_of b0 b1 b2 b3 h0 h1 h2 h3
next-V4 [] h = absurd h
next-V4 (b0 ∷ []) h = absurd h
next-V4 (b0 ∷ b1 ∷ []) h = absurd h
next-V4 (b0 ∷ b1 ∷ b2 ∷ []) h = absurd h
next-V4 (b0 ∷ b1 ∷ b2 ∷ b3 ∷ b4 ∷ bs) h = absurd h

next-IsV4 : (ip : Bytes) → IsV4 ip → IsV4 (next_ip ip)
next-IsV4 ip v = (next-V4 ip v).0

-- The next address of an IPv4 address is the next number, and 0.0.0.0 follows the last one.
pub number-next_ip : (ip : Bytes) → IsV4 ip → number (next_ip ip) ≡ (number ip + 1) % 2 ^ 32
number-next_ip ip v = (next-V4 ip v).1

-- The numbers from `first` on, `n` of them.
abbrev pub numbers_from : ℕ → ℕ → List ℕ
numbers_from first zero = []
numbers_from first (suc n) = first ∷ numbers_from (first + 1) n

-- What the package net does with IPv4 addresses, for a subnet that has the numbers from `base` on,
-- `size` of them.
pub record IsRange (ops : IpOps) (subnet : IpNet) (base size : ℕ) : Type 0 where
  pub v4 : IsV4 subnet.ip
  pub masked_v4 : IsV4 (ops.mask_ip subnet.ip subnet.mask)
  pub masked : number (ops.mask_ip subnet.ip subnet.mask) ≡ base
  pub contains :
      (ip : Bytes)
      → IsV4 ip
      → ops.contains_ip subnet ip ≡ (leb base (number ip) && ltb (number ip) (base + size))
  pub equal : (a b : Bytes) → IsV4 a → IsV4 b → ops.equal_ip a b ≡ nat_beq (number a) (number b)
  pub broadcast_v4 : IsV4 (get_broadcast_ip subnet.ip subnet.mask)
  pub not_all : size < 2 ^ 32
  pub in_bounds : base + size ≤ 2 ^ 32

-- The numbers of a subnet that are left out.
abbrev pub left_out : IpNet → Bool → Bool → ℕ → Bool
left_out subnet exclude_gateway exclude_broadcast n =
    nat_beq n (number subnet.ip)
    || (exclude_gateway && nat_beq n (number (next_ip subnet.ip)))
    || (exclude_broadcast && nat_beq n (number (get_broadcast_ip subnet.ip subnet.mask)))

module _ (ops : IpOps) (subnet : IpNet) (base size : ℕ) (range : IsRange ops subnet base size)
    (exclude_gateway exclude_broadcast : Bool) where
  excluded_of :
      (ip : Bytes)
      → IsV4 ip
      → is_excluded ops subnet exclude_gateway exclude_broadcast ip
        ≡ left_out subnet exclude_gateway exclude_broadcast (number ip)
  unfolding is_excluded
  excluded_of ip v = ground (
    arith,
    range.equal ip subnet.ip v range.v4,
    range.equal ip (next_ip subnet.ip) v (next-IsV4 subnet.ip range.v4),
    range.equal ip (get_broadcast_ip subnet.ip subnet.mask) v range.broadcast_v4,
  )

  -- The addresses that the loop lists, and their numbers.
  abbrev Lists : ℕ → ℕ → Option (List Bytes) → Type 0
  Lists first n none = ⊥
  Lists first n (some ips) =
      map number ips
      ≡ filter (λ k. not (left_out subnet exclude_gateway exclude_broadcast k))
          (numbers_from first n)

  -- One address more in front.
  added :
      (ip : Bytes)
      → IsV4 ip
      → (ips : List Bytes) (first n : ℕ) → number ip ≡ first
      → Lists (number ip + 1) n (some ips)
      → Lists first (suc n) (
          add_unless ops
            (is_excluded ops subnet exclude_gateway exclude_broadcast ip)
            ip
            (some ips))
  unfolding add_unless
  added ip v ips first n e h =
      let same = excluded_of ip v in
      elim (Bool-cases (left_out subnet exclude_gateway exclude_broadcast first)) [
        | inl out ↦
            let drops : is_excluded ops subnet exclude_gateway exclude_broadcast ip ≡ true =
              same ∙ ap (left_out subnet exclude_gateway exclude_broadcast) e ∙ out in
            rw (drops, out) (h ∙ rw e refl)
        | inr kept ↦
            let keeps : is_excluded ops subnet exclude_gateway exclude_broadcast ip ≡ false =
              same ∙ ap (left_out subnet exclude_gateway exclude_broadcast) e ∙ kept in
            rw (keeps, kept) (ap (λ t. number ip ∷ t) h ∙ rw e refl)
      ]

  ips_after-Lists :
      (n fuel : ℕ) (ip : Bytes)
      → IsV4 ip
      → base ≤ number ip
      → number ip + 1 + n ≡ base + size
      → n < fuel
      → Lists (number ip + 1) n (ips_after ops fuel subnet exclude_gateway exclude_broadcast ip)
  unfolding ips_after add_unless
  ips_after-Lists n zero ip v low e enough = absurd (omega arith)
  ips_after-Lists zero (suc fuel) ip v low e enough =
      let last = range.contains (next_ip ip) (next-IsV4 ip v) in
      let outside : ops.contains_ip subnet (next_ip ip) ≡ false =
        ground (arith, last, number-next_ip ip v, range.not_all, range.in_bounds) in
      rw (outside, ips_after) refl
  ips_after-Lists (suc n) (suc fuel) ip v low e enough =
      let next = number-next_ip ip v in
      let follows : number (next_ip ip) ≡ number ip + 1 = omega (arith, next, range.in_bounds) in
      let inside : ops.contains_ip subnet (next_ip ip) ≡ true =
        ground (arith, range.contains (next_ip ip) (next-IsV4 ip v), follows) in
      rw (inside, ips_after)
        (add follows (ips_after ops fuel subnet exclude_gateway exclude_broadcast (next_ip ip)) (
          ips_after-Lists n fuel (next_ip ip) (next-IsV4 ip v) (omega arith) (omega arith)
            (omega arith)))
    where
      add :
          number (next_ip ip) ≡ number ip + 1
          → (ips : Option (List Bytes)) → Lists (number (next_ip ip) + 1) n ips
          → Lists (number ip + 1) (suc n) (
              add_unless ops
                (is_excluded ops subnet exclude_gateway exclude_broadcast (next_ip ip))
                (next_ip ip)
                ips)
      add follows none h = h
      add follows (some ips) h = added (next_ip ip) (next-IsV4 ip v) ips (number ip + 1) n follows h

  listed :
      (o : Option (List Bytes)) (first n : ℕ)
      → Lists first n o
      → (ips : List Bytes) × (o ≡ some ips)
        × (map number ips
            ≡ filter
                (λ k. not (left_out subnet exclude_gateway exclude_broadcast k))
                (numbers_from first n))
  listed none first n h = absurd h
  listed (some ips) first n h = (ips, refl, h)

  -- The loop of `ipsInSubnet` ends within `size` rounds, for a subnet that has the numbers from
  -- `base` on, `size` of them, and is not the whole of IPv4: it lists the addresses of the subnet
  -- after the first, in order and each once, without the subnet's own address and, where they are
  -- to be left out, the gateway and the broadcast address.
  pub ips_in_subnet_lem :
      (fuel : ℕ)
      → 0 < size
      → size ≤ fuel
      → (ips : List Bytes) × (ips_in_subnet ops fuel subnet exclude_gateway exclude_broadcast
          ≡ some ips)
        × (map number ips
            ≡ filter
                (λ k. not (left_out subnet exclude_gateway exclude_broadcast k))
                (numbers_from (base + 1) (size - 1)))
  unfolding ips_in_subnet
  ips_in_subnet_lem fuel some_left enough =
      let start = ops.mask_ip subnet.ip subnet.mask in
      rw (← range.masked) (
        listed (ips_after ops fuel subnet exclude_gateway exclude_broadcast start)
          (number start + 1) (size - 1)
          (ips_after-Lists (size - 1) fuel start range.masked_v4 (omega (arith, range.masked))
            (omega (arith, range.masked)) (omega arith)))
