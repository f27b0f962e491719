-- ===== src/Ipam/Selection/Order.antt =====
-- The numbers of addresses, and their order, in plugin/pkg/ipam/util.go.
use Prim.Native.Nat.{bit_or}
use flannel_network_plugin.Prelude.{
  ℕ, ◌+◌, ◌-◌, ◌*◌, ◌^◌, ◌%◌, ◌≤◌, ◌<◌, ◌≡◌, ◌∙◌, Option, none, some, List, [], ◌∷◌, ltb, arith,
  All, inl, inr, Bool-cases,
}
use flannel_network_plugin.Prelude.Bits.{bit_or-shifted}
use flannel_network_plugin.External.Texts.{Texts}
use flannel_network_plugin.Ipam.Selection.{big_endian, ip_to_int, ip_less, insert_sorted, sort_ips}

-- `ipToInt` reads the bytes as the digits of a number to the base 256, the first one the highest.
pub big_endian_lem :
    (b0 b1 b2 b3 : ℕ)
    → b0 < 256
    → b1 < 256
    → b2 < 256
    → b3 < 256
    → big_endian (b0, b1, b2, b3) ≡ ((b0 * 256 + b1) * 256 + b2) * 256 + b3
unfolding big_endian
big_endian_lem b0 b1 b2 b3 h0 h1 h2 h3 =
    let e0 : b0 * 2 ^ 24 % 2 ^ 32 ≡ b0 * 2 ^ 24 = omega arith in
    let e1 : b1 * 2 ^ 16 % 2 ^ 32 ≡ b1 * 2 ^ 16 = omega arith in
    let e2 : b2 * 2 ^ 8 % 2 ^ 32 ≡ b2 * 2 ^ 8 = omega arith in
    let s1 : bit_or (b0 * 2 ^ 24) (b1 * 2 ^ 16) ≡ (b0 * 256 + b1) * 2 ^ 16 =
      bit_or-shifted 24 b0 (b1 * 2 ^ 16) (omega arith) ∙ omega arith in
    let s2 : bit_or ((b0 * 256 + b1) * 2 ^ 16) (b2 * 2 ^ 8) ≡ ((b0 * 256 + b1) * 256 + b2) * 2 ^ 8 =
      bit_or-shifted 16 (b0 * 256 + b1) (b2 * 2 ^ 8) (omega arith) ∙ omega arith in
    let s3 = bit_or-shifted 8 ((b0 * 256 + b1) * 256 + b2) b3 (omega arith) in
    rw (e0, e1, e2, s1, s2) s3

-- How far an address lies above the last one, counted round the 32 bits.
abbrev pub distance : ℕ → ℕ → ℕ
distance last n = (n + 2 ^ 32 - last - 1) % 2 ^ 32

module _ (texts : Texts) where
  open texts use {Ip}

  -- The number of an address, 0 where it is no IPv4 address.
  abbrev pub or_zero : Option ℕ → ℕ
  or_zero none = 0
  or_zero (some n) = n

  abbrev pub int_of : Ip → ℕ
  int_of ip = or_zero (ip_to_int texts ip)

  -- An IPv4 address, whose number has 32 bits.
  pub record IsV4 (ip : Ip) : Type 0 where
    pub converts : ip_to_int texts ip ≡ some (int_of ip)
    pub small : int_of ip < 2 ^ 32

  abbrev pub IsSorted : List Ip → Type 0
  IsSorted [] = Unit
  IsSorted (x ∷ xs) = All (λ y. int_of x ≤ int_of y) xs × IsSorted xs

  All-insert_sorted :
      (P : Ip → Type 0) (ip : Ip) (xs : List Ip)
      → P ip
      → All P xs
      → All P (insert_sorted texts ip xs)
  unfolding insert_sorted
  All-insert_sorted P ip [] p h = (p, tt)
  All-insert_sorted P ip (x ∷ xs) p h = elim (Bool-cases (ip_less texts x ip)) [
    | inl less ↦ rw less (h.0, All-insert_sorted P ip xs p h.1)
    | inr not_less ↦ rw not_less (p, h)
  ]

  pub All-sort_ips : (P : Ip → Type 0) (xs : List Ip) → All P xs → All P (sort_ips texts xs)
  unfolding sort_ips
  All-sort_ips P [] h = tt
  All-sort_ips P (x ∷ xs) h = All-insert_sorted P x (sort_ips texts xs) h.0 (All-sort_ips P xs h.1)

  All-of_insert_sorted :
      (P : Ip → Type 0) (ip : Ip) (xs : List Ip)
      → All P (insert_sorted texts ip xs)
      → P ip × All P xs
  unfolding insert_sorted
  All-of_insert_sorted P ip [] h = h
  All-of_insert_sorted P ip (x ∷ xs) h = elim (Bool-cases (ip_less texts x ip)) [
    | inl less ↦
        let h1 = rw less at h in let (p, ps) = All-of_insert_sorted P ip xs h1.1 in (p, (h1.0, ps))
    | inr not_less ↦ rw not_less at h
  ]

  pub All-of_sort_ips : (P : Ip → Type 0) (xs : List Ip) → All P (sort_ips texts xs) → All P xs
  unfolding sort_ips
  All-of_sort_ips P [] h = tt
  All-of_sort_ips P (x ∷ xs) h =
      let (p, ps) = All-of_insert_sorted P x (sort_ips texts xs) h in (p, All-of_sort_ips P xs ps)

  All-le_trans :
      (a b : ℕ) (xs : List Ip) → a ≤ b → All (λ y. b ≤ int_of y) xs → All (λ y. a ≤ int_of y) xs
  All-le_trans a b [] le h = tt
  All-le_trans a b (x ∷ xs) le h = (omega (arith, h.0), All-le_trans a b xs le h.1)

  ip_less_int : (a b : Ip) → IsV4 a → IsV4 b → ip_less texts a b ≡ ltb (int_of a) (int_of b)
  unfolding ip_less
  ip_less_int a b va vb = rw (va.converts, vb.converts)

  insert_sorted-IsSorted :
      (ip : Ip) (xs : List Ip)
      → IsV4 ip
      → All IsV4 xs
      → IsSorted xs
      → IsSorted (insert_sorted texts ip xs)
  unfolding insert_sorted
  insert_sorted-IsSorted ip [] v vs h = (tt, tt)
  insert_sorted-IsSorted ip (x ∷ xs) v vs h = elim (Bool-cases (ip_less texts x ip)) [
    | inl less ↦ rw less (
      All-insert_sorted (λ y. int_of x ≤ int_of y) ip xs
          (ground (arith, less, ip_less_int x ip vs.0 v)) h.0,
      insert_sorted-IsSorted ip xs v vs.1 h.1,
    )
    | inr not_less ↦
        let below : int_of ip ≤ int_of x = ground (arith, not_less, ip_less_int x ip vs.0 v) in
        rw not_less ((below, All-le_trans (int_of ip) (int_of x) xs below h.0), h)
  ]

  pub sort_ips-IsSorted : (xs : List Ip) → All IsV4 xs → IsSorted (sort_ips texts xs)
  unfolding sort_ips
  sort_ips-IsSorted [] vs = tt
  sort_ips-IsSorted (x ∷ xs) vs =
      insert_sorted-IsSorted x (sort_ips texts xs) vs.0 (All-sort_ips IsV4 xs vs.1)
        (sort_ips-IsSorted xs vs.1)

  -- An address that follows the last one most closely among some addresses.
  abbrev pub IsNearest : ℕ → Ip → List Ip → Type 0
  IsNearest last ip xs = All (λ x. distance last (int_of ip) ≤ distance last (int_of x)) xs
