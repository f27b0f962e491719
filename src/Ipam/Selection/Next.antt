-- ===== src/Ipam/Selection/Next.antt =====
-- `getNextAvailableIP` against the order of the addresses.
use mathlib.Core.Path.{subst}
use flannel_network_plugin.Prelude.{
  ℕ, ◌^◌, ◌≤◌, ◌<◌, ◌≡◌, ap, ◌∙◌, none, some, List, [], ◌∷◌, ltb, if◌then◌else◌, arith, All, In,
  inl, inr, Option-cases, Bool-cases, All-self,
}
use flannel_network_plugin.Common.Result.{ok}
use flannel_network_plugin.External.Texts.{Texts}
use flannel_network_plugin.Ipam.Lease.{Allocation}
use flannel_network_plugin.Ipam.Selection.{
  ip_to_int, any_to_int, sort_ips, get_last_reserved_ip, first_above, exceeds, above_last, or_first,
  next_after, get_next_available_ip,
}
use flannel_network_plugin.Ipam.Selection.Order.{
  distance, int_of, IsV4, IsSorted, All-sort_ips, All-of_sort_ips, sort_ips-IsSorted, IsNearest,
}

module _ (texts : Texts) where
  open texts use {Ip}

  -- From the head of a sorted list no address is nearer, if the head is above the last one.
  nearest_above :
      (last n : ℕ) (xs : List Ip)
      → last < n
      → n < 2 ^ 32
      → All (IsV4 texts) xs
      → All (λ y. n ≤ int_of texts y) xs
      → All (λ y. distance last n ≤ distance last (int_of texts y)) xs
  nearest_above last n [] above small vs h = tt
  nearest_above last n (x ∷ xs) above small vs h =
      (omega (arith, vs.0.small, h.0), nearest_above last n xs above small vs.1 h.1)

  first_above_cons :
      (last : ℕ) (x : Ip) (xs : List Ip)
      → IsV4 texts x
      → first_above texts last (x ∷ xs)
        ≡ (if ltb last (int_of texts x) then some x else first_above texts last xs)
  unfolding first_above
  first_above_cons last x xs v = rw (v.converts, exceeds)

  first_above-IsNearest :
      (last : ℕ) (xs : List Ip) (ip : Ip)
      → last < 2 ^ 32
      → All (IsV4 texts) xs
      → IsSorted texts xs
      → first_above texts last xs ≡ some ip
      → (last < int_of texts ip) × (int_of texts ip < 2 ^ 32) × IsNearest texts last ip xs
  unfolding first_above
  first_above-IsNearest last [] ip bound vs sorted h = cc
  first_above-IsNearest last (x ∷ xs) ip bound vs sorted h =
      elim (Bool-cases (ltb last (int_of texts x))) [
        | inl above ↦
            let e : x ≡ ip = cc (first_above_cons last x xs vs.0, above, h) in
            let over : last < int_of texts x = ground arith in
            subst
              (λ a.
                (last < int_of texts a)
                × (int_of texts a < 2 ^ 32)
                × IsNearest texts last a (x ∷ xs))
              e
              (
                over,
                vs.0.small,
                (omega arith, nearest_above last (int_of texts x) xs over vs.0.small vs.1 sorted.0),
              )
        | inr below ↦
            let h1 : first_above texts last xs ≡ some ip =
              ground (arith, first_above_cons last x xs vs.0) in
            let (over, small, near) = first_above-IsNearest last xs ip bound vs.1 sorted.1 h1 in
            let under : int_of texts x ≤ last = ground arith in (over, small, (omega arith, near))
      ]

  first_above-none :
      (last : ℕ) (xs : List Ip)
      → All (IsV4 texts) xs
      → first_above texts last xs ≡ none
      → All (λ x. int_of texts x ≤ last) xs
  unfolding first_above
  first_above-none last [] vs h = tt
  first_above-none last (x ∷ xs) vs h = elim (Bool-cases (ltb last (int_of texts x))) [
    | inl above ↦ let e = first_above_cons last x xs vs.0 in ground (arith, e)
    | inr below ↦
        let h1 : first_above texts last xs ≡ none =
          ground (arith, first_above_cons last x xs vs.0) in
        (ground arith, first_above-none last xs vs.1 h1)
  ]

  -- The lowest address is the nearest one if none is above the last.
  lowest-IsNearest :
      (last n : ℕ) (xs : List Ip)
      → n ≤ last
      → last < 2 ^ 32
      → All (λ y. n ≤ int_of texts y) xs
      → All (λ y. int_of texts y ≤ last) xs
      → All (λ y. distance last n ≤ distance last (int_of texts y)) xs
  lowest-IsNearest last n [] le bound h low = tt
  lowest-IsNearest last n (x ∷ xs) le bound h low =
      (omega (arith, h.0, low.0), lowest-IsNearest last n xs le bound h.1 low.1)

  first_above-P :
      (P : Ip → Type 0) (last : ℕ) (xs : List Ip) (ip : Ip)
      → All P xs
      → first_above texts last xs ≡ some ip
      → P ip
  unfolding first_above
  first_above-P P last [] ip h e = cc
  first_above-P P last (x ∷ xs) ip h e =
      elim (Bool-cases (exceeds texts last (ip_to_int texts x))) [
        | inl hit ↦ let same : x ≡ ip = ground (arith, hit) in subst P same h.0
        | inr miss ↦ first_above-P P last xs ip h.1 (ground (arith, miss))
      ]

  or_first-P :
      (P : Ip → Type 0) (last : ℕ) (xs : List Ip) (ip : Ip)
      → All P xs
      → or_first texts (first_above texts last xs) xs ≡ ok ip
      → P ip
  unfolding or_first
  or_first-P P last xs ip h e = elim (Option-cases (first_above texts last xs)) [
    | inr (hit, e1) ↦
        let same : hit ≡ ip = ground (arith, e1) in first_above-P P last xs ip h (e1 ∙ ap some same)
    | inl e1 ↦ head_P xs h (rw e1 at e)
  ]
    where
      head_P : (ys : List Ip) → All P ys → or_first texts none ys ≡ ok ip → P ip
      head_P [] h e = cc
      head_P (y ∷ ys) h e = let same : y ≡ ip = ground arith in subst P same h.0

  sorted-IsNearest :
      (last : ℕ) (xs : List Ip) (ip : Ip)
      → last < 2 ^ 32
      → All (IsV4 texts) xs
      → IsSorted texts xs
      → or_first texts (first_above texts last xs) xs ≡ ok ip
      → IsNearest texts last ip xs
  unfolding or_first
  sorted-IsNearest last xs ip bound vs sorted h = elim (Option-cases (first_above texts last xs)) [
    | inr (hit, e) ↦
        let same : hit ≡ ip = ground (arith, e) in
        (first_above-IsNearest last xs ip bound vs sorted (e ∙ ap some same)).2
    | inl e ↦ lowest xs ip vs sorted (first_above-none last xs vs e) (rw e at h)
  ]
    where
      lowest :
          (ys : List Ip) (ip : Ip)
          → All (IsV4 texts) ys
          → IsSorted texts ys
          → All (λ y. int_of texts y ≤ last) ys
          → or_first texts none ys ≡ ok ip
          → IsNearest texts last ip ys
      lowest [] ip vs sorted low h = tt
      lowest (y ∷ ys) ip vs sorted low h =
          let same : y ≡ ip = ground arith in
          subst (λ a. IsNearest texts last a (y ∷ ys)) same
            (omega arith, lowest-IsNearest last (int_of texts y) ys low.0 bound sorted.0 low.1)

  pub get_next_available_ip-IsNearest :
      (available : List Ip) (reserved : List (Allocation Ip)) (last : Allocation Ip) (n : ℕ)
      (ip : Ip)
      → All (IsV4 texts) available
      → get_last_reserved_ip texts reserved ≡ some last
      → any_to_int texts last.ip ≡ some n
      → n < 2 ^ 32
      → get_next_available_ip texts available reserved ≡ ok ip
      → In ip available × IsNearest texts n ip available
  unfolding get_next_available_ip next_after above_last
  get_next_available_ip-IsNearest [] reserved last n ip vs is_last number bound h = ground arith
  get_next_available_ip-IsNearest (x ∷ xs) reserved last n ip vs is_last number bound h =
      let available = x ∷ xs in
      let sorted = sort_ips texts available in
      let chosen : or_first texts (first_above texts n sorted) sorted ≡ ok ip =
        ground (arith, is_last, number, h) in
      (
        or_first-P (λ a. In a available) n sorted ip
            (All-sort_ips texts _ available (All-self available)) chosen,
        All-of_sort_ips texts _ available (
            sorted-IsNearest n sorted ip bound (All-sort_ips texts _ available vs)
              (sort_ips-IsSorted texts available vs) chosen),
      )
