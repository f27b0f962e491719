-- ===== src/Prelude/Bits.antt =====
-- Disjoint bits: `|` of a number shifted left and one that fits below it is their sum.
use Prim.Native.Nat.{
  ℕ, zero, suc, ◌+◌, ◌*◌, ◌/◌, ◌^◌, ◌≤◌, ◌<◌, max, digits, bit_or, bit_or-bitwise,
}
use mathlib.Core.Path.{◌≡◌, refl, ◌∙◌, ap}
use native.Mathlib.Omega.{arith}
use native.Mathlib.Nat.{pow-suc}

or_digits : (n k a x b : ℕ) → x ≡ a * 2 ^ k → x ≤ n → b < 2 ^ k → digits (λ d. d) max n x b ≡ x + b
or_digits zero k a zero b e h lt = omega arith
or_digits zero k a (suc y) b e h lt = absurd (omega arith)
or_digits (suc n) k a zero b e h lt = omega arith
or_digits (suc n) zero a (suc y) b e h lt = omega (
  arith,
  or_digits n zero (suc y / 2) (suc y / 2) (b / 2) (omega arith) (omega arith) (omega arith),
)
or_digits (suc n) (suc k) a (suc y) b e h lt = omega (
  arith,
  pow-suc 2 k,
  ap (λ (t : ℕ). a * t) (pow-suc 2 k),
  e,
  or_digits n k a (suc y / 2) (b / 2)
      (omega (arith, pow-suc 2 k, ap (λ (t : ℕ). a * t) (pow-suc 2 k), e)) (omega arith)
      (omega (arith, pow-suc 2 k, lt)),
)

pub bit_or-shifted : (k a b : ℕ) → b < 2 ^ k → bit_or (a * 2 ^ k) b ≡ a * 2 ^ k + b
bit_or-shifted k a b lt =
    bit_or-bitwise (a * 2 ^ k) b ∙ or_digits (a * 2 ^ k) k a (a * 2 ^ k) b refl (omega arith) lt
