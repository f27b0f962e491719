-- ===== src/External/Texts/Laws.antt =====
-- How the text functions act on keys that are built by appending.
use mathlib.Core.Bool.{false≢true}
use text.Mathlib.TextLemmas.{append_cancel_left, append-nil, append-ne-nil_of_right_ne-nil}
use text.Mathlib.TextPositions.{starts_with-append, slice-append_right, len-append}
use text.Mathlib.TextEquality.{eq_iff}
use flannel_network_plugin.Prelude.{
  ◌≡◌, sym, ap, ◌∙◌, false, String, string_eq, ◌==◌, arith, Bool-cases, inl, inr,
}
use flannel_network_plugin.External.Texts.{◌+++◌, trim_prefix}

pub trim_prefix-append : (p s : String) → trim_prefix (p +++ s) p ≡ s
unfolding trim_prefix
trim_prefix-append p s = rw (starts_with-append p s, len-append p s) (slice-append_right p s)

-- Two keys that extend one key differently are different.
pub append-ne : (p s t : String) → (s == t) ≡ false → (p +++ s == p +++ t) ≡ false
append-ne p s t h = elim (Bool-cases (p +++ s == p +++ t)) [
  | inl e ↦
      ground (arith, h, eq_iff s t, append_cancel_left p s t ((eq_iff (p +++ s) (p +++ t)).0 e))
  | inr n ↦ n
]

pub append-ne_self : (p s : String) → (s == "") ≡ false → (p +++ s == p) ≡ false
append-ne_self p s h = ap (λ q. p +++ s == q) (sym (append-nil p)) ∙ append-ne p s "" h

pub self-ne-append : (p s : String) → ("" == s) ≡ false → (p == p +++ s) ≡ false
self-ne-append p s h = ap (λ q. q == p +++ s) (sym (append-nil p)) ∙ append-ne p "" s h

pub append-ne-empty : (p s : String) → (s == "") ≡ false → (p +++ s == "") ≡ false
append-ne-empty p s h = elim (Bool-cases (p +++ s == "")) [
  | inl e ↦ absurd (
      append-ne-nil_of_right_ne-nil p (λ q. false≢true (sym h ∙ (eq_iff s "").1 q))
        ((eq_iff (p +++ s) "").0 e))
  | inr n ↦ n
]
