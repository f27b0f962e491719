-- ===== src/Common/Compare.antt =====
-- plugin/pkg/common/common.go: the comparisons of maps. A nil map is `none`.
pub mod Laws
use flannel_network_plugin.Prelude.{
  string_eq, Bool, true, false, ◌&&◌, Option, none, some, Eq, ◌==◌, if◌then◌else◌, length, List, [],
  ◌∷◌, String, nat_beq,
}
use flannel_network_plugin.Prelude.Dict.{Dict, lookup}

-- `valB, exists := b[key]; !exists || valA != valB`, negated.
agrees {ℓ} : {V : Type ℓ} → (V → V → Bool) → V → Option V → Bool
agrees same val_a none = false
agrees same val_a (some val_b) = same val_a val_b

-- The loop over `a`: every entry has an equal one in `b`.
within {ℓ} : {V : Type ℓ} → (V → V → Bool) → Dict String V → Dict String V → Bool
unfolding agrees
within same [] b = true
within same ((key, val_a) ∷ a) b = agrees same val_a (lookup key b) && within same a b

-- The text that the three functions share.
compare_maps {ℓ} :
    {V : Type ℓ} → (V → V → Bool) → Option (Dict String V) → Option (Dict String V) → Bool
unfolding within
compare_maps same none none = true
compare_maps same none (some b) = false
compare_maps same (some a) none = false
compare_maps same (some a) (some b) =
    if nat_beq (length a) (length b) then within same a b else false

-- The loop of `compareStringSlices` over two slices of one length.
same_items : List String → List String → Bool
same_items [] b = true
same_items (x ∷ a) [] = false
same_items (x ∷ a) (y ∷ b) = if x == y then same_items a b else false

unfoldable pub compare_string_slices : List String → List String → Bool
unfolding same_items
compare_string_slices a b = if nat_beq (length a) (length b) then same_items a b else false

-- `IP.Equal` of the package net is `==` of the interface.
unfoldable pub compare_ip_maps {ℓ} :
    {Ip : Type ℓ} ⦃ip : Eq Ip⦄ → Option (Dict String Ip) → Option (Dict String Ip) → Bool
unfolding compare_maps
compare_ip_maps ⦃ip⦄ a b = compare_maps ip.beq a b

unfoldable pub compare_string_maps :
    Option (Dict String String) → Option (Dict String String) → Bool
unfolding compare_maps
compare_string_maps a b = compare_maps (λ x y. x == y) a b

unfoldable pub compare_string_array_maps :
    Option (Dict String (List String)) → Option (Dict String (List String)) → Bool
unfolding compare_maps compare_string_slices
compare_string_array_maps a b = compare_maps compare_string_slices a b
