-- ===== src/Common/Compare/Laws.antt =====
-- What the comparisons of plugin/pkg/common/common.go answer.
use flannel_network_plugin.Prelude.{
  ◌≡◌, refl, sym, ◌∙◌, true, none, some, Eq, ==_refl, ◌↔◌, inl, inr, arith, Option-cases, length,
  List, [], ◌∷◌, String, string_eq, ◌≤◌,
}
use flannel_network_plugin.Prelude.Dict.{
  Dict, lookup, remove, lookup-remove, IsDict, remove-IsDict, length-remove,
}
use flannel_network_plugin.Common.Compare.{
  within, compare_maps, compare_string_slices, same_items, compare_ip_maps, compare_string_maps,
  compare_string_array_maps,
}

module _ {ℓ} {V : Type ℓ} ⦃ev : Eq V⦄ where
  -- An entry that `a` does not have may leave `b`.
  within-remove :
      (a b : Dict String V) (k : String)
      → lookup k a ≡ none
      → within ev.beq a b ≡ true
      → within ev.beq a (remove k b) ≡ true
  unfolding within lookup
  within-remove [] b k absent h = refl
  within-remove ((j, v) ∷ a) b k absent h = ground (
    arith,
    within-remove a b k,
    lookup-remove k j b,
    string_eq.beq_iff j k,
    string_eq.beq_iff k j,
  )

  -- Entries of `a` that are all in `b`, as many as `b` has: the two maps are equal.
  within_sound :
      (a b : Dict String V)
      → IsDict a
      → IsDict b
      → within ev.beq a b ≡ true
      → length a ≡ length b
      → (j : String) → lookup j a ≡ lookup j b
  unfolding within lookup
  within_sound [] [] da db h n j = refl
  within_sound [] (e ∷ b) da db h n j = absurd (omega arith)
  within_sound ((k, v) ∷ a) b da db h n j = elim (Option-cases (lookup k b)) [
    | inl gone ↦ ground (arith, gone)
    | inr (w, hit) ↦ ground (
      arith,
      hit,
      ev.beq_iff v w,
      string_eq.beq_iff k j,
      lookup-remove k j b,
      within_sound a (remove k b) da.1 (remove-IsDict k b db)
          (within-remove a b k da.0 (ground arith)) (omega (arith, length-remove k w b db hit)) j,
    )
  ]

  within-length :
      (a b : Dict String V) → IsDict a → IsDict b → within ev.beq a b ≡ true → length a ≤ length b
  unfolding within lookup
  within-length [] b da db h = omega arith
  within-length ((k, v) ∷ a) b da db h = elim (Option-cases (lookup k b)) [
    | inl gone ↦ ground (arith, gone)
    | inr (w, hit) ↦ omega (
      arith,
      length-remove k w b db hit,
      within-length a (remove k b) da.1 (remove-IsDict k b db)
          (within-remove a b k da.0 (ground arith)),
    )
  ]

  within_complete :
      (a b : Dict String V)
      → IsDict a
      → ((j : String) (v : V) → lookup j a ≡ some v → lookup j b ≡ some v)
      → within ev.beq a b ≡ true
  unfolding within lookup
  within_complete [] b da h = refl
  within_complete ((k, v) ∷ a) b da h = ground (
    arith,
    ==_refl v,
    h k v,
    string_eq.beq_iff k k,
    within_complete a b da.1 (λ j w hit. ground (arith, hit, h j w, da.0, string_eq.beq_iff k j)),
  )

  -- `compareXMaps` answers true on two non-nil maps exactly if they bind the same keys to equal
  -- values.
  compare_maps_iff :
      (a b : Dict String V)
      → IsDict a
      → IsDict b
      → (compare_maps ev.beq (some a) (some b) ≡ true) ↔ ((j : String) → lookup j a ≡ lookup j b)
  unfolding compare_maps
  compare_maps_iff a b da db = (
    (λ h. within_sound a b da db (ground arith) (ground arith)),
    (λ h.
        let ab = within_complete a b da (λ j v e. sym (h j) ∙ e) in
        let ba = within_complete b a db (λ j v e. h j ∙ e) in
        ground (arith, ab, within-length a b da db ab, within-length b a db da ba)),
  )

same_items_sound : (a b : List String) → length a ≡ length b → same_items a b ≡ true → a ≡ b
unfolding same_items
same_items_sound [] [] n h = refl
same_items_sound [] (y ∷ b) n h = absurd (omega arith)
same_items_sound (x ∷ a) [] n h = absurd (omega arith)
same_items_sound (x ∷ a) (y ∷ b) n h = ground (arith, string_eq.beq_iff x y, same_items_sound a b)

same_items_refl : (a : List String) → same_items a a ≡ true
unfolding same_items
same_items_refl [] = refl
same_items_refl (x ∷ a) = ground (arith, ==_refl x, same_items_refl a)

slices_iff : (a b : List String) → (compare_string_slices a b ≡ true) ↔ (a ≡ b)
unfolding compare_string_slices
slices_iff a b = (
  (λ h. same_items_sound a b (ground arith) (ground arith)),
  (λ e. rw e (ground (arith, same_items_refl b))),
)

slices_eq : Eq (List String)
slices_eq = record { beq = compare_string_slices; beq_iff = slices_iff }

-- Two non-nil maps from names to addresses compare as equal exactly if they bind the same names to
-- the same addresses.
pub compare_ip_maps_iff {ℓ} :
    {Ip : Type ℓ} ⦃ip : Eq Ip⦄ (a b : Dict String Ip)
    → IsDict a
    → IsDict b
    → (compare_ip_maps (some a) (some b) ≡ true) ↔ ((j : String) → lookup j a ≡ lookup j b)
unfolding compare_ip_maps
compare_ip_maps_iff ⦃ip⦄ a b da db = compare_maps_iff ⦃ev = ip⦄ a b da db

pub compare_string_maps_iff :
    (a b : Dict String String)
    → IsDict a
    → IsDict b
    → (compare_string_maps (some a) (some b) ≡ true) ↔ ((j : String) → lookup j a ≡ lookup j b)
unfolding compare_string_maps
compare_string_maps_iff a b da db = compare_maps_iff a b da db

-- Two non-nil maps from networks to lists of names compare as equal exactly if they bind the same
-- networks to the same lists.
pub compare_string_array_maps_iff :
    (a b : Dict String (List String))
    → IsDict a
    → IsDict b
    → (compare_string_array_maps (some a) (some b) ≡ true)
      ↔ ((j : String) → lookup j a ≡ lookup j b)
unfolding compare_string_array_maps slices_eq
compare_string_array_maps_iff a b da db = compare_maps_iff ⦃ev = slices_eq⦄ a b da db
