-- ===== src/Common/ConcurrentMap/Laws.antt =====
-- What `GetOrAdd` and `TryAdd` of concurrent_map.go promise, whatever other goroutines do between
-- the two locks.
use flannel_network_plugin.Prelude.{
  ◌≡◌, Bool, false, Option, none, some, Eq, ◌==◌, ==_refl, ◌⊎◌, inl, inr, arith, Option-cases,
  if◌then◌else◌,
}
use flannel_network_plugin.Prelude.Dict.{Dict, lookup, lookup-insert, remove, lookup-remove}
use flannel_network_plugin.Common.Result.{Result, ok, err}
use flannel_network_plugin.Common.ConcurrentMap.{
  ConcurrentMap, get, get_or_add, store_made, add_or_update_in, try_remove,
}

module _ {ℓ} {K V E S : Type ℓ} ⦃e : Eq K⦄ where
  -- If a call returns a value, the key is bound to that value in the resulting map; every other
  -- key has the binding that it had before the call or after the other goroutines' turn; and if
  -- the value was not added, the factory was not called: its state is as before.
  pub get_or_add-ok :
      (between : ConcurrentMap K V → ConcurrentMap K V) (key : K) (factory : S → Result E V × S)
      (cm cm' : ConcurrentMap K V) (s s' : S) (v : V) (added : Bool)
      → get_or_add between key factory cm s ≡ (ok (v, added), cm', s')
      → (get key cm' ≡ some v)
        × ((j : K) → (key == j) ≡ false → (get j cm' ≡ get j cm) ⊎ (get j cm' ≡ get j (between cm)))
        × (added ≡ false → s' ≡ s)
  unfolding get_or_add get store_made
  get_or_add-ok between key factory cm cm' s s' v added h = (
    ground (arith, lookup-insert key key v (between cm).m, ==_refl key),
    (λ j other. ground (arith, lookup-insert key j v (between cm).m)),
    (λ old. ground arith),
  )

  -- If a call returns an error, it is the factory's: the key was bound neither before the call
  -- nor after the other goroutines' turn, and the map is as that turn left it.
  pub get_or_add-err :
      (between : ConcurrentMap K V → ConcurrentMap K V) (key : K) (factory : S → Result E V × S)
      (cm cm' : ConcurrentMap K V) (s s' : S) (x : E)
      → get_or_add between key factory cm s ≡ (err x, cm', s')
      → (get key cm ≡ none)
        × (get key (between cm) ≡ none)
        × (factory s ≡ (err x, s'))
        × (cm' ≡ between cm)
  unfolding get_or_add get store_made
  get_or_add-err between key factory cm cm' s s' x h = ground arith

-- What `AddOrUpdate` stores: the value to add, or the update of the value that is there.
abbrev pub added_or_updated {ℓ} : {V : Type ℓ} → V → (V → V) → Option V → V
added_or_updated value update none = value
added_or_updated value update (some existing) = update existing

pub lookup-add_or_update_in {ℓ} :
    {K V : Type ℓ} ⦃e : Eq K⦄ (k j : K) (value : V) (update : V → V) (m : Dict K V)
    → lookup j (add_or_update_in k value update m)
      ≡ (if k == j then some (added_or_updated value update (lookup k m)) else lookup j m)
unfolding add_or_update_in
lookup-add_or_update_in k j value update m = elim (Option-cases (lookup k m)) [
  | inl gone ↦ ground (arith, gone, lookup-insert k j value m)
  | inr (w, hit) ↦ ground (arith, hit, lookup-insert k j (update w) m)
]

module _ {ℓ} {K V : Type ℓ} ⦃e : Eq K⦄ (key : K) (cm : ConcurrentMap K V) where
  pub try_remove-none : get key cm ≡ none → try_remove key cm ≡ (none, cm)
  unfolding get try_remove
  try_remove-none h = ground (arith, h)

  pub try_remove-some :
      (v : V) → get key cm ≡ some v → try_remove key cm ≡ (some v, record { m = remove key cm.m })
  unfolding get try_remove
  try_remove-some v h = ground (arith, h)

  pub get-remove_self : get key (record { m = remove key cm.m }) ≡ none
  unfolding get
  get-remove_self = ground (arith, lookup-remove key key cm.m, ==_refl key)
