-- ===== src/Common/ConcurrentMap.antt =====
-- plugin/pkg/common/concurrent_map.go, and `AddOrUpdate` of common.go. Every method but `GetOrAdd`
-- holds the lock from its first read to its last write, so it is one step from map to map.
-- `GetOrAdd` gives up the read lock before it takes the write lock: `between` is what other
-- goroutines do to the map in that gap. The factory is an action on a state `S` of its own, for
-- it may call etcd and change its owner's fields.
pub mod Laws
use flannel_network_plugin.Prelude.{
  Bool, true, false, Option, none, some, Eq, ◌==◌, ℕ, length, List, [],
}
use flannel_network_plugin.Prelude.Dict.{Dict, lookup, insert, remove, keys, values}
use flannel_network_plugin.Common.Result.{Result, ok, err}

pub record ConcurrentMap {ℓ} (K V : Type ℓ) : Type ℓ where
  pub m : Dict K V

module _ {ℓ} {K V : Type ℓ} where
  -- `NewConcurrentMap`
  unfoldable pub new_map : ConcurrentMap K V
  new_map = record { m = [] }

  unfoldable pub count : ConcurrentMap K V → ℕ
  count cm = length cm.m

  unfoldable pub all_keys : ConcurrentMap K V → List K
  all_keys cm = keys cm.m

  unfoldable pub all_values : ConcurrentMap K V → List V
  all_values cm = values cm.m

module _ {ℓ} {K V : Type ℓ} ⦃e : Eq K⦄ where
  unfoldable pub get : K → ConcurrentMap K V → Option V
  get key cm = lookup key cm.m

  unfoldable pub set : K → V → ConcurrentMap K V → ConcurrentMap K V
  set key value cm = record { m = insert key value cm.m }

  unfoldable pub delete : K → ConcurrentMap K V → ConcurrentMap K V
  delete key cm = record { m = remove key cm.m }

  -- The value that was removed, if the key was there.
  unfoldable pub try_remove : K → ConcurrentMap K V → Option V × ConcurrentMap K V
  try_remove key cm = elim (lookup key cm.m) [
    | none ↦ (none, cm)
    | some value ↦ (some value, record { m = remove key cm.m })
  ]

  -- The value, and whether the key was there and the value has been updated.
  unfoldable pub add_or_update :
      K → V → (V → V) → ConcurrentMap K V → (V × Bool) × ConcurrentMap K V
  add_or_update key add_value update cm = elim (lookup key cm.m) [
    | none ↦ ((add_value, false), record { m = insert key add_value cm.m })
    | some existing ↦ ((update existing, true), record { m = insert key (update existing) cm.m })
  ]

  -- `AddOrUpdate` of common.go on a built-in map; no caller passes a nil `update`.
  unfoldable pub add_or_update_in : K → V → (V → V) → Dict K V → Dict K V
  add_or_update_in id value_to_add update store = elim (lookup id store) [
    | none ↦ insert id value_to_add store
    | some existing ↦ insert id (update existing) store
  ]

module _ {ℓ} {K V E S : Type ℓ} ⦃e : Eq K⦄ where
  -- What `GetOrAdd` does under the write lock with the value that the factory made.
  store_made : K → ConcurrentMap K V → Result E V × S → Result E (V × Bool) × ConcurrentMap K V × S
  store_made key cm (ok v, s) = (ok (v, true), record { m = insert key v cm.m }, s)
  store_made key cm (err x, s) = (err x, cm, s)

  -- The second half of `GetOrAdd`: look again under the write lock, and call the factory.
  add_locked :
      K → (S → Result E V × S) → ConcurrentMap K V → S → Result E (V × Bool) × ConcurrentMap K V × S
  unfolding store_made
  add_locked key factory cm s = elim (lookup key cm.m) [
    | some v ↦ (ok (v, false), cm, s)
    | none ↦ store_made key cm (factory s)
  ]

  -- The value, and whether it was added; the factory's error; the map; the factory's state.
  unfoldable pub get_or_add :
      (ConcurrentMap K V → ConcurrentMap K V)
      → K
      → (S → Result E V × S)
      → ConcurrentMap K V
      → S
      → Result E (V × Bool) × ConcurrentMap K V × S
  unfolding add_locked
  get_or_add between key factory cm s = elim (lookup key cm.m) [
    | some v ↦ (ok (v, false), cm, s)
    | none ↦ add_locked key factory (between cm) s
  ]

  -- Whether the value was added, or the factory's error.
  was_set : Result E (V × Bool) × ConcurrentMap K V × S → Result E Bool × ConcurrentMap K V × S
  was_set (ok (v, added), cm, s) = (ok added, cm, s)
  was_set (err x, cm, s) = (err x, cm, s)

  unfoldable pub try_add :
      (ConcurrentMap K V → ConcurrentMap K V)
      → K
      → (S → Result E V × S)
      → ConcurrentMap K V
      → S
      → Result E Bool × ConcurrentMap K V × S
  unfolding was_set get_or_add
  try_add between key factory cm s = was_set (get_or_add between key factory cm s)
