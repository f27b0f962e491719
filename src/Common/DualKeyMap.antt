-- ===== src/Common/DualKeyMap.antt =====
-- plugin/pkg/common/dualkey_concurrent_map.go: a map whose values are found under either of two
-- keys of an item. Each method holds the lock throughout. `zero_key1` and `zero_key2` are the zero
-- values of the key types, which stand for a key that is not known.
pub mod Laws
use flannel_network_plugin.Prelude.{
  Bool, true, false, not, Option, none, some, Eq, ◌==◌, if◌then◌else◌, ltb, ℕ, length, List, [],
}
use flannel_network_plugin.Prelude.Dict.{Dict, lookup, insert, remove, keys}

pub record DualKeyMap {ℓ} (K1 K2 V : Type ℓ) : Type ℓ where
  pub m1 : Dict K1 V
  pub m2 : Dict K2 V

-- `(value, exists, err)`: `conflict` is `ErrConflict`.
pub data Reply {ℓ} (V : Type ℓ) : Type ℓ where
  found : V → Reply V
  missing : Reply V
  conflict : Reply V

-- `Max` of common.go, at the type of lengths.
unfoldable pub max_of : ℕ → ℕ → ℕ
max_of a b = if ltb b a then a else b

-- The two keys of an item, and the zero values.
pub record KeysOf {ℓ} (T K1 K2 : Type ℓ) : Type ℓ where
  pub get_key1 : T → K1
  pub get_key2 : T → K2
  pub zero_key1 : K1
  pub zero_key2 : K2

module _ {ℓ} {K1 K2 V : Type ℓ} where
  unfoldable pub new_dual_map : DualKeyMap K1 K2 V
  new_dual_map = record { m1 = []; m2 = [] }

  unfoldable pub count : DualKeyMap K1 K2 V → ℕ
  unfolding max_of
  count d = max_of (length d.m1) (length d.m2)

  unfoldable pub all_keys : DualKeyMap K1 K2 V → List K1 × List K2
  all_keys d = (keys d.m1, keys d.m2)

module _ {ℓ} {T K1 K2 V : Type ℓ} ⦃e1 : Eq K1⦄ ⦃e2 : Eq K2⦄ (of : KeysOf T K1 K2) where
  unfoldable pub set : T → V → DualKeyMap K1 K2 V → DualKeyMap K1 K2 V
  set key value d =
      let k1 = of.get_key1 key in
      let k2 = of.get_key2 key in
      record {
        m1 = if k1 == of.zero_key1 then d.m1 else insert k1 value d.m1;
        m2 = if k2 == of.zero_key2 then d.m2 else insert k2 value d.m2;
      }

  -- The `switch` of `Get`, on the two lookups: one key that misses the value learns it.
  get_cases :
      ⦃ev : Eq V⦄
      → K1
      → K2
      → Option V
      → Option V
      → DualKeyMap K1 K2 V
      → Reply V × DualKeyMap K1 K2 V
  get_cases k1 k2 (some v1) (some v2) d = if v1 == v2 then (found v1, d) else (conflict, d)
  get_cases k1 k2 (some v1) none d =
      (found v1, record d { m2 = if k2 == of.zero_key2 then d.m2 else insert k2 v1 d.m2 })
  get_cases k1 k2 none (some v2) d =
      (found v2, record d { m1 = if k1 == of.zero_key1 then d.m1 else insert k1 v2 d.m1 })
  get_cases k1 k2 none none d = (missing, d)

  unfoldable pub get : ⦃ev : Eq V⦄ → T → DualKeyMap K1 K2 V → Reply V × DualKeyMap K1 K2 V
  unfolding get_cases
  get key d =
      let k1 = of.get_key1 key in
      let k2 = of.get_key2 key in get_cases k1 k2 (lookup k1 d.m1) (lookup k2 d.m2) d

  -- The `switch` of `Remove`; `false` is `ErrConflict`.
  remove_cases :
      ⦃ev : Eq V⦄ → K1 → K2 → Option V → Option V → DualKeyMap K1 K2 V → Bool × DualKeyMap K1 K2 V
  remove_cases k1 k2 (some v1) (some v2) d =
      if v1 == v2 then (true, record { m1 = remove k1 d.m1; m2 = remove k2 d.m2 }) else (false, d)
  remove_cases k1 k2 (some v1) none d = (true, record d { m1 = remove k1 d.m1 })
  remove_cases k1 k2 none (some v2) d = (true, record d { m2 = remove k2 d.m2 })
  remove_cases k1 k2 none none d = (true, d)

  unfoldable pub delete : ⦃ev : Eq V⦄ → T → DualKeyMap K1 K2 V → Bool × DualKeyMap K1 K2 V
  unfolding remove_cases
  delete key d =
      let k1 = of.get_key1 key in
      let k2 = of.get_key2 key in remove_cases k1 k2 (lookup k1 d.m1) (lookup k2 d.m2) d
