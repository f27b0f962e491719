-- ===== src/Etcd/Store/Follow.antt =====
-- What a listener makes of the delta that `syncToInternalState` of plugin/pkg/etcd/store.go reports.
use flannel_network_plugin.Prelude.{
  ◌≡◌, refl, ◌∙◌, none, some, Eq, List, [], ◌∷◌, String, string_eq, if◌then◌else◌, arith, contains,
  Option-cases, inl, inr,
}
use flannel_network_plugin.Prelude.Dict.{
  Dict, lookup, insert, remove, keys, IsDict, lookup-insert, lookup-remove, contains-keys,
}
use flannel_network_plugin.External.Lo.{Lo}
use flannel_network_plugin.Etcd.Store.{
  StoreBase, ItemChange, Delta, changes_of, added_of, removed_of, sync_to_internal_state,
}

module _ {T : Type 0} where
  -- What a listener does that keeps a map of its own.
  unfoldable pub drop_all : Dict String T → Dict String T → Dict String T
  drop_all [] m = m
  drop_all ((id, item) ∷ more) m = remove id (drop_all more m)

  unfoldable pub put_all : Dict String T → Dict String T → Dict String T
  put_all [] m = m
  put_all ((id, item) ∷ more) m = insert id item (put_all more m)

  unfoldable pub put_changes : Dict String (ItemChange T) → Dict String T → Dict String T
  put_changes [] m = m
  put_changes ((id, change) ∷ more) m = insert id change.current (put_changes more m)

  unfoldable pub follow : Delta T → Dict String T → Dict String T
  unfolding drop_all put_all put_changes
  follow d m = put_changes d.changes (put_all d.added (drop_all d.removed m))

module _ {T : Type 0} ⦃e : Eq T⦄ (zero_item : T) where
  lookup-put_changes :
      (items truth m : Dict String T) (j : String)
      → IsDict truth
      → lookup j (put_changes (changes_of e.beq zero_item items truth) m) ≡ elim (lookup j items) [
        | none ↦ lookup j m
        | some p ↦ elim (lookup j truth) [
          | none ↦ lookup j m
          | some v ↦ if e.beq p v then lookup j m else some v
        ]
      ]
  unfolding put_changes changes_of lookup
  lookup-put_changes items [] m j d = ground arith
  lookup-put_changes items ((id, item) ∷ truth) m j d = elim (Option-cases (lookup id items)) [
    | inl absent ↦
        ground (arith, absent, d.0, lookup-put_changes items truth m j d.1, string_eq.beq_iff id j)
    | inr (p, present) ↦ ground (
      arith,
      present,
      d.0,
      lookup-put_changes items truth m j d.1,
      string_eq.beq_iff id j,
      lookup-insert id j item (put_changes (changes_of e.beq zero_item items truth) m),
    )
  ]

  lookup-put_all :
      (items truth m : Dict String T) (j : String)
      → lookup j (put_all (added_of e.beq zero_item items truth) m) ≡ elim (lookup j items) [
        | some p ↦ lookup j m
        | none ↦ elim (lookup j truth) [ none ↦ lookup j m | some v ↦ some v ]
      ]
  unfolding put_all added_of lookup
  lookup-put_all items [] m j = ground arith
  lookup-put_all items ((id, item) ∷ truth) m j = elim (Option-cases (lookup id items)) [
    | inl absent ↦ ground (
      arith,
      absent,
      lookup-put_all items truth m j,
      string_eq.beq_iff id j,
      lookup-insert id j item (put_all (added_of e.beq zero_item items truth) m),
    )
    | inr (p, present) ↦
        ground (arith, present, lookup-put_all items truth m j, string_eq.beq_iff id j)
  ]

  lookup-drop_all :
      (items m : Dict String T) (ids : List String) (j : String)
      → lookup j (drop_all (removed_of e.beq zero_item items ids) m)
        ≡ (if contains j ids then none else lookup j m)
  unfolding drop_all removed_of contains
  lookup-drop_all items m [] j = refl
  lookup-drop_all items m (id ∷ ids) j = ground (
    arith,
    lookup-drop_all items m ids j,
    lookup-remove id j (drop_all (removed_of e.beq zero_item items ids) m),
    string_eq.beq_iff id j,
  )

  pub lookup-follow :
      (lo : Lo) (s : StoreBase T) (truth mine : Dict String T)
      → IsDict truth
      → ((j : String) → lookup j mine ≡ lookup j s.items)
      → (j : String)
      → lookup j (follow (sync_to_internal_state e.beq zero_item lo truth s).0 mine)
        ≡ lookup j truth
  unfolding follow sync_to_internal_state
  lookup-follow lo s truth mine d same j =
      let ids = (lo.difference (keys s.items) (keys truth)).0 in
      let kept = drop_all (removed_of e.beq zero_item s.items ids) mine in
      let more = put_all (added_of e.beq zero_item s.items truth) kept in
      let first = lookup-drop_all s.items mine ids j in
      let second = lookup-put_all s.items truth kept j in
      let third = lookup-put_changes s.items truth more j d in
      let dropped = lo.difference_left j (keys s.items) (keys truth) in
      let old_key = contains-keys j s.items in
      let new_key = contains-keys j truth in
      elim (Option-cases (lookup j s.items)) [
        | inl absent ↦ elim (Option-cases (lookup j truth)) [
          | inl gone ↦
              third ∙ ground (arith, absent, gone, first, second, dropped, same j, old_key, new_key)
          | inr (v, there) ↦
              third
              ∙ ground (arith, absent, there, first, second, dropped, same j, old_key, new_key)
        ]
        | inr (p, present) ↦ elim (Option-cases (lookup j truth)) [
          | inl gone ↦
              third
              ∙ ground (arith, present, gone, first, second, dropped, same j, old_key, new_key)
          | inr (v, there) ↦
              third
              ∙ ground (
                arith,
                present,
                there,
                first,
                second,
                dropped,
                same j,
                old_key,
                new_key,
                e.beq_iff p v,
              )
        ]
      ]
