-- ===== src/Etcd/Store.antt =====
-- plugin/pkg/etcd/store.go: the items of a store on one node, and how they are brought in line with
-- what etcd has. The lock is held by each method throughout. `equals` is `Equals` of an item's type
-- and `zero_item` its zero value.
pub mod Follow
pub mod Items
pub mod Notices
use flannel_network_plugin.Prelude.{
  Bool, true, false, Option, none, some, List, [], ◌∷◌, String, string_eq, if◌then◌else◌,
}
use flannel_network_plugin.Prelude.Dict.{Dict, lookup, keys}
use flannel_network_plugin.External.Lo.{Lo}

pub record StoreBase (T : Type 0) : Type 0 where
  pub items : Dict String T

pub record ItemChange (T : Type 0) : Type 0 where
  pub previous : T
  pub current : T

-- What `syncToInternalState` returns; an `Item` or `ItemChange` is an entry under its identifier.
pub record Delta (T : Type 0) : Type 0 where
  pub changes : Dict String (ItemChange T)
  pub added : Dict String T
  pub removed : Dict String T

module _ {T : Type 0} (equals : T → T → Bool) (zero_item : T) where
  unfoldable pub get_item : String → StoreBase T → Option T
  get_item item_id s = lookup item_id s.items

  -- The loop over the truth, for the changes and for what is added.
  unfoldable pub changes_of : Dict String T → Dict String T → Dict String (ItemChange T)
  changes_of items [] = []
  changes_of items ((id, item) ∷ truth) =
      let rest = changes_of items truth in
      elim (lookup id items) [
        | none ↦ rest
        | some previous ↦
            if equals previous item
            then rest
            else (id, record { previous = previous; current = item }) ∷ rest
      ]

  unfoldable pub added_of : Dict String T → Dict String T → Dict String T
  added_of items [] = []
  added_of items ((id, item) ∷ truth) =
      let rest = added_of items truth in
      elim (lookup id items) [ none ↦ (id, item) ∷ rest | some previous ↦ rest ]

  or_zero : Option T → T
  or_zero none = zero_item
  or_zero (some item) = item

  -- The loop over the identifiers to be deleted.
  unfoldable pub removed_of : Dict String T → List String → Dict String T
  unfolding or_zero
  removed_of items [] = []
  removed_of items (id ∷ ids) = (id, or_zero (lookup id items)) ∷ removed_of items ids

  unfoldable pub sync_to_internal_state : Lo → Dict String T → StoreBase T → Delta T × StoreBase T
  unfolding changes_of added_of removed_of
  sync_to_internal_state lo truth s = (
    record {
      changes = changes_of s.items truth;
      added = added_of s.items truth;
      removed = removed_of s.items (lo.difference (keys s.items) (keys truth)).0;
    },
    record { items = truth },
  )
