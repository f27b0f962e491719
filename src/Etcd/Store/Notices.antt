-- ===== src/Etcd/Store/Notices.antt =====
-- plugin/pkg/etcd/store.go: the handlers of a store. The calls of them are returned, as a list of
-- notices in the order of the calls.
use flannel_network_plugin.Prelude.{
  Bool, not, ◌&&◌, Option, none, some, List, [], ◌∷◌, ◌++◌, String, if◌then◌else◌, ltb, length,
}
use flannel_network_plugin.Prelude.Dict.{Dict}
use flannel_network_plugin.Etcd.Store.{ItemChange, Delta}

-- Which of the handlers of `ItemsHandlers` are set.
pub record Handlers : Type 0 where
  pub on_changed : Bool
  pub on_added : Bool
  pub on_removed : Bool

pub data Notice (T : Type 0) : Type 0 where
  changed_items : Dict String (ItemChange T) → Notice T
  added_items : Dict String T → Notice T
  removed_items : Dict String T → Notice T

module _ {T : Type 0} (handlers : Handlers) where
  -- The calls at the end of a synchronisation.
  unfoldable pub notices : Delta T → List (Notice T)
  notices d =
      (if ltb 0 (length d.added) && handlers.on_added then added_items d.added ∷ [] else [])
      ++ (if ltb 0 (length d.changes) && handlers.on_changed
          then changed_items d.changes ∷ []
          else [])
      ++ (if ltb 0 (length d.removed) && handlers.on_removed
          then removed_items d.removed ∷ []
          else [])

  -- `invokeAddOrChangedHandler`, and the same text in `AddOrUpdateItem`.
  unfoldable pub invoke_add_or_changed : (T → T → Bool) → String → Option T → T → List (Notice T)
  invoke_add_or_changed equals id none current =
      if handlers.on_added then added_items ((id, current) ∷ []) ∷ [] else []
  invoke_add_or_changed equals id (some previous) current =
      if not (equals previous current) && handlers.on_changed
      then changed_items ((id, record { previous = previous; current = current }) ∷ []) ∷ []
      else []

  unfoldable pub invoke_removed : String → Option T → List (Notice T)
  invoke_removed id none = []
  invoke_removed id (some previous) =
      if handlers.on_removed then removed_items ((id, previous) ∷ []) ∷ [] else []
