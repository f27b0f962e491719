-- ===== src/Etcd/ReadOnly.antt =====
-- plugin/pkg/etcd/readonly_store.go: a store that follows keys that others write. The loop over a
-- watch channel is a function on the list of its events.
pub mod Mirror
use flannel_network_plugin.Prelude.{
  Bool, true, false, Option, none, some, List, [], ◌∷◌, ◌++◌, String, string_eq, if◌then◌else◌,
}
use flannel_network_plugin.Prelude.Dict.{Dict, lookup, insert, remove}
use flannel_network_plugin.Common.Result.{Result, ok, err}
use flannel_network_plugin.External.Lo.{Lo}
use flannel_network_plugin.External.Texts.{◌+++◌, trim_prefix}
use flannel_network_plugin.External.Etcd.{Etcd}
use flannel_network_plugin.Etcd.Client.{Client, get_key}
use flannel_network_plugin.Etcd.Connection.{StoreError}
use flannel_network_plugin.Etcd.Store.{StoreBase, Delta, sync_to_internal_state}
use flannel_network_plugin.Etcd.Store.Items.{
  Codec, Parsed, ignored, bad, parsed, parse_item, load_data,
}
use flannel_network_plugin.Etcd.Store.Notices.{
  Handlers, Notice, notices, invoke_add_or_changed, invoke_removed,
}

-- An event of a watch: `EventTypePut` with the key and its value, `EventTypeDelete` with the key.
pub data KvEvent : Type 0 where
  put_kv : String → String → KvEvent
  delete_kv : String → KvEvent

-- `NewReadOnlyStore`
unfoldable pub new_read_only_store : {T : Type 0} → StoreBase T
new_read_only_store = record { items = [] }

module _ (etcd : Etcd) {T : Type 0} (codec : Codec T) (client : Client) where
  open etcd use {Db}

  on_synced :
      Handlers → Bool → Delta T × StoreBase T → Result StoreError (List (Notice T)) × StoreBase T
  on_synced handlers call_handlers (d, s) =
      (ok (if call_handlers then notices handlers d else []), s)

  on_loaded :
      Lo
      → Handlers
      → Bool
      → StoreBase T
      → Result StoreError (Dict String T) × Db
      → (Result StoreError (List (Notice T)) × StoreBase T) × Db
  unfolding on_synced
  on_loaded lo handlers call_handlers s (err e, db) = ((err e, s), db)
  on_loaded lo handlers call_handlers s (ok etcd_data, db) = (
    on_synced handlers call_handlers
        (sync_to_internal_state codec.equals codec.zero_item lo etcd_data s),
    db,
  )

  -- `sync`; `Init` does not call the handlers, `Sync` does.
  unfoldable pub sync :
      Lo
      → Handlers
      → Bool
      → StoreBase T
      → Db
      → (Result StoreError (List (Notice T)) × StoreBase T) × Db
  unfolding on_loaded
  sync lo handlers call_handlers s db =
      on_loaded lo handlers call_handlers s (load_data etcd codec client db)

module _ {T : Type 0} (codec : Codec T) (client : Client) (handlers : Handlers)
    (prefix : String) where
  on_parsed : Parsed T → StoreBase T → List (Notice T) × StoreBase T
  on_parsed ignored s = ([], s)
  on_parsed (bad item_id) s = ([], s)
  on_parsed (parsed item_id item) s = (
    invoke_add_or_changed handlers codec.equals item_id (lookup item_id s.items) item,
    record { items = insert item_id item s.items },
  )

  on_deleted : String → StoreBase T → List (Notice T) × StoreBase T
  on_deleted item_id s = (
    invoke_removed handlers item_id (lookup item_id s.items),
    record { items = remove item_id s.items },
  )

  -- One round of the loop of `watchEventHandler`.
  unfoldable pub on_event : KvEvent → StoreBase T → List (Notice T) × StoreBase T
  unfolding on_parsed on_deleted
  on_event (put_kv key value) s = on_parsed (parse_item codec prefix key value) s
  on_event (delete_kv key) s = on_deleted (trim_prefix key (get_key client [] +++ "/")) s

  unfoldable pub watch_event_handler : List KvEvent → StoreBase T → List (Notice T) × StoreBase T
  watch_event_handler [] s = ([], s)
  watch_event_handler (ev ∷ evs) s =
      let first = on_event ev s in
      let rest = watch_event_handler evs first.1 in (first.0 ++ rest.0, rest.1)
