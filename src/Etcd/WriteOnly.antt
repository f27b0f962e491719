-- ===== src/Etcd/WriteOnly.antt =====
-- plugin/pkg/etcd/writeonly_store.go: a store that is the only writer of its keys.
pub mod Items
pub mod Sync
use flannel_network_plugin.Prelude.{
  Bool, true, false, not, ◌&&◌, Option, none, some, List, [], ◌∷◌, ◌++◌, String, string_eq,
  if◌then◌else◌, ltb, length,
}
use flannel_network_plugin.Prelude.Dict.{Dict, lookup, insert, remove, keys}
use flannel_network_plugin.Common.Result.{Result, ok, err}
use flannel_network_plugin.External.Lo.{Lo}
use flannel_network_plugin.External.Etcd.{Etcd}
use flannel_network_plugin.Etcd.Client.{Client}
use flannel_network_plugin.Etcd.Connection.{
  StoreError, etcd_failed, not_serialized, put_if_new_or_changed,
}
use flannel_network_plugin.Etcd.Store.{StoreBase, Delta, sync_to_internal_state}
use flannel_network_plugin.Etcd.Store.Notices.{
  Handlers, Notice, notices, invoke_add_or_changed, invoke_removed,
}
use flannel_network_plugin.Etcd.Store.Items.{Codec, item_key, load_data}

module _ (etcd : Etcd) {T : Type 0} (codec : Codec T) (client : Client) where
  open etcd use {Db}

  put_encoded : String → Option String → Db → Result StoreError Bool × Db
  put_encoded key none db = (err not_serialized, db)
  put_encoded key (some text) db = put_if_new_or_changed etcd key text db

  unfoldable pub store_item : String → T → Db → Result StoreError Bool × Db
  unfolding put_encoded
  store_item id item db = put_encoded (item_key client id) (codec.encode item) db

  after_store :
      (Db → Result StoreError (Unit {0}) × Db)
      → Result StoreError Bool × Db
      → Result StoreError (Unit {0}) × Db
  after_store more (err e, db) = (err e, db)
  after_store more (ok was_written, db) = more db

  -- The loop over the items, and the one over the identifiers to be deleted.
  unfoldable pub store_all : Dict String T → Db → Result StoreError (Unit {0}) × Db
  unfolding after_store
  store_all [] db = (ok tt, db)
  store_all ((id, item) ∷ items) db = after_store (store_all items) (store_item id item db)

  after_delete :
      (Db → Result StoreError (Unit {0}) × Db) → Bool × Db → Result StoreError (Unit {0}) × Db
  after_delete more (false, db) = (err etcd_failed, db)
  after_delete more (true, db) = more db

  unfoldable pub delete_all : List String → Db → Result StoreError (Unit {0}) × Db
  unfolding after_delete
  delete_all [] db = (ok tt, db)
  delete_all (id ∷ ids) db = after_delete (delete_all ids) (etcd.remove (item_key client id) db)

  after_stored : List String → Result StoreError (Unit {0}) × Db → Result StoreError (Unit {0}) × Db
  after_stored ids (err e, db) = (err e, db)
  after_stored ids (ok _, db) = delete_all ids db

  on_loaded :
      Lo
      → Dict String T
      → Result StoreError (Dict String T) × Db
      → Result StoreError (Unit {0}) × Db
  unfolding after_stored
  on_loaded lo items (err e, db) = (err e, db)
  on_loaded lo items (ok etcd_data, db) =
      after_stored (lo.difference (keys etcd_data) (keys items)).0 (store_all items db)

  -- What `sync` does with the connection.
  unfoldable pub sync_to_etcd : Lo → Dict String T → Db → Result StoreError (Unit {0}) × Db
  unfolding on_loaded
  sync_to_etcd lo items db = on_loaded lo items (load_data etcd codec client db)

  on_synced :
      Handlers
      → Bool
      → Delta T × StoreBase T
      → Result StoreError (Unit {0}) × Db
      → Result StoreError (List (Notice T)) × StoreBase T × Db
  on_synced handlers call_handlers (d, s) (err e, db) = (err e, s, db)
  on_synced handlers call_handlers (d, s) (ok _, db) =
      (ok (if call_handlers then notices handlers d else []), s, db)

  -- `sync`; `Init` does not call the handlers, `Sync` does.
  unfoldable pub sync :
      Lo
      → Handlers
      → Bool
      → Dict String T
      → StoreBase T
      → Db
      → Result StoreError (List (Notice T)) × StoreBase T × Db
  unfolding on_synced
  sync lo handlers call_handlers items s db =
      on_synced handlers call_handlers
        (sync_to_internal_state codec.equals codec.zero_item lo items s) (sync_to_etcd lo items db)

  on_stored :
      List (Notice T)
      → StoreBase T
      → Result StoreError Bool × Db
      → Result StoreError (List (Notice T)) × StoreBase T × Db
  on_stored calls s (err e, db) = (err e, s, db)
  on_stored calls s (ok was_written, db) = (ok calls, s, db)

  unfoldable pub add_or_update_item :
      Handlers
      → String
      → T
      → StoreBase T
      → Db
      → Result StoreError (List (Notice T)) × StoreBase T × Db
  unfolding on_stored
  add_or_update_item handlers item_id item s db =
      on_stored (invoke_add_or_changed handlers codec.equals item_id (lookup item_id s.items) item)
        (record { items = insert item_id item s.items }) (store_item item_id item db)

  on_deleted :
      List (Notice T)
      → StoreBase T
      → Bool × Db
      → Result StoreError (List (Notice T)) × StoreBase T × Db
  on_deleted calls s (false, db) = (err etcd_failed, s, db)
  on_deleted calls s (true, db) = (ok calls, s, db)

  unfoldable pub delete_item :
      Handlers → String → StoreBase T → Db → Result StoreError (List (Notice T)) × StoreBase T × Db
  unfolding on_deleted
  delete_item handlers item_id s db =
      on_deleted (invoke_removed handlers item_id (lookup item_id s.items))
        (record { items = remove item_id s.items }) (etcd.remove (item_key client item_id) db)

  on_init :
      StoreBase T
      → Result StoreError (Dict String T) × Db
      → Result StoreError (Unit {0}) × StoreBase T × Db
  on_init s (err e, db) = (err e, s, db)
  on_init s (ok etcd_data, db) = (ok tt, record { items = etcd_data }, db)

  unfoldable pub init_from_etcd : StoreBase T → Db → Result StoreError (Unit {0}) × StoreBase T × Db
  unfolding on_init
  init_from_etcd s db = on_init s (load_data etcd codec client db)
