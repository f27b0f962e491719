-- ===== src/Etcd/Sharded/Sync.antt =====
-- plugin/pkg/etcd/sharded_distributed_store.go: the synchronisation of the shards with etcd.
pub mod Local
use flannel_network_plugin.Prelude.{
  Bool, true, false, not, ◌&&◌, Option, none, some, List, [], ◌∷◌, ◌++◌, map, String, string_eq,
  ◌==◌, if◌then◌else◌, ltb, length,
}
use flannel_network_plugin.Prelude.Dict.{Dict, lookup, insert, keys}
use flannel_network_plugin.Common.Result.{Result, ok, err}
use flannel_network_plugin.External.Lo.{Lo}
use flannel_network_plugin.External.Texts.{trim_prefix, trim_left, split}
use flannel_network_plugin.External.Etcd.{Etcd}
use flannel_network_plugin.Etcd.Client.{Client, get_key}
use flannel_network_plugin.Etcd.Connection.{StoreError, etcd_failed, not_parsed}
use flannel_network_plugin.Etcd.Store.{ItemChange, changes_of, added_of, removed_of}
use flannel_network_plugin.Etcd.Store.Items.{Codec}
use flannel_network_plugin.Etcd.Store.Notices.{Handlers}
use flannel_network_plugin.Etcd.Sharded.{
  ShardItem, ShardItemChange, ShardNotice, changed_items, added_items, removed_items, ShardedStore,
  store_item, ShardFault, store_failed,
}

-- What `syncToInternalState` returns.
pub record ShardDelta (T : Type 0) : Type 0 where
  pub changes : List (ShardItemChange T)
  pub added : List (ShardItem T)
  pub removed : List (ShardItem T)

module _ {T : Type 0} where
  tag_item : String → String × T → ShardItem T
  tag_item key (item_id, item) = record { shard_key = key; id = item_id; value = item }

  tag_change : String → String × ItemChange T → ShardItemChange T
  tag_change key (item_id, change) = record {
    shard_key = key;
    id = item_id;
    previous = change.previous;
    current = change.current;
  }

  join_deltas : ShardDelta T → ShardDelta T → ShardDelta T
  join_deltas d e = record {
    changes = d.changes ++ e.changes;
    added = d.added ++ e.added;
    removed = d.removed ++ e.removed;
  }

  -- The loops that fill `data` and `itemToShardKey` from the shards.
  index_shard : String → Dict String T → ShardedStore T → ShardedStore T
  index_shard key [] s = s
  index_shard key ((item_id, item) ∷ items) s = index_shard key items (record s {
    data_of = insert item_id item s.data_of;
    item_to_shard_key = insert item_id key s.item_to_shard_key;
  })

  index_shards : Dict String (Dict String T) → ShardedStore T → ShardedStore T
  unfolding index_shard
  index_shards [] s = s
  index_shards ((key, items) ∷ shards) s = index_shards shards (index_shard key items s)

  -- `GetOrAdd` of an empty shard.
  or_new : Option (Dict String T) → Dict String T
  or_new none = []
  or_new (some shard_items) = shard_items

  -- `setShardedItem`
  unfoldable pub set_sharded_item :
      String → String → T → Dict String (Dict String T) → Dict String (Dict String T)
  unfolding or_new
  set_sharded_item key item_id item dst =
      insert key (insert item_id item (or_new (lookup key dst))) dst

  -- The calls at the end of `sync`.
  unfoldable pub shard_notices : Handlers → ShardDelta T → List (ShardNotice T)
  shard_notices handlers d =
      (if ltb 0 (length d.added) && handlers.on_added then added_items d.added ∷ [] else [])
      ++ (if ltb 0 (length d.changes) && handlers.on_changed
          then changed_items d.changes ∷ []
          else [])
      ++ (if ltb 0 (length d.removed) && handlers.on_removed
          then removed_items d.removed ∷ []
          else [])

key_parts : List String → Option (String × String)
key_parts (shard_key ∷ item_id ∷ []) = some (shard_key, item_id)
key_parts _ = none

-- `parseItemKey`: the key of the shard and the identifier, unless the key is ignored.
unfoldable pub parse_item_key : String → String → Option (String × String)
unfolding key_parts
parse_item_key full_key prefix = key_parts (split (trim_left (trim_prefix full_key prefix)))

module _ {T : Type 0} (codec : Codec T) (lo : Lo) where
  unfoldable pub sync_to_internal_state :
      String → Dict String T → ShardedStore T → ShardDelta T × ShardedStore T
  unfolding tag_item tag_change index_shards or_new
  sync_to_internal_state shard_key truth s =
      let shard_items = or_new (lookup shard_key s.sharded_data) in
      let shards = insert shard_key truth s.sharded_data in
      (
        record {
          changes =
              map (tag_change shard_key)
                (changes_of codec.equals codec.zero_item shard_items truth);
          added =
              map (tag_item shard_key) (added_of codec.equals codec.zero_item shard_items truth);
          removed = map (tag_item shard_key) (
              removed_of codec.equals codec.zero_item shard_items
                (lo.difference (keys shard_items) (keys truth)).0);
        },
        index_shards shards (record {
          sharded_data = shards;
          data_of = [];
          item_to_shard_key = s.item_to_shard_key;
        }),
      )

module _ {T : Type 0} (codec : Codec T) where
  add_decoded :
      String × String
      → Option T
      → Dict String (Dict String T)
      → Option (Dict String (Dict String T))
  add_decoded (shard_key, item_id) none result = none
  add_decoded (shard_key, item_id) (some item) result =
      some (set_sharded_item shard_key item_id item result)

  add_kv :
      Option (String × String)
      → String
      → Dict String (Dict String T)
      → Option (Dict String (Dict String T))
  unfolding add_decoded
  add_kv none value result = some result
  add_kv (some parts) value result = add_decoded parts (codec.decode value) result

  after_kv :
      (Dict String (Dict String T) → Option (Dict String (Dict String T)))
      → Option (Dict String (Dict String T))
      → Option (Dict String (Dict String T))
  after_kv more none = none
  after_kv more (some result) = more result

  -- The loop of `loadData`: a value that is no item ends it.
  unfoldable pub load_kvs :
      String
      → Dict String String
      → Dict String (Dict String T)
      → Option (Dict String (Dict String T))
  unfolding add_kv after_kv
  load_kvs prefix [] result = some result
  load_kvs prefix ((full_key, value) ∷ kvs) result =
      after_kv (load_kvs prefix kvs) (add_kv (parse_item_key full_key prefix) value result)

module _ (etcd : Etcd) {T : Type 0} (codec : Codec T) (client : Client) where
  open etcd use {Db}

  on_kvs :
      Db
      → Option (Dict String (Dict String T))
      → Result StoreError (Dict String (Dict String T)) × Db
  on_kvs db none = (err not_parsed, db)
  on_kvs db (some result) = (ok result, db)

  on_load : Option (Dict String String) × Db → Result StoreError (Dict String (Dict String T)) × Db
  unfolding on_kvs
  on_load (none, db) = (err etcd_failed, db)
  on_load (some kvs, db) = on_kvs db (load_kvs codec (get_key client []) kvs [])

  unfoldable pub load_data : Db → Result StoreError (Dict String (Dict String T)) × Db
  unfolding on_load
  load_data db = on_load (etcd.get_prefix (get_key client []) db)

  after_store :
      (Db → Result StoreError (Unit {0}) × Db)
      → Result StoreError Bool × Db
      → Result StoreError (Unit {0}) × Db
  after_store more (err e, db) = (err e, db)
  after_store more (ok was_written, db) = more db

  -- The loops over the items of the local shard, and over the identifiers to be deleted.
  unfoldable pub store_shard : String → Dict String T → Db → Result StoreError (Unit {0}) × Db
  unfolding after_store
  store_shard shard_key [] db = (ok tt, db)
  store_shard shard_key ((id, item) ∷ items) db =
      after_store (store_shard shard_key items) (store_item etcd codec client shard_key id item db)

  after_delete :
      (Db → Result StoreError (Unit {0}) × Db) → Bool × Db → Result StoreError (Unit {0}) × Db
  after_delete more (false, db) = (err etcd_failed, db)
  after_delete more (true, db) = more db

  unfoldable pub delete_from_etcd : String → List String → Db → Result StoreError (Unit {0}) × Db
  unfolding after_delete
  delete_from_etcd shard_key [] db = (ok tt, db)
  delete_from_etcd shard_key (id ∷ ids) db =
      after_delete (delete_from_etcd shard_key ids)
        (etcd.remove (get_key client (shard_key ∷ id ∷ [])) db)

  after_stored :
      String → List String → Result StoreError (Unit {0}) × Db → Result StoreError (Unit {0}) × Db
  after_stored shard_key ids (err e, db) = (err e, db)
  after_stored shard_key ids (ok _, db) = delete_from_etcd shard_key ids db

  -- The branch of the local shard: its items are written, the others in etcd deleted.
  unfoldable pub sync_local_shard :
      Lo → String → Dict String T → Dict String T → Db → Result StoreError (Unit {0}) × Db
  unfolding after_stored
  sync_local_shard lo shard_key shard_items local_shard_items db =
      after_stored shard_key (lo.difference (keys shard_items) (keys local_shard_items)).0
        (store_shard shard_key local_shard_items db)

-- The state in which a synchronisation goes from shard to shard.
pub record Syncing (T : Type 0) : Type 0 where
  pub delta : ShardDelta T
  pub store : ShardedStore T

module _ (etcd : Etcd) {T : Type 0} (codec : Codec T) (client : Client) (lo : Lo)
    (local_shard_key : String) (local_shard_items : Dict String T) where
  open etcd use {Db}

  join_synced : ShardDelta T → ShardDelta T × ShardedStore T → Syncing T
  unfolding join_deltas
  join_synced d (e, s) = record { delta = join_deltas d e; store = s }

  after_local :
      (Db → Syncing T → Result StoreError (Unit {0}) × Syncing T × Db)
      → Syncing T
      → Result StoreError (Unit {0}) × Db
      → Result StoreError (Unit {0}) × Syncing T × Db
  after_local more st (err e, db) = (err e, st, db)
  after_local more st (ok _, db) = more db st

  -- The loop over the shards that etcd has.
  unfoldable pub sync_shards :
      Dict String (Dict String T) → Db → Syncing T → Result StoreError (Unit {0}) × Syncing T × Db
  unfolding after_local join_synced
  sync_shards [] db st = (ok tt, st, db)
  sync_shards ((shard_key, shard_items) ∷ shards) db st = elim (shard_key == local_shard_key) [
    | true ↦
        after_local (sync_shards shards) st
          (sync_local_shard etcd codec client lo shard_key shard_items local_shard_items db)
    | false ↦
        sync_shards shards db
          (join_synced st.delta (sync_to_internal_state codec lo shard_key shard_items st.store))
  ]

  on_loaded :
      Syncing T
      → Result StoreError (Dict String (Dict String T)) × Db
      → Result StoreError (Unit {0}) × Syncing T × Db
  on_loaded st (err e, db) = (err e, st, db)
  on_loaded st (ok etcd_data, db) = sync_shards etcd_data db st

  on_shards :
      Handlers
      → Bool
      → Result StoreError (Unit {0}) × Syncing T × Db
      → (Result ShardFault (List (ShardNotice T)) × ShardedStore T) × Db
  on_shards handlers call_handlers (err e, st, db) = ((err (store_failed e), st.store), db)
  on_shards handlers call_handlers (ok _, st, db) =
      ((ok (if call_handlers then shard_notices handlers st.delta else []), st.store), db)

  -- `sync`; `Init` does not call the handlers, `Sync` does.
  unfoldable pub sync :
      Handlers
      → Bool
      → ShardedStore T
      → Db
      → (Result ShardFault (List (ShardNotice T)) × ShardedStore T) × Db
  unfolding on_loaded on_shards
  sync handlers call_handlers s db =
      let first = sync_to_internal_state codec lo local_shard_key local_shard_items s in
      on_shards handlers call_handlers
        (on_loaded (record { delta = first.0; store = first.1 }) (load_data etcd codec client db))
