-- ===== src/Etcd/Sharded.antt =====
-- plugin/pkg/etcd/sharded_distributed_store.go: items in shards, one for each node, of which a node
-- writes its own. A concurrent map stands as its built-in map, and `GetAll` is the field
-- `sharded_data`. A method on a shard that is not there panics.
pub mod Sync
pub mod Watch
pub mod Shards
use flannel_network_plugin.Prelude.{
  Bool, true, false, not, ◌&&◌, Option, none, some, List, [], ◌∷◌, String, string_eq, if◌then◌else◌,
}
use flannel_network_plugin.Prelude.Dict.{Dict, lookup, insert, remove}
use flannel_network_plugin.Common.Result.{Result, ok, err}
use flannel_network_plugin.External.Etcd.{Etcd}
use flannel_network_plugin.Etcd.Client.{Client, get_key}
use flannel_network_plugin.Etcd.Connection.{
  StoreError, etcd_failed, not_serialized, put_if_new_or_changed,
}
use flannel_network_plugin.Etcd.Store.{ItemChange}
use flannel_network_plugin.Etcd.Store.Items.{Codec}
use flannel_network_plugin.Etcd.Store.Notices.{Handlers}

pub record ShardItem (T : Type 0) : Type 0 where
  pub shard_key : String
  pub id : String
  pub value : T

pub record ShardItemChange (T : Type 0) : Type 0 where
  pub shard_key : String
  pub id : String
  pub previous : T
  pub current : T

-- A call of a handler of `ShardItemsHandlers`.
pub data ShardNotice (T : Type 0) : Type 0 where
  changed_items : List (ShardItemChange T) → ShardNotice T
  added_items : List (ShardItem T) → ShardNotice T
  removed_items : List (ShardItem T) → ShardNotice T

pub record ShardedStore (T : Type 0) : Type 0 where
  pub sharded_data : Dict String (Dict String T)
  pub data_of : Dict String T
  pub item_to_shard_key : Dict String String

-- What ends a call without its result: a shard that is not there, or the connection.
pub data ShardFault : Type 0 where
  nil_shard : ShardFault
  store_failed : StoreError → ShardFault

or_empty : Option String → String
or_empty none = ""
or_empty (some shard_key) = shard_key

module _ {T : Type 0} where
  -- `NewShardedDistributedStore`
  unfoldable pub new_sharded_store : String → ShardedStore T
  new_sharded_store local_shard_key = record {
    sharded_data = (local_shard_key, []) ∷ [];
    data_of = [];
    item_to_shard_key = [];
  }

  unfoldable pub get_shard : String → ShardedStore T → Option (Dict String T)
  get_shard key s = lookup key s.sharded_data

  -- The key of the shard, the empty text when there is none, and the item.
  unfoldable pub get_item : String → ShardedStore T → String × Option T
  unfolding or_empty
  get_item item_id s = (or_empty (lookup item_id s.item_to_shard_key), lookup item_id s.data_of)

  -- The assignments of `AddOrUpdateItem` and of `DeleteItem`.
  put_item : String → String → T → Dict String T → ShardedStore T → ShardedStore T
  put_item shard_key item_id item shard_items s = record {
    sharded_data = insert shard_key (insert item_id item shard_items) s.sharded_data;
    data_of = insert item_id item s.data_of;
    item_to_shard_key = insert item_id shard_key s.item_to_shard_key;
  }

  drop_item : String → String → Dict String T → ShardedStore T → ShardedStore T
  drop_item shard_key item_id shard_items s = record {
    sharded_data = insert shard_key (remove item_id shard_items) s.sharded_data;
    data_of = remove item_id s.data_of;
    item_to_shard_key = remove item_id s.item_to_shard_key;
  }

module _ {T : Type 0} (handlers : Handlers) (equals : T → T → Bool) where
  unfoldable pub notify_put : String → String → Option T → T → List (ShardNotice T)
  notify_put shard_key item_id none item =
      if handlers.on_added
      then added_items (record { shard_key = shard_key; id = item_id; value = item } ∷ []) ∷ []
      else []
  notify_put shard_key item_id (some previous) item =
      if not (equals previous item) && handlers.on_changed
      then changed_items
          (record { shard_key = shard_key; id = item_id; previous = previous; current = item } ∷ [])
        ∷ []
      else []

  unfoldable pub notify_removed : String → String → Option T → List (ShardNotice T)
  notify_removed shard_key item_id none = []
  notify_removed shard_key item_id (some previous) =
      if handlers.on_removed
      then removed_items (record { shard_key = shard_key; id = item_id; value = previous } ∷ [])
        ∷ []
      else []

module _ (etcd : Etcd) {T : Type 0} (codec : Codec T) (client : Client) where
  open etcd use {Db}

  put_encoded : String → Option String → Db → Result StoreError Bool × Db
  put_encoded key none db = (err not_serialized, db)
  put_encoded key (some text) db = put_if_new_or_changed etcd key text db

  unfoldable pub store_item : String → String → T → Db → Result StoreError Bool × Db
  unfolding put_encoded
  store_item shard_key item_id item db =
      put_encoded (get_key client (shard_key ∷ item_id ∷ [])) (codec.encode item) db

module _ (etcd : Etcd) {T : Type 0} (codec : Codec T) (client : Client) (local_shard_key : String)
    (handlers : Handlers) where
  open etcd use {Db}

  on_stored :
      List (ShardNotice T)
      → ShardedStore T
      → Result StoreError Bool × Db
      → (Result ShardFault (List (ShardNotice T)) × ShardedStore T) × Db
  on_stored calls s (err e, db) = ((err (store_failed e), s), db)
  on_stored calls s (ok was_written, db) = ((ok calls, s), db)

  add_to_shard :
      String
      → T
      → Option (Dict String T)
      → ShardedStore T
      → Db
      → (Result ShardFault (List (ShardNotice T)) × ShardedStore T) × Db
  unfolding on_stored put_item
  add_to_shard item_id item none s db = ((err nil_shard, s), db)
  add_to_shard item_id item (some shard_items) s db =
      on_stored
        (notify_put handlers codec.equals local_shard_key item_id (lookup item_id shard_items) item)
        (put_item local_shard_key item_id item shard_items s)
        (store_item etcd codec client local_shard_key item_id item db)

  unfoldable pub add_or_update_item :
      String
      → T
      → ShardedStore T
      → Db
      → (Result ShardFault (List (ShardNotice T)) × ShardedStore T) × Db
  unfolding add_to_shard
  add_or_update_item item_id item s db =
      add_to_shard item_id item (lookup local_shard_key s.sharded_data) s db

  on_deleted :
      List (ShardNotice T)
      → ShardedStore T
      → Bool × Db
      → (Result ShardFault (List (ShardNotice T)) × ShardedStore T) × Db
  on_deleted calls s (false, db) = ((err (store_failed etcd_failed), s), db)
  on_deleted calls s (true, db) = ((ok calls, s), db)

  delete_from_shard :
      String
      → Option (Dict String T)
      → ShardedStore T
      → Db
      → (Result ShardFault (List (ShardNotice T)) × ShardedStore T) × Db
  unfolding on_deleted drop_item
  delete_from_shard item_id none s db = ((err nil_shard, s), db)
  delete_from_shard item_id (some shard_items) s db =
      on_deleted
        (notify_removed handlers codec.equals local_shard_key item_id (lookup item_id shard_items))
        (drop_item local_shard_key item_id shard_items s)
        (etcd.remove (get_key client (local_shard_key ∷ item_id ∷ [])) db)

  unfoldable pub delete_item :
      String
      → ShardedStore T
      → Db
      → (Result ShardFault (List (ShardNotice T)) × ShardedStore T) × Db
  unfolding delete_from_shard
  delete_item item_id s db = delete_from_shard item_id (lookup local_shard_key s.sharded_data) s db
