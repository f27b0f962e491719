-- ===== src/Etcd/Sharded/Watch.antt =====
-- plugin/pkg/etcd/sharded_distributed_store.go: how a node follows the shards of the others.
use flannel_network_plugin.Prelude.{
  Option, none, some, List, [], ◌∷◌, ◌++◌, String, string_eq, ◌==◌, if◌then◌else◌,
}
use flannel_network_plugin.Prelude.Dict.{Dict, lookup, insert, remove}
use flannel_network_plugin.Etcd.Store.Items.{Codec}
use flannel_network_plugin.Etcd.Store.Notices.{Handlers}
use flannel_network_plugin.Etcd.ReadOnly.{KvEvent, put_kv, delete_kv}
use flannel_network_plugin.Etcd.Sharded.{ShardNotice, ShardedStore, notify_put, notify_removed}
use flannel_network_plugin.Etcd.Sharded.Sync.{parse_item_key}

module _ {T : Type 0} (codec : Codec T) (local_shard_key : String) (handlers : Handlers)
    (prefix : String) where
  or_new : Option (Dict String T) → Dict String T
  or_new none = []
  or_new (some shard_items) = shard_items

  without :
      String
      → String
      → Dict String (Dict String T)
      → Option (Dict String T)
      → Dict String (Dict String T)
  without shard_key item_id shards none = shards
  without shard_key item_id shards (some shard_items) =
      insert shard_key (remove item_id shard_items) shards

  on_delete : String → String → ShardedStore T → List (ShardNotice T) × ShardedStore T
  unfolding without
  on_delete shard_key item_id s = (
    notify_removed handlers codec.equals shard_key item_id (lookup item_id s.data_of),
    record {
      sharded_data = without shard_key item_id s.sharded_data (lookup shard_key s.sharded_data);
      data_of = remove item_id s.data_of;
      item_to_shard_key = remove item_id s.item_to_shard_key;
    },
  )

  on_put : String → String → Option T → ShardedStore T → List (ShardNotice T) × ShardedStore T
  unfolding or_new
  on_put shard_key item_id none s = ([], s)
  on_put shard_key item_id (some item) s =
      let shard_items = or_new (lookup shard_key s.sharded_data) in
      (
        notify_put handlers codec.equals shard_key item_id (lookup item_id shard_items) item,
        record s {
          sharded_data = insert shard_key (insert item_id item shard_items) s.sharded_data;
          data_of = insert item_id item s.data_of;
        },
      )

  on_change : String → String → KvEvent → ShardedStore T → List (ShardNotice T) × ShardedStore T
  unfolding on_delete on_put
  on_change shard_key item_id (delete_kv key) s = on_delete shard_key item_id s
  on_change shard_key item_id (put_kv key value) s = on_put shard_key item_id (codec.decode value) s

  on_parts :
      KvEvent → Option (String × String) → ShardedStore T → List (ShardNotice T) × ShardedStore T
  unfolding on_change
  on_parts ev none s = ([], s)
  on_parts ev (some (shard_key, item_id)) s =
      if shard_key == local_shard_key then ([], s) else on_change shard_key item_id ev s

  event_key : KvEvent → String
  event_key (put_kv key value) = key
  event_key (delete_kv key) = key

  -- One round of the loop of `handleWatchEvents`. An event of the local shard is ignored.
  unfoldable pub on_event : KvEvent → ShardedStore T → List (ShardNotice T) × ShardedStore T
  unfolding on_parts event_key
  on_event ev s = on_parts ev (parse_item_key (event_key ev) prefix) s

  unfoldable pub handle_watch_events :
      List KvEvent → ShardedStore T → List (ShardNotice T) × ShardedStore T
  handle_watch_events [] s = ([], s)
  handle_watch_events (ev ∷ evs) s =
      let first = on_event ev s in
      let rest = handle_watch_events evs first.1 in (first.0 ++ rest.0, rest.1)
