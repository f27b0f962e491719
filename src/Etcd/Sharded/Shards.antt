-- ===== src/Etcd/Sharded/Shards.antt =====
-- What a node knows of the items of others: plugin/pkg/etcd/sharded_distributed_store.go.
use flannel_network_plugin.Prelude.{
  ◌≡◌, refl, ap, ◌∙◌, false, some, [], ◌∷◌, String, string_eq, ◌==◌, arith, ==_refl,
}
use flannel_network_plugin.Prelude.Dict.{Dict, lookup, insert, lookup-insert}
use flannel_network_plugin.External.Texts.{has_slash, ◌+++◌}
use flannel_network_plugin.External.Texts.Laws.{trim_prefix-append}
use flannel_network_plugin.Etcd.Client.{Client, get_key}
use flannel_network_plugin.Etcd.Store.Items.{Codec}
use flannel_network_plugin.Etcd.Store.Notices.{Handlers}
use flannel_network_plugin.Etcd.ReadOnly.{put_kv}
use flannel_network_plugin.Etcd.Sharded.{ShardedStore, get_item, get_shard, or_empty}
use flannel_network_plugin.Etcd.Sharded.Sync.{parse_item_key}
use flannel_network_plugin.Etcd.Sharded.Watch.{on_event}
use flannel_network_plugin.Ipam.Lease.Read.Keys.{
  trim_left-slash, trim_left-append, split_clean, split-append,
}

lookup-here :
    {V : Type 0} (k : String) (v : V) (m : Dict String V) → lookup k (insert k v m) ≡ some v
lookup-here k v m = lookup-insert k k v m ∙ ground (arith, ==_refl k)

parse_item_key-get_key :
    (client : Client) (shard_key item_id : String)
    → has_slash shard_key ≡ false
    → (shard_key == "") ≡ false
    → has_slash item_id ≡ false
    → parse_item_key (get_key client (shard_key ∷ item_id ∷ [])) (get_key client [])
      ≡ some (shard_key, item_id)
unfolding parse_item_key get_key
parse_item_key-get_key client shard_key item_id clean ne clean_id =
    rw
      (
        trim_prefix-append client.prefix ("/" +++ shard_key +++ "/" +++ item_id),
        trim_left-slash (shard_key +++ "/" +++ item_id),
        trim_left-append shard_key ("/" +++ item_id) clean ne,
        split-append shard_key item_id clean,
        split_clean item_id clean_id,
      )
      refl

module _ {T : Type 0} (codec : Codec T) (client : Client) (local_shard_key : String)
    (handlers : Handlers) where
  -- When another node writes an item in its shard, under names without slashes: the item is found,
  -- in the shard and under its identifier, but the shard key that is found with it is the one from
  -- before, so the empty text for an item that is new.
  pub get_item-on_event :
      (shard_key item_id text : String) (item : T) (s : ShardedStore T)
      → has_slash shard_key ≡ false
      → (shard_key == "") ≡ false
      → has_slash item_id ≡ false
      → (shard_key == local_shard_key) ≡ false
      → codec.decode text ≡ some item
      → (get_item item_id
            (on_event codec local_shard_key handlers
              (get_key client [])
              (put_kv (get_key client (shard_key ∷ item_id ∷ [])) text)
              s).1
          ≡ ((get_item item_id s).0, some item))
        × ((items : Dict String T) × (get_shard shard_key
                (on_event codec local_shard_key handlers
                  (get_key client [])
                  (put_kv (get_key client (shard_key ∷ item_id ∷ [])) text)
                  s).1
              ≡ some items)
            × (lookup item_id items ≡ some item))
  unfolding on_event get_item get_shard
  get_item-on_event shard_key item_id text item s clean ne clean_id other reads =
      rw (parse_item_key-get_key client shard_key item_id clean ne clean_id, other, reads)
        (
          ap (λ o. (or_empty (lookup item_id s.item_to_shard_key), o))
              (lookup-here item_id item s.data_of),
          (_, lookup-here shard_key _ s.sharded_data, lookup-here item_id item _),
        )
