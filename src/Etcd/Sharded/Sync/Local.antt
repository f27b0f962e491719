-- ===== src/Etcd/Sharded/Sync/Local.antt =====
-- What becomes of a node's own shard: plugin/pkg/etcd/sharded_distributed_store.go.
use flannel_network_plugin.Prelude.{
  ◌≡◌, refl, ap, ◌∙◌, Bool, true, false, Option, none, some, List, [], ◌∷◌, String, string_eq, ◌==◌,
  if◌then◌else◌, arith, Bool-cases, Option-cases, inl, inr, ==_refl,
}
use flannel_network_plugin.Prelude.Dict.{Dict, lookup, insert, IsDict, lookup-insert}
use flannel_network_plugin.Common.Result.{Result, ok, err}
use flannel_network_plugin.External.Lo.{Lo}
use flannel_network_plugin.External.Etcd.{Etcd, IsUp}
use flannel_network_plugin.Etcd.Client.{Client, get_key}
use flannel_network_plugin.Etcd.Connection.{StoreError}
use flannel_network_plugin.Etcd.Store.Items.{Codec}
use flannel_network_plugin.Etcd.Store.Notices.{Handlers}
use flannel_network_plugin.Etcd.Sharded.{ShardedStore, ShardNotice, ShardFault, get_shard}
use flannel_network_plugin.Etcd.Sharded.Sync.{
  parse_item_key, set_sharded_item, sync_to_internal_state, load_kvs, load_data, Syncing,
  sync_shards, sync, index_shard, index_shards, add_kv, after_kv, on_kvs, on_load, on_loaded,
  on_shards,
}
use text.Mathlib.Text.{starts_with}

module _ {T : Type 0} where
  index_shard-sharded_data :
      (key : String) (items : Dict String T) (s : ShardedStore T)
      → (index_shard key items s).sharded_data ≡ s.sharded_data
  unfolding index_shard
  index_shard-sharded_data key [] s = refl
  index_shard-sharded_data key ((id, item) ∷ items) s = index_shard-sharded_data key items _

  index_shards-sharded_data :
      (shards : Dict String (Dict String T)) (s : ShardedStore T)
      → (index_shards shards s).sharded_data ≡ s.sharded_data
  unfolding index_shards
  index_shards-sharded_data [] s = refl
  index_shards-sharded_data ((key, items) ∷ shards) s =
      index_shards-sharded_data shards (index_shard key items s)
      ∙ index_shard-sharded_data key items s

-- A key of etcd that is not one of the local shard.
abbrev pub Foreign : String → Option (String × String) → Type 0
Foreign local_shard_key none = Unit
Foreign local_shard_key (some (shard_key, item_id)) = (shard_key == local_shard_key) ≡ false

module _ {T : Type 0} (codec : Codec T) (lo : Lo) where
  get_shard-sync_to_internal_state :
      (key asked : String) (truth : Dict String T) (s : ShardedStore T)
      → get_shard asked (sync_to_internal_state codec lo key truth s).1
        ≡ (if key == asked then some truth else get_shard asked s)
  unfolding get_shard sync_to_internal_state
  get_shard-sync_to_internal_state key asked truth s =
      ap (lookup asked) (index_shards-sharded_data (insert key truth s.sharded_data) _)
      ∙ lookup-insert key asked truth s.sharded_data

module _ {T : Type 0} (codec : Codec T) (local_shard_key : String) where
  abbrev NoLocal : Option (Dict String (Dict String T)) → Type 0
  NoLocal none = Unit
  NoLocal (some shards) = lookup local_shard_key shards ≡ none

  add_kv-NoLocal :
      (parts : Option (String × String)) (value : String) (result : Dict String (Dict String T))
      → Foreign local_shard_key parts
      → lookup local_shard_key result ≡ none
      → NoLocal (add_kv codec parts value result)
  unfolding add_kv set_sharded_item
  add_kv-NoLocal none value result f h = h
  add_kv-NoLocal (some (shard_key, item_id)) value result f h =
      elim (Option-cases (codec.decode value)) [
        | inl unread ↦ rw unread tt
        | inr (item, reads) ↦
            rw reads (lookup-insert shard_key local_shard_key _ result ∙ ground (arith, f, h))
      ]

  load_kvs-NoLocal :
      (prefix : String) (kvs : Dict String String) (result : Dict String (Dict String T))
      → ((k text : String)
          → lookup k kvs ≡ some text
          → Foreign local_shard_key (parse_item_key k prefix))
      → IsDict kvs
      → lookup local_shard_key result ≡ none
      → NoLocal (load_kvs codec prefix kvs result)
  unfolding load_kvs lookup
  load_kvs-NoLocal prefix [] result f d h = h
  load_kvs-NoLocal prefix ((key, value) ∷ kvs) result f d h =
      go (add_kv codec (parse_item_key key prefix) value result)
        (add_kv-NoLocal (parse_item_key key prefix) value result
          (f key value (ground (arith, ==_refl key))) h)
        (λ more.
          load_kvs-NoLocal prefix kvs more
            (λ k text there. f k text (ground (arith, there, d.0, string_eq.beq_iff key k))) d.1)
    where
      go :
          (r : Option (Dict String (Dict String T)))
          → NoLocal r
          → ((more : Dict String (Dict String T))
              → lookup local_shard_key more ≡ none
              → NoLocal (load_kvs codec prefix kvs more))
          → NoLocal (after_kv codec (load_kvs codec prefix kvs) r)
      go none h1 rest = tt
      go (some more) h1 rest = rest more h1

module _ (etcd : Etcd) {T : Type 0} (codec : Codec T) (client : Client) (lo : Lo)
    (local_shard_key : String) (local_shard_items : Dict String T) where
  open etcd use {Db, found}

  sync_shards-NoLocal :
      (shards : Dict String (Dict String T)) (db : Db) (st : Syncing T)
      → lookup local_shard_key shards ≡ none
      → ((sync_shards etcd codec client lo local_shard_key local_shard_items shards db st).2 ≡ db)
        × (get_shard local_shard_key
              (sync_shards etcd codec client lo local_shard_key local_shard_items shards db
                st).1.store
            ≡ get_shard local_shard_key st.store)
  unfolding sync_shards lookup
  sync_shards-NoLocal [] db st h = (refl, refl)
  sync_shards-NoLocal ((key, items) ∷ shards) db st h = elim (Bool-cases (key == local_shard_key)) [
    | inl same ↦ ground (arith, same)
    | inr other ↦
        let kept = get_shard-sync_to_internal_state codec lo key local_shard_key items st.store in
        let rest = sync_shards-NoLocal shards db _ (ground (arith, other)) in
        rw (other, sync_shards) (rest.0, rest.1 ∙ kept ∙ ground (arith, other))
  ]

  on_shards-keeps :
      (handlers : Handlers) (call_handlers : Bool)
      (r : Result StoreError (Unit {0}) × Syncing T × Db)
      → ((on_shards etcd codec client lo local_shard_key local_shard_items handlers call_handlers
            r).1
          ≡ r.2)
        × ((on_shards etcd codec client lo local_shard_key local_shard_items handlers call_handlers
              r).0.1
            ≡ r.1.store)
  unfolding on_shards
  on_shards-keeps handlers call_handlers (ok _, st, db) = (refl, refl)
  on_shards-keeps handlers call_handlers (err e, st, db) = (refl, refl)

  Unwritten : Db → (Result ShardFault (List (ShardNotice T)) × ShardedStore T) × Db → Type 0
  Unwritten db r =
      ((k : String) → found r.1 k ≡ found db k)
      × (get_shard local_shard_key r.0.1 ≡ some local_shard_items)

  -- Where the cluster is quiet and answers, and etcd has no key of the local shard: a
  -- synchronisation leaves etcd as it was, so that none of the local items is written, and the local
  -- shard of the store has them all.
  pub sync-unwritten :
      IsUp etcd
      → (handlers : Handlers) (call_handlers : Bool) (s : ShardedStore T) (db : Db)
      → ((k text : String)
          → starts_with k (get_key client []) ≡ true
          → found db k ≡ some text
          → Foreign local_shard_key (parse_item_key k (get_key client [])))
      → ((k : String)
          → found
              (sync etcd codec client lo local_shard_key local_shard_items handlers call_handlers s
                db).1
              k
            ≡ found db k)
        × (get_shard local_shard_key
              (sync etcd codec client lo local_shard_key local_shard_items handlers call_handlers s
                db).0.1
            ≡ some local_shard_items)
  unfolding sync load_data Unwritten lookup
  sync-unwritten up handlers call_handlers s db foreign =
      read (etcd.get_prefix (get_key client []) db) refl
    where
      first : Syncing T
      first =
          let d = sync_to_internal_state codec lo local_shard_key local_shard_items s in
          record { delta = d.0; store = d.1 }

      mine : get_shard local_shard_key first.store ≡ some local_shard_items
      mine =
          get_shard-sync_to_internal_state codec lo local_shard_key local_shard_key
            local_shard_items s
          ∙ ground (arith, ==_refl local_shard_key)

      loaded :
          (db1 : Db)
          → ((k : String) → found db1 k ≡ found db k)
          → (r : Option (Dict String (Dict String T))) → NoLocal codec local_shard_key r
          → Unwritten db (
              on_shards etcd codec client lo local_shard_key local_shard_items handlers
                call_handlers
                (on_loaded etcd codec client lo local_shard_key local_shard_items first
                  (on_kvs etcd codec client db1 r)))
      loaded db1 same none h = (same, mine)
      loaded db1 same (some shards) h =
          let ended = sync_shards-NoLocal shards db1 first h in
          let kept =
            on_shards-keeps handlers call_handlers (
              sync_shards etcd codec client lo local_shard_key local_shard_items shards db1
                first) in
          (
            (λ k. ap (λ d. found d k) (kept.0 ∙ ended.0) ∙ same k),
            ap (get_shard local_shard_key) kept.1 ∙ ended.1 ∙ mine,
          )

      read :
          (r : Option (Dict String String) × Db)
          → etcd.get_prefix (get_key client []) db ≡ r
          → Unwritten db (
              on_shards etcd codec client lo local_shard_key local_shard_items handlers
                call_handlers
                (on_loaded etcd codec client lo local_shard_key local_shard_items first
                  (on_load etcd codec client r)))
      read (none, db1) e = absurd (up.get_prefix_answers (get_key client []) db db1 e)
      read (some kvs, db1) e =
          let got = etcd.get_prefix_some (get_key client []) db db1 kvs e in
          loaded db1 (λ k. up.quiet.found-left db1 k ∙ got.2 k)
            (load_kvs codec (get_key client []) kvs [])
            (load_kvs-NoLocal codec local_shard_key (get_key client []) kvs []
              (λ k text h. foreign k text (ground (arith, got.1 k, h)) (ground (arith, got.1 k, h)))
              got.0 refl)
