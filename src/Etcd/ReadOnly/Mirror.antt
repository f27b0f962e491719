-- ===== src/Etcd/ReadOnly/Mirror.antt =====
-- What a read-only store of plugin/pkg/etcd/readonly_store.go has of the keys that it follows.
use flannel_network_plugin.Prelude.{
  ◌≡◌, refl, sym, ◌∙◌, Bool, true, false, Option, none, some, List, [], ◌∷◌, String, string_eq,
  ◌==◌, if◌then◌else◌, arith, All, Option-cases, inl, inr, ==_refl,
}
use flannel_network_plugin.Prelude.Dict.{Dict, lookup, IsDict, lookup-insert, lookup-remove}
use flannel_network_plugin.External.Lo.{Lo}
use flannel_network_plugin.External.Texts.{has_slash, trim_prefix, ◌+++◌}
use text.Mathlib.Text.{starts_with}
use text.Mathlib.TextLemmas.{append_assoc}
use flannel_network_plugin.External.Texts.Laws.{trim_prefix-append}
use flannel_network_plugin.External.Etcd.{Etcd, IsUp, Store}
use flannel_network_plugin.Etcd.Client.{Client, get_key}
use flannel_network_plugin.Etcd.Store.{StoreBase, sync_to_internal_state}
use flannel_network_plugin.Etcd.Store.Items.{Codec, item_key, parse_item, load_kvs, add_parsed}
use flannel_network_plugin.Etcd.Store.Items.Read.{
  item_key-eq, parse_item-item_key, load_data_lem, starts_with-item_key,
}
use flannel_network_plugin.Etcd.Store.Notices.{Handlers}
use flannel_network_plugin.Etcd.ReadOnly.{
  KvEvent, put_kv, delete_kv, sync, on_event, watch_event_handler,
}

-- What etcd has after the events of a watch.
abbrev pub after_event : KvEvent → Store → Store
after_event (put_kv key value) st k = if key == k then some value else st k
after_event (delete_kv key) st k = if key == k then none else st k

abbrev pub after_events : List KvEvent → Store → Store
after_events [] st = st
after_events (ev ∷ evs) st = after_events evs (after_event ev st)

trim_prefix-item_key :
    (client : Client) (i : String) → trim_prefix (item_key client i) (get_key client [] +++ "/") ≡ i
unfolding item_key get_key
trim_prefix-item_key client i =
    rw (sym (append_assoc client.prefix "/" i)) (trim_prefix-append (client.prefix +++ "/") i)

-- A key of an item whose identifier has no slash.
abbrev pub Plain : Client → String → Type 0
Plain client k = (j : String) × (has_slash j ≡ false) × (k ≡ item_key client j)

module _ {T : Type 0} (codec : Codec T) (client : Client) where
  -- The item that a value of etcd is.
  unfoldable pub read_value : Option String → Option T
  read_value none = none
  read_value (some text) = codec.decode text

  -- An event on an item: a value that is an item under a plain key, or the end of a plain key.
  abbrev pub ItemEvent : KvEvent → Type 0
  ItemEvent (put_kv key value) = Plain client key × ((w : T) × (codec.decode value ≡ some w))
  ItemEvent (delete_kv key) = Plain client key

  abbrev Mirrors : Store → StoreBase T → Type 0
  Mirrors st s =
      (j : String) → has_slash j ≡ false → lookup j s.items ≡ read_value (st (item_key client j))

  on_event-Mirrors :
      (handlers : Handlers) (ev : KvEvent) (st : Store) (s : StoreBase T)
      → ItemEvent ev
      → Mirrors st s
      → Mirrors (after_event ev st) (on_event codec client handlers (get_key client []) ev s).1
  unfolding on_event read_value
  on_event-Mirrors handlers (put_kv key value) st s ((i, clean, e), (w, reads)) m = λ j cj. rw e (
      rw (parse_item-item_key codec client i value clean, reads)
        (ground (arith, item_key-eq client i j, lookup-insert i j w s.items, m j cj, reads)))
  on_event-Mirrors handlers (delete_kv key) st s (i, clean, e) m = λ j cj. rw e (
      rw (trim_prefix-item_key client i)
        (ground (arith, item_key-eq client i j, lookup-remove i j s.items, m j cj)))

  pub watch_event_handler-Mirrors :
      (handlers : Handlers) (evs : List KvEvent) (st : Store) (s : StoreBase T)
      → All ItemEvent evs
      → Mirrors st s
      → Mirrors
          (after_events evs st)
          (watch_event_handler codec client handlers (get_key client []) evs s).1
  unfolding watch_event_handler
  watch_event_handler-Mirrors handlers [] st s h m = m
  watch_event_handler-Mirrors handlers (ev ∷ evs) st s h m =
      watch_event_handler-Mirrors handlers evs (after_event ev st)
        (on_event codec client handlers (get_key client []) ev s).1 h.1
        (on_event-Mirrors handlers ev st s h.0 m)

  lookup-add_parsed :
      (key value : String) (result : Dict String T) (j : String)
      → Plain client key
      → lookup j (add_parsed codec (parse_item codec (get_key client []) key value) result) ≡ (
          if key == item_key client j
          then elim (codec.decode value) [ none ↦ lookup j result | some w ↦ some w ]
          else lookup j result)
  unfolding add_parsed
  lookup-add_parsed key value result j (i, clean, e) = rw e (
      rw (parse_item-item_key codec client i value clean)
        (elim (Option-cases (codec.decode value)) [
          | inl unread ↦ ground (arith, unread)
          | inr (w, reads) ↦
              ground (arith, reads, item_key-eq client i j, lookup-insert i j w result)
        ]))

  -- What a load reads of plain keys.
  lookup-load_kvs :
      (kvs : Dict String String) (result : Dict String T) (j : String)
      → IsDict kvs
      → ((k text : String) → lookup k kvs ≡ some text → Plain client k)
      → has_slash j ≡ false
      → lookup j (load_kvs codec (get_key client []) kvs result)
        ≡ elim (read_value (lookup (item_key client j) kvs)) [
          | none ↦ lookup j result
          | some w ↦ some w
        ]
  unfolding load_kvs lookup read_value add_parsed
  lookup-load_kvs [] result j d plain cj = refl
  lookup-load_kvs ((key, value) ∷ kvs) result j d plain cj =
      let at_key = plain key value (ground (arith, ==_refl key)) in
      let rest =
        lookup-load_kvs kvs
          (add_parsed codec (parse_item codec (get_key client []) key value) result) j d.1
          (λ k text h. plain k text (ground (arith, h, d.0, string_eq.beq_iff key k))) cj in
      let here = lookup-add_parsed key value result j at_key in
      let no_more = string_eq.beq_iff key (item_key client j) in
      rest ∙ elim (Option-cases (lookup (item_key client j) kvs)) [
        | inl unread ↦ ground (arith, unread, here, no_more)
        | inr (text, there) ↦ ground (arith, there, here, no_more, d.0)
      ]

module _ (etcd : Etcd) {T : Type 0} (codec : Codec T) (client : Client) where
  open etcd use {Db, found}

  -- Where the cluster is quiet and answers, and every key of the store in etcd is plain: the store
  -- is what etcd has, read value by value, after it has loaded the keys and followed the events that
  -- come after that load. The events write values that are items, or delete, at plain keys.
  pub watch_event_handler-sync :
      IsUp etcd
      → (lo : Lo) (handlers : Handlers) (call_handlers : Bool) (s : StoreBase T) (db : Db)
        (evs : List KvEvent)
      → ((k text : String)
          → starts_with k (get_key client []) ≡ true
          → found db k ≡ some text
          → Plain client k)
      → All (ItemEvent codec client) evs
      → (j : String) → has_slash j ≡ false
      → lookup j
          (watch_event_handler codec client handlers
            (get_key client [])
            evs
            (sync etcd codec client lo handlers call_handlers s db).0.1).1.items
        ≡ read_value codec client (after_events evs (found db) (item_key client j))
  unfolding sync sync_to_internal_state lookup read_value
  watch_event_handler-sync up lo handlers call_handlers s db evs plain events =
      let (kvs, db1, loaded, dict, at, same) = load_data_lem etcd codec client up db in
      let truth = load_kvs codec (get_key client []) kvs [] in
      watch_event_handler-Mirrors codec client handlers evs (found db) _ events (
        rw loaded (λ j cj.
          lookup-load_kvs codec client kvs [] j dict
            (λ k text h. plain k text (ground (arith, at k, h)) (ground (arith, at k, h))) cj
          ∙ ground (arith, at (item_key client j), starts_with-item_key etcd codec client up j)))
