-- ===== src/Etcd/WriteOnly/Sync.antt =====
-- What the synchronisation of plugin/pkg/etcd/writeonly_store.go leaves in etcd.
use flannel_network_plugin.Prelude.{
  ◌≡◌, Option-cases, inl, inr, refl, ap, ◌∙◌, Bool, true, false, Option, none, some, List, [], ◌∷◌,
  String, string_eq, ◌==◌, if◌then◌else◌, arith, All, contains,
}
use flannel_network_plugin.Prelude.Dict.{Dict, lookup, keys, IsDict, contains-keys}
use flannel_network_plugin.Common.Result.{Result, ok}
use flannel_network_plugin.External.Lo.{Lo}
use flannel_network_plugin.External.Texts.{has_slash}
use flannel_network_plugin.External.Etcd.{Etcd, IsUp}
use flannel_network_plugin.Etcd.Client.{Client, get_key}
use flannel_network_plugin.Etcd.Connection.{
  StoreError, put_if_new_or_changed, put_if_new_or_changed_lem,
}
use flannel_network_plugin.Etcd.Store.Items.{Codec, item_key, load_kvs}
use flannel_network_plugin.Etcd.WriteOnly.{
  store_item, store_all, delete_all, sync_to_etcd, after_delete,
}
use flannel_network_plugin.Etcd.Store.Items.Read.{
  item_key-eq, load_kvs-gets, load_data_lem, starts_with-item_key,
}

abbrev pub Encodable : {T : Type 0} → Codec T → Dict String T → Type 0
Encodable codec items = All (λ e. (text : String) × (codec.encode e.1 ≡ some text)) items

-- The text that etcd is to have for an item, or for none.
abbrev pub text_of : {T : Type 0} → Codec T → Option T → Option String
text_of codec none = none
text_of codec (some v) = codec.encode v

module _ (etcd : Etcd) {T : Type 0} (codec : Codec T) (client : Client) (up : IsUp etcd) where
  open etcd use {Db, found}

  value_in : String → Option T → Option String → Option String
  value_in j none old = old
  value_in j (some v) old = codec.encode v

  store_item_lem :
      (id : String) (item : T) (db : Db)
      → ((text : String) × (codec.encode item ≡ some text))
      → (b : Bool) × (db1 : Db) × (store_item etcd codec client id item db ≡ (ok b, db1))
        × ((j : String)
            → found db1 (item_key client j)
              ≡ (if id == j then codec.encode item else found db (item_key client j)))
  unfolding store_item
  store_item_lem id item db (text, e) =
      let written = put_if_new_or_changed_lem etcd up.quiet (item_key client id) text db in
      rw e (
        _,
        _,
        ap (λ r. (r, (put_if_new_or_changed etcd (item_key client id) text db).1)) written.0,
        λ j.
            written.1 (item_key client j)
            ∙ ap (λ b. if b then some text else found db (item_key client j))
                (item_key-eq client id j),
      )

  store_all_lem :
      (items : Dict String T) (db : Db)
      → IsDict items
      → Encodable codec items
      → ((store_all etcd codec client items db).0 ≡ ok tt)
        × ((j : String)
            → found (store_all etcd codec client items db).1 (item_key client j)
              ≡ value_in j (lookup j items) (found db (item_key client j)))
  unfolding store_all lookup value_in
  store_all_lem [] db d h = (refl, λ j. refl)
  store_all_lem ((id, item) ∷ items) db d h =
      let (b, db1, stored, got) = store_item_lem id item db h.0 in
      let rest = store_all_lem items db1 d.1 h.1 in
      rw stored (rest.0, λ j. rest.1 j ∙ ground (arith, got j, d.0, string_eq.beq_iff id j))

  abbrev Gone : List String → Db → Result StoreError (Unit {0}) × Db → Type 0
  Gone ids db r =
      (r.0 ≡ ok tt)
      × ((j : String)
          → found r.1 (item_key client j)
            ≡ (if contains j ids then none else found db (item_key client j)))

  delete_all_lem : (ids : List String) (db : Db) → Gone ids db (delete_all etcd codec client ids db)
  unfolding delete_all contains
  delete_all_lem [] db = (refl, λ j. refl)
  delete_all_lem (id ∷ ids) db =
      delete_one (λ db1. delete_all_lem ids db1) (etcd.remove (item_key client id) db) refl
    where
      delete_one :
          ((db1 : Db) → Gone ids db1 (delete_all etcd codec client ids db1))
          → (r : Bool × Db) → etcd.remove (item_key client id) db ≡ r
          → Gone (id ∷ ids) db (after_delete etcd codec client (delete_all etcd codec client ids) r)
      delete_one rest (false, db1) e = absurd (up.remove_answers (item_key client id) db db1 e)
      delete_one rest (true, db1) e = (
        (rest db1).0,
        λ j.
            (rest db1).1 j
            ∙ ground (
              arith,
              up.quiet.found-left db1 (item_key client j),
              etcd.remove_true (item_key client id) db db1 e (item_key client j),
              item_key-eq client id j,
            ),
      )

  -- Where the cluster is quiet and answers, the items are a map, each item has a text, and what etcd
  -- has under the key of an identifier without a slash is an item, if it is anything: the call
  -- succeeds, and etcd has under that key the text of the item of that identifier, and nothing if
  -- there is no such item.
  pub sync_to_etcd_lem :
      (lo : Lo) (items : Dict String T) (db : Db) (j : String)
      → IsDict items
      → Encodable codec items
      → has_slash j ≡ false
      → ((text : String)
          → found db (item_key client j) ≡ some text
          → (w : T) × (codec.decode text ≡ some w))
      → ((sync_to_etcd etcd codec client lo items db).0 ≡ ok tt)
        × (found (sync_to_etcd etcd codec client lo items db).1 (item_key client j)
            ≡ text_of codec (lookup j items))
  unfolding sync_to_etcd value_in
  sync_to_etcd_lem lo items db j d h clean is_item =
      let (kvs, db1, loaded, dict, at, same) = load_data_lem etcd codec client up db in
      let s = store_all_lem items db1 d h in
      let db2 = (store_all etcd codec client items db1).1 in
      let stored : store_all etcd codec client items db1 ≡ (ok tt, db2) = ap (λ r. (r, db2)) s.0 in
      let loads = load_kvs codec (get_key client []) kvs [] in
      let r = delete_all_lem (lo.difference (keys loads) (keys items)).0 db2 in
      let dropped = lo.difference_left j (keys loads) (keys items) in
      let wanted = contains-keys j items in
      let at_key = at (item_key client j) in
      let starts = starts_with-item_key etcd codec client up j in
      rw (loaded, stored)
        (
          r.0,
          r.1 j ∙ elim (Option-cases (lookup j items)) [
            | inr (v, here) ↦ ground (arith, here, s.1 j, dropped, wanted)
            | inl gone ↦ elim (Option-cases (found db (item_key client j))) [
              | inl never ↦ ground (arith, gone, never, s.1 j, same (item_key client j))
              | inr (text, there) ↦
                  let (w, reads) = is_item text there in
                  let had =
                    load_kvs-gets codec client j text w kvs [] clean reads
                      (at_key ∙ ground (arith, starts, there)) in
                  ground (arith, gone, s.1 j, dropped, wanted, contains-keys j loads, had)
            ]
          ],
        )
