-- ===== src/Etcd/Store/Items/Read.antt =====
-- How `parseItem` and `loadData` of plugin/pkg/etcd/store.go read the keys of items.
use flannel_network_plugin.Prelude.{
  ◌≡◌, refl, ap, sym, ◌∙◌, true, false, Option, none, some, [], ◌∷◌, String, string_eq, ◌==◌,
  if◌then◌else◌, arith, Bool-cases, inl, inr, ==_refl,
}
use flannel_network_plugin.Prelude.Dict.{Dict, lookup, IsDict, is_some, lookup-insert}
use flannel_network_plugin.External.Texts.{has_slash, ◌+++◌}
use flannel_network_plugin.External.Texts.Laws.{append-ne, trim_prefix-append}
use flannel_network_plugin.Common.Result.{ok}
use flannel_network_plugin.External.Etcd.{Etcd, IsUp}
use text.Mathlib.Text.{starts_with}
use text.Mathlib.TextPositions.{starts_with-append}
use flannel_network_plugin.Etcd.Client.{Client, get_key}
use flannel_network_plugin.Etcd.Store.Items.{
  Codec, Parsed, ignored, bad, parsed, item_key, parse_item, add_parsed, load_kvs, on_load,
  load_data,
}
use flannel_network_plugin.Ipam.Lease.Read.Keys.{trim_left_clean, trim_left-slash, split_clean}

pub item_key-eq :
    (client : Client) (i j : String) → (item_key client i == item_key client j) ≡ (i == j)
unfolding item_key get_key
item_key-eq client i j = elim (Bool-cases (i == j)) [
  | inl same ↦ rw same (
      ap (λ k. item_key client i == item_key client k) (sym ((string_eq.beq_iff i j).0 same))
      ∙ ==_refl (item_key client i))
  | inr other ↦
      append-ne client.prefix ("/" +++ i) ("/" +++ j) (append-ne "/" i j other) ∙ sym other
]

module _ {T : Type 0} (codec : Codec T) (client : Client) where
  -- A key whose identifier has no slash is read back.
  pub parse_item-item_key :
      (j text : String)
      → has_slash j ≡ false
      → parse_item codec (get_key client []) (item_key client j) text
        ≡ elim (codec.decode text) [ none ↦ bad j | some w ↦ parsed j w ]
  unfolding parse_item item_key get_key
  parse_item-item_key j text clean =
      rw
        (
          trim_prefix-append client.prefix ("/" +++ j),
          trim_left-slash j,
          trim_left_clean j clean,
          split_clean j clean,
        )
        refl

  add_parsed-keeps :
      (j : String) (p : Parsed T) (result : Dict String T)
      → is_some (lookup j result) ≡ true
      → is_some (lookup j (add_parsed codec p result)) ≡ true
  unfolding add_parsed
  add_parsed-keeps j ignored result h = h
  add_parsed-keeps j (bad id) result h = h
  add_parsed-keeps j (parsed id item) result h = ground (arith, lookup-insert id j item result)

  add_parsed-gets :
      (j : String) (w : T) (p : Parsed T) (result : Dict String T)
      → p ≡ parsed j w
      → is_some (lookup j (add_parsed codec p result)) ≡ true
  unfolding add_parsed
  add_parsed-gets j w p result h = rw h (ground (arith, lookup-insert j j w result, ==_refl j))

  load_kvs-keeps :
      (prefix j : String) (kvs : Dict String String) (result : Dict String T)
      → is_some (lookup j result) ≡ true
      → is_some (lookup j (load_kvs codec prefix kvs result)) ≡ true
  unfolding load_kvs
  load_kvs-keeps prefix j [] result h = h
  load_kvs-keeps prefix j ((full_key, value) ∷ kvs) result h =
      load_kvs-keeps prefix j kvs _
        (add_parsed-keeps j (parse_item codec prefix full_key value) result h)

  pub load_kvs-gets :
      (j text : String) (w : T) (kvs : Dict String String) (result : Dict String T)
      → has_slash j ≡ false
      → codec.decode text ≡ some w
      → lookup (item_key client j) kvs ≡ some text
      → is_some (lookup j (load_kvs codec (get_key client []) kvs result)) ≡ true
  unfolding load_kvs lookup
  load_kvs-gets j text w [] result clean reads h = ground arith
  load_kvs-gets j text w ((full_key, value) ∷ kvs) result clean reads h =
      elim (Bool-cases (full_key == item_key client j)) [
        | inl hit ↦ load_kvs-keeps (get_key client []) j kvs _ (
            add_parsed-gets j w (parse_item codec (get_key client []) full_key value) result
              (read hit))
        | inr other ↦ load_kvs-gets j text w kvs _ clean reads (ground arith)
      ]
    where
      read :
          (full_key == item_key client j) ≡ true
          → parse_item codec (get_key client []) full_key value ≡ parsed j w
      read hit =
          let same : value ≡ text = ground arith in
          rw ((string_eq.beq_iff full_key (item_key client j)).0 hit)
            (parse_item-item_key j value clean ∙ ground (arith, ap codec.decode same ∙ reads))

module _ (etcd : Etcd) {T : Type 0} (codec : Codec T) (client : Client) (up : IsUp etcd) where
  open etcd use {Db, found}

  -- What a load that does not fail has read.
  pub load_data_lem :
      (db : Db)
      → (kvs : Dict String String) × (db1 : Db) × (load_data etcd codec client db
          ≡ (ok (load_kvs codec (get_key client []) kvs []), db1))
        × IsDict kvs
        × ((k : String)
            → lookup k kvs ≡ (if starts_with k (get_key client []) then found db k else none))
        × ((k : String) → found db1 k ≡ found db k)
  unfolding load_data
  load_data_lem db = loaded (etcd.get_prefix (get_key client []) db) refl
    where
      loaded :
          (r : Option (Dict String String) × Db)
          → etcd.get_prefix (get_key client []) db ≡ r
          → (kvs : Dict String String) × (db1 : Db) × (on_load etcd codec client r
              ≡ (ok (load_kvs codec (get_key client []) kvs []), db1))
            × IsDict kvs
            × ((k : String)
                → lookup k kvs ≡ (if starts_with k (get_key client []) then found db k else none))
            × ((k : String) → found db1 k ≡ found db k)
      loaded (none, db1) e = absurd (up.get_prefix_answers (get_key client []) db db1 e)
      loaded (some kvs, db1) e =
          let got = etcd.get_prefix_some (get_key client []) db db1 kvs e in
          (kvs, db1, refl, got.0, got.1, λ k. up.quiet.found-left db1 k ∙ got.2 k)

  pub starts_with-item_key :
      (j : String) → starts_with (item_key client j) (get_key client []) ≡ true
  unfolding item_key get_key
  starts_with-item_key j = starts_with-append client.prefix ("/" +++ j)
