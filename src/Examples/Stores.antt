-- ===== src/Examples/Stores.antt =====
-- The stores of a node on a cluster with one client; items are numbers, written in unary.
use flannel_network_plugin.Prelude.{
  ℕ, ◌≡◌, refl, ap, ◌∙◌, sym, true, false, not, some, List, [], ◌∷◌, String, string_eq, ◌==◌,
  if◌then◌else◌, nat_beq, arith, Bool-cases, inl, inr,
}
use mathlib.Core.Path.{subst}
use flannel_network_plugin.Prelude.Dict.{Dict, lookup, IsDict}
use flannel_network_plugin.Common.Result.{ok}
use flannel_network_plugin.External.Texts
use flannel_network_plugin.External.Etcd.Single.{Db, single, store_of, single-IsQuiet, single-IsUp}
use flannel_network_plugin.Examples.{slices, plugin, ticks, count_ticks, count_ticks-ticks}
use flannel_network_plugin.Etcd.Client.{get_key}
use flannel_network_plugin.Etcd.Connection.{
  put_if_new_or_changed, has_value, put_if_new_or_changed_lem,
}
use flannel_network_plugin.Etcd.Store.Items.{Codec, item_key}
use flannel_network_plugin.Etcd.Store.Notices.{Handlers}
use flannel_network_plugin.Etcd.WriteOnly.{sync_to_etcd}
use flannel_network_plugin.Etcd.WriteOnly.Sync.{text_of, sync_to_etcd_lem}
use flannel_network_plugin.Etcd.ReadOnly.{put_kv, delete_kv, KvEvent, sync, watch_event_handler}
use flannel_network_plugin.Etcd.ReadOnly.Mirror.{
  Plain, read_value, after_events, watch_event_handler-sync,
}
use flannel_network_plugin.Etcd.Sharded.{new_sharded_store, get_shard}
use flannel_network_plugin.Etcd.Sharded.Sync
use flannel_network_plugin.Etcd.Sharded.Sync.Local.{Foreign, sync-unwritten}

some_injective : {A : Type 0} (a b : A) → some a ≡ some b → a ≡ b
some_injective a b h = ground (arith, h)

unary_round_trip :
    (item : ℕ) (text : String) → some (ticks item) ≡ some text → some (count_ticks text) ≡ some item
unary_round_trip item text h =
    ap some (ap count_ticks (sym (some_injective (ticks item) text h)) ∙ count_ticks-ticks item)

abbrev unary : Codec ℕ
unary = record {
  encode = λ n. some (ticks n);
  decode = λ s. some (count_ticks s);
  decode-encode = unary_round_trip;
  equals = nat_beq;
  zero_item = 0;
}

abbrev all_handlers : Handlers
all_handlers = record { on_changed = true; on_added = true; on_removed = true }

-- One item of the store, with another value than in etcd, and one that only etcd has.
abbrev old_db : Db
old_db = ("/flannel/a", "t") ∷ ("/flannel/b", "tt") ∷ []

abbrev wanted : Dict String ℕ
wanted = ("a", 3) ∷ []

put_if_new_or_changed_lem_example :
    ((put_if_new_or_changed single "/flannel/a" "ttt" old_db).0
      ≡ ok (not (has_value single "ttt" (store_of old_db "/flannel/a"))))
    × ((k : String)
        → store_of (put_if_new_or_changed single "/flannel/a" "ttt" old_db).1 k
          ≡ (if "/flannel/a" == k then some "ttt" else store_of old_db k))
put_if_new_or_changed_lem_example =
    put_if_new_or_changed_lem single single-IsQuiet "/flannel/a" "ttt" old_db

wanted-IsDict : IsDict wanted
unfolding lookup
wanted-IsDict = (refl, tt)

sync_to_etcd_lem_example :
    ((sync_to_etcd single unary plugin slices wanted old_db).0 ≡ ok tt)
    × (store_of (sync_to_etcd single unary plugin slices wanted old_db).1 (item_key plugin "b")
        ≡ text_of unary (lookup "b" wanted))
unfolding Texts.has_slash
sync_to_etcd_lem_example =
    sync_to_etcd_lem single unary plugin single-IsUp slices wanted old_db "b" wanted-IsDict
      (("ttt", refl), tt) refl (λ text there. (count_ticks text, refl))

abbrev one_db : Db
one_db = ("/flannel/a", "t") ∷ []

-- Only one key is there.
only :
    {V : Type 0} (P : String → Type 0) (j : String) (v : V)
    → P j
    → (k : String) (w : V) → lookup k ((j, v) ∷ []) ≡ some w
    → P k
unfolding lookup
only P j v p k w h = elim (Bool-cases (j == k)) [
  | inl same ↦ subst P ((string_eq.beq_iff j k).0 same) p
  | inr other ↦ ground (arith, other)
]

a-Plain : Plain plugin "/flannel/a"
unfolding Texts.has_slash item_key get_key Texts.join
a-Plain = ("a", refl, refl)

b-Plain : Plain plugin "/flannel/b"
unfolding Texts.has_slash item_key get_key Texts.join
b-Plain = ("b", refl, refl)

abbrev events : List KvEvent
events = put_kv "/flannel/b" "tt" ∷ delete_kv "/flannel/a" ∷ []

watch_event_handler-sync_example :
    lookup "b"
      (watch_event_handler unary plugin all_handlers
        (get_key plugin [])
        events
        (sync single unary plugin slices all_handlers false
          (record { items = [] })
          one_db).0.1).1.items
    ≡ read_value unary plugin (after_events events (store_of one_db) (item_key plugin "b"))
unfolding Texts.has_slash
watch_event_handler-sync_example =
    watch_event_handler-sync single unary plugin single-IsUp slices all_handlers false
      (record { items = [] }) one_db events
      (λ k text h found. only (Plain plugin) "/flannel/a" "t" a-Plain k text found)
      ((b-Plain, (2, refl)), (a-Plain, tt)) "b" refl

-- Only another node's shard is in etcd.
abbrev other_db : Db
other_db = ("/flannel/other/x", "t") ∷ []

abbrev mine : Dict String ℕ
mine = ("m", 1) ∷ []

x-Foreign : Foreign "me" (Sync.parse_item_key "/flannel/other/x" (get_key plugin []))
unfolding Sync.parse_item_key Texts.trim_prefix Texts.trim_left Texts.split get_key
x-Foreign = refl

sync-unwritten_example :
    ((k : String)
      → store_of
          (Sync.sync single unary plugin slices "me" mine all_handlers false
            (new_sharded_store "me")
            other_db).1
          k
        ≡ store_of other_db k)
    × (get_shard "me"
          (Sync.sync single unary plugin slices "me" mine all_handlers false
            (new_sharded_store "me")
            other_db).0.1
        ≡ some mine)
sync-unwritten_example =
    sync-unwritten single unary plugin slices "me" mine single-IsUp all_handlers false
      (new_sharded_store "me") other_db
      (λ k text h found.
        only (λ j. Foreign "me" (Sync.parse_item_key j (get_key plugin []))) "/flannel/other/x" "t"
          x-Foreign k text found)
