-- ===== src/Etcd/Store/Items.antt =====
-- plugin/pkg/etcd/store.go: reading the items of a store from their keys. The texts of items, JSON,
-- are an interface.
pub mod Read
use flannel_network_plugin.Prelude.{
  ◌≡◌, Bool, true, false, Option, none, some, List, [], ◌∷◌, String, string_eq, if◌then◌else◌,
}
use flannel_network_plugin.Prelude.Dict.{Dict, lookup, insert}
use flannel_network_plugin.Common.Result.{Result, ok, err}
use flannel_network_plugin.External.Texts.{trim_prefix, trim_left, split}
use flannel_network_plugin.External.Etcd.{Etcd}
use flannel_network_plugin.Etcd.Client.{Client, get_key}
use flannel_network_plugin.Etcd.Connection.{StoreError, etcd_failed}

-- `json.Marshal` and `json.Unmarshal` at the type of the items, and `Equals`.
pub record Codec (T : Type 0) : Type 0 where
  pub encode : T → Option String
  pub decode : String → Option T
  pub decode-encode : (item : T) (text : String) → encode item ≡ some text → decode text ≡ some item
  pub equals : T → T → Bool
  pub zero_item : T

-- What `parseItem` returns: that the key is ignored, an error, or an item.
pub data Parsed (T : Type 0) : Type 0 where
  ignored : Parsed T
  bad : String → Parsed T
  parsed : String → T → Parsed T

-- The key of an item.
unfoldable pub item_key : Client → String → String
unfolding get_key
item_key client id = get_key client (id ∷ [])

module _ {T : Type 0} (codec : Codec T) where
  parse_value : String → Option T → Parsed T
  parse_value item_id none = bad item_id
  parse_value item_id (some item) = parsed item_id item

  parse_parts : List String → String → Parsed T
  unfolding parse_value
  parse_parts (item_id ∷ []) value = parse_value item_id (codec.decode value)
  parse_parts _ value = ignored

  unfoldable pub parse_item : String → String → String → Parsed T
  unfolding parse_parts
  parse_item prefix full_key value =
      parse_parts (split (trim_left (trim_prefix full_key prefix))) value

  unfoldable pub add_parsed : Parsed T → Dict String T → Dict String T
  add_parsed ignored result = result
  add_parsed (bad item_id) result = result
  add_parsed (parsed item_id item) result = insert item_id item result

  -- The loop of `loadData`.
  unfoldable pub load_kvs : String → Dict String String → Dict String T → Dict String T
  unfolding add_parsed
  load_kvs prefix [] result = result
  load_kvs prefix ((full_key, value) ∷ kvs) result =
      load_kvs prefix kvs (add_parsed (parse_item prefix full_key value) result)

module _ (etcd : Etcd) {T : Type 0} (codec : Codec T) (client : Client) where
  open etcd use {Db}

  on_load : Option (Dict String String) × Db → Result StoreError (Dict String T) × Db
  on_load (none, db) = (err etcd_failed, db)
  on_load (some kvs, db) = (ok (load_kvs codec (get_key client []) kvs []), db)

  unfoldable pub load_data : Db → Result StoreError (Dict String T) × Db
  unfolding on_load
  load_data db = on_load (etcd.get_prefix (get_key client []) db)
