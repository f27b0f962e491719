-- ===== src/Etcd/WriteOnly/Items.antt =====
-- The items of a store after `AddOrUpdateItem` of plugin/pkg/etcd/writeonly_store.go.
use flannel_network_plugin.Prelude.{◌≡◌, refl, Bool, String, string_eq}
use flannel_network_plugin.Prelude.Dict.{lookup, insert}
use flannel_network_plugin.Common.Result.{Result, ok, err}
use flannel_network_plugin.External.Etcd.{Etcd}
use flannel_network_plugin.Etcd.Client.{Client}
use flannel_network_plugin.Etcd.Connection.{StoreError}
use flannel_network_plugin.Etcd.Store.{StoreBase}
use flannel_network_plugin.Etcd.Store.Notices.{Handlers, invoke_add_or_changed}
use flannel_network_plugin.Etcd.Store.Items.{Codec}
use flannel_network_plugin.Etcd.WriteOnly.{store_item, on_stored, add_or_update_item}

module _ (etcd : Etcd) {T : Type 0} (codec : Codec T) (client : Client) where
  open etcd use {Db}

  -- The item stands in the store, whether etcd has taken it or not.
  pub items-add_or_update_item :
      (handlers : Handlers) (item_id : String) (item : T) (s : StoreBase T) (db : Db)
      → (add_or_update_item etcd codec client handlers item_id item s db).1.items
        ≡ insert item_id item s.items
  unfolding add_or_update_item on_stored
  items-add_or_update_item handlers item_id item s db =
      go (store_item etcd codec client item_id item db)
    where
      go :
          (r : Result StoreError Bool × Db)
          → (on_stored etcd codec client
              (invoke_add_or_changed handlers codec.equals item_id (lookup item_id s.items) item)
              (record { items = insert item_id item s.items })
              r).1.items
            ≡ insert item_id item s.items
      go (ok written, db1) = refl
      go (err e, db1) = refl
