-- ===== src/Ipam/Lease/Read.antt =====
-- plugin/pkg/ipam/pool_etcd.go: reading the allocations back from etcd.
pub mod Keys
pub mod RoundTrip
pub mod Single
use flannel_network_plugin.Prelude.{
  ℕ, Bool, true, false, Option, none, some, List, [], ◌∷◌, String, string_eq, ◌==◌, if◌then◌else◌,
}
use flannel_network_plugin.Prelude.Dict.{Dict, lookup}
use flannel_network_plugin.Common.Result.{Result, ok, err}
use flannel_network_plugin.Common.ConcurrentMap.{add_or_update_in}
use flannel_network_plugin.External.Texts.{Texts, trim_prefix, trim_left, has_slash, split}
use flannel_network_plugin.External.Etcd.{Etcd}
use flannel_network_plugin.Etcd.Client.{Client}
use flannel_network_plugin.Ipam.Lease.{
  Allocation, zero_allocation, Fault, etcd_failed, allocated_ips_key, allocated_ip_key,
  data_key_part_mac, data_key_part_service_id, allocated_at_key_part,
}

module _ (texts : Texts) where
  open texts use {Ip}

  abbrev Found : Type 0
  Found = Dict String (Allocation Ip)

  -- The key of an address itself: the address and the type.
  read_kind : String → String → Option Ip → Found → Found
  read_kind key value none result = result
  read_kind key value (some ip) result =
      add_or_update_in key (record zero_allocation { ip = some ip; allocation_type = value })
        (λ existing. record existing { ip = some ip; allocation_type = value }) result

  read_time : String → Option ℕ → Found → Found
  read_time id none result = result
  read_time id (some t) result =
      add_or_update_in id (record zero_allocation { allocated_at = t })
        (λ existing. record existing { allocated_at = t }) result

  read_data : String → String → String → Found → Found
  read_data id full_key value result =
      add_or_update_in id (record zero_allocation { data_key = full_key; data_value = value })
        (λ existing. record existing { data_key = full_key; data_value = value }) result

  -- A key below an address; any but two parts, and any unknown part, is skipped.
  read_parts : String → String → List String → Found → Found
  unfolding read_time read_data
  read_parts full_key value (id ∷ part ∷ []) result =
      if part == data_key_part_mac
      then read_data id full_key value result
      else if part == data_key_part_service_id
      then read_data id full_key value result
      else if part == allocated_at_key_part
      then read_time id (texts.parse_time value) result
      else result
  read_parts full_key value _ result = result

  -- One round of the loop over the keys found.
  read_kv : String → String → String → Found → Found
  unfolding read_kind read_parts
  read_kv prefix full_key value result =
      let key = trim_left (trim_prefix full_key prefix) in
      if has_slash key
      then read_parts full_key value (split key) result
      else read_kind key value (texts.parse_ip key) result

  unfoldable pub read_kvs : String → Dict String String → Found → Found
  unfolding read_kv
  read_kvs prefix [] result = result
  read_kvs prefix ((full_key, value) ∷ kvs) result =
      read_kvs prefix kvs (read_kv prefix full_key value result)

module _ (etcd : Etcd) (texts : Texts) where
  open etcd use {Db}
  open texts use {Ip}

  on_get :
      String → Option (Dict String String) × Db → Result Fault (Dict String (Allocation Ip)) × Db
  on_get prefix (none, db) = (err etcd_failed, db)
  on_get prefix (some kvs, db) = (ok (read_kvs texts prefix kvs []), db)

  unfoldable pub get_allocations_by_prefix :
      String → Db → Result Fault (Dict String (Allocation Ip)) × Db
  unfolding on_get read_kvs
  get_allocations_by_prefix prefix db = on_get prefix (etcd.get_prefix prefix db)

  unfoldable pub get_allocations : Client → Db → Result Fault (Dict String (Allocation Ip)) × Db
  unfolding get_allocations_by_prefix
  get_allocations client db = get_allocations_by_prefix (allocated_ips_key client) db

  pick :
      String
      → Result Fault (Dict String (Allocation Ip)) × Db
      → Result Fault (Option (Allocation Ip)) × Db
  pick ip (err e, db) = (err e, db)
  pick ip (ok found, db) = (ok (lookup ip found), db)

  -- The prefix is the key of the address, and the result is looked up at the address.
  unfoldable pub read_allocation : Client → String → Db → Result Fault (Option (Allocation Ip)) × Db
  unfolding pick get_allocations_by_prefix
  read_allocation client ip db = pick ip (get_allocations_by_prefix (allocated_ip_key client ip) db)

  on_delete : Bool × Db → Result Fault (Unit {0}) × Db
  on_delete (true, db) = (ok tt, db)
  on_delete (false, db) = (err etcd_failed, db)

  unfoldable pub delete_all_allocations : Client → Db → Result Fault (Unit {0}) × Db
  unfolding on_delete
  delete_all_allocations client db = on_delete (etcd.remove_prefix (allocated_ips_key client) db)
