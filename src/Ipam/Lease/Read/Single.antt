-- ===== src/Ipam/Lease/Read/Single.antt =====
-- `readAllocation` of plugin/pkg/ipam/pool_etcd.go.
use flannel_network_plugin.Prelude.{
  ◌≡◌, refl, ap, ◌∙◌, none, some, [], ◌∷◌, String, string_eq, All, ◌⊎◌, inl, inr,
}
use flannel_network_plugin.Prelude.Dict.{Dict, lookup}
use flannel_network_plugin.Common.Result.{ok}
use flannel_network_plugin.External.Texts.{Texts, ◌+++◌, trim_left, has_slash}
use flannel_network_plugin.External.Texts.Laws.{trim_prefix-append}
use flannel_network_plugin.External.Etcd.{Etcd}
use flannel_network_plugin.Etcd.Client.{Client}
use flannel_network_plugin.Ipam.Lease.{Allocation, allocated_ip_key}
use flannel_network_plugin.Ipam.Lease.Read.{read_kv, read_kvs, read_allocation}

-- The last part of a key of an address, the empty one for the address itself.
abbrev pub IsPart : String → Type 0
IsPart part = (part ≡ "") ⊎ (part ≡ "/mac") ⊎ (part ≡ "/service-id") ⊎ (part ≡ "/allocated-at")

-- The names of parts are no addresses.
pub record IsStrict (texts : Texts) : Type 0 where
  pub empty : texts.parse_ip "" ≡ none
  pub mac : texts.parse_ip "mac" ≡ none
  pub service : texts.parse_ip "service-id" ≡ none
  pub time : texts.parse_ip "allocated-at" ≡ none

-- A key of the address, with any value.
abbrev pub IsOwn : Client → String → String × String → Type 0
IsOwn client ip kv = (part : String) × IsPart part × (kv.0 ≡ allocated_ip_key client ip +++ part)

module _ (texts : Texts) (strict : IsStrict texts) (client : Client) (ip : String) where
  read_kv-own :
      (part value : String) (result : Dict String (Allocation texts.Ip))
      → IsPart part
      → read_kv texts
          (allocated_ip_key client ip)
          (allocated_ip_key client ip +++ part)
          value
          result
        ≡ result
  unfolding read_kv trim_left has_slash
  read_kv-own part value result (inl e) =
      rw (trim_prefix-append (allocated_ip_key client ip) part, e, strict.empty)
  read_kv-own part value result (inr (inl e)) =
      rw (trim_prefix-append (allocated_ip_key client ip) part, e, strict.mac)
  read_kv-own part value result (inr (inr (inl e))) =
      rw (trim_prefix-append (allocated_ip_key client ip) part, e, strict.service)
  read_kv-own part value result (inr (inr (inr e))) =
      rw (trim_prefix-append (allocated_ip_key client ip) part, e, strict.time)

  read_kvs-own :
      (kvs : Dict String String) (result : Dict String (Allocation texts.Ip))
      → All (IsOwn client ip) kvs
      → read_kvs texts (allocated_ip_key client ip) kvs result ≡ result
  unfolding read_kvs
  read_kvs-own [] result own = refl
  read_kvs-own ((k, v) ∷ kvs) result own =
      let (part, is_part, e) = own.0 in
      read_kvs-own kvs _ own.1
      ∙ ap (λ j. read_kv texts (allocated_ip_key client ip) j v result) e
      ∙ read_kv-own part v result is_part

-- Whatever is claimed for an address, `readAllocation` of it returns no allocation: where the keys
-- found under the address are those that the plugin writes for it.
pub read_allocation-none :
    (etcd : Etcd) (texts : Texts) (client : Client) (ip : String) (kvs : Dict String String)
    (db db' : etcd.Db)
    → IsStrict texts
    → etcd.get_prefix (allocated_ip_key client ip) db ≡ (some kvs, db')
    → All (IsOwn client ip) kvs
    → read_allocation etcd texts client ip db ≡ (ok none, db')
unfolding read_allocation lookup
read_allocation-none etcd texts client ip kvs db db' strict got own =
    rw (got, read_kvs-own texts strict client ip kvs [] own)
