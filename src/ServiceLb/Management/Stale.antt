-- ===== src/ServiceLb/Management/Stale.antt =====
-- plugin/pkg/service_lb/service_lbs_management.go: `CleanUpStaleLoadBalancers`, on the kernel and the
-- cluster. An error that is only logged is none here.
pub mod Rules
use flannel_network_plugin.Prelude.{
  ℕ, Bool, true, false, Option, none, some, List, [], ◌∷◌, ◌++◌, String, string_eq, nat_beq,
  if◌then◌else◌,
}
use flannel_network_plugin.Prelude.Dict.{Dict, keys}
use flannel_network_plugin.Common.Act.{Act, ◌>>=◌, ◌>>◌, pure, fail, for_each}
use flannel_network_plugin.Common.Result.{Result, ok, err}
use flannel_network_plugin.External.Lo.{Lo}
use flannel_network_plugin.External.Texts.{trim_prefix, trim_left}
use flannel_network_plugin.External.Etcd.{Etcd}
use flannel_network_plugin.External.Host.{Host, IpvsService}
use flannel_network_plugin.Etcd.Client.{Client, get_key, create_sub_client}
use flannel_network_plugin.ServiceLb.Fwmarks.{Marks, MarkError, clean_up_stale_fwmarks}

-- `GetServices`, `iptables.List`, `strings.Contains`, `strings.Fields` and the format `0x%08x`.
pub record Listings (host : Host) : Type 0 where
  pub get_services : Act host.H (List IpvsService)
  pub list_rules : String → String → Act host.H (List String)
  pub contains_text : String → String → Bool
  pub fields : String → List String
  pub hex : ℕ → String

module _ (etcd : Etcd) (host : Host) (listings : Listings host) (marks : Marks) (lo : Lo) where
  open etcd use {Db}
  open host use {H}

  -- An error is logged.
  unfoldable pub logged : Act H (Unit {0}) → Act H (Unit {0})
  logged m h = (some tt, (m h).1)

  -- `[2:]`; a shorter list is a panic.
  from_third : List String → Option (List String)
  from_third (a ∷ b ∷ rest) = some rest
  from_third _ = none

  drop_fields : Option (List String) → Act H (Unit {0})
  unfolding logged
  drop_fields none = fail
  drop_fields (some []) = pure tt
  drop_fields (some (f ∷ fs)) = logged (host.delete_rule "mangle" "PREROUTING" (f ∷ fs))

  unfoldable pub drop_rule : String → Act H (Unit {0})
  unfolding from_third drop_fields
  drop_rule raw_rule = drop_fields (from_third (listings.fields raw_rule))

  -- One round of the loop over the stale marks.
  unfoldable pub clean_up_mark : List IpvsService → List String → ℕ → Act H (Unit {0})
  unfolding logged drop_rule
  clean_up_mark services rules mark = do
    for_each (λ service. logged (host.del_service service))
        (lo.filter IpvsService (λ item. nat_beq item.fwmark mark) services)
    for_each drop_rule
        (lo.filter String (λ item. listings.contains_text item (listings.hex mark)) rules)

  -- The part on the kernel.
  unfoldable pub clean_up_kernel : List ℕ → Act H (Unit {0})
  unfolding clean_up_mark
  clean_up_kernel stale = do
    host.new_iptables
    host.new_ipvs
    services ← listings.get_services
    mangle ← listings.list_rules "mangle" "PREROUTING"
    nat ← listings.list_rules "nat" "POSTROUTING"
    for_each (clean_up_mark services (mangle ++ nat)) stale

  -- The keys of the data of services that do not exist.
  unfoldable pub drop_keys : List String → String → List String → Db → Db
  drop_keys existing_services prefix [] db = db
  drop_keys existing_services prefix (key ∷ more) db =
      drop_keys existing_services prefix more
        (elim (lo.some existing_services (trim_left (trim_prefix key prefix) ∷ [])) [
          | true ↦ db
          | false ↦ (etcd.remove key db).1
        ])

  on_data : List String → String → Option (Dict String String) × Db → Option (Unit {0}) × Db
  unfolding drop_keys
  on_data existing_services prefix (none, db) = (none, db)
  on_data existing_services prefix (some kvs, db) =
      (some tt, drop_keys existing_services prefix (keys kvs) db)

  unfoldable pub clean_up_data : Client → String → List String → Act Db (Unit {0})
  unfolding on_data get_key
  clean_up_data client hostname existing_services db =
      let prefix = get_key client (hostname ∷ "data" ∷ []) in
      on_data existing_services prefix (etcd.get_prefix prefix db)

  after_kernel :
      Client → String → List String → Db → Option (Unit {0}) × H → Option (Unit {0}) × (H × Db)
  unfolding clean_up_data
  after_kernel client hostname existing_services db (none, h) = (none, (h, db))
  after_kernel client hostname existing_services db (some _, h) =
      let (result, db1) = clean_up_data client hostname existing_services db in (result, (h, db1))

  after_marks :
      Client
      → String
      → List String
      → H
      → Result MarkError (List ℕ) × Db
      → Option (Unit {0}) × (H × Db)
  unfolding after_kernel clean_up_kernel
  after_marks client hostname existing_services h (err e, db) = (none, (h, db))
  after_marks client hostname existing_services h (ok stale, db) =
      after_kernel client hostname existing_services db (clean_up_kernel stale h)

  unfoldable pub clean_up_stale_load_balancers :
      Client → String → List String → Act (H × Db) (Unit {0})
  unfolding after_marks create_sub_client clean_up_stale_fwmarks
  clean_up_stale_load_balancers client hostname existing_services (h, db) =
      after_marks client hostname existing_services h (
        clean_up_stale_fwmarks etcd marks lo (create_sub_client client (hostname ∷ "fwmarks" ∷ []))
          existing_services db)
