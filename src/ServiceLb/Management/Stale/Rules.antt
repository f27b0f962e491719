-- ===== src/ServiceLb/Management/Stale/Rules.antt =====
-- The rules that `CleanUpStaleLoadBalancers` of plugin/pkg/service_lb/service_lbs_management.go leaves.
use flannel_network_plugin.Prelude.{
  ℕ, ◌≡◌, ◌≢◌, true, Option, none, some, List, [], ◌∷◌, ◌++◌, String, string_eq, nat_beq,
}
use flannel_network_plugin.Common.Act.{for_each, Keeps, >>=-Keeps, for_each-Keeps}
use flannel_network_plugin.Common.Result.{Result, ok, err}
use flannel_network_plugin.External.Lo.{Lo}
use flannel_network_plugin.External.Etcd.{Etcd}
use flannel_network_plugin.External.Host.{Host, IpvsService}
use flannel_network_plugin.Etcd.Client.{Client, create_sub_client}
use flannel_network_plugin.ServiceLb.Fwmarks.{Marks, MarkError, clean_up_stale_fwmarks}
use flannel_network_plugin.ServiceLb.Management.Stale.{
  Listings, logged, from_third, drop_fields, drop_rule, clean_up_mark, clean_up_kernel,
  after_kernel, after_marks, clean_up_stale_load_balancers,
}

-- A deletion from one table leaves the others alone, and so do the calls on IPVS and those that
-- only read.
pub record IsApart (host : Host) (listings : Listings host) : Type 0 where
  pub keeps_delete_rule :
      (table chain : String) (spec : List String) (table' chain' : String) (spec' : List String)
      → table ≢ table'
      → Keeps (λ h. host.rules h table chain spec ≡ true) (host.delete_rule table' chain' spec')
  pub keeps_del_service :
      (table chain : String) (spec : List String) (svc : IpvsService)
      → Keeps (λ h. host.rules h table chain spec ≡ true) (host.del_service svc)
  pub keeps_new_iptables :
      (table chain : String) (spec : List String)
      → Keeps (λ h. host.rules h table chain spec ≡ true) host.new_iptables
  pub keeps_new_ipvs :
      (table chain : String) (spec : List String)
      → Keeps (λ h. host.rules h table chain spec ≡ true) host.new_ipvs
  pub keeps_get_services :
      (table chain : String) (spec : List String)
      → Keeps (λ h. host.rules h table chain spec ≡ true) listings.get_services
  pub keeps_list_rules :
      (table chain : String) (spec : List String) (table' chain' : String)
      → Keeps (λ h. host.rules h table chain spec ≡ true) (listings.list_rules table' chain')

module _ (etcd : Etcd) (host : Host) (listings : Listings host) (marks : Marks) (lo : Lo)
    (apart : IsApart host listings) (table chain : String) (spec : List String)
    (elsewhere : table ≢ "mangle") where
  open etcd use {Db}
  open host use {H}

  abbrev Standing : H → Type 0
  Standing h = host.rules h table chain spec ≡ true

  drop_rule-Keeps : (raw : String) → Keeps Standing (drop_rule etcd host listings marks lo raw)
  unfolding drop_rule drop_fields logged
  drop_rule-Keeps raw h stands = go (from_third etcd host listings marks lo (listings.fields raw))
    where
      go :
          (rule : Option (List String))
          → Standing (drop_fields etcd host listings marks lo rule h).1
      go none = stands
      go (some []) = stands
      go (some (f ∷ fs)) =
          apart.keeps_delete_rule table chain spec "mangle" "PREROUTING" (f ∷ fs) elsewhere h stands

  clean_up_mark-Keeps :
      (services : List IpvsService) (rules : List String) (mark : ℕ)
      → Keeps Standing (clean_up_mark etcd host listings marks lo services rules mark)
  unfolding clean_up_mark logged
  clean_up_mark-Keeps services rules mark =
      >>=-Keeps Standing
        (for_each (λ service. logged etcd host listings marks lo (host.del_service service))
          (lo.filter IpvsService (λ item. nat_beq item.fwmark mark) services))
        (λ _.
          for_each (drop_rule etcd host listings marks lo)
            (lo.filter String (λ item. listings.contains_text item (listings.hex mark)) rules))
        (for_each-Keeps Standing _ _ (λ service. apart.keeps_del_service table chain spec service))
        (λ _. for_each-Keeps Standing _ _ drop_rule-Keeps)

  clean_up_kernel-Keeps :
      (stale : List ℕ) → Keeps Standing (clean_up_kernel etcd host listings marks lo stale)
  unfolding clean_up_kernel
  clean_up_kernel-Keeps stale =
      >>=-Keeps Standing host.new_iptables _ (apart.keeps_new_iptables table chain spec) (λ _.
        >>=-Keeps Standing host.new_ipvs _ (apart.keeps_new_ipvs table chain spec) (λ _.
          >>=-Keeps Standing listings.get_services _ (apart.keeps_get_services table chain spec)
            (λ services.
              >>=-Keeps Standing (listings.list_rules "mangle" "PREROUTING") _
                (apart.keeps_list_rules table chain spec "mangle" "PREROUTING")
                (λ mangle.
                  >>=-Keeps Standing (listings.list_rules "nat" "POSTROUTING") _
                    (apart.keeps_list_rules table chain spec "nat" "POSTROUTING")
                    (λ nat.
                      for_each-Keeps Standing _ stale
                        (clean_up_mark-Keeps services (mangle ++ nat)))))))

  -- The clean-up removes no rule outside the table mangle, where the other calls on the host leave
  -- such rules alone: a rule of the table nat stands after it, that of a stale service as well.
  pub rules-clean_up_stale_load_balancers :
      (client : Client) (hostname : String) (existing_services : List String) (h : H) (db : Db)
      → host.rules h table chain spec ≡ true
      → host.rules
          (clean_up_stale_load_balancers etcd host listings marks lo client hostname
            existing_services
            (h, db)).1.0
          table
          chain
          spec
        ≡ true
  unfolding clean_up_stale_load_balancers after_marks after_kernel
  rules-clean_up_stale_load_balancers client hostname existing_services h db stands = go (
      clean_up_stale_fwmarks etcd marks lo (create_sub_client client (hostname ∷ "fwmarks" ∷ []))
        existing_services db)
    where
      kernel :
          (db : Db) (r : Option (Unit {0}) × H)
          → Standing r.1
          → Standing
              (after_kernel etcd host listings marks lo client hostname existing_services db r).1.0
      kernel db (none, h) s = s
      kernel db (some _, h) s = s

      go :
          (r : Result MarkError (List ℕ) × Db)
          → Standing
              (after_marks etcd host listings marks lo client hostname existing_services h r).1.0
      go (err e, db) = stands
      go (ok stale, db) =
          kernel db (clean_up_kernel etcd host listings marks lo stale h)
            (clean_up_kernel-Keeps stale h stands)
