-- ===== src/Ipam/Space/Events.antt =====
-- The watch on the subnets, and a release that fails.
use flannel_network_plugin.Prelude.{
  ◌≡◌, refl, Option, none, some, [], ◌∷◌, String, string_eq, arith, Bool-cases, inl, inr,
}
use flannel_network_plugin.Common.ConcurrentMap.{get}
use flannel_network_plugin.Common.ConcurrentMap.Laws.{
  try_remove-none, try_remove-some, get-remove_self,
}
use flannel_network_plugin.External.Lo.{Lo}
use flannel_network_plugin.External.Texts.{trim_prefix, trim_left, has_slash, replace_all}
use flannel_network_plugin.External.Etcd.{Etcd, value_is, delete, failed}
use flannel_network_plugin.Etcd.Client.{Client}
use flannel_network_plugin.Ipam.Space.{
  Nets, Space, delete_event, on_event, on_delete, subnet_key, subnets_key, release_pool,
  release_pool_subnet, etcd_failed,
}

-- What a DELETE with the empty identifier does where no network has that identifier.
on_delete_nothing :
    (nets : Nets) (subnet : Option nets.Net) (space : Space nets)
    → get "" space.pools ≡ none
    → on_delete nets "" subnet space ≡ space
unfolding on_delete
on_delete_nothing nets none space none_empty = refl
on_delete_nothing nets (some subnet) space none_empty =
    ground (arith, try_remove-none "" space.pools none_empty)

-- An event of a deletion that carries no value, as etcd sends it, changes nothing: where no network
-- has the empty identifier, the subnet stays in use on every node but the one that released it.
pub on_event-delete_event :
    (nets : Nets) (lo : Lo) (client : Client) (full_key : String) (space : Space nets)
    → get "" space.pools ≡ none
    → on_event nets lo client (delete_event full_key "") space ≡ space
unfolding on_event
on_event-delete_event nets lo client full_key space none_empty =
    let key = trim_left (trim_prefix full_key (subnets_key client)) in
    elim (Bool-cases (has_slash key)) [
      | inl deep ↦ rw deep
      | inr flat ↦
          rw flat
            (on_delete_nothing nets (nets.parse_cidr (replace_all b'-' "/" key)) space none_empty)
    ]

-- A release whose transaction fails loses the subnet: the network has it no longer, and it is not
-- unused either.
pub release_pool-failed :
    (etcd : Etcd) (nets : Nets) (client : Client) (id : String) (space : Space nets)
    (subnet : nets.Net) (db db' : etcd.Db)
    → get id space.pools ≡ some subnet
    → etcd.commit
        (value_is (subnet_key client (nets.print_net subnet)) id ∷ [])
        (delete (subnet_key client (nets.print_net subnet)) ∷ [])
        (subnet_key client (nets.print_net subnet) ∷ [])
        db
      ≡ (failed, db')
    → let (error, after_release, _) = release_pool etcd nets client id space db in
      (error ≡ some etcd_failed)
      × (get id after_release.pools ≡ none)
      × (after_release.unused_subnets ≡ space.unused_subnets)
unfolding release_pool release_pool_subnet
release_pool-failed etcd nets client id space subnet db db' has fails =
    rw (try_remove-some id space.pools subnet has, fails)
      (refl, get-remove_self id space.pools, refl)
