-- ===== src/Examples/Management.antt =====
-- The load balancers of the node of Examples/Node.
use flannel_network_plugin.Prelude.{
  ◌≡◌, refl, true, false, ◌&&◌, ◌||◌, none, some, [], ◌∷◌, String, string_eq, nat_eq, contains,
}
use flannel_network_plugin.Prelude.Dict
use flannel_network_plugin.Prelude.Dict.{Dict, lookup, is_some}
use flannel_network_plugin.Common.Act.{pure}
use flannel_network_plugin.Common.Compare.{compare_string_slices}
use flannel_network_plugin.Common.Service.{Service, new_service}
use flannel_network_plugin.External.Etcd.Single.{single}
use flannel_network_plugin.Etcd.Store.Items.{Codec}
use flannel_network_plugin.Examples.{Address, second}
use flannel_network_plugin.ServiceLb.Management.{
  lb_interface_name, missing, has_missing_networks, set_flannel_network, Handler, Parts, World,
  Network, LoadBalancerData, ServiceEvents, entries, balancers_of,
}
use flannel_network_plugin.ServiceLb.Management.Creation.{
  create_or_update, create_or_update_locked, existing_vips,
}
use flannel_network_plugin.ServiceLb.Management.Creation.Networks.{create_or_update_locked_lem}
use flannel_network_plugin.ServiceLb.Management.Creation.Announced.{
  announced_vip_lem, stored_vip_lem,
}
use flannel_network_plugin.ServiceLb.Management.Creation.Vips.{frontend_of}
use flannel_network_plugin.ServiceLb.Management.Creation.Waiting.{
  NetworkCall, sets_flannel, act, spaced, AllKnown, run_all, create_or_update_lem,
  create_or_update-act,
}
use flannel_network_plugin.ServiceLb.Management.Deletion.{delete_load_balancer}
use flannel_network_plugin.ServiceLb.Management.Deletion.Twice.{
  delete_load_balancer-delete_load_balancer,
}
use flannel_network_plugin.Etcd.Store.{get_item}
use flannel_network_plugin.Examples.Balancer.{host-HasAddresses}
use flannel_network_plugin.ServiceLb.Management.Creation.Devices.{Named}
use flannel_network_plugin.ServiceLb.Management.Creation.Heard.{IsApart}
use flannel_network_plugin.Examples.Node.{address_eq, node, web, ready}

succeeds : (create_or_update_locked node 0 web ready).0 ≡ some tt
unfolding Dict.insert Dict.remove balancers_of contains create_or_update_locked existing_vips
    flannel_network_plugin.Common.Act.for_each flannel_network_plugin.Common.Compare.compare_ip_maps
    flannel_network_plugin.Common.Service.is_initialized
    flannel_network_plugin.Common.Service.set_vips flannel_network_plugin.Etcd.Client.get_key
    flannel_network_plugin.Etcd.Connection.put_if_new_or_changed
    flannel_network_plugin.Etcd.Store.Items.item_key
    flannel_network_plugin.Etcd.Store.Notices.invoke_add_or_changed
    flannel_network_plugin.Etcd.Store.get_item
    flannel_network_plugin.Etcd.WriteOnly.add_or_update_item
    flannel_network_plugin.Etcd.WriteOnly.store_item
    flannel_network_plugin.External.Etcd.Single.apply
    flannel_network_plugin.External.Etcd.Single.commit
    flannel_network_plugin.External.Etcd.Single.select
    flannel_network_plugin.External.Texts.has_slash flannel_network_plugin.External.Texts.join
    flannel_network_plugin.External.Texts.trim_left
    flannel_network_plugin.External.Texts.trim_prefix
    flannel_network_plugin.Networking.Interfaces.ensure_interface
    flannel_network_plugin.Networking.Interfaces.ensure_interface_listens_on_address
    flannel_network_plugin.Networking.Interfaces.get_interface_name
    flannel_network_plugin.Networking.Interfaces.interface_exists
    flannel_network_plugin.Networking.Interfaces.parse_address
    flannel_network_plugin.Networking.Interfaces.stop_listening_on_address
    flannel_network_plugin.Networking.Iptables.apply_ip_tables_rules
    flannel_network_plugin.ServiceLb.Balancer.copy flannel_network_plugin.ServiceLb.Balancer.delete
    flannel_network_plugin.ServiceLb.Balancer.ensure_ipvs_service
    flannel_network_plugin.ServiceLb.Balancer.ensure_service_load_balancer_frontend
    flannel_network_plugin.ServiceLb.Balancer.frontend_rules
    flannel_network_plugin.ServiceLb.Balancer.new_service_lb
    flannel_network_plugin.ServiceLb.Balancer.on_host
    flannel_network_plugin.ServiceLb.Balancer.update_frontend_ip
    flannel_network_plugin.ServiceLb.Fwmarks.existing_fwmarks
    flannel_network_plugin.ServiceLb.Fwmarks.fwmark_key
    flannel_network_plugin.ServiceLb.Fwmarks.fwmark_service_key
    flannel_network_plugin.ServiceLb.Fwmarks.fwmark_services_key
    flannel_network_plugin.ServiceLb.Fwmarks.fwmarks_list_key
    flannel_network_plugin.ServiceLb.Fwmarks.generate_fwmark
    flannel_network_plugin.ServiceLb.Fwmarks.get_mark
    flannel_network_plugin.ServiceLb.Fwmarks.mark_cmps
    flannel_network_plugin.ServiceLb.Fwmarks.mark_ops
    flannel_network_plugin.ServiceLb.Fwmarks.new_mark
    flannel_network_plugin.ServiceLb.Fwmarks.release_mark
    flannel_network_plugin.ServiceLb.Management.Creation.add_balancer
    flannel_network_plugin.ServiceLb.Management.Creation.announce
    flannel_network_plugin.ServiceLb.Management.Creation.begin
    flannel_network_plugin.ServiceLb.Management.Creation.delete_for_network
    flannel_network_plugin.ServiceLb.Management.Creation.drop_network
    flannel_network_plugin.ServiceLb.Management.Creation.ensure_network
    flannel_network_plugin.ServiceLb.Management.Creation.frontend_ip_for
    flannel_network_plugin.ServiceLb.Management.Creation.in_store
    flannel_network_plugin.ServiceLb.Management.Creation.release_vip
    flannel_network_plugin.ServiceLb.Management.Creation.released
    flannel_network_plugin.ServiceLb.Management.Creation.set_frontend
    flannel_network_plugin.ServiceLb.Management.Creation.store_vips
    flannel_network_plugin.ServiceLb.Management.Creation.vip_for
    flannel_network_plugin.ServiceLb.Management.Creation.vips_for
    flannel_network_plugin.ServiceLb.Management.lb_interface_name
    flannel_network_plugin.ServiceLb.Management.on_balancer
    flannel_network_plugin.ServiceLb.Management.on_db
    flannel_network_plugin.ServiceLb.Management.on_kernel
    flannel_network_plugin.ServiceLb.Management.on_pools
    flannel_network_plugin.ServiceLb.Management.on_removed
    flannel_network_plugin.ServiceLb.Management.put_balancer
    flannel_network_plugin.ServiceLb.Management.without_balancer lookup
succeeds = refl

abbrev updated : World node
updated = (create_or_update_locked node 0 web ready).1

create_or_update_locked_lem_example : is_some (lookup "net" (balancers_of node "web" updated)) ≡ (
    contains {A = String} "net" ("net" ∷ [])
    && (is_some (lookup "net" ready.flannel_networks)
        || is_some (lookup "net" (balancers_of node "web" ready))))
create_or_update_locked_lem_example = create_or_update_locked_lem node 0 web "net" ready succeeds

not_other : is_some (lookup "net" ready.other_networks) ≡ false
unfolding lookup
not_other = refl

has_vip : is_some (lookup "net" (entries web.ipam_vips)) ≡ true
unfolding lookup
has_vip = refl

apart : IsApart node "net" (entries web.ipam_vips)
apart = ((λ same. refl), tt)

none_yet : Named node host-HasAddresses web ready
unfolding lookup balancers_of
none_yet id lb there = cc

announced_vip_lem_example :
    (ip : Address) × (lookup "net" (entries (updated.objects 0).vips) ≡ some ip)
    × (lookup "net" (existing_vips node "web" updated) ≡ some ip)
    × (frontend_of (lookup "net" (balancers_of node "web" updated)) ≡ some ip)
    × (host-HasAddresses.has updated.kernel (lb_interface_name node "net") ip ≡ true)
announced_vip_lem_example =
    announced_vip_lem node 0 web "net" ready succeeds host-HasAddresses not_other has_vip apart
      none_yet

is_stored : lookup "net" (existing_vips node "web" ready) ≡ some second
unfolding lookup existing_vips get_item
is_stored = refl

stored_vip_lem_example :
    (lookup "net" (entries (updated.objects 0).vips) ≡ some second)
    × (frontend_of (lookup "net" (balancers_of node "web" updated)) ≡ some second)
    × (host-HasAddresses.has updated.kernel (lb_interface_name node "net") second ≡ true)
stored_vip_lem_example =
    stored_vip_lem node 0 web "net" ready succeeds host-HasAddresses not_other has_vip apart
      none_yet is_stored

-- The network becomes known while the update waits.
abbrev unknown : World node
unknown = record ready { flannel_networks = [] }

abbrev makes_known : NetworkCall
makes_known = sets_flannel "net" (record { flannel_id = "f"; mtu = 1500 })

now_known : AllKnown node ("net" ∷ []) (run_all node (makes_known ∷ []) unknown)
unfolding lookup act set_flannel_network Dict.insert
now_known = (refl, tt)

create_or_update_lem_example :
    is_some (create_or_update node 0 (spaced node (makes_known ∷ [])) unknown) ≡ true
unfolding act
create_or_update_lem_example = create_or_update_lem node 0 (makes_known ∷ []) unknown now_known

net_is_missing : has_missing_networks node 0 unknown ≡ true
unfolding lookup has_missing_networks missing
net_is_missing = refl

create_or_update-act_example :
    create_or_update node 0 (act node makes_known ∷ (λ w. w) ∷ []) unknown ≡ none
create_or_update-act_example =
    create_or_update-act node 0 makes_known ((λ w. w) ∷ []) unknown net_is_missing ((λ v. refl), tt)

delete_load_balancer-delete_load_balancer_example :
    let w1 = (delete_load_balancer node "web" updated).1 in
    delete_load_balancer node "web" w1 ≡ (none, w1)
delete_load_balancer-delete_load_balancer_example =
    delete_load_balancer-delete_load_balancer node "web" updated
