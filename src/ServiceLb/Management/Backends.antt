-- ===== src/ServiceLb/Management/Backends.antt =====
-- plugin/pkg/service_lb/service_lbs_management.go: the backends, as containers come and go.
use flannel_network_plugin.Prelude.{Option, none, some, String, string_eq}
use flannel_network_plugin.Prelude.Dict.{Dict, lookup}
use flannel_network_plugin.Common.Act.{Act, for_each}
use flannel_network_plugin.ServiceLb.Balancer.{Balancing, add_backend, remove_backend}
use flannel_network_plugin.ServiceLb.Management.{Parts, World, entries, balancers_of, on_balancer}

module _ (parts : Parts) where
  open parts use {etcd, texts, host, marks, lo, ip_eq}

  -- A call on the load balancer of one network; none is an error.
  on_network :
      (texts.Ip → Act (Balancing host texts marks) (Unit {0}))
      → String
      → String × texts.Ip
      → Act (World parts) (Unit {0})
  on_network change service_id (network_id, ip) w =
      elim (lookup network_id (balancers_of parts service_id w)) [
        | none ↦ (none, w)
        | some lb ↦ on_balancer parts service_id network_id lb (change ip) w
      ]

  on_each_network :
      (texts.Ip → Act (Balancing host texts marks) (Unit {0}))
      → String
      → Option (Dict String texts.Ip)
      → Act (World parts) (Unit {0})
  unfolding on_network
  on_each_network change service_id ips w = elim (lookup service_id w.load_balancers) [
    | none ↦ (none, w)
    | some lbs ↦ for_each (on_network change service_id) (entries ips) w
  ]

  unfoldable pub add_backend_ips :
      String → Option (Dict String texts.Ip) → Act (World parts) (Unit {0})
  unfolding on_each_network
  add_backend_ips = on_each_network (add_backend host texts marks)

  unfoldable pub remove_backend_ips :
      String → Option (Dict String texts.Ip) → Act (World parts) (Unit {0})
  unfolding on_each_network
  remove_backend_ips = on_each_network (remove_backend host texts marks ⦃ip_eq = ip_eq⦄ lo)
