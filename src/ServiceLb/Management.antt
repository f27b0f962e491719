-- ===== src/ServiceLb/Management.antt =====
-- plugin/pkg/service_lb/service_lbs_management.go: the load balancers of all services on a node,
-- one for each service and network. The state is that of the management and of all it acts on. A
-- service is an object that the driver shares with it: the management keeps references, and the
-- objects stand in the state. The management's lock is held by each method that changes the load
-- balancers throughout.
pub mod Backends
pub mod Creation
pub mod Deletion
pub mod Subscriptions
pub mod Stale
use flannel_network_plugin.Prelude.{
  suc, ℕ, Bool, true, false, not, ◌&&◌, ◌||◌, Option, none, some, Eq, List, [], ◌∷◌, ◌++◌, String,
  string_eq, nat_beq, ◌==◌, if◌then◌else◌,
}
use flannel_network_plugin.Prelude.Dict.{Dict, lookup, insert, remove, is_some}
use flannel_network_plugin.Common.Act.{Act}
use flannel_network_plugin.Common.Result.{Result, ok, err}
use flannel_network_plugin.Common.Compare.{compare_ip_maps}
use flannel_network_plugin.Common.Event.{EventSource}
use flannel_network_plugin.Common.Service.{Service, Event}
use flannel_network_plugin.External.Lo.{Lo}
use flannel_network_plugin.External.Texts.{Texts}
use flannel_network_plugin.External.Etcd.{Etcd}
use flannel_network_plugin.External.Host.{Host}
use flannel_network_plugin.Etcd.Client.{Client}
use flannel_network_plugin.Etcd.Store.{StoreBase}
use flannel_network_plugin.Etcd.Store.Items.{Codec}
use flannel_network_plugin.Networking.Interfaces.{get_interface_name}
use flannel_network_plugin.ServiceLb.Fwmarks.{Marks, Suffixes}
use flannel_network_plugin.ServiceLb.Balancer.{ServiceLb, Balancing}

-- What the management reads of a `flannel_network.Network`.
pub record Network : Type 0 where
  pub flannel_id : String
  pub mtu : ℕ

-- docker network ID -> VIP
pub record LoadBalancerData (Ip : Type 0) : Type 0 where
  pub frontend_ips : Dict String Ip

unfoldable pub equals :
    {Ip : Type 0} → ⦃ip : Eq Ip⦄ → LoadBalancerData Ip → LoadBalancerData Ip → Bool
equals d o = compare_ip_maps (some d.frontend_ips) (some o.frontend_ips)

-- The pools of the networks, by their flannel IDs: `AllocateServiceVIP` and `ReleaseIP`.
pub record Pools (Db Ip : Type 0) : Type 1 where
  pub P : Type 0
  pub allocate_service_vip : Network → String → String → Act (P × Db) Ip
  pub release_ip : Network → String → Act (P × Db) (Unit {0})

-- All that the management is built on; `suffixes` is what each run of the generator of a mark would
-- draw.
pub record Parts : Type 1 where
  pub etcd : Etcd
  pub texts : Texts
  pub host : Host
  pub marks : Marks
  pub lo : Lo
  pub pools : Pools etcd.Db texts.Ip
  pub codec : Codec (LoadBalancerData texts.Ip)
  pub ip_eq : Eq texts.Ip
  pub fwmarks_client : Client
  pub data_client : Client
  pub suffixes : String → String → List Suffixes

-- The object of a service.
abbrev pub ServiceRef : Type 0
ServiceRef = ℕ

-- The functions that `CreateLoadBalancer` subscribes, with the service that they close over.
pub data Handler : Type 0 where
  updates_balancers : ServiceRef → Handler
  adds_backends : ServiceRef → Handler
  removes_backends : ServiceRef → Handler
  switches_mode : ServiceRef → Handler

-- The events of a service that the management listens to.
pub record ServiceEvents : Type 0 where
  pub on_networks_changed : EventSource Handler
  pub on_container_added : EventSource Handler
  pub on_container_removed : EventSource Handler
  pub on_endpoint_mode_changed : EventSource Handler

-- The subscriptions that an unsubscriber ends.
pub record Unsubscriber : Type 0 where
  pub service : ServiceRef
  pub networks_changed_id : ℕ
  pub container_added_id : ℕ
  pub container_removed_id : ℕ

-- `lb.GetFrontendIP() != nil`, and `IP.Equal` of addresses that may be nil
abbrev pub ips_equal : {Ip : Type 0} → ⦃ip : Eq Ip⦄ → Option Ip → Option Ip → Bool
ips_equal none none = true
ips_equal (some a) (some b) = a == b
ips_equal _ _ = false

-- A nil map has no entries.
abbrev pub entries {ℓ} : {V : Type ℓ} → Option (Dict String V) → Dict String V
entries none = []
entries (some m) = m

module _ (parts : Parts) where
  open parts use {etcd, texts, host, marks, pools}

  -- The fields of `serviceLbManagement`, then the objects of the services with their events, the
  -- events raised so far, the kernel, the pools and the cluster.
  pub record World : Type 0 where
    pub services : Dict String ServiceRef
    pub services_events_unsubscribers : Dict String Unsubscriber
    pub load_balancers : Dict String (Dict String (ServiceLb texts.Ip host.Link))
    pub load_balancers_data : StoreBase (LoadBalancerData texts.Ip)
    pub flannel_networks : Dict String Network
    pub other_networks : Dict String (Unit {0})
    -- how often `networksChanged` has been broadcast
    pub broadcasts : ℕ
    pub objects : ServiceRef → Service texts.Ip
    pub events : ServiceRef → ServiceEvents
    pub raised : List (ServiceRef × Event texts.Ip)
    pub kernel : host.H
    pub addresses : pools.P
    pub db : etcd.Db

  abbrev pub set_at : {A : Type 0} → ServiceRef → A → (ServiceRef → A) → ServiceRef → A
  set_at ref a f r = if nat_beq ref r then a else f r

  -- The load balancers of a service.
  unfoldable pub balancers_of : String → World → Dict String (ServiceLb texts.Ip host.Link)
  balancers_of service_id w = entries (lookup service_id w.load_balancers)

  unfoldable pub put_balancer : String → String → ServiceLb texts.Ip host.Link → World → World
  unfolding balancers_of
  put_balancer service_id network_id lb w = record w {
    load_balancers =
        insert service_id (insert network_id lb (balancers_of service_id w)) w.load_balancers;
  }

  unfoldable pub without_balancer : String → String → World → World
  unfolding balancers_of
  without_balancer service_id network_id w = record w {
    load_balancers =
        insert service_id (remove network_id (balancers_of service_id w)) w.load_balancers;
  }

  -- Calls on one part of the state.
  in_kernel : {A : Type 0} → World → Option A × host.H → Option A × World
  in_kernel w (a, h) = (a, record w { kernel = h })

  unfoldable pub on_kernel : {A : Type 0} → Act host.H A → Act World A
  unfolding in_kernel
  on_kernel m w = in_kernel w (m w.kernel)

  in_pools : {A : Type 0} → World → Option A × (pools.P × etcd.Db) → Option A × World
  in_pools w (a, (p, db)) = (a, record w { addresses = p; db = db })

  unfoldable pub on_pools : {A : Type 0} → Act (pools.P × etcd.Db) A → Act World A
  unfolding in_pools
  on_pools m w = in_pools w (m (w.addresses, w.db))

  in_db : {E A : Type 0} → World → Result E A × etcd.Db → Option A × World
  in_db w (ok a, db) = (some a, record w { db = db })
  in_db w (err e, db) = (none, record w { db = db })

  unfoldable pub on_db : {E A : Type 0} → (etcd.Db → Result E A × etcd.Db) → Act World A
  unfolding in_db
  on_db m w = in_db w (m w.db)

  -- A call on a load balancer that stands in the map, and on one that has been taken out.
  in_balancer :
      {A : Type 0}
      → String
      → String
      → World
      → Option A × Balancing host texts marks
      → Option A × World
  in_balancer service_id network_id w (a, (lb, h)) =
      (a, put_balancer service_id network_id lb (record w { kernel = h }))

  unfoldable pub on_balancer :
      {A : Type 0}
      → String
      → String
      → ServiceLb texts.Ip host.Link
      → Act (Balancing host texts marks) A
      → Act World A
  unfolding in_balancer
  on_balancer service_id network_id lb m w = in_balancer service_id network_id w (m (lb, w.kernel))

  in_removed : {A : Type 0} → World → Option A × Balancing host texts marks → Option A × World
  in_removed w (a, (lb, h)) = (a, record w { kernel = h })

  unfoldable pub on_removed :
      {A : Type 0} → ServiceLb texts.Ip host.Link → Act (Balancing host texts marks) A → Act World A
  unfolding in_removed
  on_removed lb m w = in_removed w (m (lb, w.kernel))

  abbrev pub get_world : Act World World
  get_world w = (some w, w)

  abbrev pub set_world : World → Act World (Unit {0})
  set_world w' w = (some tt, w')

  -- `SetFlannelNetwork`
  unfoldable pub set_flannel_network : String → Network → Act World (Unit {0})
  set_flannel_network network_id network w = if network_id == "" then (none, w) else (
    some tt,
    record w {
      flannel_networks = insert network_id network w.flannel_networks;
      broadcasts = suc w.broadcasts;
    },
  )

  -- `RegisterOtherNetwork`
  unfoldable pub register_other_network : String → World → World
  register_other_network network_id w = record w {
    other_networks = insert network_id tt w.other_networks;
    broadcasts = suc w.broadcasts;
  }

  -- `DeleteNetwork`
  unfoldable pub delete_network : String → Act World (Unit {0})
  delete_network network_id w = if network_id == "" then (none, w) else (
    some tt,
    record w {
      flannel_networks = remove network_id w.flannel_networks;
      other_networks = remove network_id w.other_networks;
      broadcasts = suc w.broadcasts;
    },
  )

  -- `getInterfaceName`
  unfoldable pub lb_interface_name : String → String
  lb_interface_name network_id = get_interface_name "lbf" "_" network_id

  -- `hasMissingNetworks`
  unfoldable pub missing : List String → World → Bool
  missing [] w = false
  missing (network_id ∷ network_ids) w =
      let rest = missing network_ids w in
      if is_some (lookup network_id w.flannel_networks)
      then rest
      else if is_some (lookup network_id w.other_networks)
      then rest
      else true

  unfoldable pub has_missing_networks : ServiceRef → World → Bool
  unfolding missing
  has_missing_networks ref w = missing (w.objects ref).networks w
