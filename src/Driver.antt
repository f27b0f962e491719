-- ===== src/Driver.antt =====
-- plugin/pkg/driver/flannel_driver.go: what the driver does when the data from Docker changes. The
-- networks, services, name servers and the resolver are the driver's; the load balancers are those
-- of ServiceLb.Management. A goroutine that the driver starts is an entry of a list.
pub mod Services
pub mod Networks
pub mod Containers
pub mod PoolId
use flannel_network_plugin.Prelude.{
  ℕ, ◌+◌, Bool, true, false, not, Option, none, some, Eq, List, [], ◌∷◌, ◌++◌, String, string_eq,
  nat_eq, ◌==◌, if◌then◌else◌, map,
}
use flannel_network_plugin.Prelude.Dict.{Dict, lookup, insert}
use flannel_network_plugin.Common.Act.{Act}
use flannel_network_plugin.Common.DualKeyMap.{DualKeyMap, KeysOf}
use flannel_network_plugin.Common.Service.{
  Service, Event, initialized, Call, step, new_service, mode_vip,
}
use flannel_network_plugin.Dns.Resolver.{Resolver, add_service}
use flannel_network_plugin.ServiceLb.Management.{Parts, World, Network, ServiceRef, set_at}

-- `networkKey`
pub record NetworkKey : Type 0 where
  pub docker_id : String
  pub flannel_id : String

abbrev pub keys_of : KeysOf NetworkKey String String
keys_of = record {
  get_key1 = λ key. key.flannel_id;
  get_key2 = λ key. key.docker_id;
  zero_key1 = "";
  zero_key2 = "";
}

-- A flannel network, and what the driver does with it, with its pool and with the address space:
-- `flannel_network.NewNetwork` and `Network`, `ipam.AddressPool` and `ipam.AddressSpace`. `Outside`
-- is all that they act on beside the pools and the cluster.
pub record Flannels (parts : Parts) : Type 1 where
  pub Flannel : Type 0
  pub Subnet : Type 0
  pub Outside : Type 0
  pub flannel_eq : Eq Flannel
  pub network_of : Flannel → Network
  pub new_network : String → Subnet → ℕ → Flannel
  pub init : Flannel → Act (Outside × World parts) (Unit {0})
  pub delete : Flannel → Act (Outside × World parts) (Unit {0})
  pub host_subnet_contains : Flannel → parts.texts.Ip → Bool
  pub release_ip_if_reserved : Flannel → String → Act (Outside × World parts) Bool
  pub get_new_or_existing_pool : String → Act (Outside × World parts) Subnet
  pub release_pool : String → Act (Outside × World parts) (Unit {0})

-- The object of a name server.
abbrev pub NameserverRef : Type 0
NameserverRef = ℕ

module _ (parts : Parts) (flannels : Flannels parts) where
  open parts use {texts, lo, ip_eq}
  open flannels use {Flannel, Outside}

  pub record Driver : Type 0 where
    pub networks : DualKeyMap String String Flannel
    pub services : Dict String ServiceRef
    pub dns_resolver : Resolver ServiceRef texts.Ip
    pub nameservers_by_endpoint_id : Dict String NameserverRef
    pub nameservers_by_sandbox_key : Dict String NameserverRef
    -- the networks that a name server answers for
    pub valid_network_ids : NameserverRef → Dict String (Unit {0})
    pub deactivated : List NameserverRef
    -- the number of the next object, and the services whose load balancer is being created
    pub next_object : ServiceRef
    pub creating : List ServiceRef
    pub vni_start : ℕ
    pub outside : Outside
    pub world : World parts

  -- A call on the load balancers, the networks or the address space.
  in_world : {A : Type 0} → Driver → Option A × World parts → Option A × Driver
  in_world d (a, w) = (a, record d { world = w })

  unfoldable pub on_world : {A : Type 0} → Act (World parts) A → Act Driver A
  unfolding in_world
  on_world m d = in_world d (m d.world)

  in_outside : {A : Type 0} → Driver → Option A × (Outside × World parts) → Option A × Driver
  in_outside d (a, (o, w)) = (a, record d { outside = o; world = w })

  unfoldable pub on_outside : {A : Type 0} → Act (Outside × World parts) A → Act Driver A
  unfolding in_outside
  on_outside m d = in_outside d (m (d.outside, d.world))

  -- The handler that `createService` subscribes to the event that the service is initialised.
  unfoldable pub on_initialized : ServiceRef → Driver → Driver
  on_initialized s d = record d {
    dns_resolver = add_service d.world.objects s d.dns_resolver;
    creating =
        if (d.world.objects s).endpoint_mode == mode_vip
        then d.creating ++ (s ∷ [])
        else d.creating;
  }

  on_service_event : ServiceRef → Event texts.Ip → Driver → Driver
  unfolding on_initialized
  on_service_event s initialized d = on_initialized s d
  on_service_event s _ d = d

  unfoldable pub on_service_events : ServiceRef → List (Event texts.Ip) → Driver → Driver
  unfolding on_service_event
  on_service_events s [] d = d
  on_service_events s (event ∷ events) d = on_service_events s events (on_service_event s event d)

  -- The object as a method leaves it, and the events, left for the load balancers.
  unfoldable pub with_result :
      ServiceRef → Service texts.Ip × List (Event texts.Ip) → Driver → Driver
  with_result s (service, events) d = record d {
    world = record d.world {
      objects = set_at parts s service d.world.objects;
      raised = d.world.raised ++ map (λ event. (s, event)) events;
    };
  }

  -- A method of a service object, with the handlers of the events that it raises.
  unfoldable pub call_service : ServiceRef → Call texts.Ip → Driver → Driver
  unfolding on_service_events with_result step
  call_service s call d =
      let result = step ⦃ip = ip_eq⦄ lo call (d.world.objects s) in
      on_service_events s result.1 (with_result s result d)

  -- `createService`, and `GetOrAdd` with it as the factory.
  unfoldable pub create_service : String → String → Driver → ServiceRef × Driver
  create_service id name d = (
    d.next_object,
    record d {
      services = insert id d.next_object d.services;
      next_object = d.next_object + 1;
      world = record d.world {
        objects = set_at parts d.next_object (new_service id name) d.world.objects;
      };
    },
  )

  unfoldable pub get_or_add_service : String → String → Driver → ServiceRef × Driver
  unfolding create_service
  get_or_add_service id name d = elim (lookup id d.services) [
    | some s ↦ (s, d)
    | none ↦ create_service id name d
  ]
