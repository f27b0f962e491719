-- ===== src/Examples/Drivers.antt =====
-- A driver with one service and one name server, on the node of Examples/Node.
use flannel_network_plugin.Prelude.{
  ◌≡◌, refl, true, false, some, none, List, [], ◌∷◌, String, string_eq, arith, All, contains, ℕ,
}
use flannel_network_plugin.Prelude.Dict.{Dict, lookup}
use flannel_network_plugin.Common.Act.{pure}
use flannel_network_plugin.Dns.Resolver.{Resolver}
use flannel_network_plugin.External.Texts.{◌+++◌}
use flannel_network_plugin.Examples.{Address, first}
use flannel_network_plugin.Examples.Node.{node, ready}
use flannel_network_plugin.Driver.{Flannels, Driver}
use flannel_network_plugin.Driver.Services.{ServiceInfo, handle_services_added}
use flannel_network_plugin.Driver.Services.Owned.{IsOwned}
use flannel_network_plugin.Driver.Services.Followed.{IsFollowed, handle_services_added-IsFollowed}
use flannel_network_plugin.Driver.Containers.{DockerContainerInfo, handle_container_changed}
use flannel_network_plugin.Driver.Containers.Valid.{is_valid, handle_container_changed_lem}
use flannel_network_plugin.Driver.PoolId.{pool_prefix, pool_id_to_network_id}
use flannel_network_plugin.Driver.PoolId.RoundTrip.{pool_id_to_network_id_lem}

-- Networks that are their own names.
abbrev by_name : Flannels node
by_name = record {
  Flannel = String;
  Subnet = String;
  Outside = Unit;
  flannel_eq = string_eq;
  network_of = λ name. record { flannel_id = name; mtu = 1500 };
  new_network = λ id subnet vni. id;
  init = λ name. pure tt;
  delete = λ name. pure tt;
  host_subnet_contains = λ name ip. true;
  release_ip_if_reserved = λ name ip. pure true;
  get_new_or_existing_pool = λ id. pure "10.1.0.0/16";
  release_pool = λ id. pure tt;
}

abbrev no_names : Resolver ℕ Address
no_names = record {
  network_name_to_id = [];
  network_id_to_name = [];
  container_data = [];
  service_data = [];
  docker_compatibility_mode = false;
  ttl = 600;
}

abbrev driver : Driver node by_name
driver = record {
  networks = record { m1 = []; m2 = [] };
  services = ("db", 0) ∷ [];
  dns_resolver = no_names;
  nameservers_by_endpoint_id = ("e1", 0) ∷ [];
  nameservers_by_sandbox_key = ("sandbox", 0) ∷ [];
  valid_network_ids = λ n. ("net", tt) ∷ [];
  deactivated = [];
  next_object = 1;
  creating = [];
  vni_start = 4096;
  outside = tt;
  world = ready;
}

driver-IsOwned : IsOwned node by_name driver
unfolding lookup
driver-IsOwned = record {
  is_old = λ id s e. ground (arith, e);
  is_own = λ id other s e f. own id other s e f;
}
  where
    own :
        (id other : String) (s : ℕ)
        → lookup id driver.services ≡ some s
        → lookup other driver.services ≡ some s
        → id ≡ other
    own id other s e f =
        ground (arith, e, f, string_eq.beq_iff "db" id, string_eq.beq_iff "db" other)

abbrev two_services : List (ServiceInfo Address)
two_services =
    record {
      id = "db";
      name = "db";
      endpoint_mode = "dnsrr";
      networks = "net" ∷ [];
      ipam_vips = none;
    }
    ∷ record {
      id = "web";
      name = "web";
      endpoint_mode = "vip";
      networks = "net" ∷ "net2" ∷ [];
      ipam_vips = some (("net", first) ∷ []);
    }
    ∷ []

handle_services_added-IsFollowed_example :
    All
      (IsFollowed node by_name (handle_services_added node by_name two_services driver))
      two_services
handle_services_added-IsFollowed_example =
    handle_services_added-IsFollowed node by_name two_services driver driver-IsOwned
      ((refl, tt), (tt, tt))

pool_id_to_network_id_lem_example : pool_id_to_network_id (pool_prefix +++ "-" +++ "a-b") ≡ "a-b"
pool_id_to_network_id_lem_example = pool_id_to_network_id_lem "a-b"

abbrev with_endpoints : Dict String String → DockerContainerInfo Address
with_endpoints endpoints = record {
  container = record {
    id = "c1";
    name = "c1";
    service_id = "";
    service_name = "";
    sandbox_key = "sandbox";
    ips = none;
    dns_names = none;
    endpoints = some endpoints;
  };
  ipam_ips = [];
}

has_nameserver : lookup "sandbox" driver.nameservers_by_sandbox_key ≡ some 0
unfolding lookup
has_nameserver = refl

valid_before : is_valid node by_name 0 "net2" driver ≡ contains {A = String} "net2" ("net" ∷ [])
unfolding lookup contains
valid_before = refl

-- The container leaves one network and joins another.
handle_container_changed_lem_example :
    is_valid node by_name 0 "net2" (
      handle_container_changed node by_name
        (with_endpoints (("net", "e1") ∷ []))
        (with_endpoints (("net2", "e2") ∷ []))
        driver)
    ≡ contains {A = String} "net2" ("net2" ∷ [])
handle_container_changed_lem_example =
    handle_container_changed_lem node by_name 0 "net2" (with_endpoints (("net", "e1") ∷ []))
      (with_endpoints (("net2", "e2") ∷ [])) driver has_nameserver valid_before
