-- ===== src/Examples/Dns.antt =====
-- The names of a container.
use flannel_network_plugin.Prelude.{◌≡◌, false, none, some, [], ◌∷◌, String, string_eq, arith}
use flannel_network_plugin.Prelude.Dict.{lookup}
use flannel_network_plugin.Examples.{Address, first, second, slices}
use flannel_network_plugin.Common.Service.{ContainerInfo}
use flannel_network_plugin.Dns.Resolver.{Resolver, add_container, remove_container}
use flannel_network_plugin.Dns.Resolver.Containers.{items, others, remove_container-add_container}

abbrev web : ContainerInfo Address
web = record {
  id = "c1";
  name = "web";
  service_id = "";
  service_name = "";
  sandbox_key = "";
  ips = some (("net", first) ∷ []);
  dns_names = some (("net", "web" ∷ "alias" ∷ []) ∷ ("net2", "web" ∷ []) ∷ []);
  endpoints = none;
}

-- Another container has one of the names.
abbrev resolver : Resolver String Address
resolver = record {
  network_name_to_id = [];
  network_id_to_name = [];
  container_data =
      ("alias", record { container_id = "c2"; network_id = "net"; ip = some second } ∷ []) ∷ [];
  service_data = [];
  docker_compatibility_mode = false;
  ttl = 600;
}

resolver_fresh :
    (d : String)
    → others slices web (items d resolver.container_data) ≡ items d resolver.container_data
unfolding lookup
resolver_fresh d = ground arith

remove_container-add_container_example :
    items "alias" (remove_container slices web (add_container slices web resolver)).container_data
    ≡ items "alias" resolver.container_data
remove_container-add_container_example =
    remove_container-add_container slices web resolver resolver_fresh "alias"
