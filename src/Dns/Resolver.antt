-- ===== src/Dns/Resolver.antt =====
-- plugin/pkg/dns/resolver.go: what the resolver knows, and how it is kept. `Ref` is the type of the
-- references to services: a service's own record is read through `info` at each call. The address
-- of a network that a container has none in is nil, `none`.
pub mod Lookup
pub mod Containers
use flannel_network_plugin.Prelude.{
  ℕ, Bool, true, false, not, ◌&&◌, Option, none, some, List, [], ◌∷◌, ◌++◌, String, string_eq, ◌==◌,
  if◌then◌else◌, ltb, length,
}
use flannel_network_plugin.Prelude.Dict.{Dict, lookup, insert, remove, is_some}
use flannel_network_plugin.External.Lo.{Lo}
use flannel_network_plugin.Common.Service.{ContainerInfo, Service}

-- `common.NetworkInfo`
pub record NetworkInfo : Type 0 where
  pub docker_id : String
  pub flannel_id : String
  pub subnet : String
  pub name : String

pub record ContainerDnsNameData (Ip : Type 0) : Type 0 where
  pub container_id : String
  pub network_id : String
  pub ip : Option Ip

pub record Resolver (Ref Ip : Type 0) : Type 0 where
  pub network_name_to_id : Dict String String
  pub network_id_to_name : Dict String String
  pub container_data : Dict String (List (ContainerDnsNameData Ip))
  pub service_data : Dict String Ref
  pub docker_compatibility_mode : Bool
  pub ttl : ℕ

abbrev pub or_none : {A : Type 0} → Option (List A) → List A
or_none none = []
or_none (some items) = items

-- `m[key]` of a map that may be nil.
abbrev pub at_key : {V : Type 0} → String → Option (Dict String V) → Option V
at_key key none = none
at_key key (some m) = lookup key m

abbrev pub entries : {V : Type 0} → Option (Dict String V) → Dict String V
entries none = []
entries (some m) = m

module _ {A : Type 0} where
  -- `add`
  unfoldable pub add_to_map : Dict String (List A) → String → A → Dict String (List A)
  add_to_map items_map key item =
      insert key (or_none (lookup key items_map) ++ (item ∷ [])) items_map

  -- `remove`
  unfoldable pub remove_from_map :
      Lo → Dict String (List A) → String → (A → Bool) → Dict String (List A)
  remove_from_map lo items_map key predicate =
      let items = lo.filter A (λ item. not (predicate item)) (or_none (lookup key items_map)) in
      if ltb 0 (length items) then insert key items items_map else remove key items_map

module _ {Ref Ip : Type 0} where
  unfoldable pub new_resolver : Bool → Resolver Ref Ip
  new_resolver docker_compatibility_mode = record {
    network_name_to_id = [];
    network_id_to_name = [];
    container_data = [];
    service_data = [];
    docker_compatibility_mode = docker_compatibility_mode;
    ttl = 600;
  }

  unfoldable pub add_service : (Ref → Service Ip) → Ref → Resolver Ref Ip → Resolver Ref Ip
  add_service info service r = record r {
    service_data = insert (info service).name service r.service_data;
  }

  unfoldable pub remove_service : (Ref → Service Ip) → Ref → Resolver Ref Ip → Resolver Ref Ip
  remove_service info service r = record r {
    service_data = remove (info service).name r.service_data;
  }

  unfoldable pub add_network : NetworkInfo → Resolver Ref Ip → Resolver Ref Ip
  add_network network r = record r {
    network_name_to_id = insert network.name network.docker_id r.network_name_to_id;
    network_id_to_name = insert network.docker_id network.name r.network_id_to_name;
  }

  -- The keys are the other way round than those of `AddNetwork`.
  unfoldable pub remove_network : NetworkInfo → Resolver Ref Ip → Resolver Ref Ip
  remove_network network r = record r {
    network_name_to_id = remove network.docker_id r.network_name_to_id;
    network_id_to_name = remove network.name r.network_id_to_name;
  }

module _ {Ip : Type 0} (lo : Lo) (container : ContainerInfo Ip) where
  abbrev Names : Type 0
  Names = Dict String (List (ContainerDnsNameData Ip))

  unfoldable pub data_of : String → ContainerDnsNameData Ip
  data_of network_id = record {
    container_id = container.id;
    network_id = network_id;
    ip = at_key network_id container.ips;
  }

  -- The loops of `AddContainer`.
  unfoldable pub add_names : String → List String → Names → Names
  add_names network_id [] m = m
  add_names network_id (dns_name ∷ dns_names) m =
      add_names network_id dns_names (add_to_map m dns_name (data_of network_id))

  unfoldable pub add_networks : Dict String (List String) → Names → Names
  add_networks [] m = m
  add_networks ((network_id, dns_names) ∷ more) m =
      add_networks more (add_names network_id dns_names m)

  -- The loops of `RemoveContainer`.
  unfoldable pub remove_names : List String → Names → Names
  remove_names [] m = m
  remove_names (dns_name ∷ dns_names) m =
      remove_names dns_names
        (remove_from_map lo m dns_name (λ item. item.container_id == container.id))

  unfoldable pub remove_networks : Dict String (List String) → Names → Names
  remove_networks [] m = m
  remove_networks ((network_id, dns_names) ∷ more) m =
      remove_networks more (remove_names dns_names m)

  -- The names known per network, a set of names being a map to the unit.
  abbrev Known : Type 0
  Known = Dict String (Dict String (Unit {0}))

  or_no_names : Option (Dict String (Unit {0})) → Dict String (Unit {0})
  or_no_names none = []
  or_no_names (some network_data) = network_data

  -- The first loops of `UpdateContainer`.
  known_items : String → List (ContainerDnsNameData Ip) → Known → Known
  unfolding or_no_names
  known_items dns_name [] known = known
  known_items dns_name (item ∷ items) known = known_items dns_name items (
      if item.container_id == container.id
      then insert item.network_id (insert dns_name tt (or_no_names (lookup item.network_id known)))
          known
      else known)

  unfoldable pub known_dns_names : Names → Known → Known
  unfolding known_items
  known_dns_names [] known = known
  known_dns_names ((dns_name, items) ∷ more) known =
      known_dns_names more (known_items dns_name items known)

  -- Whether a name of a network needs to be added.
  is_known : String → Option (Dict String (Unit {0})) → Bool
  is_known dns_name none = false
  is_known dns_name (some network_data) = is_some (lookup dns_name network_data)

  -- The second loops: what they leave of the known names, and of the data.
  update_names : String → List String → Known × Names → Known × Names
  unfolding or_no_names is_known
  update_names network_id [] st = st
  update_names network_id (dns_name ∷ dns_names) (known, m) = update_names network_id dns_names (
      if is_known dns_name (lookup network_id known)
      then (insert network_id (remove dns_name (or_no_names (lookup network_id known))) known, m)
      else (known, add_to_map m dns_name (data_of network_id)))

  unfoldable pub update_networks : Dict String (List String) → Known × Names → Known × Names
  unfolding update_names
  update_networks [] st = st
  update_networks ((network_id, dns_names) ∷ more) st =
      update_networks more (update_names network_id dns_names st)

  -- The last loops: the names that the container has no more.
  drop_names : String → Dict String (Unit {0}) → Names → Names
  drop_names network_id [] m = m
  drop_names network_id ((dns_name, _) ∷ dns_names) m = drop_names network_id dns_names (
      remove_from_map lo m dns_name
        (λ item. item.container_id == container.id && item.network_id == network_id))

  unfoldable pub drop_known : Known → Names → Names
  unfolding drop_names
  drop_known [] m = m
  drop_known ((network_id, dns_names) ∷ more) m =
      drop_known more (drop_names network_id dns_names m)

module _ {Ref Ip : Type 0} where
  unfoldable pub add_container : Lo → ContainerInfo Ip → Resolver Ref Ip → Resolver Ref Ip
  add_container lo container r = record r {
    container_data = add_networks lo container (entries container.dns_names) r.container_data;
  }

  unfoldable pub remove_container : Lo → ContainerInfo Ip → Resolver Ref Ip → Resolver Ref Ip
  remove_container lo container r = record r {
    container_data = remove_networks lo container (entries container.dns_names) r.container_data;
  }

  unfoldable pub update_container : Lo → ContainerInfo Ip → Resolver Ref Ip → Resolver Ref Ip
  update_container lo container r =
      let (known, m) =
        update_networks lo container (entries container.dns_names)
          (known_dns_names lo container r.container_data [], r.container_data) in
      record r { container_data = drop_known lo container known m }
