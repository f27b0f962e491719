-- ===== src/Common/Service.antt =====
-- plugin/pkg/common/service.go. A service is its record of fields; raising an event is an entry of
-- the list that a method returns beside the new service. Each method is one step: between its
-- unlocking and its second look at `IsInitialized` no other method runs. A nil map is `none`.
pub mod Events
use flannel_network_plugin.Prelude.{
  Bool, true, false, not, ◌&&◌, ◌||◌, Option, none, some, Eq, ◌==◌, if◌then◌else◌, leb, length,
  List, [], ◌∷◌, ◌++◌, String, string_eq, ltb,
}
use flannel_network_plugin.Prelude.Dict.{Dict, lookup, insert, remove}
use flannel_network_plugin.External.Lo.{Lo}
use flannel_network_plugin.Common.Compare.{compare_ip_maps}

pub record ContainerInfo (Ip : Type 0) : Type 0 where
  pub id : String
  pub name : String
  pub service_id : String
  pub service_name : String
  pub sandbox_key : String
  pub ips : Option (Dict String Ip)
  pub dns_names : Option (Dict String (List String))
  pub endpoints : Option (Dict String String)

pub record Service (Ip : Type 0) : Type 0 where
  pub id : String
  pub name : String
  pub endpoint_mode : String
  pub networks : List String
  pub vips : Option (Dict String Ip)
  pub ipam_vips : Option (Dict String Ip)
  pub containers : Dict String (ContainerInfo Ip)

-- The events that a service raises, in the order of `ServiceEvents`.
pub data Event (Ip : Type 0) : Type 0 where
  initialized : Event Ip
  vips_changed : Event Ip
  networks_changed : Event Ip
  endpoint_mode_changed : Event Ip
  container_added : ContainerInfo Ip → Event Ip
  container_removed : ContainerInfo Ip → Event Ip

abbrev pub mode_vip : String
mode_vip = "vip"

abbrev pub mode_dnsrr : String
mode_dnsrr = "dnsrr"

-- The methods that change a service.
pub data Call (Ip : Type 0) : Type 0 where
  calls_set_networks : List String → Option (Dict String Ip) → Call Ip
  calls_set_endpoint_mode : String → Call Ip
  calls_set_vips : Option (Dict String Ip) → Call Ip
  calls_add_container : ContainerInfo Ip → Call Ip
  calls_remove_container : String → Call Ip

abbrev nonempty {ℓ} : {V : Type ℓ} → Option (Dict String V) → Bool
nonempty none = false
nonempty (some m) = ltb 0 (length m)

module _ {Ip : Type 0} where
  unfoldable pub new_service : String → String → Service Ip
  new_service id name = record {
    id = id;
    name = name;
    endpoint_mode = "";
    networks = [];
    vips = some [];
    ipam_vips = some [];
    containers = [];
  }

  -- `networks != nil && len(networks) > 0` is `len(networks) > 0`.
  unfoldable pub is_initialized : Service Ip → Bool
  is_initialized s =
      not (s.id == "")
      && not (s.name == "")
      && ltb 0 (length s.networks)
      && (s.endpoint_mode == mode_dnsrr || (s.endpoint_mode == mode_vip && nonempty s.ipam_vips))

  unfoldable pub add_container : ContainerInfo Ip → Service Ip → Service Ip × List (Event Ip)
  unfolding is_initialized
  add_container container s =
      let s' = record s { containers = insert container.id container s.containers } in
      (s', if is_initialized s' then container_added container ∷ [] else [])

  -- The deletion is by the stored container's own identifier.
  unfoldable pub remove_container : String → Service Ip → Service Ip × List (Event Ip)
  unfolding is_initialized
  remove_container container_id s = elim (lookup container_id s.containers) [
    | none ↦ (s, [])
    | some container ↦
        let s' = record s { containers = remove container.id s.containers } in
        (s', if is_initialized s' then container_removed container ∷ [] else [])
  ]

  unfoldable pub set_endpoint_mode : String → Service Ip → Service Ip × List (Event Ip)
  unfolding is_initialized
  set_endpoint_mode endpoint_mode s =
      let s' = record s { endpoint_mode = endpoint_mode } in
      (
        s',
        if is_initialized s'
            then (if not (is_initialized s)
                then initialized ∷ []
                else if not (endpoint_mode == s.endpoint_mode)
                then endpoint_mode_changed ∷ []
                else [])
            else [],
      )

module _ {Ip : Type 0} ⦃ip : Eq Ip⦄ where
  -- The local `vipsChanged` of the code is the result of the comparison itself.
  unfoldable pub set_vips : Option (Dict String Ip) → Service Ip → Service Ip × List (Event Ip)
  unfolding is_initialized
  set_vips vips s =
      let vips_changed_flag = compare_ip_maps s.vips vips in
      let s' = record s { vips = vips } in
      (s', if is_initialized s' && vips_changed_flag then vips_changed ∷ [] else [])

  unfoldable pub set_networks :
      Lo → List String → Option (Dict String Ip) → Service Ip → Service Ip × List (Event Ip)
  unfolding is_initialized
  set_networks lo networks ipam_vips s =
      let (deleted_networks, added_networks) = lo.difference networks s.networks in
      let ipam_vips_changed = compare_ip_maps s.ipam_vips ipam_vips in
      let s' = record s { networks = networks; ipam_vips = ipam_vips } in
      (
        s',
        if is_initialized s'
            then (if not (is_initialized s)
                then initialized ∷ []
                else if ipam_vips_changed
                    || ltb 0 (length deleted_networks)
                    || ltb 0 (length added_networks)
                then networks_changed ∷ []
                else [])
            else [],
      )

  -- One call of a method, and a history of calls with all the events that it raises.
  unfoldable pub step : Lo → Call Ip → Service Ip → Service Ip × List (Event Ip)
  unfolding set_networks set_endpoint_mode set_vips add_container remove_container
  step lo (calls_set_networks networks ipam_vips) s = set_networks lo networks ipam_vips s
  step lo (calls_set_endpoint_mode endpoint_mode) s = set_endpoint_mode endpoint_mode s
  step lo (calls_set_vips vips) s = set_vips vips s
  step lo (calls_add_container container) s = add_container container s
  step lo (calls_remove_container container_id) s = remove_container container_id s

  unfoldable pub run : Lo → List (Call Ip) → Service Ip → Service Ip × List (Event Ip)
  run lo [] s = (s, [])
  run lo (c ∷ cs) s =
      let (s1, first) = step lo c s in let (s2, later) = run lo cs s1 in (s2, first ++ later)
