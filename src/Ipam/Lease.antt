-- ===== src/Ipam/Lease.antt =====
-- plugin/pkg/ipam/pool_etcd.go: the claims on addresses that the nodes share through etcd. A claim
-- is up to three keys: the type of the allocation, the time, and the MAC or the service it is for.
-- Every transaction is one call of the interface; between two of them other nodes may write.
pub mod Keys
pub mod Claim
pub mod Containers
pub mod Release
pub mod Read
use flannel_network_plugin.Prelude.{
  ℕ, Bool, true, false, not, ◌&&◌, ◌||◌, Option, none, some, List, [], ◌∷◌, ◌++◌, String, string_eq,
  ◌==◌, if◌then◌else◌,
}
use flannel_network_plugin.Prelude.Dict.{Dict, lookup}
use flannel_network_plugin.Common.Result.{Result, ok, err}
use flannel_network_plugin.External.Texts.{Texts, ◌+++◌, trim_prefix, trim_left, has_slash, split}
use flannel_network_plugin.External.Etcd.{
  Etcd, Cmp, value_is, never_created, Op, put, delete, Reply, failed, succeeded, refused,
}
use flannel_network_plugin.Etcd.Client.{Client, get_key}
use flannel_network_plugin.Common.ConcurrentMap.{add_or_update_in}

abbrev pub data_key_part_mac : String
data_key_part_mac = "mac"

abbrev pub data_key_part_service_id : String
data_key_part_service_id = "service-id"

abbrev pub allocated_at_key_part : String
allocated_at_key_part = "allocated-at"

abbrev pub type_reserved : String
type_reserved = "reserved"

abbrev pub type_container_ip : String
type_container_ip = "container-ip"

abbrev pub type_service_vip : String
type_service_vip = "service-vip"

unfoldable pub allocated_ips_key : Client → String
unfolding get_key
allocated_ips_key client = get_key client ("allocated-ips" ∷ [])

unfoldable pub allocated_ip_key : Client → String → String
allocated_ip_key client ip = allocated_ips_key client +++ "/" +++ ip

unfoldable pub mac_key : Client → String → String
mac_key client ip = allocated_ip_key client ip +++ "/" +++ data_key_part_mac

unfoldable pub service_id_key : Client → String → String
service_id_key client ip = allocated_ip_key client ip +++ "/" +++ data_key_part_service_id

unfoldable pub allocated_at_key : Client → String → String
allocated_at_key client ip = allocated_ip_key client ip +++ "/" +++ allocated_at_key_part

-- An allocation; `none` is the nil address of a value of which only a part has been read.
pub record Allocation (Ip : Type 0) : Type 0 where
  pub ip : Option Ip
  pub allocation_type : String
  pub allocated_at : ℕ
  pub data_key : String
  pub data_value : String

pub record IpAllocationResult (Ip : Type 0) : Type 0 where
  pub success : Bool
  pub allocation : Allocation Ip

-- A failed call of etcd, or the run-time panic of an index out of range.
pub data Fault : Type 0 where
  etcd_failed : Fault
  index_panic : Fault

abbrev pub zero_allocation : {Ip : Type 0} → Allocation Ip
zero_allocation = record {
  ip = none;
  allocation_type = "";
  allocated_at = 0;
  data_key = "";
  data_value = "";
}

module _ (texts : Texts) where
  open texts use {Ip}

  -- The writes of a claim.
  unfoldable pub claim_ops : Client → ℕ → Ip → String → String → String → List Op
  claim_ops client now ip allocation_type data_key data_value =
      let ops =
        put (allocated_ip_key client (texts.print_ip ip)) allocation_type
        ∷ put (allocated_at_key client (texts.print_ip ip)) (texts.print_time now)
        ∷ [] in
      if not (data_key == "") && not (data_value == "")
      then ops ++ put data_key data_value ∷ []
      else ops

  -- The four conditions under which a container may have the address, in the order of the code.
  unfoldable pub container_conditions : Client → Ip → String → List (List Cmp)
  container_conditions client ip mac =
      let key = allocated_ip_key client (texts.print_ip ip) in
      let its_mac = mac_key client (texts.print_ip ip) in
      (value_is key type_reserved ∷ never_created its_mac ∷ [])
      ∷ (never_created key ∷ [])
      ∷ (value_is key type_reserved ∷ value_is its_mac mac ∷ [])
      ∷ (value_is key type_container_ip ∷ value_is its_mac mac ∷ [])
      ∷ []

  -- The three conditions under which a service may have the address.
  unfoldable pub service_conditions : Client → Ip → String → List (List Cmp)
  service_conditions client ip service_id =
      let key = allocated_ip_key client (texts.print_ip ip) in
      let its_service = service_id_key client (texts.print_ip ip) in
      (value_is key type_reserved ∷ never_created its_service ∷ [])
      ∷ (value_is key type_service_vip ∷ value_is its_service service_id ∷ [])
      ∷ (never_created key ∷ [])
      ∷ []

  unfoldable pub reserve_conditions : Client → Ip → List (List Cmp)
  reserve_conditions client ip =
      (never_created (allocated_ip_key client (texts.print_ip ip)) ∷ []) ∷ []

  -- `IP.String` of a nil address.
  abbrev pub print_any : Option Ip → String
  print_any none = "<nil>"
  print_any (some ip) = texts.print_ip ip

  -- The comparisons of a release: the type, and either no data or the same data.
  unfoldable pub release_cmps : Client → Allocation Ip → List Cmp
  release_cmps client r =
      let ip = print_any r.ip in
      value_is (allocated_ip_key client ip) r.allocation_type
      ∷ (if r.data_value == "" || r.data_key == ""
          then never_created (mac_key client ip) ∷ never_created (service_id_key client ip) ∷ []
          else value_is r.data_key r.data_value ∷ [])

  unfoldable pub release_ops : Client → Allocation Ip → List Op
  release_ops client r =
      let ip = print_any r.ip in
      delete (allocated_ip_key client ip)
      ∷ delete (allocated_at_key client ip)
      ∷ delete (mac_key client ip)
      ∷ delete (service_id_key client ip)
      ∷ []

  abbrev pub release_gets : Client → Allocation Ip → List String
  release_gets client r =
      let ip = print_any r.ip in
      allocated_ip_key client ip
      ∷ allocated_at_key client ip
      ∷ mac_key client ip
      ∷ service_id_key client ip
      ∷ []

  -- A text that cannot be read leaves the zero time.
  abbrev or_zero : Option ℕ → ℕ
  or_zero none = 0
  or_zero (some t) = t

  -- The data of the claim that stands: the MAC's if there is one, else the service's.
  abbrev data_of : Client → String → Option String → Option String → String × String
  data_of client ip (some mac) service_id = (mac_key client ip, mac)
  data_of client ip none (some service_id) = (service_id_key client ip, service_id)
  data_of client ip none none = ("", "")

  -- The values that the `Else` branch found, in the order of its gets; `Kvs[0]` of a get that
  -- found nothing panics.
  unfoldable pub standing_claim :
      Client → Allocation Ip → List (Option String) → Result Fault (IpAllocationResult Ip)
  standing_claim client r (some kind ∷ some time ∷ mac ∷ service_id ∷ []) =
      let claimed = data_of client (print_any r.ip) mac service_id in
      ok (record {
        success = false;
        allocation = record {
          ip = r.ip;
          allocation_type = kind;
          allocated_at = or_zero (texts.parse_time time);
          data_key = claimed.0;
          data_value = claimed.1;
        };
      })
  standing_claim client r _ = err index_panic

module _ (etcd : Etcd) (texts : Texts) where
  open etcd use {Db}
  open texts use {Ip}

  -- What the loop over the conditions does with the reply to one transaction.
  unfoldable pub on_commit :
      Allocation Ip
      → (Db → Result Fault (IpAllocationResult Ip) × Db)
      → Reply × Db
      → Result Fault (IpAllocationResult Ip) × Db
  on_commit allocation rest (failed, db) = (err etcd_failed, db)
  on_commit allocation rest (succeeded, db) =
      (ok (record { success = true; allocation = allocation }), db)
  on_commit allocation rest (refused values, db) = rest db

  -- The loop over the conditions: the first that holds decides.
  unfoldable pub try_conditions :
      List Op → Allocation Ip → List (List Cmp) → Db → Result Fault (IpAllocationResult Ip) × Db
  try_conditions ops allocation [] db =
      (ok (record { success = false; allocation = zero_allocation }), db)
  try_conditions ops allocation (condition ∷ conditions) db =
      on_commit allocation (try_conditions ops allocation conditions)
        (etcd.commit condition ops [] db)

  unfoldable pub allocate_ip_by_condition :
      Client
      → ℕ
      → Ip
      → String
      → String
      → String
      → List (List Cmp)
      → Db
      → Result Fault (IpAllocationResult Ip) × Db
  unfolding try_conditions
  allocate_ip_by_condition client now ip allocation_type data_key data_value conditions db =
      try_conditions (claim_ops texts client now ip allocation_type data_key data_value)
        (record {
          ip = some ip;
          allocation_type = allocation_type;
          allocated_at = now;
          data_key = data_key;
          data_value = data_value;
        })
        conditions db

  unfoldable pub allocate_ip_for_container :
      Client → ℕ → Ip → String → Db → Result Fault (IpAllocationResult Ip) × Db
  unfolding allocate_ip_by_condition
  allocate_ip_for_container client now ip mac db =
      allocate_ip_by_condition client now ip type_container_ip (mac_key client (texts.print_ip ip))
        mac (container_conditions texts client ip mac) db

  unfoldable pub allocate_ip_for_service :
      Client → ℕ → Ip → String → Db → Result Fault (IpAllocationResult Ip) × Db
  unfolding allocate_ip_by_condition
  allocate_ip_for_service client now ip service_id db =
      allocate_ip_by_condition client now ip type_service_vip
        (service_id_key client (texts.print_ip ip)) service_id
        (service_conditions texts client ip service_id) db

  unfoldable pub reserve_ip : Client → ℕ → Ip → Db → Result Fault (IpAllocationResult Ip) × Db
  unfolding allocate_ip_by_condition
  reserve_ip client now ip db =
      allocate_ip_by_condition client now ip type_reserved "" ""
        (reserve_conditions texts client ip) db

  unfoldable pub on_release :
      Client → Allocation Ip → Reply × Db → Result Fault (IpAllocationResult Ip) × Db
  unfolding standing_claim
  on_release client r (failed, db) = (err etcd_failed, db)
  on_release client r (succeeded, db) =
      (ok (record { success = true; allocation = zero_allocation }), db)
  on_release client r (refused values, db) = (standing_claim texts client r values, db)

  unfoldable pub release_allocation :
      Client → Allocation Ip → Db → Result Fault (IpAllocationResult Ip) × Db
  unfolding on_release
  release_allocation client r db = on_release client r (
      etcd.commit (release_cmps texts client r) (release_ops texts client r)
        (release_gets texts client r) db)
