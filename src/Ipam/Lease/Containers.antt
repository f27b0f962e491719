-- ===== src/Ipam/Lease/Containers.antt =====
-- The claims of containers and of services, against a description of who may have an address.
use mathlib.Core.Path.{fun_ext}
use flannel_network_plugin.Prelude.{
  ◌≡◌, sym, ◌∙◌, ℕ, Bool, true, false, ◌&&◌, ◌||◌, Option, none, some, List, String, string_eq,
  ◌==◌, ==_refl, arith,
}
use flannel_network_plugin.Common.Result.{ok}
use flannel_network_plugin.External.Texts.{Texts}
use flannel_network_plugin.External.Etcd.{Reaches, Etcd, IsQuiet, Store, Cmp, after}
use flannel_network_plugin.Etcd.Client.{Client}
use flannel_network_plugin.Ipam.Lease.{
  Allocation, IpAllocationResult, zero_allocation, claim_ops, allocate_ip_by_condition,
  container_conditions, allocate_ip_for_container, service_conditions, allocate_ip_for_service,
  allocated_ip_key, allocated_at_key, mac_key, service_id_key, type_reserved, type_container_ip,
  type_service_vip,
}
use flannel_network_plugin.Ipam.Lease.Keys.{
  at-ne-ip, mac-ne-ip, service-ne-ip, mac-ne-at, service-ne-at, mac-ne-empty, service-ne-empty,
}
use flannel_network_plugin.Ipam.Lease.Claim.{
  any_holds, try_conditions-Granted, try_conditions-Decided,
}

-- The holder of an address, read from the values of its keys.
abbrev is_text : String → Option String → Bool
is_text s none = false
is_text s (some t) = t == s

abbrev is_free : Option String → Bool
is_free none = true
is_free (some t) = false

module _ (texts : Texts) (client : Client) (ip : texts.Ip) where
  -- A container may have an address that nobody has, one that is reserved for no MAC or for its
  -- own, and one that it has already.
  unfoldable pub container_may : String → Store → Bool
  container_may mac st =
      let kind = st (allocated_ip_key client (texts.print_ip ip)) in
      let owner = st (mac_key client (texts.print_ip ip)) in
      is_free kind
      || (is_text type_reserved kind && (is_free owner || is_text mac owner))
      || (is_text type_container_ip kind && is_text mac owner)

  -- A service may have an address that nobody has, one that is reserved for no service, and one
  -- that it has already.
  unfoldable pub service_may : String → Store → Bool
  service_may service_id st =
      let kind = st (allocated_ip_key client (texts.print_ip ip)) in
      let owner = st (service_id_key client (texts.print_ip ip)) in
      is_free kind
      || (is_text type_reserved kind && is_free owner)
      || (is_text type_service_vip kind && is_text service_id owner)

  any_holds-container :
      (mac : String) (st : Store)
      → any_holds st (container_conditions texts client ip mac) ≡ container_may mac st
  unfolding container_conditions container_may
  any_holds-container mac st = ground arith

  any_holds-service :
      (service_id : String) (st : Store)
      → any_holds st (service_conditions texts client ip service_id) ≡ service_may service_id st
  unfolding service_conditions service_may
  any_holds-service service_id st = ground arith

  -- The keys of the address say the kind, the time and the owner, and no other key has changed
  -- from `old` to `new`.
  pub record IsClaimed (kind time owner_key owner : String) (old new : Store) : Type 0 where
    pub kind_set : new (allocated_ip_key client (texts.print_ip ip)) ≡ some kind
    pub time_set : new (allocated_at_key client (texts.print_ip ip)) ≡ some time
    pub owner_set : new owner_key ≡ some owner
    pub rest_kept :
        (k : String)
        → (allocated_ip_key client (texts.print_ip ip) == k) ≡ false
        → (allocated_at_key client (texts.print_ip ip) == k) ≡ false
        → (owner_key == k) ≡ false
        → new k ≡ old k

  IsClaimed-after :
      (now : ℕ) (kind owner_key owner : String) (st : Store)
      → (owner_key == "") ≡ false
      → (owner == "") ≡ false
      → (owner_key == allocated_ip_key client (texts.print_ip ip)) ≡ false
      → (owner_key == allocated_at_key client (texts.print_ip ip)) ≡ false
      → IsClaimed kind
          (texts.print_time now)
          owner_key
          owner
          st
          (after (claim_ops texts client now ip kind owner_key owner) st)
  unfolding claim_ops
  IsClaimed-after now kind owner_key owner st k-ne o-ne not-ip not-at = record {
    kind_set = ground (
      arith,
      at-ne-ip client (texts.print_ip ip),
      ==_refl (allocated_ip_key client (texts.print_ip ip)),
    );
    time_set = ground (arith, ==_refl (allocated_at_key client (texts.print_ip ip)));
    owner_set = ground (arith, ==_refl owner_key);
    rest_kept = λ k a b c. ground (arith, a, b, c);
  }

module _ (etcd : Etcd) (texts : Texts) (client : Client) (ip : texts.Ip) (now : ℕ) where
  open etcd use {Db, found, left}

  -- The allocation that a granted claim returns.
  abbrev pub granted : String → String → String → Allocation texts.Ip
  granted kind owner_key owner = record {
    ip = some ip;
    allocation_type = kind;
    allocated_at = now;
    data_key = owner_key;
    data_value = owner;
  }

  -- What a claim under some conditions writes, whatever other nodes do.
  claim_safe :
      (kind owner_key owner : String) (conditions : List (List Cmp)) (db db' : Db)
      (r : IpAllocationResult texts.Ip)
      → (owner_key == "") ≡ false
      → (owner == "") ≡ false
      → (owner_key == allocated_ip_key client (texts.print_ip ip)) ≡ false
      → (owner_key == allocated_at_key client (texts.print_ip ip)) ≡ false
      → allocate_ip_by_condition etcd texts client now ip kind owner_key owner conditions db
        ≡ (ok r, db')
      → r.success ≡ true
      → (db1 : Db) × Reaches etcd db db1
        × (any_holds (found db1) conditions ≡ true)
        × IsClaimed texts client ip kind
            (texts.print_time now)
            owner_key
            owner
            (found db1)
            (left db')
        × (r.allocation ≡ granted kind owner_key owner)
  unfolding allocate_ip_by_condition
  claim_safe kind owner_key owner conditions db db' r k-ne o-ne not-ip not-at h s =
      let (db1, reaches, some_holds, wrote, same) =
        try_conditions-Granted etcd texts (claim_ops texts client now ip kind owner_key owner) _
          conditions db db' r h s in
      (
        db1,
        reaches,
        some_holds,
        rw (fun_ext wrote) (
            IsClaimed-after texts client ip now kind owner_key owner (found db1) k-ne o-ne not-ip
              not-at),
        same,
      )

  -- Whatever other nodes do, a container is given an address only by a transaction, sent
  -- after refused ones at most, that met a store in which it may have the address; the keys of the
  -- address then hold this claim, and no other key has changed since that store. The MAC must not
  -- be empty.
  pub allocate_ip_for_container_safe :
      (mac : String) (db db' : Db) (r : IpAllocationResult texts.Ip)
      → (mac == "") ≡ false
      → allocate_ip_for_container etcd texts client now ip mac db ≡ (ok r, db')
      → r.success ≡ true
      → (db1 : Db) × Reaches etcd db db1
        × (container_may texts client ip mac (found db1) ≡ true)
        × IsClaimed texts client ip type_container_ip
            (texts.print_time now)
            (mac_key client (texts.print_ip ip))
            mac
            (found db1)
            (left db')
  unfolding allocate_ip_for_container
  allocate_ip_for_container_safe mac db db' r named h s =
      let shown = texts.print_ip ip in
      let (db1, reaches, some_holds, claimed, _) =
        claim_safe type_container_ip (mac_key client shown) mac
          (container_conditions texts client ip mac) db db' r (mac-ne-empty client shown) named
          (mac-ne-ip client shown) (mac-ne-at client shown) h s in
      (
        db1,
        reaches,
        sym (any_holds-container texts client ip mac (found db1)) ∙ some_holds,
        claimed,
      )

  -- Whatever other nodes do, a service is given a virtual address only by a transaction, sent
  -- after refused ones at most, that met a store in which it may have the address; the keys of the
  -- address then hold this claim, and no other key has changed since that store. The identifier
  -- must not be empty.
  pub allocate_ip_for_service_safe :
      (service_id : String) (db db' : Db) (r : IpAllocationResult texts.Ip)
      → (service_id == "") ≡ false
      → allocate_ip_for_service etcd texts client now ip service_id db ≡ (ok r, db')
      → r.success ≡ true
      → (db1 : Db) × Reaches etcd db db1
        × (service_may texts client ip service_id (found db1) ≡ true)
        × IsClaimed texts client ip type_service_vip
            (texts.print_time now)
            (service_id_key client (texts.print_ip ip))
            service_id
            (found db1)
            (left db')
  unfolding allocate_ip_for_service
  allocate_ip_for_service_safe service_id db db' r named h s =
      let shown = texts.print_ip ip in
      let (db1, reaches, some_holds, claimed, _) =
        claim_safe type_service_vip (service_id_key client shown) service_id
          (service_conditions texts client ip service_id) db db' r (service-ne-empty client shown)
          named (service-ne-ip client shown) (service-ne-at client shown) h s in
      (
        db1,
        reaches,
        sym (any_holds-service texts client ip service_id (found db1)) ∙ some_holds,
        claimed,
      )

  -- On a quiet cluster a container that may have the address gets it.
  pub allocate_ip_for_container-granted :
      IsQuiet etcd
      → (mac : String) (db : Db) → (mac == "") ≡ false
      → container_may texts client ip mac (found db) ≡ true
      → ((allocate_ip_for_container etcd texts client now ip mac db).0
          ≡ ok (record {
            success = true;
            allocation = granted type_container_ip (mac_key client (texts.print_ip ip)) mac;
          }))
        × IsClaimed texts client ip type_container_ip
            (texts.print_time now)
            (mac_key client (texts.print_ip ip))
            mac
            (found db)
            (found (allocate_ip_for_container etcd texts client now ip mac db).1)
  unfolding allocate_ip_for_container allocate_ip_by_condition
  allocate_ip_for_container-granted quiet mac db named may =
      let shown = texts.print_ip ip in
      let ops = claim_ops texts client now ip type_container_ip (mac_key client shown) mac in
      let holds = any_holds-container texts client ip mac (found db) ∙ may in
      let decided =
        try_conditions-Decided etcd texts quiet ops
          (granted type_container_ip (mac_key client shown) mac)
          (container_conditions texts client ip mac) db in
      let wrote = rw holds at decided in
      (
        wrote.0,
        rw (fun_ext wrote.1) (
            IsClaimed-after texts client ip now type_container_ip (mac_key client shown) mac
              (found db) (mac-ne-empty client shown) named (mac-ne-ip client shown)
              (mac-ne-at client shown)),
      )

  -- On a quiet cluster a container that may not have the address is refused, without an error, and
  -- nothing is written.
  pub allocate_ip_for_container_refused :
      IsQuiet etcd
      → (mac : String) (db : Db) → container_may texts client ip mac (found db) ≡ false
      → ((allocate_ip_for_container etcd texts client now ip mac db).0
          ≡ ok (record { success = false; allocation = zero_allocation }))
        × ((k : String)
            → found (allocate_ip_for_container etcd texts client now ip mac db).1 k ≡ found db k)
  unfolding allocate_ip_for_container allocate_ip_by_condition
  allocate_ip_for_container_refused quiet mac db may_not =
      let shown = texts.print_ip ip in
      let ops = claim_ops texts client now ip type_container_ip (mac_key client shown) mac in
      let none_holds = any_holds-container texts client ip mac (found db) ∙ may_not in
      rw none_holds at (
        try_conditions-Decided etcd texts quiet ops
          (granted type_container_ip (mac_key client shown) mac)
          (container_conditions texts client ip mac) db)
