-- ===== src/Ipam/Space.antt =====
-- plugin/pkg/ipam/address_space.go and address_space_etcd.go: which subnet each network has. The
-- lock of the address space is held by each method throughout, so a method is one step. A subnet
-- is known by its text; `cidr.Subnet` and the texts of subnets are an interface.
pub mod Reserve
pub mod Events
use Prim.Native.Char.{Char}
use flannel_network_plugin.Prelude.{
  ℕ, zero, suc, ◌-◌, ◌^◌, Bool, true, false, not, ◌||◌, Option, none, some, List, [], ◌∷◌, ◌++◌,
  String, string_eq, ◌==◌, if◌then◌else◌, ltb,
}
use flannel_network_plugin.Prelude.Dict.{Dict, lookup, insert, remove, values}
use flannel_network_plugin.Common.Result.{Result, ok, err}
use flannel_network_plugin.Common.ConcurrentMap
use flannel_network_plugin.Common.ConcurrentMap.{
  ConcurrentMap, get_or_add, try_remove, add_or_update,
}
use flannel_network_plugin.External.Lo.{Lo}
use flannel_network_plugin.External.Texts.{replace_all, trim_prefix, trim_left, has_slash}
use flannel_network_plugin.External.Etcd.{
  Etcd, value_is, never_created, put, delete, Reply, failed, succeeded, refused,
}
use flannel_network_plugin.Etcd.Client.{Client, get_key}

-- `IPNet.String`, `net.ParseCIDR`, `Mask.Size`, and `cidr.Subnet` of github.com/apparentlymart/go-cidr
-- (`none` is its error).
pub record Nets : Type 1 where
  pub Net : Type 0
  pub print_net : Net → String
  pub parse_cidr : String → Option Net
  pub ones : Net → ℕ
  pub nth_subnet : Net → ℕ → ℕ → Option Net

pub data SpaceError : Type 0 where
  no_unused_subnets : SpaceError
  etcd_failed : SpaceError
  index_panic : SpaceError
  no_such_pool : SpaceError
  already_exists : SpaceError
  registered_since : SpaceError

-- `SubnetToKey` of common.go
unfoldable pub subnet_to_key : String → String
subnet_to_key subnet = replace_all b'/' "-" subnet

unfoldable pub subnets_key : Client → String
unfolding get_key
subnets_key client = get_key client []

unfoldable pub subnet_key : Client → String → String
unfolding get_key subnet_to_key
subnet_key client subnet = get_key client (subnet_to_key subnet ∷ [])

-- `PoolSubnetLeaseResult`
pub record LeaseResult : Type 0 where
  pub success : Bool
  pub pool_id : String

module _ (etcd : Etcd) where
  open etcd use {Db}

  on_reserve : String → Reply × Db → Result SpaceError LeaseResult × Db
  on_reserve id (failed, db) = (err etcd_failed, db)
  on_reserve id (succeeded, db) = (ok (record { success = true; pool_id = "" }), db)
  on_reserve id (refused (some pool_id ∷ []), db) = (
    ok (
        if pool_id == id
        then record { success = true; pool_id = "" }
        else record { success = false; pool_id = pool_id }),
    db,
  )
  on_reserve id (refused _, db) = (err index_panic, db)

  unfoldable pub reserve_pool_subnet :
      Client → String → String → Db → Result SpaceError LeaseResult × Db
  unfolding on_reserve
  reserve_pool_subnet client subnet id db =
      let key = subnet_key client subnet in
      on_reserve id (etcd.commit (never_created key ∷ []) (put key id ∷ []) (key ∷ []) db)

  on_release : Reply × Db → Result SpaceError LeaseResult × Db
  on_release (failed, db) = (err etcd_failed, db)
  on_release (succeeded, db) = (ok (record { success = true; pool_id = "" }), db)
  on_release (refused (some pool_id ∷ []), db) =
      (ok (record { success = false; pool_id = pool_id }), db)
  on_release (refused _, db) = (ok (record { success = true; pool_id = "" }), db)

  unfoldable pub release_pool_subnet :
      Client → String → String → Db → Result SpaceError LeaseResult × Db
  unfolding on_release
  release_pool_subnet client subnet id db =
      let key = subnet_key client subnet in
      on_release (etcd.commit (value_is key id ∷ []) (delete key ∷ []) (key ∷ []) db)

module _ (nets : Nets) where
  open nets use {Net}

  -- The inner loop of `generateAllSubnets`: the subnets from the i-th on, `n` of them.
  subnets_from : Net → ℕ → ℕ → ℕ → Option (List Net)
  subnets_from net new_bits i zero = some []
  subnets_from net new_bits i (suc n) =
      let rest = subnets_from net new_bits (suc i) n in
      elim (nets.nth_subnet net new_bits i) [
        | none ↦ none
        | some subnet ↦ elim rest [ none ↦ none | some subnets ↦ some (subnet ∷ subnets) ]
      ]

  -- `generateAllSubnets` of util.go. A negative difference, converted to an unsigned number, shifts
  -- the 1 out, and so does one of 64 or more; one of 63 gives a negative number: there are no subnets
  -- then.
  unfoldable pub generate_all_subnets : List Net → ℕ → Option (List Net)
  unfolding subnets_from
  generate_all_subnets [] pool_size = some []
  generate_all_subnets (net ∷ available) pool_size =
      let rest = generate_all_subnets available pool_size in
      let new_bits = pool_size - nets.ones net in
      let num_subnets =
        if ltb pool_size (nets.ones net) || not (ltb new_bits 63) then 0 else 2 ^ new_bits in
      elim (subnets_from net new_bits 0 num_subnets) [
        | none ↦ none
        | some subnets ↦ elim rest [ none ↦ none | some more ↦ some (subnets ++ more) ]
      ]

  pub record Space : Type 0 where
    pub unused_subnets : List Net
    pub pools : ConcurrentMap String Net

  -- The subnets whose text is another one (`lo.Filter`).
  unfoldable pub without_subnet : Lo → Net → List Net → List Net
  without_subnet lo used subnets =
      lo.filter Net (λ item. not (nets.print_net item == nets.print_net used)) subnets

  -- The loop of `NewEtcdBasedAddressSpace` over the subnets in use.
  unfoldable pub unused_at_start : Lo → List Net → List Net → List Net
  unfolding without_subnet
  unused_at_start lo [] unused = unused
  unused_at_start lo (used ∷ more) unused = unused_at_start lo more (without_subnet lo used unused)

  -- One round of the loop of `getUsedSubnets` over the keys that etcd has.
  read_pool : Client → String → String → ConcurrentMap String Net → ConcurrentMap String Net
  read_pool client full_key network_id result =
      let key = trim_left (trim_prefix full_key (subnets_key client)) in
      if has_slash key then result else elim (nets.parse_cidr (replace_all b'-' "/" key)) [
        | none ↦ result
        | some net ↦ ConcurrentMap.set network_id net result
      ]

  unfoldable pub read_pools :
      Client → Dict String String → ConcurrentMap String Net → ConcurrentMap String Net
  unfolding read_pool
  read_pools client [] result = result
  read_pools client ((full_key, network_id) ∷ kvs) result =
      read_pools client kvs (read_pool client full_key network_id result)

  -- What an event of the watch on the subnets carries: the key and the value of its `Kv`.
  pub data WatchEvent : Type 0 where
    put_event : String → String → WatchEvent
    delete_event : String → String → WatchEvent

  -- A PUT: the network keeps the subnet that it has; a subnet of a new network is no longer unused.
  on_put : Lo → String → Option Net → Space → Space
  unfolding without_subnet
  on_put lo pool_id none space = space
  on_put lo pool_id (some subnet) space =
      let (result, pools) = add_or_update pool_id subnet (λ existing. existing) space.pools in
      record space {
        pools = pools;
        unused_subnets =
            if result.1
            then space.unused_subnets
            else without_subnet lo subnet space.unused_subnets;
      }

  -- A DELETE: the network is taken from the value of the event.
  on_delete : String → Option Net → Space → Space
  on_delete pool_id none space = space
  on_delete pool_id (some subnet) space =
      let (removed, pools) = try_remove pool_id space.pools in
      elim removed [
        | none ↦ record space { pools = pools }
        | some old ↦ record space {
          pools = pools;
          unused_subnets = space.unused_subnets ++ subnet ∷ [];
        }
      ]

  -- `subnetUsageChangeHandler`, for one event.
  unfoldable pub on_event : Lo → Client → WatchEvent → Space → Space
  unfolding on_put on_delete
  on_event lo client (put_event full_key pool_id) space =
      let key = trim_left (trim_prefix full_key (subnets_key client)) in
      if has_slash key
      then space
      else on_put lo pool_id (nets.parse_cidr (replace_all b'-' "/" key)) space
  on_event lo client (delete_event full_key pool_id) space =
      let key = trim_left (trim_prefix full_key (subnets_key client)) in
      if has_slash key
      then space
      else on_delete pool_id (nets.parse_cidr (replace_all b'-' "/" key)) space

module _ (etcd : Etcd) (nets : Nets) (client : Client) where
  open etcd use {Db}
  open nets use {Net}

  -- What the factory of `getOrAddPool` works on: the unused subnets, the reservations of other
  -- networks that it finds, and the cluster.
  abbrev pub Work : Type 0
  Work = List Net × Dict String Net × Db

  -- What one round of the loop does with the result of the reservation.
  on_lease :
      (Dict String Net → Db → Result SpaceError Net × Work)
      → Net
      → List Net
      → Dict String Net
      → Result SpaceError LeaseResult × Db
      → Result SpaceError Net × Work
  on_lease again subnet more reservations (err e, db) = (err e, (subnet ∷ more, reservations, db))
  on_lease again subnet more reservations (ok r, db) = elim r.success [
    | true ↦ (ok subnet, (more, reservations, db))
    | false ↦ again (insert r.pool_id subnet reservations) db
  ]

  -- The loop of the factory: it takes one subnet off the unused ones in each round.
  unfoldable pub claim_subnet :
      String → List Net → Dict String Net → Db → Result SpaceError Net × Work
  unfolding on_lease
  claim_subnet id [] reservations db = (err no_unused_subnets, ([], reservations, db))
  claim_subnet id (subnet ∷ more) reservations db =
      on_lease (claim_subnet id more) subnet more reservations
        (reserve_pool_subnet etcd client (nets.print_net subnet) id db)

  unfoldable pub factory : String → Work → Result SpaceError Net × Work
  unfolding claim_subnet
  factory id (unused, reservations, db) = claim_subnet id unused reservations db

  -- The loop over the reservations that were found.
  unfoldable pub set_all : Dict String Net → ConcurrentMap String Net → ConcurrentMap String Net
  set_all [] pools = pools
  set_all ((id, subnet) ∷ more) pools = set_all more (ConcurrentMap.set id subnet pools)

  finish_pool :
      Result SpaceError (Net × Bool) × ConcurrentMap String Net × Work
      → Result SpaceError (Net × Bool) × Space nets × Db
  unfolding set_all
  finish_pool (r, pools, (unused, reservations, db)) =
      (r, record { unused_subnets = unused; pools = set_all reservations pools }, db)

  -- The subnet, and whether the pool is new. All writers of the map hold the lock.
  unfoldable pub get_or_add_pool :
      String → Space nets → Db → Result SpaceError (Net × Bool) × Space nets × Db
  unfolding finish_pool factory
  get_or_add_pool id space db =
      finish_pool
        (get_or_add (λ pools. pools) id (factory id) space.pools (space.unused_subnets, [], db))

  only_subnet :
      Result SpaceError (Net × Bool) × Space nets × Db → Result SpaceError Net × Space nets × Db
  only_subnet (err e, space, db) = (err e, space, db)
  only_subnet (ok (subnet, added), space, db) = (ok subnet, space, db)

  unfoldable pub get_new_or_existing_pool :
      String → Space nets → Db → Result SpaceError Net × Space nets × Db
  unfolding only_subnet get_or_add_pool
  get_new_or_existing_pool id space db = only_subnet (get_or_add_pool id space db)

  -- Whatever the error was, a pool that was not added is reported as existing.
  only_new :
      Result SpaceError (Net × Bool) × Space nets × Db → Result SpaceError Net × Space nets × Db
  only_new (err e, space, db) = (err already_exists, space, db)
  only_new (ok (subnet, false), space, db) = (err already_exists, space, db)
  only_new (ok (subnet, true), space, db) = (ok subnet, space, db)

  unfoldable pub get_new_pool : String → Space nets → Db → Result SpaceError Net × Space nets × Db
  unfolding only_new get_or_add_pool
  get_new_pool id space db = only_new (get_or_add_pool id space db)

  unfoldable pub get_pool_by_id : String → Space nets → Option Net
  get_pool_by_id id space = ConcurrentMap.get id space.pools

  finish_release :
      Net → Space nets → Result SpaceError LeaseResult × Db → Option SpaceError × Space nets × Db
  finish_release subnet space (err e, db) = (some e, space, db)
  finish_release subnet space (ok r, db) = elim r.success [
    | false ↦ (
      some registered_since,
      record space { pools = ConcurrentMap.set r.pool_id subnet space.pools },
      db,
    )
    | true ↦ (none, record space { unused_subnets = space.unused_subnets ++ subnet ∷ [] }, db)
  ]

  release_removed :
      String
      → Space nets
      → Db
      → Option Net × ConcurrentMap String Net
      → Option SpaceError × Space nets × Db
  unfolding finish_release
  release_removed id space db (none, pools) = (some no_such_pool, space, db)
  release_removed id space db (some subnet, pools) =
      finish_release subnet (record space { pools = pools })
        (release_pool_subnet etcd client (nets.print_net subnet) id db)

  unfoldable pub release_pool : String → Space nets → Db → Option SpaceError × Space nets × Db
  unfolding release_removed
  release_pool id space db = release_removed id space db (try_remove id space.pools)
