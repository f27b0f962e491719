-- ===== src/Ipam/Pool.antt =====
-- plugin/pkg/ipam/pool.go: the addresses of one network on one node. The pool's lock is held by
-- each method from its first to its last access, so a method is one step on the pool and the
-- cluster. A clock reading, and a random number, are arguments.
pub mod Partition
pub mod Stuck
pub mod Grant
pub mod Watch
use flannel_network_plugin.Prelude.{
  ℕ, zero, suc, ◌+◌, ◌*◌, Bool, true, false, not, ◌&&◌, Option, none, some, List, [], ◌∷◌, String,
  string_eq, ◌==◌, ltb, if◌then◌else◌, length,
}
use flannel_network_plugin.Prelude.Dict.{Dict, lookup, insert, remove, keys, values}
use flannel_network_plugin.Common.Result.{Result, ok, err}
use flannel_network_plugin.External.Texts.{Texts}
use flannel_network_plugin.External.Etcd.{Etcd}
use flannel_network_plugin.Etcd.Client.{Client}
use flannel_network_plugin.Ipam.Lease.{
  Allocation, IpAllocationResult, Fault, print_any, allocate_ip_for_container,
  allocate_ip_for_service, reserve_ip, release_allocation,
}
use flannel_network_plugin.Ipam.Lease.Read.{get_allocations, delete_all_allocations}
use flannel_network_plugin.Ipam.Selection.{get_next_available_ip, NoAddress}

-- The errors of the methods; `gave_up` marks a run of the loop that was cut off.
pub data PoolError : Type 0 where
  invalid_ip : PoolError
  no_more_ips : PoolError
  no_address : NoAddress → PoolError
  claim_fault : Fault → PoolError
  not_reserved : PoolError
  allocated_since : PoolError
  index_panic : PoolError
  gave_up : PoolError

pub record Pool (Ip : Type 0) : Type 0 where
  pub all_ips : List Ip
  pub allocated : Dict String (Allocation Ip)
  -- the time since when an address is unused
  pub unused : Dict String ℕ

-- What one round of the loop in `allocateFreeIP` takes from outside: the time that it reads, the
-- time of the claim, and `rand.Intn`.
pub record Round : Type 0 where
  pub now : ℕ
  pub claim_time : ℕ
  pub intn : ℕ → ℕ

-- `5 * time.Minute`, in nanoseconds
abbrev pub grace : ℕ
grace = 300_000_000_000

-- The keys of the entries that are old enough.
unfoldable pub rested : ℕ → Dict String ℕ → List String
rested now [] = []
rested now ((key, since) ∷ unused) =
    let rest = rested now unused in if ltb (since + grace) now then key ∷ rest else rest

module _ (etcd : Etcd) (texts : Texts) (client : Client) where
  open etcd use {Db}
  open texts use {Ip}

  abbrev pub State : Type 0
  State = Pool Ip × Db

  -- The loop of `syncIPs` over all addresses of the pool.
  unfoldable pub unused_of :
      ℕ → List Ip → Dict String (Allocation Ip) → Dict String ℕ → Dict String ℕ
  unused_of now [] allocated unused = unused
  unused_of now (ip ∷ ips) allocated unused =
      unused_of now ips allocated (elim (lookup (texts.print_ip ip) allocated) [
        | none ↦ insert (texts.print_ip ip) now unused
        | some a ↦ unused
      ])

  on_sync :
      ℕ
      → Pool Ip
      → Result Fault (Dict String (Allocation Ip)) × Db
      → Result PoolError (Unit {0}) × State
  unfolding unused_of
  on_sync now p (err e, db) = (err (claim_fault e), (p, db))
  on_sync now p (ok allocated, db) = (
    ok tt,
    (record p { allocated = allocated; unused = unused_of now p.all_ips allocated [] }, db),
  )

  unfoldable pub sync_ips : ℕ → State → Result PoolError (Unit {0}) × State
  unfolding on_sync
  sync_ips now (p, db) = on_sync now p (get_allocations etcd texts client db)

  -- `net.ParseIP` of every key; one that is no address is an error.
  unfoldable pub parse_all : List String → Result PoolError (List Ip)
  parse_all [] = ok []
  parse_all (key ∷ more) =
      let rest = parse_all more in
      elim (texts.parse_ip key) [
        | none ↦ err invalid_ip
        | some ip ↦ elim rest [ err e ↦ err e | ok ips ↦ ok (ip ∷ ips) ]
      ]

  nonempty_or_error : List String → Result PoolError (List Ip)
  unfolding parse_all
  nonempty_or_error [] = err no_more_ips
  nonempty_or_error (key ∷ more) = parse_all (key ∷ more)

  after_sync : Result PoolError (Unit {0}) × State → Result PoolError (List Ip) × State
  unfolding nonempty_or_error
  after_sync (err e, s) = (err e, s)
  after_sync (ok _, (p, db)) = (nonempty_or_error (keys p.unused), (p, db))

  -- All unused addresses, if none has rested long enough; if there are none at all, those that a
  -- synchronisation finds.
  any_unused : ℕ → List String → State → Result PoolError (List Ip) × State
  unfolding after_sync sync_ips
  any_unused now [] s = after_sync (sync_ips now s)
  any_unused now (key ∷ more) s = (nonempty_or_error (key ∷ more), s)

  rested_or_any : ℕ → List String → State → Result PoolError (List Ip) × State
  unfolding any_unused
  rested_or_any now [] (p, db) = any_unused now (keys p.unused) (p, db)
  rested_or_any now (key ∷ more) s = (nonempty_or_error (key ∷ more), s)

  unfoldable pub get_available_unused_ips : ℕ → State → Result PoolError (List Ip) × State
  unfolding rested_or_any rested
  get_available_unused_ips now (p, db) = rested_or_any now (rested now p.unused) (p, db)

  nth : List Ip → ℕ → Result PoolError Ip
  nth [] i = err index_panic
  nth (ip ∷ ips) zero = ok ip
  nth (ip ∷ ips) (suc i) = nth ips i

  of_selection : Result NoAddress Ip → Result PoolError Ip
  of_selection (ok ip) = ok ip
  of_selection (err e) = err (no_address e)

  -- The address to try: one at random, or the next one.
  unfoldable pub choose : Bool → Round → List Ip → Pool Ip → Result PoolError Ip
  unfolding nth of_selection
  choose true round available p = nth available (round.intn (length available))
  choose false round available p =
      of_selection (get_next_available_ip texts available (values p.allocated))

  -- The claim that a method makes of an address.
  abbrev pub Allocator : Type 0
  Allocator = ℕ → Ip → Db → Result Fault (IpAllocationResult Ip) × Db

  -- The bookkeeping of a claim that was granted.
  unfoldable pub record_claim : Allocation Ip → Pool Ip → Pool Ip
  record_claim a p = record p {
    unused = remove (print_any texts a.ip) p.unused;
    allocated = insert (print_any texts a.ip) a p.allocated;
  }

  -- The end of one round: go on with `again` if the claim was not granted.
  end_round :
      (State → Result PoolError (Option Ip) × State)
      → Pool Ip
      → Result Fault (IpAllocationResult Ip) × Db
      → Result PoolError (Option Ip) × State
  unfolding record_claim
  end_round again p (err e, db) = (err (claim_fault e), (p, db))
  end_round again p (ok r, db) = elim r.success [
    | true ↦ (ok r.allocation.ip, (record_claim r.allocation p, db))
    | false ↦ again (p, db)
  ]

  try_address :
      (State → Result PoolError (Option Ip) × State)
      → Allocator
      → Round
      → Result PoolError Ip
      → State
      → Result PoolError (Option Ip) × State
  unfolding end_round
  try_address again allocator round (err e) s = (err e, s)
  try_address again allocator round (ok ip) (p, db) =
      end_round again p (allocator round.claim_time ip db)

  try_available :
      (State → Result PoolError (Option Ip) × State)
      → Bool
      → Allocator
      → Round
      → Result PoolError (List Ip) × State
      → Result PoolError (Option Ip) × State
  unfolding try_address choose
  try_available again random allocator round (err e, s) = (err e, s)
  try_available again random allocator round (ok available, (p, db)) =
      try_address again allocator round (choose random round available p) (p, db)

  -- The endless loop, cut off after the rounds of the list.
  unfoldable pub allocate_free_ip :
      Bool → Allocator → List Round → State → Result PoolError (Option Ip) × State
  unfolding try_available
  allocate_free_ip random allocator [] s = (err gave_up, s)
  allocate_free_ip random allocator (round ∷ rounds) s =
      try_available (allocate_free_ip random allocator rounds) random allocator round
        (get_available_unused_ips round.now s)

  unfoldable pub reserve : Bool → List Round → State → Result PoolError (Option Ip) × State
  unfolding allocate_free_ip
  reserve random rounds s = allocate_free_ip random (reserve_ip etcd texts client) rounds s

  -- What follows the claim of the preferred address: the bookkeeping is under the text as given.
  on_preferred :
      String
      → (State → Result PoolError (Option Ip) × State)
      → Pool Ip
      → Result Fault (IpAllocationResult Ip) × Db
      → Result PoolError (Option Ip) × State
  on_preferred preferred again p (err e, db) = (err (claim_fault e), (p, db))
  on_preferred preferred again p (ok r, db) = elim r.success [
    | true ↦ (
      ok r.allocation.ip,
      (
        record p {
          unused = elim (lookup preferred p.allocated) [
            | none ↦ remove preferred p.unused
            | some a ↦ p.unused
          ];
          allocated = insert preferred r.allocation p.allocated;
        },
        db,
      ),
    )
    | false ↦ again (p, db)
  ]

  allocate_parsed :
      (Ip → Bool)
      → String
      → ℕ
      → Allocator
      → (State → Result PoolError (Option Ip) × State)
      → Option Ip
      → State
      → Result PoolError (Option Ip) × State
  unfolding on_preferred
  allocate_parsed in_subnet preferred now allocator again none s = (err invalid_ip, s)
  allocate_parsed in_subnet preferred now allocator again (some ip) (p, db) = elim (in_subnet ip) [
    | true ↦ on_preferred preferred again p (allocator now ip db)
    | false ↦ again (p, db)
  ]

  -- `in_subnet` is `poolSubnet.Contains`.
  unfoldable pub allocate_container_ip :
      (Ip → Bool)
      → String
      → String
      → Bool
      → ℕ
      → List Round
      → State
      → Result PoolError (Option Ip) × State
  unfolding allocate_parsed allocate_free_ip
  allocate_container_ip in_subnet preferred_ip mac random now rounds s =
      let allocator = λ (t : ℕ) (ip : Ip). allocate_ip_for_container etcd texts client t ip mac in
      allocate_parsed in_subnet preferred_ip now allocator
        (allocate_free_ip random allocator rounds) (texts.parse_ip preferred_ip) s

  unfoldable pub allocate_service_vip :
      (Ip → Bool)
      → String
      → String
      → Bool
      → ℕ
      → List Round
      → State
      → Result PoolError (Option Ip) × State
  unfolding allocate_parsed allocate_free_ip
  allocate_service_vip in_subnet ipam_vip service_id random now rounds s =
      let allocator =
        λ (t : ℕ) (ip : Ip). allocate_ip_for_service etcd texts client t ip service_id in
      allocate_parsed in_subnet ipam_vip now allocator (allocate_free_ip random allocator rounds)
        (texts.parse_ip ipam_vip) s

  -- The result of a release: whether the address was reserved, beside an error if there is one.
  on_released :
      String
      → ℕ
      → Pool Ip
      → Result Fault (IpAllocationResult Ip) × Db
      → (Bool × Option PoolError) × State
  on_released ip now p (err e, db) = ((true, some (claim_fault e)), (p, db))
  on_released ip now p (ok r, db) = elim r.success [
    | false ↦ (
      (true, some allocated_since),
      (record p { allocated = insert ip r.allocation p.allocated }, db),
    )
    | true ↦ (
      (true, none),
      (record p { allocated = remove ip p.allocated; unused = insert ip now p.unused }, db),
    )
  ]

  unfoldable pub release_ip_if_reserved : String → ℕ → State → (Bool × Option PoolError) × State
  unfolding on_released
  release_ip_if_reserved ip now (p, db) = elim (lookup ip p.allocated) [
    | none ↦ ((false, none), (p, db))
    | some a ↦ on_released ip now p (release_allocation etcd texts client a db)
  ]

  checked : (Bool × Option PoolError) × State → Option PoolError × State
  checked ((_, some e), s) = (some e, s)
  checked ((true, none), s) = (none, s)
  checked ((false, none), s) = (some not_reserved, s)

  unfoldable pub release_ip : String → ℕ → State → Option PoolError × State
  unfolding checked release_ip_if_reserved
  release_ip ip now s = checked (release_ip_if_reserved ip now s)

  on_deleted : ℕ → Pool Ip → Result Fault (Unit {0}) × Db → Result PoolError (Unit {0}) × State
  unfolding sync_ips
  on_deleted now p (err e, db) = (err (claim_fault e), (p, db))
  on_deleted now p (ok _, db) = sync_ips now (p, db)

  unfoldable pub release_all_ips : ℕ → State → Result PoolError (Unit {0}) × State
  unfolding on_deleted
  release_all_ips now (p, db) = on_deleted now p (delete_all_allocations etcd texts client db)

  unfoldable pub get_allocated : Pool Ip → List (Allocation Ip)
  get_allocated p = values p.allocated

-- The calls of the methods that change a pool.
pub data Call : Type 0 where
  reserves : Bool → List Round → Call
  allocates_container : String → String → Bool → ℕ → List Round → Call
  allocates_service : String → String → Bool → ℕ → List Round → Call
  releases : String → ℕ → Call
  releases_all : ℕ → Call

module _ (etcd : Etcd) (texts : Texts) (client : Client) (in_subnet : texts.Ip → Bool) where
  -- The state after a call, whatever the call returns.
  unfoldable pub step : Call → State etcd texts client → State etcd texts client
  unfolding reserve allocate_container_ip allocate_service_vip release_ip release_all_ips
  step (reserves random rounds) s = (reserve etcd texts client random rounds s).1
  step (allocates_container preferred mac random now rounds) s =
      (allocate_container_ip etcd texts client in_subnet preferred mac random now rounds s).1
  step (allocates_service vip service_id random now rounds) s =
      (allocate_service_vip etcd texts client in_subnet vip service_id random now rounds s).1
  step (releases ip now) s = (release_ip etcd texts client ip now s).1
  step (releases_all now) s = (release_all_ips etcd texts client now s).1

  unfoldable pub run : List Call → State etcd texts client → State etcd texts client
  run [] s = s
  run (c ∷ cs) s = run cs (step c s)
