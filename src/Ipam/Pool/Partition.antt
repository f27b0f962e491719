-- ===== src/Ipam/Pool/Partition.antt =====
-- The calls of plugin/pkg/ipam/pool.go, and what they keep of a pool.
use mathlib.Core.Path.{subst}
use flannel_network_plugin.Prelude.{
  ℕ, ◌≡◌, refl, sym, Bool, true, false, Option, none, some, List, [], ◌∷◌, String, string_eq, arith,
  ◌⊎◌, inl, inr, Option-cases, Bool-cases,
}
use flannel_network_plugin.Prelude.Dict.{Dict, lookup, lookup-insert, lookup-remove, keys}
use flannel_network_plugin.Common.Result.{Result, ok, err}
use flannel_network_plugin.External.Texts.{Texts}
use flannel_network_plugin.External.Etcd.{Etcd}
use flannel_network_plugin.Etcd.Client.{Client}
use flannel_network_plugin.Ipam.Lease.{
  Allocation, IpAllocationResult, Fault, print_any, reserve_ip, allocate_ip_for_container,
  allocate_ip_for_service, release_allocation,
}
use flannel_network_plugin.Ipam.Lease.Read.{get_allocations, delete_all_allocations}
use flannel_network_plugin.Ipam.Pool.{
  Pool, PoolError, Round, State, unused_of, on_sync, sync_ips, after_sync, any_unused,
  rested_or_any, rested, get_available_unused_ips, choose, record_claim, end_round, try_address,
  try_available, allocate_free_ip, on_preferred, allocate_parsed, on_released,
  release_ip_if_reserved, checked, Allocator, on_deleted, release_all_ips, Call, reserves,
  allocates_container, allocates_service, releases, releases_all, step, run,
}

module _ (etcd : Etcd) (texts : Texts) (client : Client) where
  open etcd use {Db}
  open texts use {Ip}

  pub record IsPartition (p : Pool Ip) : Type 0 where
    pub apart : (key : String) → (lookup key p.allocated ≡ none) ⊎ (lookup key p.unused ≡ none)

  -- A synchronised pool counts as unused only what is not allocated.
  unused_of_apart :
      (now : ℕ) (ips : List Ip) (allocated : Dict String (Allocation Ip)) (unused : Dict String ℕ)
      → ((key : String) → (lookup key allocated ≡ none) ⊎ (lookup key unused ≡ none))
      → (key : String)
      → (lookup key allocated ≡ none)
        ⊎ (lookup key (unused_of etcd texts client now ips allocated unused) ≡ none)
  unfolding unused_of
  unused_of_apart now [] allocated unused h key = h key
  unused_of_apart now (ip ∷ ips) allocated unused h key =
      unused_of_apart now ips allocated _
        (λ j. elim (Option-cases (lookup (texts.print_ip ip) allocated)) [
          | inl e ↦ ground (
            arith,
            e,
            h j,
            lookup-insert (texts.print_ip ip) j now unused,
            string_eq.beq_iff (texts.print_ip ip) j,
          )
          | inr (a, e) ↦ ground (arith, e, h j)
        ])
        key

  pub sync_ips-IsPartition :
      (now : ℕ) (s : State etcd texts client)
      → IsPartition s.0
      → IsPartition (sync_ips etcd texts client now s).1.0
  unfolding sync_ips on_sync
  sync_ips-IsPartition now (p, db) h = go (get_allocations etcd texts client db)
    where
      go :
          (r : Result Fault (Dict String (Allocation Ip)) × Db)
          → IsPartition (on_sync etcd texts client now p r).1.0
      go (err e, db1) = h
      go (ok allocated, db1) = record {
        apart = unused_of_apart now p.all_ips allocated [] (λ key. inr (unfold lookup in refl));
      }

  record_claim-IsPartition :
      (a : Allocation Ip) (p : Pool Ip)
      → IsPartition p
      → IsPartition (record_claim etcd texts client a p)
  unfolding record_claim
  record_claim-IsPartition a p h = record {
    apart = λ key. ground (
      arith,
      h.apart key,
      lookup-insert (print_any texts a.ip) key a p.allocated,
      lookup-remove (print_any texts a.ip) key p.unused,
    );
  }

  -- A function on states, and the rest of a loop, that keep the addresses apart.
  abbrev Keeps : {A : Type 0} → (State etcd texts client → A × State etcd texts client) → Type 0
  Keeps f = (s : State etcd texts client) → IsPartition s.0 → IsPartition (f s).1.0

  any_unused-IsPartition :
      (now : ℕ) (found : List String) → Keeps (any_unused etcd texts client now found)
  unfolding any_unused after_sync
  any_unused-IsPartition now (key ∷ more) s h = h
  any_unused-IsPartition now [] s h =
      go (sync_ips etcd texts client now s) (sync_ips-IsPartition now s h)
    where
      go :
          (r : Result PoolError (Unit {0}) × State etcd texts client)
          → IsPartition r.1.0
          → IsPartition (after_sync etcd texts client r).1.0
      go (err e, s1) k = k
      go (ok _, (p1, db1)) k = k

  get_available_unused_ips-IsPartition :
      (now : ℕ) → Keeps (get_available_unused_ips etcd texts client now)
  unfolding get_available_unused_ips
  get_available_unused_ips-IsPartition now (p, db) h = go (rested now p.unused)
    where
      go :
          (found : List String)
          → IsPartition (rested_or_any etcd texts client now found (p, db)).1.0
      go [] = any_unused-IsPartition now (keys p.unused) (p, db) h
      go (key ∷ more) = h

  end_round-IsPartition :
      (again : State etcd texts client → Result PoolError (Option Ip) × State etcd texts client)
      → Keeps again
      → (p : Pool Ip) (r : Result Fault (IpAllocationResult Ip) × Db) → IsPartition p
      → IsPartition (end_round etcd texts client again p r).1.0
  unfolding end_round
  end_round-IsPartition again keep p (err e, db) h = h
  end_round-IsPartition again keep p (ok r, db) h = elim (Bool-cases r.success) [
    | inl yep ↦ rw yep (record_claim-IsPartition r.allocation p h)
    | inr nope ↦ rw nope (keep (p, db) h)
  ]

  try_address-IsPartition :
      (again : State etcd texts client → Result PoolError (Option Ip) × State etcd texts client)
      → Keeps again
      → (allocator : Allocator etcd texts client) (round : Round) (ip : Result PoolError Ip)
      → Keeps (try_address etcd texts client again allocator round ip)
  unfolding try_address
  try_address-IsPartition again keep allocator round (err e) s h = h
  try_address-IsPartition again keep allocator round (ok ip) (p, db) h =
      end_round-IsPartition again keep p (allocator round.claim_time ip db) h

  allocate_free_ip-IsPartition :
      (random : Bool) (allocator : Allocator etcd texts client) (rounds : List Round)
      → Keeps (allocate_free_ip etcd texts client random allocator rounds)
  unfolding allocate_free_ip try_available
  allocate_free_ip-IsPartition random allocator [] s h = h
  allocate_free_ip-IsPartition random allocator (round ∷ rounds) s h =
      go (allocate_free_ip-IsPartition random allocator rounds)
        (get_available_unused_ips etcd texts client round.now s)
        (get_available_unused_ips-IsPartition round.now s h)
    where
      go :
          Keeps (allocate_free_ip etcd texts client random allocator rounds)
          → (r : Result PoolError (List Ip) × State etcd texts client) → IsPartition (r.1).0
          → IsPartition
              (try_available etcd texts client
                (allocate_free_ip etcd texts client random allocator rounds)
                random
                allocator
                round
                r).1.0
      go keep (err e, s1) k = k
      go keep (ok available, (p1, db1)) k =
          try_address-IsPartition (allocate_free_ip etcd texts client random allocator rounds) keep
            allocator round (choose etcd texts client random round available p1) (p1, db1) k

  on_preferred-IsPartition :
      (preferred : String)
      (again : State etcd texts client → Result PoolError (Option Ip) × State etcd texts client)
      → Keeps again
      → (p : Pool Ip) (r : Result Fault (IpAllocationResult Ip) × Db) → IsPartition p
      → IsPartition (on_preferred etcd texts client preferred again p r).1.0
  unfolding on_preferred
  on_preferred-IsPartition preferred again keep p (err e, db) h = h
  on_preferred-IsPartition preferred again keep p (ok r, db) h = elim (Bool-cases r.success) [
    | inr nope ↦ rw nope (keep (p, db) h)
    | inl yep ↦ rw yep (record {
      apart = λ key. ground (
        arith,
        h.apart key,
        h.apart preferred,
        lookup-insert preferred key r.allocation p.allocated,
        lookup-remove preferred key p.unused,
        string_eq.beq_iff preferred key,
      );
    })
  ]

  allocate_parsed-IsPartition :
      (in_subnet : Ip → Bool) (preferred : String) (now : ℕ)
      (allocator : Allocator etcd texts client)
      (again : State etcd texts client → Result PoolError (Option Ip) × State etcd texts client)
      → Keeps again
      → (ip : Option Ip)
      → Keeps (allocate_parsed etcd texts client in_subnet preferred now allocator again ip)
  unfolding allocate_parsed
  allocate_parsed-IsPartition in_subnet preferred now allocator again keep none s h = h
  allocate_parsed-IsPartition in_subnet preferred now allocator again keep (some ip) (p, db) h =
      elim (Bool-cases (in_subnet ip)) [
        | inl inside ↦
            rw (inside, allocate_parsed)
              (on_preferred-IsPartition preferred again keep p (allocator now ip db) h)
        | inr outside ↦ rw (outside, allocate_parsed) (keep (p, db) h)
      ]

  on_released-IsPartition :
      (ip : String) (now : ℕ) (a : Allocation Ip) (p : Pool Ip)
      (r : Result Fault (IpAllocationResult Ip) × Db)
      → lookup ip p.allocated ≡ some a
      → IsPartition p
      → IsPartition (on_released etcd texts client ip now p r).1.0
  unfolding on_released
  on_released-IsPartition ip now a p (err e, db) hit h = h
  on_released-IsPartition ip now a p (ok r, db) hit h = elim (Bool-cases r.success) [
    | inl yep ↦ rw yep (record {
      apart = λ key.
          ground (
            arith,
            h.apart key,
            lookup-remove ip key p.allocated,
            lookup-insert ip key now p.unused,
          );
    })
    | inr nope ↦ rw nope (record {
      apart = λ key. ground (
        arith,
        hit,
        h.apart key,
        h.apart ip,
        lookup-insert ip key r.allocation p.allocated,
        string_eq.beq_iff ip key,
      );
    })
  ]

  release_ip_if_reserved-IsPartition :
      (ip : String) (now : ℕ) → Keeps (release_ip_if_reserved etcd texts client ip now)
  unfolding release_ip_if_reserved
  release_ip_if_reserved-IsPartition ip now (p, db) h =
      elim (Option-cases (lookup ip p.allocated)) [
        | inl gone ↦ rw (gone, release_ip_if_reserved) h
        | inr (a, hit) ↦
            rw (hit, release_ip_if_reserved)
              (on_released-IsPartition ip now a p (release_allocation etcd texts client a db) hit h)
      ]

  checked_state :
      (r : (Bool × Option PoolError) × State etcd texts client)
      → (checked etcd texts client r).1 ≡ r.1
  unfolding checked
  checked_state ((b, some e), s) = refl
  checked_state ((true, none), s) = refl
  checked_state ((false, none), s) = refl

  release_all_ips-IsPartition : (now : ℕ) → Keeps (release_all_ips etcd texts client now)
  unfolding release_all_ips
  release_all_ips-IsPartition now (p, db) h = go (delete_all_allocations etcd texts client db)
    where
      go :
          (r : Result Fault (Unit {0}) × Db)
          → IsPartition (on_deleted etcd texts client now p r).1.0
      go (err e, db1) = h
      go (ok _, db1) = sync_ips-IsPartition now (p, db1) h

  module _ (in_subnet : Ip → Bool) where
    pub step-IsPartition :
        (c : Call) (s : State etcd texts client)
        → IsPartition s.0
        → IsPartition (step etcd texts client in_subnet c s).0
    unfolding step
    step-IsPartition (reserves random rounds) s h =
        allocate_free_ip-IsPartition random (reserve_ip etcd texts client) rounds s h
    step-IsPartition (allocates_container preferred mac random now rounds) s h =
        let allocator = λ (t : ℕ) (ip : Ip). allocate_ip_for_container etcd texts client t ip mac in
        allocate_parsed-IsPartition in_subnet preferred now allocator
          (allocate_free_ip etcd texts client random allocator rounds)
          (allocate_free_ip-IsPartition random allocator rounds) (texts.parse_ip preferred) s h
    step-IsPartition (allocates_service vip service_id random now rounds) s h =
        let allocator =
          λ (t : ℕ) (ip : Ip). allocate_ip_for_service etcd texts client t ip service_id in
        allocate_parsed-IsPartition in_subnet vip now allocator
          (allocate_free_ip etcd texts client random allocator rounds)
          (allocate_free_ip-IsPartition random allocator rounds) (texts.parse_ip vip) s h
    step-IsPartition (releases ip now) s h =
        subst (λ (t : State etcd texts client). IsPartition t.0)
          (sym (checked_state (release_ip_if_reserved etcd texts client ip now s)))
          (release_ip_if_reserved-IsPartition ip now s h)
    step-IsPartition (releases_all now) s h = release_all_ips-IsPartition now s h

    -- Whatever is called on a pool, whatever other nodes and etcd do: if no address is both
    -- allocated and unused at first, none ever is.
    pub run-IsPartition :
        (cs : List Call) (s : State etcd texts client)
        → IsPartition s.0
        → IsPartition (run etcd texts client in_subnet cs s).0
    unfolding run
    run-IsPartition [] s h = h
    run-IsPartition (c ∷ cs) s h =
        run-IsPartition cs (step etcd texts client in_subnet c s) (step-IsPartition c s h)
