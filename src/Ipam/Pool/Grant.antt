-- ===== src/Ipam/Pool/Grant.antt =====
-- The rounds of the loop of `allocateFreeIP` of plugin/pkg/ipam/pool.go on a quiet cluster.
use flannel_network_plugin.Prelude.{
  ℕ, zero, suc, ◌<◌, ◌≡◌, refl, ap, ◌∙◌, true, false, Option, some, List, [], ◌∷◌, length, String,
  string_eq, ◌==◌, arith, All, All-self, In,
}
use flannel_network_plugin.Prelude.Dict.{Dict, keys}
use flannel_network_plugin.Common.Result.{Result, ok, err}
use flannel_network_plugin.External.Texts.{Texts}
use flannel_network_plugin.External.Etcd.{Etcd, IsQuiet}
use flannel_network_plugin.Etcd.Client.{Client}
use flannel_network_plugin.Ipam.Lease.{
  Allocation, IpAllocationResult, Fault, allocate_ip_for_container, mac_key, type_container_ip,
}
use flannel_network_plugin.Ipam.Lease.Containers.{
  granted, container_may, allocate_ip_for_container-granted,
}
use flannel_network_plugin.Ipam.Pool.{
  Pool, PoolError, Round, State, rested, parse_all, nonempty_or_error, any_unused, rested_or_any,
  get_available_unused_ips, nth, choose, record_claim, end_round, try_address, try_available,
  allocate_free_ip,
}

All-rested :
    (P : String → Type 0) (now : ℕ) (unused : Dict String ℕ)
    → All P (keys unused)
    → All P (rested now unused)
unfolding rested
All-rested P now [] h = tt
All-rested P now ((key, since) ∷ unused) h = ground (arith, h.0, All-rested P now unused h.1)

module _ (etcd : Etcd) (texts : Texts) (client : Client) where
  open etcd use {Db, found}
  open texts use {Ip}

  -- A text of an address of which something holds.
  abbrev pub IsText : (Ip → Type 0) → String → Type 0
  IsText P key = (ip : Ip) × (key ≡ texts.print_ip ip) × P ip

  -- Addresses that were parsed: as many as the keys, and of each one the same holds.
  abbrev Parsed : (Ip → Type 0) → ℕ → Result PoolError (List Ip) → Type 0
  Parsed P n (err e) = ⊥
  Parsed P n (ok ips) = (length ips ≡ n) × All P ips

  parse_all-Parsed :
      (P : Ip → Type 0) (found_keys : List String)
      → All (IsText P) found_keys
      → Parsed P (length found_keys) (parse_all etcd texts client found_keys)
  unfolding parse_all
  parse_all-Parsed P [] h = (refl, tt)
  parse_all-Parsed P (key ∷ more) ((ip, e, p), h) =
      rw (e, parse_all)
        (rw (texts.parse-print ip)
          (go (parse_all etcd texts client more) (parse_all-Parsed P more h)))
    where
      go :
          (r : Result PoolError (List Ip))
          → Parsed P (length more) r
          → Parsed P (suc (length more)) (elim r [ err e ↦ err e | ok ips ↦ ok (ip ∷ ips) ])
      go (err x) k = k
      go (ok ips) k = (ap suc k.0, (p, k.1))

  nth-P :
      (P : Ip → Type 0) (ips : List Ip) (i : ℕ)
      → i < length ips
      → All P ips
      → (ip : Ip) × (nth etcd texts client ips i ≡ ok ip) × P ip
  unfolding nth
  nth-P P [] i lt h = absurd (omega arith)
  nth-P P (ip ∷ ips) zero lt h = (ip, refl, h.0)
  nth-P P (ip ∷ ips) (suc i) lt h = nth-P P ips i (omega arith) h.1

  -- Where there are unused addresses, all with texts of addresses, they are what is available, or
  -- some of them are.
  available-Parsed :
      (P : Ip → Type 0) (now : ℕ) (p : Pool Ip) (db : Db) (key : String) (more : List String)
      → keys p.unused ≡ key ∷ more
      → All (IsText P) (keys p.unused)
      → (n : ℕ) × (r : Result PoolError (List Ip)) × (get_available_unused_ips etcd texts client now
            (p, db)
          ≡ (r, (p, db)))
        × Parsed P (suc n) r
  unfolding get_available_unused_ips rested_or_any any_unused nonempty_or_error
  available-Parsed P now p db key more some_unused h =
      go (rested now p.unused) (All-rested (IsText P) now p.unused h)
    where
      Available : Result PoolError (List Ip) × State etcd texts client → Type 0
      Available r =
          (n : ℕ) × (x : Result PoolError (List Ip)) × (r ≡ (x, (p, db))) × Parsed P (suc n) x

      go :
          (l : List String)
          → All (IsText P) l
          → Available (rested_or_any etcd texts client now l (p, db))
      go [] k =
          rw (some_unused, any_unused)
            (
              length more,
              parse_all etcd texts client (key ∷ more),
              refl,
              parse_all-Parsed P (key ∷ more) (rw some_unused at h),
            )
      go (l ∷ ls) k =
          (length ls, parse_all etcd texts client (l ∷ ls), refl, parse_all-Parsed P (l ∷ ls) k)

  -- The texts are also among some others.
  IsText-In :
      (P : Ip → Type 0) (all ks : List String)
      → All (IsText P) ks
      → All (λ k. In k all) ks
      → All (IsText (λ ip. P ip × In (texts.print_ip ip) all)) ks
  IsText-In P all [] h m = tt
  IsText-In P all (k ∷ ks) ((ip, e, p), h) m = ((ip, e, (p, rw e at m.0)), IsText-In P all ks h m.1)

  -- A round whose claim was granted returns the address.
  end_round-granted :
      (again : State etcd texts client → Result PoolError (Option Ip) × State etcd texts client)
      (p : Pool Ip) (a : Allocation Ip) (ip : Ip) (c : Result Fault (IpAllocationResult Ip) × Db)
      → c.0 ≡ ok (record { success = true; allocation = a })
      → a.ip ≡ some ip
      → ((end_round etcd texts client again p c).0 ≡ ok (some ip))
        × ((end_round etcd texts client again p c).1.0 ≡ record_claim etcd texts client a p)
  unfolding end_round
  end_round-granted again p a ip (err x, db) h e = cc
  end_round-granted again p a ip (ok r, db) h e =
      let same : r ≡ record { success = true; allocation = a } = cc in
      let won : r.success ≡ true = ap (λ (x : IpAllocationResult Ip). x.success) same in
      let its : r.allocation ≡ a = ap (λ (x : IpAllocationResult Ip). x.allocation) same in
      rw (won, end_round)
        (
          ap ok (ap (λ (x : Allocation Ip). x.ip) its ∙ e),
          ap (λ x. record_claim etcd texts client x p) its,
        )

  module _ (mac : String) where
    pub allocate_free_ip-granted :
        IsQuiet etcd
        → (round : Round) (rounds : List Round) (p : Pool Ip) (db : Db) (key : String)
          (more : List String)
        → (mac == "") ≡ false
        → keys p.unused ≡ key ∷ more
        → All (IsText (λ ip. container_may texts client ip mac (found db) ≡ true)) (keys p.unused)
        → ((n : ℕ) → round.intn (suc n) < suc n)
        → (ip : Ip) × In (texts.print_ip ip) (keys p.unused)
          × ((allocate_free_ip etcd texts client true
                (λ t a db1. allocate_ip_for_container etcd texts client t a mac db1)
                (round ∷ rounds)
                (p, db)).0
              ≡ ok (some ip))
          × ((allocate_free_ip etcd texts client true
                (λ t a db1. allocate_ip_for_container etcd texts client t a mac db1)
                (round ∷ rounds)
                (p, db)).1.0
              ≡ record_claim etcd texts client
                  (granted etcd texts client ip round.claim_time type_container_ip
                    (mac_key client (texts.print_ip ip))
                    mac)
                  p)
    unfolding allocate_free_ip try_available try_address choose
    allocate_free_ip-granted quiet round rounds p db key more named some_unused texts_of bound =
        finish (
          available-Parsed May round.now p db key more some_unused (
            IsText-In (λ ip. container_may texts client ip mac (found db) ≡ true) (keys p.unused)
              (keys p.unused) texts_of (All-self (keys p.unused))))
      where
        May : Ip → Type 0
        May ip =
            (container_may texts client ip mac (found db) ≡ true)
            × In (texts.print_ip ip) (keys p.unused)

        again : State etcd texts client → Result PoolError (Option Ip) × State etcd texts client
        again =
            allocate_free_ip etcd texts client true
              (λ t a db1. allocate_ip_for_container etcd texts client t a mac db1) rounds

        Granted : Result PoolError (Option Ip) × State etcd texts client → Type 0
        Granted r =
            (ip : Ip) × In (texts.print_ip ip) (keys p.unused)
            × (r.0 ≡ ok (some ip))
            × (r.1.0
                ≡ record_claim etcd texts client
                    (granted etcd texts client ip round.claim_time type_container_ip
                      (mac_key client (texts.print_ip ip)) mac)
                    p)

        finish :
            ((n : ℕ) × (r : Result PoolError (List Ip)) × (get_available_unused_ips etcd texts
                  client round.now
                  (p, db)
                ≡ (r, (p, db)))
              × Parsed May (suc n) r)
            → Granted (
                try_available etcd texts client again true
                  (λ t a db1. allocate_ip_for_container etcd texts client t a mac db1)
                  round
                  (get_available_unused_ips etcd texts client round.now (p, db)))
        finish (n, err x, e, h) = absurd h
        finish (n, ok ips, e, (len, all)) =
            let (ip, chosen, (may, member)) =
              nth-P May ips (round.intn (length ips)) (rw len (bound n)) all in
            let won =
              (allocate_ip_for_container-granted etcd texts client ip round.claim_time quiet mac db
                named may).0 in
            let ends = end_round-granted again p _ ip _ won refl in
            rw (e, try_available) (rw (chosen, try_address) (ip, member, ends.0, ends.1))
