-- ===== src/Ipam/Space/Reserve.antt =====
-- `getOrAddPool` and `reservePoolSubnet` of plugin/pkg/ipam: how a network gets a subnet.
use mathlib.Core.Path.{subst}
use flannel_network_plugin.Prelude.{
  ◌≡◌, refl, sym, ap, ◌∙◌, true, false, Option, none, some, List, [], ◌∷◌, ◌++◌, String, string_eq,
  ◌==◌, ==_refl, arith, Bool-cases, ◌⊎◌, inl, inr,
}
use flannel_network_plugin.Prelude.Dict.{Dict, insert}
use flannel_network_plugin.Common.Result.{Result, ok, err}
use flannel_network_plugin.External.Etcd.{
  Etcd, Reaches, at_once, after_refusal, Store, never_created, put, all_hold, Reply, failed,
  succeeded, refused,
}
use flannel_network_plugin.Etcd.Client.{Client}
use flannel_network_plugin.Ipam.Space.{
  Nets, SpaceError, LeaseResult, subnet_key, on_reserve, reserve_pool_subnet, on_lease,
  claim_subnet,
}

module _ (etcd : Etcd) (client : Client) where
  open etcd use {Db, found, left, commit}

  -- The subnet was free in the store that the reservation met, or the network's already; it is the
  -- network's afterwards, and no other key has changed.
  pub record IsLeased (subnet id : String) (db1 db' : Db) : Type 0 where
    pub was_free :
        (found db1 (subnet_key client subnet) ≡ none)
        ⊎ (found db1 (subnet_key client subnet) ≡ some id)
    pub is_leased : left db' (subnet_key client subnet) ≡ some id
    pub rest_kept :
        (k : String) → (subnet_key client subnet == k) ≡ false → left db' k ≡ found db1 k

  is_free_of : (st : Store) (k : String) → all_hold st (never_created k ∷ []) ≡ true → st k ≡ none
  is_free_of st k h = ground arith

  reserve_pool_subnet-IsLeased :
      (subnet id : String) (db db' : Db) (r : LeaseResult)
      → reserve_pool_subnet etcd client subnet id db ≡ (ok r, db')
      → r.success ≡ true
      → IsLeased subnet id db db'
  unfolding reserve_pool_subnet
  reserve_pool_subnet-IsLeased subnet id db db' r h s =
      go (commit (never_created key ∷ []) (put key id ∷ []) (key ∷ []) db) refl h
    where
      key : String
      key = subnet_key client subnet

      go :
          (reply : Reply × Db)
          → commit (never_created key ∷ []) (put key id ∷ []) (key ∷ []) db ≡ reply
          → on_reserve etcd id reply ≡ (ok r, db')
          → IsLeased subnet id db db'
      go (failed, db1) e h1 = cc
      go (succeeded, db1) e h1 =
          let won =
            etcd.commit_succeeded (never_created key ∷ []) (put key id ∷ []) (key ∷ []) db db1 e in
          let same : db1 ≡ db' = ap (λ (p : Result SpaceError LeaseResult × Db). p.1) h1 in
          record {
            was_free = inl (is_free_of (found db) key won.0);
            is_leased = rw (← same) (won.1 key ∙ rw (==_refl key));
            rest_kept = λ k other. rw (← same) (won.1 k ∙ rw other);
          }
      go (refused (some pool_id ∷ []), db1) e h1 =
          let lost =
            etcd.commit_refused (never_created key ∷ []) (put key id ∷ []) (key ∷ []) db db1
              (some pool_id ∷ []) e in
          let same : db1 ≡ db' = ap (λ (p : Result SpaceError LeaseResult × Db). p.1) h1 in
          let mine : pool_id ≡ id = ground (arith, string_eq.beq_iff pool_id id) in
          let had : found db key ≡ some id = ground (arith, lost.1, mine) in
          record {
            was_free = inr had;
            is_leased = rw (← same) (lost.2 key ∙ had);
            rest_kept = λ k other. rw (← same) (lost.2 k);
          }
      go (refused [], db1) e h1 = cc
      go (refused (none ∷ vs), db1) e h1 = cc
      go (refused (some v ∷ w ∷ vs), db1) e h1 = cc

  after_refused :
      (id : String) (values : List (Option String)) (db : Db)
      → (on_reserve etcd id (refused values, db)).1 ≡ db
  unfolding on_reserve
  after_refused id [] db = refl
  after_refused id (none ∷ vs) db = refl
  after_refused id (some v ∷ []) db = refl
  after_refused id (some v ∷ w ∷ vs) db = refl

  -- A reservation without success was refused.
  reserve_refused :
      (subnet id : String) (db db1 db2 : Db) (r : LeaseResult)
      → reserve_pool_subnet etcd client subnet id db ≡ (ok r, db1)
      → r.success ≡ false
      → Reaches etcd db1 db2
      → Reaches etcd db db2
  unfolding reserve_pool_subnet
  reserve_refused subnet id db db1 db2 r h s reaches =
      go (commit (never_created key ∷ []) (put key id ∷ []) (key ∷ []) db) refl h
    where
      key : String
      key = subnet_key client subnet

      go :
          (reply : Reply × Db)
          → commit (never_created key ∷ []) (put key id ∷ []) (key ∷ []) db ≡ reply
          → on_reserve etcd id reply ≡ (ok r, db1)
          → Reaches etcd db db2
      go (failed, db3) e h1 = cc
      go (succeeded, db3) e h1 = ground (arith, s, h1)
      go (refused values, db3) e h1 =
          let same : db3 ≡ db1 =
            sym (after_refused id values db3)
            ∙ ap (λ (p : Result SpaceError LeaseResult × Db). p.1) h1 in
          after_refusal db db1 db2 (never_created key ∷ []) (put key id ∷ []) (key ∷ []) values
            (rw (← same) e) reaches

  module _ (nets : Nets) where
    open nets use {Net}

    -- The subnet is one of the unused ones, followed by `more`, and its lease is the last step.
    abbrev Leased : String → List Net → Net → Db → Db → List Net → Type 0
    Leased id more subnet db' db unused =
        (skipped : List Net) × (unused ≡ skipped ++ subnet ∷ more)
        × (db1 : Db) × Reaches etcd db db1
        × IsLeased (nets.print_net subnet) id db1 db'

    later :
        (id : String) (n subnet : Net) (ns more : List Net) (db db1 db' : Db) (r : LeaseResult)
        → reserve_pool_subnet etcd client (nets.print_net n) id db ≡ (ok r, db1)
        → r.success ≡ false
        → Leased id more subnet db' db1 ns
        → Leased id more subnet db' db (n ∷ ns)
    later id n subnet ns more db db1 db' r e lost (skipped, parts, db2, reaches, claim) = (
      n ∷ skipped,
      ap (λ l. n ∷ l) parts,
      db2,
      reserve_refused (nets.print_net n) id db db1 db2 r e lost reaches,
      claim,
    )

    -- A subnet that the loop returns was leased by its last transaction, all those before it having
    -- been refused; the subnets up to and with it are no longer unused.
    pub claim_subnet-IsLeased :
        (id : String) (unused more : List Net) (reservations found_reservations : Dict String Net)
        (db db' : Db) (subnet : Net)
        → claim_subnet etcd nets client id unused reservations db
          ≡ (ok subnet, (more, found_reservations, db'))
        → (skipped : List Net) × (unused ≡ skipped ++ subnet ∷ more)
          × (db1 : Db) × Reaches etcd db db1
          × IsLeased (nets.print_net subnet) id db1 db'
    unfolding claim_subnet on_lease
    claim_subnet-IsLeased id [] more reservations fr db db' subnet h = cc
    claim_subnet-IsLeased id (n ∷ ns) more reservations fr db db' subnet h =
        go (reserve_pool_subnet etcd client (nets.print_net n) id db) refl h
          (λ reservations1 db1. claim_subnet-IsLeased id ns more reservations1 fr db1 db' subnet)
      where
        go :
            (reply : Result SpaceError LeaseResult × Db)
            → reserve_pool_subnet etcd client (nets.print_net n) id db ≡ reply
            → on_lease etcd nets client
                (claim_subnet etcd nets client id ns)
                n
                ns
                reservations
                reply
              ≡ (ok subnet, (more, fr, db'))
            → ((reservations1 : Dict String Net) (db1 : Db)
                → claim_subnet etcd nets client id ns reservations1 db1
                  ≡ (ok subnet, (more, fr, db'))
                → Leased id more subnet db' db1 ns)
            → Leased id more subnet db' db (n ∷ ns)
        go (err e, db1) eq h1 ih = cc
        go (ok r, db1) eq h1 ih = elim (Bool-cases r.success) [
          | inl won ↦
              let same_subnet : n ≡ subnet = ground (arith, won, h1) in
              let same_more : ns ≡ more = ground (arith, won, h1) in
              let same_db : db1 ≡ db' = ground (arith, won, h1) in
              (
                [],
                rw (same_subnet, same_more) refl,
                db,
                at_once db,
                subst (λ x. IsLeased (nets.print_net x) id db db') same_subnet
                    (reserve_pool_subnet-IsLeased (nets.print_net n) id db db' r (rw (← same_db) eq)
                      won),
              )
          | inr lost ↦
              later id n subnet ns more db db1 db' r eq lost
                (ih (insert r.pool_id n reservations) db1 (ground (arith, lost, h1)))
        ]
