-- ===== src/Ipam/Lease/Release.antt =====
-- Releasing an allocation, and reading allocations back.
use mathlib.Core.Path.{fun_ext}
use mathlib.Core.Bool.{false≢true}
use flannel_network_plugin.Prelude.{
  ◌≡◌, refl, sym, ap, ◌∙◌, ℕ, true, false, Option, none, some, List, [], ◌∷◌, String, string_eq,
  ◌==◌, ==_refl, arith, Option-cases, inl, inr,
}
use flannel_network_plugin.Common.Result.{Result, ok}
use flannel_network_plugin.External.Texts.{Texts}
use flannel_network_plugin.External.Etcd.{
  Etcd, IsQuiet, Store, Cmp, value_is, all_hold, after, Reply, failed, succeeded, refused,
}
use flannel_network_plugin.Etcd.Client.{Client}
use flannel_network_plugin.Ipam.Lease.{
  print_any, Allocation, IpAllocationResult, Fault, zero_allocation, release_cmps, release_ops,
  release_gets, on_release, release_allocation, standing_claim, allocate_ip_for_container,
  allocated_ip_key, allocated_at_key, mac_key, service_id_key, type_container_ip,
}
use flannel_network_plugin.Ipam.Lease.Keys.{mac-ne-empty}
use flannel_network_plugin.Ipam.Lease.Containers.{
  container_may, granted, allocate_ip_for_container-granted,
}

held :
    (st : Store) (k v : String) (cs : List Cmp)
    → all_hold st (value_is k v ∷ cs) ≡ true
    → st k ≡ some v
held st k v cs h = elim (Option-cases (st k)) [
  | inl gone ↦ ground (arith, gone)
  | inr (w, hit) ↦ ground (arith, hit, string_eq.beq_iff w v)
]

module _ (etcd : Etcd) (texts : Texts) (client : Client) where
  open etcd use {Db, found, left, commit}

  -- The four keys of an address are gone, and every other key is as it was.
  pub record IsReleased (ip : String) (old new : Store) : Type 0 where
    pub kind_gone : new (allocated_ip_key client ip) ≡ none
    pub time_gone : new (allocated_at_key client ip) ≡ none
    pub mac_gone : new (mac_key client ip) ≡ none
    pub service_gone : new (service_id_key client ip) ≡ none
    pub rest_kept :
        (k : String)
        → (allocated_ip_key client ip == k) ≡ false
        → (allocated_at_key client ip == k) ≡ false
        → (mac_key client ip == k) ≡ false
        → (service_id_key client ip == k) ≡ false
        → new k ≡ old k

  IsReleased-after :
      (ip : texts.Ip) (r : Allocation texts.Ip) (st : Store)
      → r.ip ≡ some ip
      → IsReleased (texts.print_ip ip) st (after (release_ops texts client r) st)
  unfolding release_ops
  IsReleased-after ip r st e =
      let shown = texts.print_ip ip in
      record {
        kind_gone = ground (arith, ==_refl (allocated_ip_key client shown));
        time_gone = ground (arith, ==_refl (allocated_at_key client shown));
        mac_gone = ground (arith, ==_refl (mac_key client shown));
        service_gone = ground (arith, ==_refl (service_id_key client shown));
        rest_kept = λ k a b c d. ground (arith, a, b, c, d);
      }

  -- The claim that stands in the way of a release is no success.
  standing-not-success :
      (r : Allocation texts.Ip) (values : List (Option String))
      (result : IpAllocationResult texts.Ip)
      → standing_claim texts client r values ≡ ok result
      → result.success ≡ true
      → ⊥
  unfolding standing_claim
  standing-not-success r (some kind ∷ some time ∷ mac ∷ service_id ∷ []) result h s = ground arith
  standing-not-success r _ result h s = cc

  -- Whatever other nodes do, a release succeeds only if the store that its transaction met has the
  -- type of the allocation that is released under the address; the address then has no keys, and no
  -- other key has changed since that store.
  pub release_allocation_safe :
      (ip : texts.Ip) (r : Allocation texts.Ip) (db db' : Db) (result : IpAllocationResult texts.Ip)
      → r.ip ≡ some ip
      → release_allocation etcd texts client r db ≡ (ok result, db')
      → result.success ≡ true
      → (found db (allocated_ip_key client (texts.print_ip ip)) ≡ some r.allocation_type)
        × IsReleased (texts.print_ip ip) (found db) (left db')
  unfolding release_allocation release_cmps on_release
  release_allocation_safe ip r db db' result e h s =
      go
        (commit (release_cmps texts client r) (release_ops texts client r)
          (release_gets texts client r) db)
        refl h
    where
      go :
          (reply : Reply × Db)
          → commit
              (release_cmps texts client r)
              (release_ops texts client r)
              (release_gets texts client r)
              db
            ≡ reply
          → on_release etcd texts client r reply ≡ (ok result, db')
          → (found db (allocated_ip_key client (texts.print_ip ip)) ≡ some r.allocation_type)
            × IsReleased (texts.print_ip ip) (found db) (left db')
      go (failed, db1) e1 h1 = cc
      go (refused values, db1) e1 h1 = absurd (
          standing-not-success r values result
            (ap (λ (p : Result Fault (IpAllocationResult texts.Ip) × Db). p.0) h1) s)
      go (succeeded, db1) e1 h1 =
          let won =
            etcd.commit_succeeded (release_cmps texts client r) (release_ops texts client r)
              (release_gets texts client r) db db1 e1 in
          (
            ap (λ o. found db (allocated_ip_key client (print_any texts o))) (sym e)
                ∙ held (found db) (allocated_ip_key client (print_any texts r.ip)) r.allocation_type
                    _ won.0,
            rw
                (
                  ← ap (λ (p : Result Fault (IpAllocationResult texts.Ip) × Db). p.1) h1,
                  fun_ext won.1,
                )
                (IsReleased-after ip r (found db) e),
          )

  -- On a quiet cluster a release whose comparisons hold succeeds.
  release_succeeds :
      IsQuiet etcd
      → (r : Allocation texts.Ip) (db : Db)
      → all_hold (found db) (release_cmps texts client r) ≡ true
      → ((release_allocation etcd texts client r db).0
          ≡ ok (record { success = true; allocation = zero_allocation }))
        × ((k : String)
            → found (release_allocation etcd texts client r db).1 k
              ≡ after (release_ops texts client r) (found db) k)
  unfolding release_allocation on_release
  release_succeeds quiet r db hold =
      go
        (commit (release_cmps texts client r) (release_ops texts client r)
          (release_gets texts client r) db)
        refl
    where
      go :
          (reply : Reply × Db)
          → commit
              (release_cmps texts client r)
              (release_ops texts client r)
              (release_gets texts client r)
              db
            ≡ reply
          → ((on_release etcd texts client r reply).0
              ≡ ok (record { success = true; allocation = zero_allocation }))
            × ((k : String)
                → found (on_release etcd texts client r reply).1 k
                  ≡ after (release_ops texts client r) (found db) k)
      go (failed, db1) e = absurd (quiet.commit_answers _ _ _ db db1 e)
      go (succeeded, db1) e =
          (refl, λ k. quiet.found-left db1 k ∙ (etcd.commit_succeeded _ _ _ db db1 e).1 k)
      go (refused values, db1) e =
          absurd (false≢true (sym (etcd.commit_refused _ _ _ db db1 values e).0 ∙ hold))

  -- On a quiet cluster a container's claim can be taken back: releasing the allocation that was
  -- granted succeeds and leaves the address without keys.
  pub release-allocate :
      IsQuiet etcd
      → (ip : texts.Ip) (now : ℕ) (mac : String) (db : Db) → (mac == "") ≡ false
      → container_may texts client ip mac (found db) ≡ true
      → let claimed = (allocate_ip_for_container etcd texts client now ip mac db).1 in
        let mine =
          granted etcd texts client ip now type_container_ip
            (mac_key client (texts.print_ip ip))
            mac in
        ((release_allocation etcd texts client mine claimed).0
          ≡ ok (record { success = true; allocation = zero_allocation }))
        × IsReleased
            (texts.print_ip ip)
            (found claimed)
            (found (release_allocation etcd texts client mine claimed).1)
  unfolding release_allocation release_cmps
  release-allocate quiet ip now mac db named may =
      let shown = texts.print_ip ip in
      let claimed = (allocate_ip_for_container etcd texts client now ip mac db).1 in
      let mine = granted etcd texts client ip now type_container_ip (mac_key client shown) mac in
      let (_, keys) =
        allocate_ip_for_container-granted etcd texts client ip now quiet mac db named may in
      let (won, wrote) = release_succeeds quiet mine claimed (
        ground
          (arith, keys.kind_set, keys.owner_set, ==_refl mac, named, mac-ne-empty client shown)) in
      (won, rw (fun_ext wrote) (IsReleased-after ip mine (found claimed) refl))
