-- ===== src/Ipam/Lease/Claim.antt =====
-- When a claim is granted, and what it writes.
use mathlib.Core.Path.{fun_ext}
use flannel_network_plugin.Prelude.{
  ◌≡◌, refl, ap, ◌∙◌, Bool, true, false, ◌||◌, List, [], ◌∷◌, String, string_eq, if◌then◌else◌,
  arith,
}
use flannel_network_plugin.Common.Result.{Result, ok}
use flannel_network_plugin.External.Texts.{Texts}
use flannel_network_plugin.External.Etcd.{
  Etcd, IsQuiet, Reaches, at_once, after_refusal, Store, Cmp, Op, all_hold, after, Reply, failed,
  succeeded, refused,
}
use flannel_network_plugin.Ipam.Lease.{
  Allocation, IpAllocationResult, Fault, zero_allocation, on_commit, try_conditions,
}

-- Some condition of a list holds.
abbrev pub any_holds : Store → List (List Cmp) → Bool
any_holds st [] = false
any_holds st (c ∷ cs) = all_hold st c || any_holds st cs

module _ (etcd : Etcd) (texts : Texts) where
  open etcd use {Db, found, left, commit}
  open texts use {Ip}

  -- A granted claim was granted by a transaction whose condition held in the store that it met,
  -- and that transaction's writes are the last thing done; those before it were refused.
  abbrev pub Granted :
      List Op → Allocation Ip → List (List Cmp) → IpAllocationResult Ip → Db → Db → Type 0
  Granted ops a conditions r db db' =
      (db1 : Db) × Reaches etcd db db1
      × (any_holds (found db1) conditions ≡ true)
      × ((k : String) → left db' k ≡ after ops (found db1) k)
      × (r.allocation ≡ a)

  pub try_conditions-Granted :
      (ops : List Op) (a : Allocation Ip) (conditions : List (List Cmp)) (db db' : Db)
      (r : IpAllocationResult Ip)
      → try_conditions etcd texts ops a conditions db ≡ (ok r, db')
      → r.success ≡ true
      → Granted ops a conditions r db db'
  unfolding try_conditions on_commit
  try_conditions-Granted ops a [] db db' r h s = ground arith
  try_conditions-Granted ops a (c ∷ cs) db db' r h s =
      go (λ db1 h1. try_conditions-Granted ops a cs db1 db' r h1 s) (commit c ops [] db) refl h
    where
      go :
          ((db1 : Db)
            → try_conditions etcd texts ops a cs db1 ≡ (ok r, db')
            → Granted ops a cs r db1 db')
          → (reply : Reply × Db) → commit c ops [] db ≡ reply
          → on_commit etcd texts a (try_conditions etcd texts ops a cs) reply ≡ (ok r, db')
          → Granted ops a (c ∷ cs) r db db'
      go ih (failed, db1) e h1 = cc
      go ih (succeeded, db1) e h1 =
          let won = etcd.commit_succeeded c ops [] db db1 e in
          (
            db,
            at_once db,
            ground (arith, won.0),
            (λ k. rw (← ap (λ (p : Result Fault (IpAllocationResult Ip) × Db). p.1) h1) (won.1 k)),
            cc,
          )
      go ih (refused values, db1) e h1 =
          let (db2, reaches, some_holds, wrote, same) = ih db1 h1 in
          (
            db2,
            after_refusal db db1 db2 c ops [] values e reaches,
            ground (arith, some_holds),
            wrote,
            same,
          )

  -- On a quiet cluster the loop grants the claim exactly if some condition holds.
  abbrev pub Decided :
      List Op
      → Allocation Ip
      → List (List Cmp)
      → Db
      → Result Fault (IpAllocationResult Ip) × Db
      → Type 0
  Decided ops a conditions db (r, db') =
      (r
        ≡ ok (
            if any_holds (found db) conditions
            then record { success = true; allocation = a }
            else record { success = false; allocation = zero_allocation }))
      × ((k : String)
          → found db' k
            ≡ (if any_holds (found db) conditions then after ops (found db) k else found db k))

  pub try_conditions-Decided :
      IsQuiet etcd
      → (ops : List Op) (a : Allocation Ip) (conditions : List (List Cmp)) (db : Db)
      → Decided ops a conditions db (try_conditions etcd texts ops a conditions db)
  unfolding try_conditions on_commit
  try_conditions-Decided quiet ops a [] db = (refl, λ k. refl)
  try_conditions-Decided quiet ops a (c ∷ cs) db =
      go (try_conditions-Decided quiet ops a cs) (commit c ops [] db) refl
    where
      go :
          ((db1 : Db) → Decided ops a cs db1 (try_conditions etcd texts ops a cs db1))
          → (reply : Reply × Db) → commit c ops [] db ≡ reply
          → Decided ops a
              (c ∷ cs)
              db
              (on_commit etcd texts a (try_conditions etcd texts ops a cs) reply)
      go ih (failed, db1) e = absurd (quiet.commit_answers c ops [] db db1 e)
      go ih (succeeded, db1) e =
          let won = etcd.commit_succeeded c ops [] db db1 e in
          (rw won.0, λ k. rw won.0 (quiet.found-left db1 k ∙ won.1 k))
      go ih (refused values, db1) e =
          let lost = etcd.commit_refused c ops [] db db1 values e in
          let same : found db1 ≡ found db = fun_ext (λ k. quiet.found-left db1 k ∙ lost.2 k) in
          rw lost.0 (rw same at (ih db1))
