-- ===== src/Etcd/Connection.antt =====
-- plugin/pkg/etcd/connection.go: writing a key unless it has the value already.
use flannel_network_plugin.Prelude.{
  ◌≡◌, refl, ◌∙◌, Bool, true, false, not, Option, none, some, [], ◌∷◌, String, string_eq, ◌==◌,
  if◌then◌else◌, arith, ==_refl, Option-cases, inl, inr,
}
use flannel_network_plugin.Common.Result.{Result, ok, err}
use flannel_network_plugin.External.Etcd.{
  Etcd, IsQuiet, value_is_not, never_created, put, Reply, failed, succeeded, refused, Store,
  all_hold,
}
use mathlib.Core.Path.{fun_ext}

pub data StoreError : Type 0 where
  etcd_failed : StoreError
  not_serialized : StoreError
  not_parsed : StoreError

still :
    (st : Store) (key value : String)
    → all_hold st (value_is_not key value ∷ []) ≡ false
    → all_hold st (never_created key ∷ []) ≡ false
    → st key ≡ some value
still st key value h old = elim (Option-cases (st key)) [
  | inl gone ↦ ground (arith, gone)
  | inr (w, hit) ↦ ground (arith, hit, string_eq.beq_iff w value)
]

module _ (etcd : Etcd) where
  open etcd use {Db, found, commit}

  on_second : Reply × Db → Result StoreError Bool × Db
  on_second (failed, db) = (err etcd_failed, db)
  on_second (succeeded, db) = (ok true, db)
  on_second (refused values, db) = (ok false, db)

  on_first : String → String → Reply × Db → Result StoreError Bool × Db
  unfolding on_second
  on_first key value (failed, db) = (err etcd_failed, db)
  on_first key value (succeeded, db) = (ok true, db)
  on_first key value (refused values, db) =
      on_second (commit (value_is_not key value ∷ []) (put key value ∷ []) [] db)

  -- `PutIfNewOrChanged`: whether it has written.
  unfoldable pub put_if_new_or_changed : String → String → Db → Result StoreError Bool × Db
  unfolding on_first
  put_if_new_or_changed key value db =
      on_first key value (commit (never_created key ∷ []) (put key value ∷ []) [] db)

  -- Whether a key has a value already.
  abbrev pub has_value : String → Option String → Bool
  has_value value none = false
  has_value value (some v) = v == value

  -- On a quiet cluster the key has the value afterwards, and every other key is as it was; the
  -- result says whether the key did not have the value before.
  pub put_if_new_or_changed_lem :
      IsQuiet etcd
      → (key value : String) (db : Db)
      → ((put_if_new_or_changed key value db).0 ≡ ok (not (has_value value (found db key))))
        × ((k : String)
            → found (put_if_new_or_changed key value db).1 k
              ≡ (if key == k then some value else found db k))
  unfolding put_if_new_or_changed
  put_if_new_or_changed_lem quiet key value db =
      first (commit (never_created key ∷ []) (put key value ∷ []) [] db) refl
    where
      Written : Result StoreError Bool × Db → Type 0
      Written r =
          (r.0 ≡ ok (not (has_value value (found db key))))
          × ((k : String) → found r.1 k ≡ (if key == k then some value else found db k))

      second :
          (db1 : Db)
          → ((k : String) → found db1 k ≡ found db k)
          → all_hold (found db) (never_created key ∷ []) ≡ false
          → (reply : Reply × Db)
          → commit (value_is_not key value ∷ []) (put key value ∷ []) [] db1 ≡ reply
          → Written (on_second reply)
      second db1 same old (failed, db2) e = absurd (quiet.commit_answers _ _ _ db1 db2 e)
      second db1 same old (succeeded, db2) e =
          let won = etcd.commit_succeeded _ _ _ db1 db2 e in
          (
            ground (arith, won.0, same key, old),
            λ k. quiet.found-left db2 k ∙ won.1 k ∙ ground (arith, same k),
          )
      second db1 same old (refused values, db2) e =
          let lost = etcd.commit_refused _ _ _ db1 db2 values e in
          let had = still (found db) key value (rw (fun_ext same) at lost.0) old in
          (
            ground (arith, had, ==_refl value),
            λ k.
                quiet.found-left db2 k
                ∙ lost.2 k
                ∙ ground (arith, same k, had, string_eq.beq_iff key k),
          )

      first :
          (reply : Reply × Db)
          → commit (never_created key ∷ []) (put key value ∷ []) [] db ≡ reply
          → Written (on_first key value reply)
      first (failed, db1) e = absurd (quiet.commit_answers _ _ _ db db1 e)
      first (succeeded, db1) e =
          let won = etcd.commit_succeeded _ _ _ db db1 e in
          (ground (arith, won.0), λ k. quiet.found-left db1 k ∙ won.1 k)
      first (refused values, db1) e =
          let lost = etcd.commit_refused _ _ _ db db1 values e in
          second db1 (λ k. quiet.found-left db1 k ∙ lost.2 k) lost.0
            (commit (value_is_not key value ∷ []) (put key value ∷ []) [] db1) refl
