-- ===== src/ServiceLb/Fwmarks/Claim.antt =====
-- What is known of a mark that a service is given, and of one that it gives back.
use mathlib.Core.Path.{fun_ext, subst}
use text.Mathlib.TextLemmas.{append_assoc, cons-append}
use mathlib.Core.Bool.{true≢false}
use Prim.Native.Char.{code}
use flannel_network_plugin.Prelude.{
  nat_beq, ℕ, zero, suc, ◌^◌, ◌<◌, ◌≡◌, refl, sym, ap, ◌∙◌, Bool, true, false, Option, none, some,
  List, [], ◌∷◌, String, string_eq, nat_eq, ◌==◌, ==_refl, contains, arith, Bool-cases,
  Option-cases, ◌⊎◌, inl, inr,
}
use flannel_network_plugin.Prelude.Dict.{Dict}
use flannel_network_plugin.Common.Result.{Result, ok, err}
use flannel_network_plugin.External.Texts.{◌+++◌, join}
use flannel_network_plugin.External.Texts.Laws.{append-ne}
use flannel_network_plugin.External.Etcd.{
  Etcd, Reaches, at_once, after_refusal, after_get, after_get_prefix, Store, never_created,
  all_hold, after, Reply, failed, succeeded, refused,
}
use flannel_network_plugin.Etcd.Client.{Client, get_key}
use flannel_network_plugin.ServiceLb.Fwmarks.{
  Marks, MarkError, Suffixes, fwmark_key, fwmark_service_key, fwmarks_list_key, fwmark_services_key,
  generate_from, generate_fwmark, existing_fwmarks, mark_ops, on_commit, claim_mark, on_list,
  new_mark, on_existing, get_mark,
}

module _ (marks : Marks) where
  generate_from-fresh :
      (service_id : String) (existing : List ℕ) (suffixes : Suffixes) (i n : ℕ) (name : String)
      (fwmark : ℕ)
      → generate_from marks service_id existing suffixes i n name ≡ ok fwmark
      → (contains fwmark existing ≡ false) × (fwmark < 2 ^ 32)
  unfolding generate_from
  generate_from-fresh service_id existing suffixes i zero name fwmark h = cc
  generate_from-fresh service_id existing suffixes i (suc n) name fwmark h =
      elim (Bool-cases (contains (marks.checksum name) existing)) [
        | inr fresh ↦
            let same : marks.checksum name ≡ fwmark = ground (arith, fresh, h) in
            rw (← same) (fresh, marks.checksum_small name)
        | inl taken ↦ elim (Option-cases (suffixes i)) [
          | inl no_random ↦ ground (arith, taken, no_random, h)
          | inr (suffix, drawn) ↦
              generate_from-fresh service_id existing suffixes (suc i) n
                (service_id +++ "_" +++ suffix) fwmark (ground (arith, taken, drawn, h))
        ]
      ]

  -- A mark that is generated is none of the existing ones and fits 32 bits.
  pub generate_fwmark-fresh :
      (service_id network_id : String) (existing : List ℕ) (suffixes : Suffixes) (fwmark : ℕ)
      → generate_fwmark marks service_id network_id existing suffixes ≡ ok fwmark
      → (contains fwmark existing ≡ false) × (fwmark < 2 ^ 32)
  unfolding generate_fwmark
  generate_fwmark-fresh service_id network_id existing suffixes fwmark h =
      generate_from-fresh service_id existing suffixes 0 1000 (service_id +++ "-" +++ network_id)
        fwmark h

regroup :
    (p network kind last : String)
    → (p +++ "/" +++ network +++ "/" +++ kind) +++ "/" +++ last
      ≡ (p +++ "/" +++ network +++ "/") +++ kind +++ "/" +++ last
regroup p network kind last = simp (append_assoc)

first_is_l : String → Bool
first_is_l String.[] = false
first_is_l (String.◌∷◌ c s) = nat_beq (code c) b'l'

kinds_ne : (s t : String) → ("list" +++ "/" +++ s == "by-service" +++ "/" +++ t) ≡ false
unfolding first_is_l
kinds_ne s t = elim (Bool-cases ("list" +++ "/" +++ s == "by-service" +++ "/" +++ t)) [
  | inr other ↦ other
  | inl same ↦ absurd (
      true≢false (
        sym (ap first_is_l (cons-append "l" "ist" ("/" +++ s)))
        ∙ ap first_is_l ((string_eq.beq_iff _ _).0 same)
        ∙ ap first_is_l (cons-append "b" "y-service" ("/" +++ t))))
]

-- The key of a mark is not the key of a service.
mark-ne-service :
    (client : Client) (network_id mark service_id : String)
    → (fwmark_key client network_id mark == fwmark_service_key client network_id service_id) ≡ false
unfolding fwmark_key fwmark_service_key fwmarks_list_key fwmark_services_key get_key join
mark-ne-service client network_id mark service_id =
    rw
      (
        regroup client.prefix network_id "list" mark,
        regroup client.prefix network_id "by-service" service_id,
      )
      (append-ne (client.prefix +++ "/" +++ network_id +++ "/") ("list" +++ "/" +++ mark)
        ("by-service" +++ "/" +++ service_id) (kinds_ne mark service_id))

module _ (etcd : Etcd) (marks : Marks) (client : Client) (service_id network_id : String) where
  open etcd use {Db, found, left, commit}

  -- The mark was free; it is the service's afterwards, and the service has it; no other key has
  -- changed from `old` to `new`.
  pub record IsMarked (fwmark : ℕ) (old new : Store) : Type 0 where
    pub was_free : old (fwmark_key client network_id (marks.format_uint fwmark)) ≡ none
    pub service_set :
        new (fwmark_service_key client network_id service_id) ≡ some (marks.format_uint fwmark)
    pub mark_set : new (fwmark_key client network_id (marks.format_uint fwmark)) ≡ some service_id
    pub rest_kept :
        (k : String)
        → (fwmark_service_key client network_id service_id == k) ≡ false
        → (fwmark_key client network_id (marks.format_uint fwmark) == k) ≡ false
        → new k ≡ old k

  IsMarked-after :
      (fwmark : ℕ) (st : Store)
      → all_hold st (never_created (fwmark_key client network_id (marks.format_uint fwmark)) ∷ [])
        ≡ true
      → IsMarked fwmark st (after (mark_ops etcd marks client service_id network_id fwmark) st)
  unfolding mark_ops
  IsMarked-after fwmark st h = record {
    was_free = ground arith;
    service_set = ground (
      arith,
      ==_refl (fwmark_service_key client network_id service_id),
      mark-ne-service client network_id (marks.format_uint fwmark) service_id,
    );
    mark_set = ground (arith, ==_refl (fwmark_key client network_id (marks.format_uint fwmark)));
    rest_kept = λ k a b. ground (arith, a, b);
  }

  -- A new mark that is claimed after calls that wrote nothing.
  abbrev pub Claimed : ℕ → Db → Db → Type 0
  Claimed fwmark db' db =
      (db1 : Db) × Reaches etcd db db1 × (fwmark < 2 ^ 32) × IsMarked fwmark (found db1) (left db')

  new_mark-Claimed :
      (rounds : List Suffixes) (db db' : Db) (fwmark : ℕ)
      → new_mark etcd marks client service_id network_id rounds db ≡ (ok fwmark, db')
      → Claimed fwmark db' db
  unfolding new_mark
  new_mark-Claimed [] db db' fwmark h = cc
  new_mark-Claimed (suffixes ∷ rounds) db db' fwmark h =
      listed (λ db2. new_mark-Claimed rounds db2 db' fwmark)
        (etcd.get_prefix (fwmarks_list_key client network_id) db) refl h
    where
      again : Db → Result MarkError ℕ × Db
      again = new_mark etcd marks client service_id network_id rounds

      replied :
          ((db2 : Db) → again db2 ≡ (ok fwmark, db') → Claimed fwmark db' db2)
          → (m : ℕ) (db1 : Db) (reply : Reply × Db) → m < 2 ^ 32
          → commit
              (never_created (fwmark_key client network_id (marks.format_uint m)) ∷ [])
              (mark_ops etcd marks client service_id network_id m)
              []
              db1
            ≡ reply
          → on_commit etcd marks client again m reply ≡ (ok fwmark, db')
          → Claimed fwmark db' db1
      replied ih m db1 (failed, db2) small e h1 = cc
      replied ih m db1 (succeeded, db2) small e h1 =
          let won = etcd.commit_succeeded _ _ _ db1 db2 e in
          let same_mark : m ≡ fwmark = ground arith in
          let same_db : db2 ≡ db' = ground arith in
          (
            db1,
            at_once db1,
            rw (← same_mark) small,
            subst (λ st. IsMarked fwmark (found db1) st)
                (sym (fun_ext (λ k. ap (λ d. left d k) (sym same_db) ∙ won.1 k)))
                (subst
                  (λ n.
                    IsMarked n (found db1)
                      (after (mark_ops etcd marks client service_id network_id m) (found db1)))
                  same_mark (IsMarked-after m (found db1) won.0)),
          )
      replied ih m db1 (refused values, db2) small e h1 =
          let (db3, reaches, small3, marked) = ih db2 h1 in
          (
            db3,
            after_refusal db1 db2 db3
                (never_created (fwmark_key client network_id (marks.format_uint m)) ∷ [])
                (mark_ops etcd marks client service_id network_id m) [] values e reaches,
            small3,
            marked,
          )

      generated :
          ((db2 : Db) → again db2 ≡ (ok fwmark, db') → Claimed fwmark db' db2)
          → (existing : List ℕ) (db1 : Db) (r : Result MarkError ℕ)
          → generate_fwmark marks service_id network_id existing suffixes ≡ r
          → claim_mark etcd marks client again service_id network_id r db1 ≡ (ok fwmark, db')
          → Claimed fwmark db' db1
      generated ih existing db1 (err x) e h1 = cc
      generated ih existing db1 (ok m) e h1 =
          replied ih m db1 _
            (generate_fwmark-fresh marks service_id network_id existing suffixes m e).1 refl h1

      listed :
          ((db2 : Db) → again db2 ≡ (ok fwmark, db') → Claimed fwmark db' db2)
          → (r : Option (Dict String String) × Db)
          → etcd.get_prefix (fwmarks_list_key client network_id) db ≡ r
          → on_list etcd marks client again service_id network_id suffixes r ≡ (ok fwmark, db')
          → Claimed fwmark db' db
      listed ih (none, db1) e h1 = cc
      listed ih (some kvs, db1) e h1 =
          let (db2, reaches, small, marked) =
            generated ih (existing_fwmarks marks (fwmarks_list_key client network_id) kvs) db1 _
              refl h1 in
          (
            db2,
            after_get_prefix db db1 db2 (fwmarks_list_key client network_id) kvs e reaches,
            small,
            marked,
          )

  -- Whatever other nodes do, `Get` returns a mark only if the service has it already, or if its last
  -- transaction, sent after calls that wrote nothing, met a store in which the mark was free; the
  -- mark then fits 32 bits, it is stored for the service and the service for it, and no other key
  -- has changed since that store.
  pub get_mark-Claimed :
      (rounds : List Suffixes) (db db' : Db) (fwmark : ℕ)
      → get_mark etcd marks client service_id network_id rounds db ≡ (ok fwmark, db')
      → ((value : String) × (found db (fwmark_service_key client network_id service_id)
            ≡ some value)
          × (marks.parse_uint value ≡ some fwmark))
        ⊎ Claimed fwmark db' db
  unfolding get_mark
  get_mark-Claimed rounds db db' fwmark h =
      asked (etcd.get (fwmark_service_key client network_id service_id) db) refl h
    where
      Outcome : Type 0
      Outcome =
          ((value : String) × (found db (fwmark_service_key client network_id service_id)
              ≡ some value)
            × (marks.parse_uint value ≡ some fwmark))
          ⊎ Claimed fwmark db' db

      new : Db → Result MarkError ℕ × Db
      new = new_mark etcd marks client service_id network_id rounds

      fresh :
          (value : Option String) (db1 : Db)
          → etcd.get (fwmark_service_key client network_id service_id) db ≡ (some value, db1)
          → new db1 ≡ (ok fwmark, db')
          → Outcome
      fresh value db1 e h1 =
          let (db2, reaches, small, marked) = new_mark-Claimed rounds db1 db' fwmark h1 in
          inr (
            db2,
            after_get db db1 db2 (fwmark_service_key client network_id service_id) value e reaches,
            small,
            marked,
          )

      asked :
          (r : Option (Option String) × Db)
          → etcd.get (fwmark_service_key client network_id service_id) db ≡ r
          → on_existing etcd marks client new r ≡ (ok fwmark, db')
          → Outcome
      asked (none, db1) e h1 = cc
      asked (some none, db1) e h1 = fresh none db1 e h1
      asked (some (some value), db1) e h1 = elim (Option-cases (marks.parse_uint value)) [
        | inl bad ↦ fresh (some value) db1 e (ground (arith, bad, h1))
        | inr (m, good) ↦ inl (
          value,
          sym
              (etcd.get_some (fwmark_service_key client network_id service_id) db db1 (some value)
                e).0,
          ground (arith, good, h1),
        )
      ]
