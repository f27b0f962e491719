-- ===== src/ServiceLb/Fwmarks/Release.antt =====
-- What is known of a mark that a service gives back, and of the clean-up of marks.
use mathlib.Core.Bool.{true≢false}
use flannel_network_plugin.Prelude.{
  ℕ, ◌≡◌, refl, sym, ◌∙◌, false, Option, none, some, List, [], ◌∷◌, String, string_eq, nat_eq,
  contains, arith, Option-cases, inl, inr,
}
use flannel_network_plugin.Prelude.Dict.{Dict, lookup, lookup-insert}
use flannel_network_plugin.External.Lo.{Lo}
use flannel_network_plugin.External.Etcd.{
  Etcd, IsQuiet, Cmp, Op, delete, all_hold, Reply, failed, succeeded, refused,
}
use flannel_network_plugin.Etcd.Client.{Client}
use flannel_network_plugin.ServiceLb.Fwmarks.{
  Marks, fwmark_key, fwmark_service_key, mark_cmps, on_release, release_mark, drop_mark,
  clean_up_kv, clean_up_kvs,
}

module _ (etcd : Etcd) (marks : Marks) (client : Client) (service_id network_id : String) where
  open etcd use {Db, found, commit}

  -- On a quiet cluster, `Release` of a mark that is not the service's, or that does not know the
  -- service, returns no error, though it changes nothing.
  pub release_mark-refused :
      IsQuiet etcd
      → (fwmark : ℕ) (db : Db)
      → all_hold (found db) (mark_cmps etcd marks client service_id network_id fwmark) ≡ false
      → ((release_mark etcd marks client service_id network_id fwmark db).0 ≡ none)
        × ((k : String)
            → found (release_mark etcd marks client service_id network_id fwmark db).1 k
              ≡ found db k)
  unfolding release_mark
  release_mark-refused quiet fwmark db foreign = go (commit cmps ops [] db) refl
    where
      cmps : List Cmp
      cmps = mark_cmps etcd marks client service_id network_id fwmark

      ops : List Op
      ops =
          delete (fwmark_service_key client network_id service_id)
          ∷ delete (fwmark_key client network_id (marks.format_uint fwmark))
          ∷ []

      go :
          (reply : Reply × Db)
          → commit cmps ops [] db ≡ reply
          → ((on_release etcd marks client reply).0 ≡ none)
            × ((k : String) → found (on_release etcd marks client reply).1 k ≡ found db k)
      go (failed, db1) e = absurd (quiet.commit_answers cmps ops [] db db1 e)
      go (succeeded, db1) e =
          absurd (true≢false (sym (etcd.commit_succeeded cmps ops [] db db1 e).0 ∙ foreign))
      go (refused values, db1) e = (
        refl,
        λ k. quiet.found-left db1 k ∙ (etcd.commit_refused cmps ops [] db db1 values e).2 k,
      )

module _ (etcd : Etcd) (marks : Marks) (lo : Lo) (client : Client) where
  open etcd use {Db}

  abbrev IsStale : List String → Dict String ℕ → Type 0
  IsStale existing_services fwmarks =
      (service_id : String) (fwmark : ℕ)
      → lookup service_id fwmarks ≡ some fwmark
      → contains service_id existing_services ≡ false

  clean_up_kv-IsStale :
      (existing_services : List String) (full_key : String) (mark : Option (String × String))
      (s : Dict String ℕ × Db)
      → IsStale existing_services s.0
      → IsStale existing_services
          (clean_up_kv etcd marks lo client existing_services full_key mark s).0
  unfolding clean_up_kv drop_mark
  clean_up_kv-IsStale existing_services full_key none s h service_id m hit = h service_id m hit
  clean_up_kv-IsStale existing_services full_key (some (owner, text)) (fwmarks, db) h service_id m
        hit =
      elim (Option-cases (marks.parse_uint text)) [
        | inl bad ↦ ground (arith, bad, hit, h service_id m)
        | inr (n, good) ↦ ground (
          arith,
          good,
          hit,
          h service_id m,
          lookup-insert owner service_id n fwmarks,
          lo.some_one owner existing_services,
          string_eq.beq_iff owner service_id,
        )
      ]

  clean_up_kvs-IsStale :
      (existing_services : List String) (kvs : Dict String String) (s : Dict String ℕ × Db)
      → IsStale existing_services s.0
      → IsStale existing_services (clean_up_kvs etcd marks lo client existing_services kvs s).0
  unfolding clean_up_kvs
  clean_up_kvs-IsStale existing_services [] s h = h
  clean_up_kvs-IsStale existing_services ((k, v) ∷ kvs) s h =
      clean_up_kvs-IsStale existing_services kvs _ (clean_up_kv-IsStale existing_services k _ s h)

  -- A mark that the loop of `cleanUpStaleFwmarks` collects is of a service that is none of the
  -- existing ones.
  pub lookup-clean_up_kvs :
      (existing_services : List String) (kvs : Dict String String) (db : Db) (service_id : String)
      (fwmark : ℕ)
      → lookup service_id (clean_up_kvs etcd marks lo client existing_services kvs ([], db)).0
        ≡ some fwmark
      → contains service_id existing_services ≡ false
  unfolding lookup
  lookup-clean_up_kvs existing_services kvs db service_id fwmark hit =
      clean_up_kvs-IsStale existing_services kvs ([], db) (λ id m h. cc) service_id fwmark hit
