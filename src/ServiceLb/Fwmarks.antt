-- ===== src/ServiceLb/Fwmarks.antt =====
-- plugin/pkg/service_lb/fwmarks.go: the marks by which the firewall knows the services of a
-- network, unique in the network and shared through etcd.
pub mod Claim
pub mod Release
use flannel_network_plugin.Prelude.{
  ℕ, zero, suc, ◌^◌, ◌<◌, ◌≡◌, Bool, true, false, Option, none, some, List, [], ◌∷◌, String,
  string_eq, nat_eq, ◌==◌, if◌then◌else◌, contains,
}
use flannel_network_plugin.Prelude.Dict.{Dict, insert, values}
use flannel_network_plugin.Common.Result.{Result, ok, err}
use flannel_network_plugin.External.Lo.{Lo}
use flannel_network_plugin.External.Texts.{◌+++◌, trim_prefix, trim_left, split}
use flannel_network_plugin.External.Etcd.{
  Etcd, Cmp, value_is, never_created, Op, put, delete, Reply, failed, succeeded, refused,
}
use flannel_network_plugin.Etcd.Client.{Client, get_key}

-- `strconv.FormatUint` and `strconv.ParseUint` to the base 10, in 32 bits, and
-- `crc32.ChecksumIEEE`.
pub record Marks : Type 0 where
  pub format_uint : ℕ → String
  pub parse_uint : String → Option ℕ
  pub parse-format : (n : ℕ) → n < 2 ^ 32 → parse_uint (format_uint n) ≡ some n
  pub checksum : String → ℕ
  pub checksum_small : (text : String) → checksum text < 2 ^ 32

-- The errors of the methods; `gave_up` marks a run of the loop that was cut off.
pub data MarkError : Type 0 where
  etcd_failed : MarkError
  no_random : MarkError
  no_unique_mark : MarkError
  gave_up : MarkError

unfoldable pub fwmarks_list_key : Client → String → String
unfolding get_key
fwmarks_list_key client network_id = get_key client (network_id ∷ "list" ∷ [])

unfoldable pub fwmark_key : Client → String → String → String
fwmark_key client network_id fwmark = fwmarks_list_key client network_id +++ "/" +++ fwmark

unfoldable pub fwmark_services_key : Client → String → String
unfolding get_key
fwmark_services_key client network_id = get_key client (network_id ∷ "by-service" ∷ [])

unfoldable pub fwmark_service_key : Client → String → String → String
fwmark_service_key client network_id service_id =
    fwmark_services_key client network_id +++ "/" +++ service_id

-- The random suffix that each attempt would draw; `none` is an error of the source of randomness.
abbrev pub Suffixes : Type 0
Suffixes = ℕ → Option String

abbrev max_attempts : ℕ
max_attempts = 1000

module _ (marks : Marks) where
  -- The loop of `GenerateFWMARK`, from the i-th attempt on, with `n` attempts left.
  generate_from : String → List ℕ → Suffixes → ℕ → ℕ → String → Result MarkError ℕ
  generate_from service_id existing suffixes i zero current_name = err no_unique_mark
  generate_from service_id existing suffixes i (suc n) current_name =
      elim (contains (marks.checksum current_name) existing) [
        | false ↦ ok (marks.checksum current_name)
        | true ↦ elim (suffixes i) [
          | none ↦ err no_random
          | some suffix ↦
              generate_from service_id existing suffixes (suc i) n (service_id +++ "_" +++ suffix)
        ]
      ]

  unfoldable pub generate_fwmark : String → String → List ℕ → Suffixes → Result MarkError ℕ
  unfolding generate_from
  generate_fwmark service_id network_id existing suffixes =
      generate_from service_id existing suffixes 0 max_attempts (service_id +++ "-" +++ network_id)

  -- The loop over the keys of the list: what is no number is skipped.
  unfoldable pub existing_fwmarks : String → Dict String String → List ℕ
  existing_fwmarks list_key [] = []
  existing_fwmarks list_key ((full_key, value) ∷ kvs) =
      let rest = existing_fwmarks list_key kvs in
      elim (marks.parse_uint (trim_left (trim_prefix full_key list_key))) [
        | none ↦ rest
        | some fwmark ↦ fwmark ∷ rest
      ]

module _ (etcd : Etcd) (marks : Marks) (client : Client) where
  open etcd use {Db}

  -- The transaction of a round, and what the loop does with its reply.
  unfoldable pub mark_ops : String → String → ℕ → List Op
  mark_ops service_id network_id fwmark =
      put (fwmark_service_key client network_id service_id) (marks.format_uint fwmark)
      ∷ put (fwmark_key client network_id (marks.format_uint fwmark)) service_id
      ∷ []

  on_commit : (Db → Result MarkError ℕ × Db) → ℕ → Reply × Db → Result MarkError ℕ × Db
  on_commit again fwmark (failed, db) = (err etcd_failed, db)
  on_commit again fwmark (succeeded, db) = (ok fwmark, db)
  on_commit again fwmark (refused values, db) = again db

  claim_mark :
      (Db → Result MarkError ℕ × Db)
      → String
      → String
      → Result MarkError ℕ
      → Db
      → Result MarkError ℕ × Db
  unfolding on_commit
  claim_mark again service_id network_id (err e) db = (err e, db)
  claim_mark again service_id network_id (ok fwmark) db = on_commit again fwmark (
      etcd.commit (never_created (fwmark_key client network_id (marks.format_uint fwmark)) ∷ [])
        (mark_ops service_id network_id fwmark) [] db)

  on_list :
      (Db → Result MarkError ℕ × Db)
      → String
      → String
      → Suffixes
      → Option (Dict String String) × Db
      → Result MarkError ℕ × Db
  unfolding claim_mark
  on_list again service_id network_id suffixes (none, db) = (err etcd_failed, db)
  on_list again service_id network_id suffixes (some kvs, db) =
      claim_mark again service_id network_id
        (generate_fwmark marks service_id network_id
          (existing_fwmarks marks (fwmarks_list_key client network_id) kvs) suffixes)
        db

  -- The endless loop of `Get`, cut off after the rounds of the list.
  unfoldable pub new_mark : String → String → List Suffixes → Db → Result MarkError ℕ × Db
  unfolding on_list
  new_mark service_id network_id [] db = (err gave_up, db)
  new_mark service_id network_id (suffixes ∷ rounds) db =
      on_list (new_mark service_id network_id rounds) service_id network_id suffixes
        (etcd.get_prefix (fwmarks_list_key client network_id) db)

  -- A mark that is stored but is no number is discarded.
  or_new : (Db → Result MarkError ℕ × Db) → Option ℕ → Db → Result MarkError ℕ × Db
  or_new new none db = new db
  or_new new (some fwmark) db = (ok fwmark, db)

  on_existing :
      (Db → Result MarkError ℕ × Db) → Option (Option String) × Db → Result MarkError ℕ × Db
  unfolding or_new
  on_existing new (none, db) = (err etcd_failed, db)
  on_existing new (some none, db) = new db
  on_existing new (some (some value), db) = or_new new (marks.parse_uint value) db

  -- `Get`
  unfoldable pub get_mark : String → String → List Suffixes → Db → Result MarkError ℕ × Db
  unfolding on_existing new_mark
  get_mark service_id network_id rounds db =
      on_existing (new_mark service_id network_id rounds)
        (etcd.get (fwmark_service_key client network_id service_id) db)

  -- The comparisons of `Release`.
  unfoldable pub mark_cmps : String → String → ℕ → List Cmp
  mark_cmps service_id network_id fwmark =
      value_is (fwmark_service_key client network_id service_id) (marks.format_uint fwmark)
      ∷ value_is (fwmark_key client network_id (marks.format_uint fwmark)) service_id
      ∷ []

  -- A transaction that was refused is no error: `errors.WithMessagef` of a nil error is nil.
  on_release : Reply × Db → Option MarkError × Db
  on_release (failed, db) = (some etcd_failed, db)
  on_release (succeeded, db) = (none, db)
  on_release (refused values, db) = (none, db)

  -- `Release`
  unfoldable pub release_mark : String → String → ℕ → Db → Option MarkError × Db
  unfolding on_release
  release_mark service_id network_id fwmark db = on_release (
      etcd.commit (mark_cmps service_id network_id fwmark)
        (delete (fwmark_service_key client network_id service_id)
          ∷ delete (fwmark_key client network_id (marks.format_uint fwmark))
          ∷ [])
        [] db)

-- What the parts of a key and its value say: the service and the text of its mark.
mark_of : List String → String → Option (String × String)
mark_of (network ∷ kind ∷ last ∷ []) value =
    if kind == "by-service" then some (last, value) else some (value, last)
mark_of _ value = none

module _ (etcd : Etcd) (marks : Marks) (lo : Lo) (client : Client) where
  open etcd use {Db}

  -- One round of the loop of `cleanUpStaleFwmarks`; whether the deletion succeeds does not matter.
  drop_mark : String → String → Option ℕ → Dict String ℕ × Db → Dict String ℕ × Db
  drop_mark full_key service_id none s = s
  drop_mark full_key service_id (some fwmark) (fwmarks, db) =
      (insert service_id fwmark fwmarks, (etcd.remove full_key db).1)

  clean_up_kv :
      List String → String → Option (String × String) → Dict String ℕ × Db → Dict String ℕ × Db
  unfolding drop_mark
  clean_up_kv existing_services full_key none s = s
  clean_up_kv existing_services full_key (some (service_id, fwmark_text)) s =
      elim (lo.some existing_services (service_id ∷ [])) [
        | true ↦ s
        | false ↦ drop_mark full_key service_id (marks.parse_uint fwmark_text) s
      ]

  unfoldable pub clean_up_kvs :
      List String → Dict String String → Dict String ℕ × Db → Dict String ℕ × Db
  unfolding clean_up_kv mark_of
  clean_up_kvs existing_services [] s = s
  clean_up_kvs existing_services ((full_key, value) ∷ kvs) s = clean_up_kvs existing_services kvs (
      clean_up_kv existing_services full_key
        (mark_of (split (trim_left (trim_prefix full_key (get_key client [])))) value) s)

  on_stale : List String → Option (Dict String String) × Db → Result MarkError (List ℕ) × Db
  unfolding clean_up_kvs
  on_stale existing_services (none, db) = (err etcd_failed, db)
  on_stale existing_services (some kvs, db) =
      let (fwmarks, db1) = clean_up_kvs existing_services kvs ([], db) in (ok (values fwmarks), db1)

  unfoldable pub clean_up_stale_fwmarks : List String → Db → Result MarkError (List ℕ) × Db
  unfolding on_stale
  clean_up_stale_fwmarks existing_services db =
      on_stale existing_services (etcd.get_prefix (get_key client []) db)
