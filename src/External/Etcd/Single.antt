-- ===== src/External/Etcd/Single.antt =====
-- One client's cluster that never fails, as an association list: it meets the interface.
use flannel_network_plugin.Prelude.{
  true, false, ◌≡◌, refl, ap, sym, ◌∙◌, Option, none, some, List, [], ◌∷◌, map, String, string_eq,
  if◌then◌else◌, arith, Bool-cases, inl, inr,
}
use flannel_network_plugin.Prelude.Dict.{
  Dict, lookup, insert, remove, IsDict, insert-IsDict, lookup-insert, lookup-remove,
}
use flannel_network_plugin.External.Etcd.{
  Store, Cmp, Op, put, delete, all_hold, after, Reply, succeeded, refused, Etcd, IsQuiet, IsUp,
}
use text.Mathlib.Text.{starts_with}
use mathlib.Core.Path.{fun_ext, subst}

abbrev pub Db : Type 0
Db = Dict String String

unfoldable pub apply : List Op → Db → Db
apply [] db = db
apply (put k v ∷ ops) db = apply ops (insert k v db)
apply (delete k ∷ ops) db = apply ops (remove k db)

abbrev pub store_of : Db → Store
store_of db k = lookup k db

lookup-apply :
    (ops : List Op) (db : Db) (k : String) → lookup k (apply ops db) ≡ after ops (store_of db) k
unfolding apply
lookup-apply [] db k = refl
lookup-apply (put j v ∷ ops) db k =
    lookup-apply ops (insert j v db) k
    ∙ ap (λ (st : Store). after ops st k) (fun_ext (λ i. lookup-insert j i v db))
lookup-apply (delete j ∷ ops) db k =
    lookup-apply ops (remove j db) k
    ∙ ap (λ (st : Store). after ops st k) (fun_ext (λ i. lookup-remove j i db))

unfoldable pub commit : List Cmp → List Op → List String → Db → Reply × Db
unfolding apply
commit cmps ops gets db =
    if all_hold (store_of db) cmps
    then (succeeded, apply ops db)
    else (refused (map (store_of db) gets), db)

-- The entries whose keys begin with a prefix, the first of each key.
unfoldable pub select : String → Db → Db
select prefix [] = []
select prefix ((k, v) ∷ db) =
    if starts_with k prefix then insert k v (select prefix db) else select prefix db

unfoldable pub drop_all : String → Db → Db
drop_all prefix [] = []
drop_all prefix ((k, v) ∷ db) =
    if starts_with k prefix then drop_all prefix db else (k, v) ∷ drop_all prefix db

select-IsDict : (prefix : String) (db : Db) → IsDict (select prefix db)
unfolding select
select-IsDict prefix [] = tt
select-IsDict prefix ((k, v) ∷ db) = elim (Bool-cases (starts_with k prefix)) [
  | inl has ↦ rw has (insert-IsDict k v (select prefix db) (select-IsDict prefix db))
  | inr hasnt ↦ rw hasnt (select-IsDict prefix db)
]

lookup-select :
    (prefix : String) (db : Db) (k : String)
    → lookup k (select prefix db) ≡ (if starts_with k prefix then lookup k db else none)
unfolding select lookup
lookup-select prefix [] k = ground arith
lookup-select prefix ((j, v) ∷ db) k = ground (
  arith,
  lookup-insert j k v (select prefix db),
  lookup-select prefix db k,
  string_eq.beq_iff j k,
)

pub lookup-drop_all :
    (prefix : String) (db : Db) (k : String)
    → lookup k (drop_all prefix db) ≡ (if starts_with k prefix then none else lookup k db)
unfolding drop_all lookup
lookup-drop_all prefix [] k = ground arith
lookup-drop_all prefix ((j, v) ∷ db) k =
    ground (arith, lookup-drop_all prefix db k, string_eq.beq_iff j k)

pub commit_succeeded_lem :
    (cmps : List Cmp) (ops : List Op) (gets : List String) (db db' : Db)
    → commit cmps ops gets db ≡ (succeeded, db')
    → (all_hold (store_of db) cmps ≡ true)
      × ((k : String) → lookup k db' ≡ after ops (store_of db) k)
unfolding commit
commit_succeeded_lem cmps ops gets db db' h = elim (Bool-cases (all_hold (store_of db) cmps)) [
  | inl yep ↦ (yep, λ k. ground (arith, yep, lookup-apply ops db k))
  | inr nope ↦ ground (arith, nope)
]

pub commit_refused_lem :
    (cmps : List Cmp) (ops : List Op) (gets : List String) (db db' : Db)
    (values : List (Option String))
    → commit cmps ops gets db ≡ (refused values, db')
    → (all_hold (store_of db) cmps ≡ false)
      × (values ≡ map (store_of db) gets)
      × ((k : String) → lookup k db' ≡ lookup k db)
unfolding commit
commit_refused_lem cmps ops gets db db' values h = elim (Bool-cases (all_hold (store_of db) cmps)) [
  | inl yep ↦ ground (arith, yep)
  | inr nope ↦ (nope, ground (arith, nope), λ k. ground (arith, nope))
]

pub get_prefix_some_lem :
    (prefix : String) (db db' kvs : Db)
    → ◌≡◌ {A = Option Db × Db} (some (select prefix db), db) (some kvs, db')
    → IsDict kvs
      × ((k : String) → lookup k kvs ≡ (if starts_with k prefix then lookup k db else none))
      × ((k : String) → lookup k db' ≡ lookup k db)
get_prefix_some_lem prefix db db' kvs h =
    let same : select prefix db ≡ kvs = ground arith in
    (
      subst IsDict same (select-IsDict prefix db),
      (λ k. ap (lookup k) (sym same) ∙ lookup-select prefix db k),
      (λ k. ground arith),
    )

abbrev pub single : Etcd
single = record {
  Db = Db;
  found = store_of;
  left = store_of;
  commit = commit;
  commit_succeeded = commit_succeeded_lem;
  commit_refused = commit_refused_lem;
  get = λ key db. (some (lookup key db), db);
  get_some = λ key db db' value h. (ground arith, λ k. ground arith);
  get_prefix = λ prefix db. (some (select prefix db), db);
  get_prefix_some = λ prefix db db' kvs h. get_prefix_some_lem prefix db db' kvs h;
  remove = λ key db. (true, remove key db);
  remove_true = λ key db db' h k. ground (arith, lookup-remove key k db);
  remove_prefix = λ prefix db. (true, drop_all prefix db);
  remove_prefix_true = λ prefix db db' h k. ground (arith, lookup-drop_all prefix db k);
}

pub single-IsQuiet : IsQuiet single
unfolding commit
single-IsQuiet = record {
  found-left = λ db k. refl;
  commit_answers = λ cmps ops gets db db' h. ground arith;
}

pub single-IsUp : IsUp single
single-IsUp = record {
  quiet = single-IsQuiet;
  get_prefix_answers = λ prefix db db' h. ground arith;
  remove_answers = λ key db db' h. ground arith;
}
