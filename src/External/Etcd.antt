-- ===== src/External/Etcd.antt =====
-- go.etcd.io/etcd/client/v3: the calls that the program makes, as an interface. `Db` is the cluster
-- with all that is still to come from its other clients: `found db` is the store that the next
-- call is handled on, `left db` the store as the last call left it. Between the two, other nodes
-- may write. A call may fail, and then nothing is known of the store.
pub mod Single
use flannel_network_plugin.Prelude.{
  Bool, true, false, not, ◌&&◌, ◌≡◌, Option, none, some, List, [], ◌∷◌, map, String, string_eq,
  ◌==◌, if◌then◌else◌,
}
use flannel_network_plugin.Prelude.Dict.{Dict, lookup, IsDict}
use text.Mathlib.Text.{starts_with}

-- A key-value store as it is at one moment: the value of a key that exists.
abbrev pub Store : Type 0
Store = String → Option String

-- The comparisons of a transaction: `Compare(Value(key), "=", v)`, `Compare(Value(key), "!=", v)`
-- and `Compare(CreateRevision(key), "=", 0)`. The first two fail on a key that does not exist.
pub data Cmp : Type 0 where
  value_is : String → String → Cmp
  value_is_not : String → String → Cmp
  never_created : String → Cmp

-- `OpPut` and `OpDelete`.
pub data Op : Type 0 where
  put : String → String → Op
  delete : String → Op

abbrev is_value : String → Option String → Bool
is_value v none = false
is_value v (some w) = w == v

abbrev is_other : String → Option String → Bool
is_other v none = false
is_other v (some w) = not (w == v)

abbrev is_absent : Option String → Bool
is_absent none = true
is_absent (some w) = false

-- Whether a comparison holds, and whether all of a transaction do.
abbrev pub holds : Store → Cmp → Bool
holds st (value_is k v) = is_value v (st k)
holds st (value_is_not k v) = is_other v (st k)
holds st (never_created k) = is_absent (st k)

abbrev pub all_hold : Store → List Cmp → Bool
all_hold st [] = true
all_hold st (c ∷ cs) = holds st c && all_hold st cs

-- The value of a key after the operations of a transaction.
abbrev pub after : List Op → Store → Store
after [] st k = st k
after (put j v ∷ ops) st k = after ops (λ i. if j == i then some v else st i) k
after (delete j ∷ ops) st k = after ops (λ i. if j == i then none else st i) k

-- The reply to a transaction: an error, or that it took the `Then` branch, or the `Else` branch
-- with the values that its gets found.
pub data Reply : Type 0 where
  failed : Reply
  succeeded : Reply
  refused : List (Option String) → Reply

pub record Etcd : Type 1 where
  pub Db : Type 0
  pub found : Db → Store
  pub left : Db → Store
  -- `Txn(ctx).If(cmps...).Then(ops...).Else(gets...).Commit()`
  pub commit : List Cmp → List Op → List String → Db → Reply × Db
  pub commit_succeeded :
      (cmps : List Cmp) (ops : List Op) (gets : List String) (db db' : Db)
      → commit cmps ops gets db ≡ (succeeded, db')
      → (all_hold (found db) cmps ≡ true) × ((k : String) → left db' k ≡ after ops (found db) k)
  pub commit_refused :
      (cmps : List Cmp) (ops : List Op) (gets : List String) (db db' : Db)
      (values : List (Option String))
      → commit cmps ops gets db ≡ (refused values, db')
      → (all_hold (found db) cmps ≡ false)
        × (values ≡ map (found db) gets)
        × ((k : String) → left db' k ≡ found db k)
  -- `Get(ctx, key)`: the value, if the call does not fail
  pub get : String → Db → Option (Option String) × Db
  pub get_some :
      (key : String) (db db' : Db) (value : Option String)
      → get key db ≡ (some value, db')
      → (value ≡ found db key) × ((k : String) → left db' k ≡ found db k)
  -- `Get(ctx, prefix, WithPrefix())`: the keys that begin with the prefix, with their values
  pub get_prefix : String → Db → Option (Dict String String) × Db
  pub get_prefix_some :
      (prefix : String) (db db' : Db) (kvs : Dict String String)
      → get_prefix prefix db ≡ (some kvs, db')
      → IsDict kvs
        × ((k : String) → lookup k kvs ≡ (if starts_with k prefix then found db k else none))
        × ((k : String) → left db' k ≡ found db k)
  -- `Delete(ctx, key)` and `Delete(ctx, prefix, WithPrefix())`: whether the call succeeded
  pub remove : String → Db → Bool × Db
  pub remove_true :
      (key : String) (db db' : Db)
      → remove key db ≡ (true, db')
      → (k : String) → left db' k ≡ (if key == k then none else found db k)
  pub remove_prefix : String → Db → Bool × Db
  pub remove_prefix_true :
      (prefix : String) (db db' : Db)
      → remove_prefix prefix db ≡ (true, db')
      → (k : String) → left db' k ≡ (if starts_with k prefix then none else found db k)

-- A cluster with no other client at work, whose calls do not fail.
pub record IsQuiet (etcd : Etcd) : Type 0 where
  pub found-left : (db : etcd.Db) (k : String) → etcd.found db k ≡ etcd.left db k
  pub commit_answers :
      (cmps : List Cmp) (ops : List Op) (gets : List String) (db db' : etcd.Db)
      → etcd.commit cmps ops gets db ≡ (failed, db')
      → ⊥

-- The calls that wrote nothing before another one was sent: from the cluster as a method met it to
-- the cluster as the method's last transaction met it.
pub data Reaches (etcd : Etcd) : etcd.Db → etcd.Db → Type 0 where
  at_once : (db : etcd.Db) → Reaches etcd db db
  after_refusal :
      (db db1 db2 : etcd.Db) (cmps : List Cmp) (ops : List Op) (gets : List String)
      (values : List (Option String))
      → etcd.commit cmps ops gets db ≡ (refused values, db1)
      → Reaches etcd db1 db2
      → Reaches etcd db db2
  after_get :
      (db db1 db2 : etcd.Db) (key : String) (value : Option String)
      → etcd.get key db ≡ (some value, db1)
      → Reaches etcd db1 db2
      → Reaches etcd db db2
  after_get_prefix :
      (db db1 db2 : etcd.Db) (prefix : String) (kvs : Dict String String)
      → etcd.get_prefix prefix db ≡ (some kvs, db1)
      → Reaches etcd db1 db2
      → Reaches etcd db db2

-- A quiet cluster whose other calls do not fail either.
pub record IsUp (etcd : Etcd) : Type 0 where
  pub quiet : IsQuiet etcd
  pub get_prefix_answers :
      (prefix : String) (db db' : etcd.Db) → etcd.get_prefix prefix db ≡ (none, db') → ⊥
  pub remove_answers : (key : String) (db db' : etcd.Db) → etcd.remove key db ≡ (false, db') → ⊥
