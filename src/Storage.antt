-- ===== src/Storage.antt =====
-- The package `storage` (storage/storage.go, storage/bucket.go, storage/cursor.go) over the bolt
-- database, which is a parameter: its operations, with the documented effect of each.
pub mod Laws
use cc_core_server.Common.{
  ℕ, String, ◌≡◌, Bool, true, false, ◌&&◌, Option, none, some, List, [], ◌∷◌, GoError, plain,
  Result, ok, err, ◌>>=◌, ◌>>◌, wrap_err, length, if◌then◌else◌,
}
use mathlib.Core.Option
use cc_core_server.Common.Text.{◌==◌, ◌&◌}
use cc_core_server.Common.SyncMap.{SyncMap, load, store}

-- bolt: `put` and `delete` are a whole `db.Update` transaction, which fails without effect;
-- `entries` is what a cursor of a read transaction visits.
pub record Bolt : Type 1 where
  pub Db : Type 0
  pub Bytes : Type 0
  pub get : Db → String → String → Option Bytes
  pub put : Db → String → String → Bytes → Result Db
  pub remove : Db → String → String → Result Db
  pub entries : Db → String → List (String × Bytes)
  pub begin : Db → Result (Unit {0})
  pub open_db : String → Result Db
  pub create_bucket : Db → String → Result Db
  pub get-put :
      (db db' : Db) (b k : String) (v : Bytes) (c j : String)
      → put db b k v ≡ ok db'
      → get db' c j ≡ (if b == c && k == j then some v else get db c j)
  pub get-remove :
      (db db' : Db) (b k c j : String)
      → remove db b k ≡ ok db'
      → get db' c j ≡ (if b == c && k == j then none else get db c j)
  pub load-entries : (db : Db) (b k : String) → load k (entries db b) ≡ get db b k

-- `json.Marshal` and `json.Unmarshal` at one type.
pub record Codec (Bytes A : Type 0) : Type 0 where
  pub marshal : A → Result Bytes
  pub unmarshal : Bytes → Result A
  pub round_trip : (a : A) (v : Bytes) → marshal a ≡ ok v → unmarshal v ≡ ok a

pub record Config : Type 0 where
  pub db_path : String
  pub bucket_names : List String
  pub default_name : String

module _ (bolt : Bolt) where
  -- A bucket, with the contents of the database that its pointer leads to.
  pub record Bucket : Type 0 where
    pub name : String
    pub db : bolt.Db

  pub record Storage : Type 0 where
    pub db : bolt.Db
    pub buckets : SyncMap String
    pub default_bucket : String

-- A cursor: all that its transaction sees, and what is still ahead of it.
pub record Cursor (bolt : Bolt) : Type 0 where
  pub whole : List (String × bolt.Bytes)
  pub rest : List (String × bolt.Bytes)

abbrev pub step_to :
    {bolt : Bolt}
    → Cursor bolt
    → List (String × bolt.Bytes)
    → Option bolt.Bytes × Bool × Cursor bolt
step_to c [] = (none, false, record c { rest = [] })
step_to c ((k, v) ∷ more) = (some v, true, record c { rest = more })

-- The loop of `New` over the configured names, inside one transaction.
unfoldable pub create_buckets :
    (bolt : Bolt) → List String → bolt.Db → SyncMap String → Result (bolt.Db × SyncMap String)
create_buckets bolt [] db made = ok (db, made)
create_buckets bolt (name ∷ names) db made = do
  db' ← wrap_err ("could not create `" & name & "` bucket") (bolt.create_bucket db name)
  create_buckets bolt names db' (store name name made)

-- `New`.
unfoldable pub new_storage : (bolt : Bolt) → Config → Result (Storage bolt)
unfolding create_buckets
new_storage bolt cfg = do
  db ← wrap_err "could not open database" (bolt.open_db cfg.db_path)
  made ← wrap_err "could not init storage buckets" (create_buckets bolt cfg.bucket_names db [])
  ok (record { db = made.0; buckets = made.1; default_bucket = cfg.default_name })

module _ {bolt : Bolt} where
  -- `Use` and `Default`: nil if there is no such bucket.
  unfoldable pub use_bucket : Storage bolt → String → Option (Bucket bolt)
  use_bucket s name = Option.map (λ n. record { name = n; db = s.db }) (load name s.buckets)

  unfoldable pub default_of : Storage bolt → Option (Bucket bolt)
  unfolding use_bucket
  default_of s = use_bucket s s.default_bucket

  unfoldable pub size : Bucket bolt → ℕ
  size b = length (bolt.entries b.db b.name)

  -- `Load`: nil if the key does not exist.
  unfoldable pub load_raw : Bucket bolt → String → Option bolt.Bytes
  load_raw b key = bolt.get b.db b.name key

  -- `All` opens a read transaction; the cursor has its entries.
  unfoldable pub all_values : Bucket bolt → Result (Cursor bolt)
  all_values b = do
    wrap_err "could not start reading transaction" (bolt.begin b.db)
    ok (record { whole = bolt.entries b.db b.name; rest = [] })

  -- `First` and `Next`: the value and whether there is one, with the cursor moved.
  unfoldable pub first : Cursor bolt → Option bolt.Bytes × Bool × Cursor bolt
  first c = step_to c c.whole

  unfoldable pub next : Cursor bolt → Option bolt.Bytes × Bool × Cursor bolt
  next c = step_to c c.rest

  -- `Store`: encode, then put, in one transaction.
  unfoldable pub store_value :
      {A : Type 0} → Codec bolt.Bytes A → Bucket bolt → String → A → Result (Bucket bolt)
  store_value codec b key value = do
    v ← wrap_err "could not encode value" (codec.marshal value)
    db ← bolt.put b.db b.name key v
    ok (record b { db = db })

  unfoldable pub delete_value : Bucket bolt → String → Result (Bucket bolt)
  delete_value b key = do db ← bolt.remove b.db b.name key; ok (record b { db = db })

  -- `Load` followed by `Decode`: nothing stored, or the decoded value or its error.
  unfoldable pub load_value :
      {A : Type 0} → Codec bolt.Bytes A → Bucket bolt → String → Option (Result A)
  unfolding load_raw
  load_value codec b key = Option.map codec.unmarshal (load_raw b key)
