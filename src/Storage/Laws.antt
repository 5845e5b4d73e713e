-- ===== src/Storage/Laws.antt =====
-- What a client of a bucket relies on: a value that was stored is loaded again, other keys keep
-- theirs, a failed store changes nothing.
use cc_core_server.Common.{
  String, ◌≡◌, some, [], Result, ok, err, >>=-eq-ok, wrap_err, if◌then◌else◌, arith,
}
use cc_core_server.Common.Text.{◌==◌, eq_refl}
use cc_core_server.Storage.{Bolt, Codec, Bucket, all_values, load_value, store_value}

pub wrap_err-eq-ok :
    {A : Type 0} (prefix : String) (r : Result A) {a : A} → wrap_err prefix r ≡ ok a → r ≡ ok a
wrap_err-eq-ok prefix (ok b) h = h
wrap_err-eq-ok prefix (err e) h = cc

module _ {bolt : Bolt} {A : Type 0} (codec : Codec bolt.Bytes A) where
  store_value-eq-ok :
      (b b' : Bucket bolt) (k : String) (a : A)
      → store_value codec b k a ≡ ok b'
      → (v : bolt.Bytes) × (db : bolt.Db) × (codec.marshal a ≡ ok v)
        × (bolt.put b.db b.name k v ≡ ok db)
        × (ok (record b { db = db }) ≡ ok b')
  unfolding store_value
  store_value-eq-ok b b' k a h =
      let (v, hv, h') = >>=-eq-ok (wrap_err "could not encode value" (codec.marshal a)) _ h in
      let (db, hd, he) = >>=-eq-ok (bolt.put b.db b.name k v) _ h' in
      (v, db, wrap_err-eq-ok _ _ hv, hd, he)

  -- After a store that succeeds, the load of its key gives the stored value, and the load of any
  -- other key what it gave before.
  pub load_value-store_value :
      (b b' : Bucket bolt) (k j : String) (a : A)
      → store_value codec b k a ≡ ok b'
      → load_value codec b' j ≡ (if k == j then some (ok a) else load_value codec b j)
  unfolding load_value
  load_value-store_value b b' k j a h =
      let (v, db, hv, hd, he) = store_value-eq-ok b b' k a h in
      ground (
        arith,
        codec.round_trip a v hv,
        bolt.get-put b.db db b.name k v b.name j hd,
        eq_refl b.name,
      )

-- A cursor that could be opened has every entry of its bucket ahead of it.
pub all_values-eq-ok :
    {bolt : Bolt} (b : Bucket bolt)
    → bolt.begin b.db ≡ ok tt
    → all_values b ≡ ok (record { whole = bolt.entries b.db b.name; rest = [] })
unfolding all_values
all_values-eq-ok b h = rw h
