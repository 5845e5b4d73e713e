-- ===== src/Tests/Db.antt =====
-- A small database, and one that takes no more values; their bytes are the values themselves.
use cc_core_server.Common.{
  String, ◌&&◌, Option, none, some, List, [], GoError, plain, Result, ok, err, if◌then◌else◌, ◌≡◌,
  refl, arith, eq_iff,
}
use mathlib.Core.Path.{subst}
use cc_core_server.Common.Text.{◌==◌}
use cc_core_server.Common.SyncMap
use cc_core_server.Common.SyncMap.{SyncMap, load-store, load-delete}
use cc_core_server.Storage.{Bolt, Codec}
use cc_core_server.Server.{StreamRecord, ParticipantRecord, Avatar}

-- What the sample database holds.
pub data Doc : Type 0 where
  stream_doc : StreamRecord → Doc
  participants_doc : List ParticipantRecord → Doc
  avatar_doc : Avatar → Doc

abbrev pub Db : Type 0
Db = SyncMap (SyncMap Doc)

abbrev pub bucket_of : Option (SyncMap Doc) → SyncMap Doc
bucket_of none = []
bucket_of (some m) = m

abbrev pub contents : Db → String → SyncMap Doc
contents db b = bucket_of (SyncMap.load b db)

abbrev pub put_doc : Db → String → String → Doc → Db
put_doc db b k v = SyncMap.store b (SyncMap.store k v (contents db b)) db

abbrev pub remove_doc : Db → String → String → Db
remove_doc db b k = SyncMap.store b (SyncMap.delete k (contents db b)) db

pub load-put_doc :
    (db : Db) (b k : String) (v : Doc) (c j : String)
    → SyncMap.load j (contents (put_doc db b k v) c)
      ≡ (if b == c && k == j then some v else SyncMap.load j (contents db c))
load-put_doc db b k v c j = ground (
  arith,
  load-store b c (SyncMap.store k v (contents db b)) db,
  load-store k j v (contents db b),
  eq_iff b c,
)

pub load-remove_doc :
    (db : Db) (b k c j : String)
    → SyncMap.load j (contents (remove_doc db b k) c)
      ≡ (if b == c && k == j then none else SyncMap.load j (contents db c))
load-remove_doc db b k c j = ground (
  arith,
  load-store b c (SyncMap.delete k (contents db b)) db,
  load-delete k j (contents db b),
  eq_iff b c,
)

-- A constructor of results is injective, and the two are apart.
pub ok-injective : {A : Type 0} {a b : A} → ok a ≡ ok b → a ≡ b
ok-injective h = cc

abbrev pub sample_bolt : Bolt
sample_bolt = record {
  Db = Db;
  Bytes = Doc;
  get = λ db b k. SyncMap.load k (contents db b);
  put = λ db b k v. ok (put_doc db b k v);
  remove = λ db b k. ok (remove_doc db b k);
  entries = contents;
  begin = λ db. ok tt;
  open_db = λ path. ok [];
  create_bucket = λ db name. ok (SyncMap.store name (contents db name) db);
  get-put = λ db db' b k v c j h.
      subst
        (λ d.
          SyncMap.load j (contents d c)
          ≡ (if b == c && k == j then some v else SyncMap.load j (contents db c)))
        (ok-injective h) (load-put_doc db b k v c j);
  get-remove = λ db db' b k c j h.
      subst
        (λ d.
          SyncMap.load j (contents d c)
          ≡ (if b == c && k == j then none else SyncMap.load j (contents db c)))
        (ok-injective h) (load-remove_doc db b k c j);
  load-entries = λ db b k. refl;
}

abbrev pub as_stream : Doc → Result StreamRecord
as_stream (stream_doc r) = ok r
as_stream (participants_doc ps) = err (plain "not a stream")
as_stream (avatar_doc a) = err (plain "not a stream")

abbrev pub as_participants : Doc → Result (List ParticipantRecord)
as_participants (stream_doc r) = err (plain "not participants")
as_participants (participants_doc ps) = ok ps
as_participants (avatar_doc a) = err (plain "not participants")

abbrev pub as_avatar : Doc → Result Avatar
as_avatar (stream_doc r) = err (plain "not an avatar")
as_avatar (participants_doc ps) = err (plain "not an avatar")
as_avatar (avatar_doc a) = ok a

-- A codec that wraps a value up, and takes it out again.
abbrev pub wrapping :
    {A : Type 0} (f : A → Doc) (g : Doc → Result A) → ((a : A) → g (f a) ≡ ok a) → Codec Doc A
wrapping f g e = record {
  marshal = λ a. ok (f a);
  unmarshal = g;
  round_trip = λ a v h. subst (λ w. g w ≡ ok a) (ok-injective h) (e a);
}

pub err-ne-ok : {A : Type 0} {e : GoError} {a : A} → err e ≡ ok a → ⊥
err-ne-ok h = cc

-- The same, with a database that takes no more values.
abbrev pub full_bolt : Bolt
full_bolt = record {
  Db = Db;
  Bytes = Doc;
  get = λ db b k. SyncMap.load k (contents db b);
  put = λ db b k v. err (plain "no space left");
  remove = λ db b k. err (plain "no space left");
  entries = contents;
  begin = λ db. ok tt;
  open_db = λ path. ok [];
  create_bucket = λ db name. err (plain "no space left");
  get-put = λ db db' b k v c j h. absurd (err-ne-ok h);
  get-remove = λ db db' b k c j h. absurd (err-ne-ok h);
  load-entries = λ db b k. refl;
}
