-- ===== src/Server/Listing/Fitting.antt =====
-- Which stored streams the list has (isStreamFitsFilter and the loop of StreamList in
-- server/stream.go), in words of its own.
use cc_core_server.Common.{
  String, Bool, true, false, not, ◌&&◌, List, [], ◌∷◌, any, GoError, Result, ok, err, ◌>>=◌,
  wrap_err, wrap, if◌then◌else◌, ◌≡◌, ◌⊎◌, inl, inr, refl, sym, ◌∙◌, arith, eq_iff, Bool-cases,
}
use mathlib.Core.Path.{subst}
use cc_core_server.Common.Text.{◌==◌, contains, eq_refl}
use cc_core_server.Service.{StreamFilter, StreamInfo}
use cc_core_server.Server.{StreamRecord, Externals}
use cc_core_server.Server.Listing.{allowed_by, is_stream_fits_filter, list_entry, collect}

pub data Occurs (v : String) : List String → Type 0 where
  at_head : {ws : List String} → Occurs v (v ∷ ws)
  in_rest : {w : String} {ws : List String} → Occurs v ws → Occurs v (w ∷ ws)

-- A stream fits a filter whose phrase its name or its description contains, and whose modes and
-- statuses, if there are any, have its own.
pub record Fits (f : StreamFilter) (r : StreamRecord) : Type 0 where
  pub phrase :
      (contains r.name f.search_phrase ≡ true) ⊎ (contains r.description f.search_phrase ≡ true)
  pub mode : (f.launch_modes ≡ []) ⊎ Occurs r.launch_mode f.launch_modes
  pub status : (f.statuses ≡ []) ⊎ Occurs r.status f.statuses

-- The entry has what is recorded of the stream, but for its subject.
pub record IsEntryOf (r : StreamRecord) (i : StreamInfo) : Type 0 where
  pub uuid : i.uuid ≡ r.uuid
  pub name : i.name ≡ r.name
  pub description : i.description ≡ r.description
  pub ip : i.ip ≡ r.ip
  pub port : i.port ≡ r.port
  pub launch_mode : i.launch_mode ≡ r.launch_mode
  pub started_at : i.started_at ≡ r.started_at
  pub finished_at : i.finished_at ≡ r.finished_at
  pub status : i.status ≡ r.status
  pub join_policy : i.join.join_policy ≡ r.join.policy
  pub join_code : i.join.join_code ≡ r.join.code
  pub host_uuid : i.host.uuid ≡ r.host.uuid
  pub host_name : i.host.username ≡ r.host.username
  pub host_avatar : i.host.avatar_id ≡ r.host.avatar_id
  pub host_ip : i.host.ip ≡ r.host.ip

module _ ⦃x : Externals⦄ where
  -- What the loop makes of the stored values: entries of the streams that fit, in their order; or
  -- an error, if a value cannot be decoded.
  pub data Collected (f : StreamFilter)
      : List (String × x.bolt.Bytes) → Result (List StreamInfo) → Type 0 where
    none_left : Collected f [] (ok [])
    keeps :
        {k : String} {v : x.bolt.Bytes} {more : List (String × x.bolt.Bytes)} {is : List StreamInfo}
        (r : StreamRecord) (i : StreamInfo)
        → x.stream_codec.unmarshal v ≡ ok r
        → Fits f r
        → IsEntryOf r i
        → Collected f more (ok is)
        → Collected f ((k, v) ∷ more) (ok (i ∷ is))
    skips :
        {k : String} {v : x.bolt.Bytes} {more : List (String × x.bolt.Bytes)} {is : List StreamInfo}
        (r : StreamRecord)
        → x.stream_codec.unmarshal v ≡ ok r
        → ¬ Fits f r
        → Collected f more (ok is)
        → Collected f ((k, v) ∷ more) (ok is)
    undecodable :
        {k : String} {v : x.bolt.Bytes} {more : List (String × x.bolt.Bytes)} (c : GoError)
        → x.stream_codec.unmarshal v ≡ err c
        → Collected f ((k, v) ∷ more) (err (wrap "could not parse stream info" c))
    undecodable_later :
        {k : String} {v : x.bolt.Bytes} {more : List (String × x.bolt.Bytes)} {e : GoError}
        (r : StreamRecord)
        → x.stream_codec.unmarshal v ≡ ok r
        → Collected f more (err e)
        → Collected f ((k, v) ∷ more) (err e)

any-Occurs : (v : String) (ws : List String) → any (λ w. w == v) ws ≡ true → Occurs v ws
any-Occurs v [] h = absurd (cc)
any-Occurs v (w ∷ ws) h = elim (Bool-cases (w == v)) [
  | inl e ↦ subst (λ u. Occurs v (u ∷ ws)) (sym (eq_of e)) at_head
  | inr e ↦ in_rest (any-Occurs v ws (ground (arith, e, h)))
]
  where
    eq_of : (w == v) ≡ true → w ≡ v
    eq_of e = ground (arith, eq_iff w v)

Occurs-any : (v : String) (ws : List String) → Occurs v ws → any (λ w. w == v) ws ≡ true
Occurs-any v [] o = elim o [ ]
Occurs-any v (w ∷ ws) at_head = rw eq_refl refl
Occurs-any v (w ∷ ws) (in_rest o) = ground (arith, Occurs-any v ws o)

allowed_by-Occurs :
    (ws : List String) (v : String) → allowed_by ws v ≡ true → (ws ≡ []) ⊎ Occurs v ws
unfolding allowed_by
allowed_by-Occurs [] v h = inl refl
allowed_by-Occurs (w ∷ ws) v h = inr (any-Occurs v (w ∷ ws) h)

Occurs-allowed_by :
    (ws : List String) (v : String) → (ws ≡ []) ⊎ Occurs v ws → allowed_by ws v ≡ true
unfolding allowed_by
Occurs-allowed_by [] v o = refl
Occurs-allowed_by (w ∷ ws) v (inl e) = absurd (cc)
Occurs-allowed_by (w ∷ ws) v (inr o) = Occurs-any v (w ∷ ws) o

-- The three tests of a stream, one after the other.
tests-true :
    (a b c d : Bool)
    → (if not a && not b then false else if not c then false else d) ≡ true
    → ((a ≡ true) ⊎ (b ≡ true)) × (c ≡ true) × (d ≡ true)
tests-true true b true d h = (inl refl, refl, h)
tests-true true b false d h = absurd (cc)
tests-true false true true d h = (inr refl, refl, h)
tests-true false true false d h = absurd (cc)
tests-true false false c d h = absurd (cc)

true-tests :
    (a b c d : Bool)
    → (a ≡ true) ⊎ (b ≡ true)
    → c ≡ true
    → d ≡ true
    → (if not a && not b then false else if not c then false else d) ≡ true
true-tests a b c d (inl e) f g = rw (e, f, g) refl
true-tests true b c d (inr e) f g = rw (f, g) refl
true-tests false b c d (inr e) f g = rw (e, f, g) refl

is_stream_fits_filter-Fits :
    (r : StreamRecord) (f : StreamFilter) → is_stream_fits_filter r f ≡ true → Fits f r
unfolding is_stream_fits_filter
is_stream_fits_filter-Fits r f h =
    let (phrase, mode, status) = tests-true _ _ _ _ h in
    record {
      phrase = phrase;
      mode = allowed_by-Occurs f.launch_modes r.launch_mode mode;
      status = allowed_by-Occurs f.statuses r.status status;
    }

Fits-is_stream_fits_filter :
    (r : StreamRecord) (f : StreamFilter) → Fits f r → is_stream_fits_filter r f ≡ true
unfolding is_stream_fits_filter
Fits-is_stream_fits_filter r f h =
    true-tests _ _ _ _ h.phrase (Occurs-allowed_by f.launch_modes r.launch_mode h.mode)
      (Occurs-allowed_by f.statuses r.status h.status)

list_entry-IsEntryOf : (r : StreamRecord) → IsEntryOf r (list_entry r)
unfolding list_entry
list_entry-IsEntryOf r = record {
  uuid = refl;
  name = refl;
  description = refl;
  ip = refl;
  port = refl;
  launch_mode = refl;
  started_at = refl;
  finished_at = refl;
  status = refl;
  join_policy = refl;
  join_code = refl;
  host_uuid = refl;
  host_name = refl;
  host_avatar = refl;
  host_ip = refl;
}

module _ ⦃x : Externals⦄ where
  -- The loop of StreamList collects, in the order of the storage, an entry with the data of each
  -- stored stream whose name or description contains the phrase and whose mode and status are among
  -- those of the filter, where it has some, and of no other; it fails exactly if a value cannot be
  -- decoded.
  pub collect-Collected :
      (f : StreamFilter) (es : List (String × x.bolt.Bytes)) → Collected f es (collect f es)
  unfolding collect
  collect-Collected f [] = none_left
  collect-Collected f ((k, v) ∷ more) =
      decoded (x.stream_codec.unmarshal v) (collect f more) refl (collect-Collected f more)
    where
      kept :
          (r : StreamRecord) (is : List StreamInfo) (b : Bool)
          → is_stream_fits_filter r f ≡ b
          → x.stream_codec.unmarshal v ≡ ok r
          → Collected f more (ok is)
          → Collected f ((k, v) ∷ more) (ok (if b then list_entry r ∷ is else is))
      kept r is true e h c =
          keeps r (list_entry r) h (is_stream_fits_filter-Fits r f e) (list_entry-IsEntryOf r) c
      kept r is false e h c =
          skips r h (λ fits. absurd (differ (sym e ∙ Fits-is_stream_fits_filter r f fits))) c
        where
          differ : ¬ (false ≡ true)
          differ k = cc

      decoded :
          (o : Result StreamRecord) (rest : Result (List StreamInfo))
          → x.stream_codec.unmarshal v ≡ o
          → Collected f more rest
          → Collected f ((k, v) ∷ more) (
              wrap_err "could not parse stream info" o >>= (λ r.
                rest >>= (λ is. ok (if is_stream_fits_filter r f then list_entry r ∷ is else is))))
      decoded (err c) rest h c' = undecodable c h
      decoded (ok r) (err e) h c = undecodable_later r h c
      decoded (ok r) (ok is) h c = kept r is _ refl h c
