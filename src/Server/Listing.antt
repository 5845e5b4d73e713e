-- ===== src/Server/Listing.antt =====
-- StreamList: filtering, sorting and paging of the stored streams (server/stream.go).
pub mod Fitting
pub mod Page
pub mod Pages
pub mod Order
pub mod Response
pub mod Whole
use mathlib.Core.List.{Perm}
use cc_core_server.Common.{
  ℕ, suc, ◌+◌, ◌-◌, String, Bool, true, false, not, ◌&&◌, ◌||◌, Option, none, some, List, [], ◌∷◌,
  Result, ok, err, ◌>>=◌, wrap_err, Run, returns, panics, if◌then◌else◌, ◌≡◌, ltb, length, take,
  drop, any, All,
}
use cc_core_server.Common.Int.{ℤ, pos, negsuc, ◌+ℤ◌, ◌-ℤ◌, ◌*ℤ◌, ltb_ℤ}
use cc_core_server.Common.Text.{◌==◌, contains, text_lt}
use cc_core_server.Service.{Time, StreamFilter, StreamInfo, StreamList}
use cc_core_server.Storage.{Codec, Cursor, all_values, size}
use cc_core_server.Server.{StreamRecord, Externals, Server}

-- `for i := range xs { if xs[i] == x { found = true } }`, with an empty list that allows all.
unfoldable pub allowed_by : List String → String → Bool
allowed_by [] v = true
allowed_by (m ∷ ms) v = any (λ w. w == v) (m ∷ ms)

-- `isStreamFitsFilter`.
unfoldable pub is_stream_fits_filter : StreamRecord → StreamFilter → Bool
unfolding allowed_by
is_stream_fits_filter r f =
    if not (contains r.name f.search_phrase) && not (contains r.description f.search_phrase)
    then false
    else if not (allowed_by f.launch_modes r.launch_mode)
    then false
    else allowed_by f.statuses r.status

-- The entry of the list for a stored record.
unfoldable pub list_entry : StreamRecord → StreamInfo
list_entry r = record {
  uuid = r.uuid;
  name = r.name;
  description = r.description;
  ip = r.ip;
  port = r.port;
  launch_mode = r.launch_mode;
  started_at = r.started_at;
  finished_at = r.finished_at;
  status = r.status;
  join = record { join_policy = r.join.policy; join_code = r.join.code };
  host = record {
    uuid = r.host.uuid;
    username = r.host.username;
    avatar_id = r.host.avatar_id;
    ip = r.host.ip;
  };
}

-- A `less` function that `sort.Slice` may be given.
pub record IsOrdering {A : Type 0} (less : A → A → Bool) : Type 0 where
  pub asymm : (a b : A) → less a b ≡ true → less b a ≡ false
  pub le_trans : (a b c : A) → less b a ≡ false → less c b ≡ false → less c a ≡ false

abbrev pub IsSorted : {A : Type 0} → (A → A → Bool) → List A → Type 0
IsSorted less [] = Unit
IsSorted less (a ∷ xs) = All (λ b. less b a ≡ false) xs × IsSorted less xs

-- `sort.Slice` at one type: it sorts, and the order of equal elements is not specified.
pub record SortSlice (A : Type 0) : Type 0 where
  pub sort : (A → A → Bool) → List A → List A
  pub perm : (less : A → A → Bool) (xs : List A) → Perm (sort less xs) xs
  pub sorted : (less : A → A → Bool) (xs : List A) → IsOrdering less → IsSorted less (sort less xs)

-- `if sortOrder == asc { return a < b }; return a > b`.
abbrev pub directed : {A : Type 0} → (A → A → Bool) → String → A → A → Bool
directed lt order a b = if order == "asc" then lt a b else lt b a

abbrev pub sort_fn : String → String → Option (StreamInfo → StreamInfo → Bool)
sort_fn sort_by order =
    if sort_by == "uuid"
    then some (directed (λ a b. text_lt a.uuid b.uuid) order)
    else if sort_by == "name"
    then some (directed (λ a b. text_lt a.name b.name) order)
    else if sort_by == "mode"
    then some (directed (λ a b. text_lt a.launch_mode b.launch_mode) order)
    else if sort_by == "started"
    then some (directed (λ a b. ltb a.started_at b.started_at) order)
    else if sort_by == "status"
    then some (directed (λ a b. text_lt a.status b.status) order)
    else none

-- `filterStreams`: no sorting by an unknown field.
unfoldable pub filter_streams :
    SortSlice StreamInfo → List StreamInfo → String → String → List StreamInfo
filter_streams sorting streams sort_by order = elim (sort_fn sort_by order) [
  | none ↦ streams
  | some less ↦ sorting.sort less streams
]

-- `streams[start:]`, with the elements that are left.
unfoldable pub slice_from : {A : Type 0} → List A → ℤ → Run (List A)
slice_from xs (pos n) = if ltb (length xs) n then panics else returns (drop n xs)
slice_from xs (negsuc n) = panics

-- `s[:k]` of a slice with the given capacity.
unfoldable pub slice_to : {A : Type 0} → List A → ℕ → ℤ → Run (List A)
slice_to xs capacity (pos n) = if ltb capacity n then panics else returns (take n xs)
slice_to xs capacity (negsuc n) = panics

infixl 5 ◌>>=R◌
abbrev pub ◌>>=R◌ : {A B : Type 0} → Run A → (A → Run B) → Run B
returns a >>=R f = f a
panics >>=R f = panics

-- The two slicings of `StreamList`: `capacity` is that of the slice which holds the streams.
unfoldable pub cut : {A : Type 0} → ℕ → List A → ℤ → ℤ → Run (List A)
unfolding slice_from slice_to
cut {A} capacity streams start_index end_index =
    let total = pos (length streams) in
    let rest : Run (List A × ℕ) =
      if ltb_ℤ start_index total
      then slice_from streams start_index
        >>=R (λ r. returns (r, length r + (capacity - length streams)))
      else returns ([], 0) in
    rest >>=R λ r.
    if ltb_ℤ end_index total then slice_to r.0 r.1 (end_index -ℤ start_index) else returns r.0

-- The page of the sorted streams, at the indices that its number and its size give.
unfoldable pub paginate : {A : Type 0} → ℕ → List A → ℤ → ℤ → Run (List A)
unfolding cut
paginate capacity streams page page_size =
    let start_index = (page -ℤ pos 1) *ℤ page_size in
    cut capacity streams start_index (start_index +ℤ page_size)

module _ ⦃x : Externals⦄ where
  -- The loop over the cursor: decode each value, and keep what fits.
  unfoldable pub collect : StreamFilter → List (String × x.bolt.Bytes) → Result (List StreamInfo)
  collect f [] = ok []
  collect f ((k, v) ∷ more) =
      let rest = collect f more in
      do
        r ← wrap_err "could not parse stream info" (x.stream_codec.unmarshal v)
        others ← rest
        ok (if is_stream_fits_filter r f then list_entry r ∷ others else others)

  -- The response for the sorted streams.
  unfoldable pub page_of : ℕ → StreamFilter → List StreamInfo → Run (Result StreamList)
  page_of capacity f streams = paginate capacity streams f.page f.page_size >>=R λ page. returns (
      ok (record {
        streams = page;
        page = f.page;
        page_size = f.page_size;
        count = length page;
        has_next = ltb_ℤ (f.page *ℤ f.page_size) (pos (length streams));
        total = length streams;
      }))

  -- What follows the loop over the cursor, and what follows the opening of the cursor.
  unfoldable pub sort_and_page :
      SortSlice StreamInfo
      → Server x
      → StreamFilter
      → Result (List StreamInfo)
      → Run (Result StreamList)
  sort_and_page sorting s f (err e) = returns (err e)
  sort_and_page sorting s f (ok streams) =
      page_of (size s.stream_storage) f (filter_streams sorting streams f.sort_by f.sort_order)

  unfoldable pub list_from :
      SortSlice StreamInfo
      → Server x
      → StreamFilter
      → Result (Cursor x.bolt)
      → Run (Result StreamList)
  list_from sorting s f (err e) = returns (err e)
  list_from sorting s f (ok cursor) = sort_and_page sorting s f (collect f cursor.whole)

  unfoldable pub stream_list :
      SortSlice StreamInfo → Server x → StreamFilter → Run (Result StreamList)
  unfolding list_from sort_and_page
  stream_list sorting s f =
      list_from sorting s f
        (wrap_err "could not fetch streams from storage" (all_values s.stream_storage))
