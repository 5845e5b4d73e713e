-- ===== src/Server/Listing/Response.antt =====
-- What StreamList answers: the requested page of the sorted streams that fit the filter.
use cc_core_server.Common.{
  ℕ, ◌*◌, ◌^◌, ◌≤◌, ◌<◌, String, List, [], ◌∷◌, ◌≡◌, ◌↔◌, refl, length, take, drop, arith, true,
  keep, map, Result, ok, >>=-eq-ok, ◌>>=◌, wrap_err, returns,
}
use cc_core_server.Common.Int.{ℤ, pos, *ℤ-pos, ltb_ℤ, ◌*ℤ◌}
use cc_core_server.Service.{StreamFilter, StreamInfo, StreamList}
use cc_core_server.Storage.{size}
use cc_core_server.Storage.Laws.{all_values-eq-ok}
use cc_core_server.Server.{StreamRecord, Externals, Server}
use cc_core_server.Server.Listing.{
  SortSlice, collect, filter_streams, is_stream_fits_filter, list_entry, page_of, paginate,
  stream_list,
}
use cc_core_server.Server.Listing.Order.{length-perm, filter_streams-perm}
use cc_core_server.Server.Listing.Page.{page_start, paginate_lem}

module _ ⦃x : Externals⦄ where
  -- The records that the values decode to.
  unfoldable pub decode_all : List (String × x.bolt.Bytes) → Result (List StreamRecord)
  decode_all [] = ok []
  decode_all ((k, v) ∷ more) = do
    r ← wrap_err "could not parse stream info" (x.stream_codec.unmarshal v)
    rs ← decode_all more
    ok (r ∷ rs)

  abbrev pub fitting : StreamFilter → List StreamRecord → List StreamInfo
  fitting f rs = map list_entry (keep (λ r. is_stream_fits_filter r f) rs)

  pub collect_lem :
      (f : StreamFilter) (es : List (String × x.bolt.Bytes))
      → collect f es ≡ (do rs ← decode_all es; ok (fitting f rs))
  unfolding collect decode_all
  collect_lem f [] = refl
  collect_lem f ((k, v) ∷ more) = ground (arith, collect_lem f more)

  length-collect :
      (f : StreamFilter) (es : List (String × x.bolt.Bytes)) (ss : List StreamInfo)
      → collect f es ≡ ok ss
      → length ss ≤ length es
  unfolding collect
  length-collect f [] ss h = ground arith
  length-collect f ((k, v) ∷ more) ss h =
      let (r, hr, h') =
        >>=-eq-ok (wrap_err "could not parse stream info" (x.stream_codec.unmarshal v)) _ h in
      let (others, ho, h'') = >>=-eq-ok (collect f more) _ h' in
      ground (arith, length-collect f more others ho)

  -- The sorted streams that the response shows a page of.
  abbrev pub sorted_streams :
      SortSlice StreamInfo → StreamFilter → List StreamRecord → List StreamInfo
  sorted_streams sorting f rs = filter_streams sorting (fitting f rs) f.sort_by f.sort_order

  -- The fields of a response for page p of n streams each.
  pub record IsPage (sorted : List StreamInfo) (p n : ℕ) (r : StreamList) : Type 0 where
    pub streams : r.streams ≡ take n (drop (page_start p n) sorted)
    pub count : r.count ≡ length r.streams
    pub total : r.total ≡ length sorted
    pub has_next : (r.has_next ≡ true) ↔ (p * n < length sorted)
    pub page : r.page ≡ pos p
    pub page_size : r.page_size ≡ pos n

module _ ⦃x : Externals⦄ (sorting : SortSlice StreamInfo) (s : Server x) (f : StreamFilter)
    (rs : List StreamRecord) (opened : x.bolt.begin s.stream_storage.db ≡ ok tt)
    (decoded : decode_all (x.bolt.entries s.stream_storage.db s.stream_storage.name) ≡ ok rs)
    (p n : ℕ) (at_page : f.page ≡ pos p) (of_size : f.page_size ≡ pos n) (first : 1 ≤ p)
    (page_fits : p < 2 ^ 63) (size_fits : n < 2 ^ 63) (no_overflow : p * n < 2 ^ 63) where
  collected :
      collect f (x.bolt.entries s.stream_storage.db s.stream_storage.name) ≡ ok (fitting f rs)
  collected = rw (collect_lem, decoded)

  room : length (sorted_streams sorting f rs) ≤ size s.stream_storage
  unfolding size
  room = omega (
    arith,
    length-collect f (x.bolt.entries s.stream_storage.db s.stream_storage.name) (fitting f rs)
        collected,
    length-perm (filter_streams-perm sorting (fitting f rs) f.sort_by f.sort_order),
  )

  abbrev response : StreamList
  response =
      let page = take n (drop (page_start p n) (sorted_streams sorting f rs)) in
      record {
        streams = page;
        page = f.page;
        page_size = f.page_size;
        count = length page;
        has_next = ltb_ℤ (f.page *ℤ f.page_size) (pos (length (sorted_streams sorting f rs)));
        total = length (sorted_streams sorting f rs);
      }

  pages_at :
      (page size : ℤ)
      → page ≡ pos p
      → size ≡ pos n
      → (capacity : ℕ) (xs : List StreamInfo) → length xs ≤ capacity
      → paginate capacity xs page size ≡ returns (take n (drop (page_start p n) xs))
  pages_at page size hp hn capacity xs h =
      rw (hp, hn) (paginate_lem capacity xs h p n first page_fits size_fits no_overflow)

  next_at :
      (page size : ℤ)
      → page ≡ pos p
      → size ≡ pos n
      → (len : ℕ) → (ltb_ℤ (page *ℤ size) (pos len) ≡ true) ↔ (p * n < len)
  next_at page size hp hn len =
      rw (hp, hn, *ℤ-pos p n page_fits size_fits no_overflow) (ground arith)

  page_of-response :
      page_of (size s.stream_storage) f (sorted_streams sorting f rs) ≡ returns (ok response)
  unfolding page_of
  page_of-response = rw (
      pages_at f.page f.page_size at_page of_size (size s.stream_storage)
        (sorted_streams sorting f rs) room)

  stream_list-response : stream_list sorting s f ≡ returns (ok response)
  unfolding stream_list
  stream_list-response = rw (all_values-eq-ok s.stream_storage opened, collected) page_of-response

  -- With a database that can be read and records that can be decoded, for a page from 1 on whose
  -- end fits in an int, StreamList does not panic and answers this page of the sorted streams that
  -- fit the filter, with its counts.
  pub stream_list-IsPage :
      (r : StreamList) × (stream_list sorting s f ≡ returns (ok r))
      × IsPage (sorted_streams sorting f rs) p n r
  stream_list-IsPage = (
    response,
    stream_list-response,
    record {
      streams = refl;
      count = refl;
      total = refl;
      has_next = next_at f.page f.page_size at_page of_size (length (sorted_streams sorting f rs));
      page = at_page;
      page_size = of_size;
    },
  )
