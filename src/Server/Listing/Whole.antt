-- ===== src/Server/Listing/Whole.antt =====
-- Reading the list page by page.
use cc_core_server.Common.{
  ℕ, zero, suc, ◌*◌, ◌^◌, ◌≤◌, ◌<◌, List, [], ◌++◌, ◌≡◌, refl, ap, sym, ◌∙◌, length, ◌-◌, drop,
  take, take_all, arith, Result, ok, err, returns, panics, Run,
}
use cc_core_server.Common.Int.{pos}
use cc_core_server.Service.{StreamFilter, StreamInfo, StreamList}
use cc_core_server.Server.{StreamRecord, Externals, Server}
use cc_core_server.Server.Listing.{SortSlice, is_stream_fits_filter, stream_list}
use cc_core_server.Server.Listing.Response.{decode_all, sorted_streams, stream_list-IsPage}
use cc_core_server.Server.Listing.Pages.{pages, pages-zero, pages-suc, pages-eq-take}

abbrev pub streams_of : Run (Result StreamList) → List StreamInfo
streams_of (returns (ok r)) = r.streams
streams_of (returns (err e)) = []
streams_of panics = []

module _ ⦃x : Externals⦄ where
  -- What requests for the pages 1 to k return, one after the other.
  pub read_pages : SortSlice StreamInfo → Server x → StreamFilter → ℕ → List StreamInfo
  read_pages sorting s f zero = []
  read_pages sorting s f (suc k) =
      read_pages sorting s f k
      ++ streams_of (stream_list sorting s (record f { page = pos (suc k) }))

module _ ⦃x : Externals⦄ (sorting : SortSlice StreamInfo) (s : Server x) (f : StreamFilter)
    (rs : List StreamRecord) (opened : x.bolt.begin s.stream_storage.db ≡ ok tt)
    (decoded : decode_all (x.bolt.entries s.stream_storage.db s.stream_storage.name) ≡ ok rs)
    (n : ℕ) (of_size : f.page_size ≡ pos n) (size_fits : n < 2 ^ 63) where
  read_pages-eq-pages :
      (k : ℕ)
      → k < 2 ^ 63
      → k * n < 2 ^ 63
      → read_pages sorting s f k ≡ pages k n (sorted_streams sorting f rs)
  unfolding read_pages is_stream_fits_filter
  read_pages-eq-pages zero h m = sym (pages-zero n (sorted_streams sorting f rs))
  read_pages-eq-pages (suc k) h m =
      let (r, e, page) =
        stream_list-IsPage sorting s (record f { page = pos (suc k) }) rs opened decoded (suc k) n
          refl of_size (omega arith) h size_fits m in
      rw (e, read_pages-eq-pages k (omega arith) (grind arith), page.streams, pages-suc)
        (ap
          (λ m.
            pages k n (sorted_streams sorting f rs)
            ++ take n (drop (m * n) (sorted_streams sorting f rs)))
          {x = suc k - 1} {y = k} (omega arith))

  -- With a database that can be read and records that can be decoded, for a page size and a number
  -- of pages whose product fits in an int and is not below the number of streams that fit the
  -- filter, the pages one after the other are all of these streams, sorted, each once.
  pub read_pages_lem :
      (k : ℕ)
      → k < 2 ^ 63
      → k * n < 2 ^ 63
      → length (sorted_streams sorting f rs) ≤ k * n
      → read_pages sorting s f k ≡ sorted_streams sorting f rs
  read_pages_lem k h m enough =
      read_pages-eq-pages k h m
      ∙ pages-eq-take k n (sorted_streams sorting f rs)
      ∙ take_all (k * n) (sorted_streams sorting f rs) enough
