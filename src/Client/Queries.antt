-- ===== src/Client/Queries.antt =====
-- The query of GetStreams, from the client to the server.
use cc_core_server.Common.{String, ok, ◌≡◌, refl}
use cc_core_server.Common.Int.{ℤ, pos}
use cc_core_server.Common.Text.{show_int}
use cc_core_server.Common.SyncMap
use cc_core_server.Common.Atoi.{IsInt}
use cc_core_server.Common.Decimal.{atoi-show_int, show_int_given}
use cc_core_server.Launch.{or_default}
use cc_core_server.Api.{Values, first_of, all_of, StreamListRequest, unless_zero, int_param, build}
use cc_core_server.Client.{stream_query}

-- `Encode` of a query on the client's side, and `Query` on the server's: the values of each name
-- arrive in their order; a name without values does not.
pub record UrlQuery : Type 0 where
  pub send : Values → Values
  pub first-send :
      (k : String) (v : Values) → first_of (SyncMap.load k (send v)) ≡ first_of (SyncMap.load k v)
  pub all-send :
      (k : String) (v : Values) → all_of (SyncMap.load k (send v)) ≡ all_of (SyncMap.load k v)

-- What a request asks for, with the defaults of the server in place of what is empty.
abbrev pub with_defaults : StreamListRequest → StreamListRequest
with_defaults req = record req {
  sort_by = or_default req.sort_by "uuid";
  sort_order = or_default req.sort_order "asc";
  page_size = unless_zero (pos 10) req.page_size;
  page = unless_zero (pos 1) req.page;
}

int_param-show_int : (message : String) (z : ℤ) → IsInt z → int_param message (show_int z) ≡ ok z
int_param-show_int message z h = rw (show_int_given z h, atoi-show_int z h) refl

-- The request of the client for a list of streams is the one that the server builds of its query,
-- with the defaults of the server for what is empty or 0, if its page and size are ints.
pub build-stream_query :
    (url : UrlQuery) (req : StreamListRequest)
    → IsInt req.page_size
    → IsInt req.page
    → build (url.send (stream_query req)) ≡ ok (with_defaults req)
unfolding build stream_query SyncMap.load
build-stream_query url req h k =
    rw
      (
        build,
        url.first-send "pageSize" (stream_query req),
        url.first-send "page" (stream_query req),
        url.first-send "term" (stream_query req),
        url.all-send "mode" (stream_query req),
        url.all-send "status" (stream_query req),
        url.first-send "sortBy" (stream_query req),
        url.first-send "sortOrder" (stream_query req),
      )
      (rw
        (
          int_param-show_int "could not parse pageSize param" req.page_size h,
          int_param-show_int "could not parse page param" req.page k,
        )
        refl)
