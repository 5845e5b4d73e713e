-- ===== src/Api/Paging.antt =====
-- How a query for streams is answered (handler/api/get_streams.go).
use mathlib.Core.Path.{subst}
use cc_core_server.Common.{
  ℕ, ◌*◌, ◌^◌, ◌<◌, true, List, [], ◌∷◌, map, take, drop, length, ok, returns, ◌≡◌, ◌∙◌, ◌↔◌, refl,
  ap, sym, arith,
}
use cc_core_server.Common.Int.{pos}
use cc_core_server.Service.{StreamFilter, StreamInfo, StreamList}
use cc_core_server.Server.{StreamRecord, Externals, Server}
use cc_core_server.Server.Listing.{SortSlice, filter_streams, collect}
use cc_core_server.Server.Listing.Fitting.{Collected, collect-Collected}
use cc_core_server.Server.Listing.Page.{page_start}
use cc_core_server.Server.Listing.Response.{
  decode_all, fitting, collect_lem, sorted_streams, IsPage, stream_list-IsPage,
}
use cc_core_server.Models.{
  StreamInfoResponse, StreamListResponse, stream_list_body, write_json_response,
}
use cc_core_server.Checks.{Validation, parsed}
use cc_core_server.Api.{
  Values, StreamListRequest, parse_url_request, filter_of, build_stream_info_response,
  build_stream_list_response, listed, request_parsed, get_streams,
}
use cc_core_server.Api.Requests.{pos-injective, parse_url_request-IsListRequest}

-- What an answer shows of a stream.
pub record IsShown (i : StreamInfo) (q : StreamInfoResponse) : Type 0 where
  pub uuid : q.uuid ≡ i.uuid
  pub name : q.name ≡ i.name
  pub description : q.description ≡ i.description
  pub ip : q.ip ≡ i.ip
  pub port : q.port ≡ i.port
  pub launch_mode : q.launch_mode ≡ i.launch_mode
  pub started_at : q.started_at ≡ i.started_at
  pub finished_at : q.finished_at ≡ i.finished_at
  pub status : q.status ≡ i.status
  pub join_policy : q.join.join_policy ≡ i.join.join_policy
  pub join_code : q.join.join_code ≡ i.join.join_code
  pub host_uuid : q.host.uuid ≡ i.host.uuid
  pub host_name : q.host.username ≡ i.host.username
  pub host_avatar : q.host.avatar_id ≡ i.host.avatar_id
  pub host_ip : q.host.ip ≡ i.host.ip

-- The same streams one by one.
pub data AreShown : List StreamInfo → List StreamInfoResponse → Type 0 where
  no_more : AreShown [] []
  one_more :
      {i : StreamInfo} {q : StreamInfoResponse} {is : List StreamInfo}
      {qs : List StreamInfoResponse}
      → IsShown i q
      → AreShown is qs
      → AreShown (i ∷ is) (q ∷ qs)

-- The answer shows page p, of n streams each, with its counts.
pub record IsAnswered (sorted : List StreamInfo) (p n : ℕ) (q : StreamListResponse) : Type 0 where
  pub streams : AreShown (take n (drop (page_start p n) sorted)) q.streams
  pub count : q.count ≡ length (take n (drop (page_start p n) sorted))
  pub total : q.total ≡ length sorted
  pub has_next : (q.has_next ≡ true) ↔ (p * n < length sorted)
  pub page : q.page ≡ pos p
  pub page_size : q.page_size ≡ pos n

-- The filter that a request asks for.
abbrev pub asked_filter : StreamListRequest → StreamFilter
asked_filter req = record {
  search_phrase = req.term;
  launch_modes = req.launch_modes;
  statuses = req.statuses;
  sort_by = req.sort_by;
  sort_order = req.sort_order;
  page_size = req.page_size;
  page = req.page;
}

shown : (i : StreamInfo) → IsShown i (build_stream_info_response i)
unfolding build_stream_info_response
shown i = record {
  uuid = refl;
  name = refl;
  description = refl;
  ip = refl;
  port = refl;
  launch_mode = refl;
  started_at = refl;
  finished_at = refl;
  status = refl;
  join_policy = refl;
  join_code = refl;
  host_uuid = refl;
  host_name = refl;
  host_avatar = refl;
  host_ip = refl;
}

all_shown : (is : List StreamInfo) → AreShown is (map build_stream_info_response is)
all_shown [] = no_more
all_shown (i ∷ is) = one_more (shown i) (all_shown is)

module _ ⦃x : Externals⦄ where
  IsPage-IsAnswered :
      (sorted : List StreamInfo) (p n : ℕ) (r : StreamList)
      → IsPage sorted p n r
      → IsAnswered sorted p n (build_stream_list_response r)
  unfolding build_stream_list_response
  IsPage-IsAnswered sorted p n r h = record {
    streams =
        subst (λ is. AreShown is (map build_stream_info_response r.streams)) h.streams
          (all_shown r.streams);
    count = h.count ∙ ap (λ (is : List StreamInfo). length is) h.streams;
    total = h.total;
    has_next = h.has_next;
    page = h.page;
    page_size = h.page_size;
  }

  -- A query that is accepted, for a page whose end fits in an int, of a server whose database can be
  -- read and whose records can be decoded, is answered with status 200 and a body that shows this
  -- page, stream by stream, with its counts: of the stored streams that fit the phrase, the modes
  -- and the statuses of the query, sorted by its field and its order.
  pub get_streams-IsPage :
      (v : Validation) (sorting : SortSlice StreamInfo) (s : Server x) (values : Values)
      (req : StreamListRequest) (rs : List StreamRecord) (p n : ℕ)
      → parse_url_request v values ≡ parsed req
      → x.bolt.begin s.stream_storage.db ≡ ok tt
      → decode_all (x.bolt.entries s.stream_storage.db s.stream_storage.name) ≡ ok rs
      → req.page ≡ pos p
      → req.page_size ≡ pos n
      → p * n < 2 ^ 63
      → (all : List StreamInfo) × Collected
          (asked_filter req)
          (x.bolt.entries s.stream_storage.db s.stream_storage.name)
          (ok all)
        × (q : StreamListResponse) × (get_streams v sorting s values
            ≡ returns (write_json_response 200 (stream_list_body q)))
        × IsAnswered (filter_streams sorting all req.sort_by req.sort_order) p n q
  unfolding get_streams request_parsed listed
  get_streams-IsPage v sorting s values req rs p n h opened decoded at_page of_size no_overflow =
      let q = parse_url_request-IsListRequest v values req h in
      let pp : p ≡ q.page = pos-injective (sym at_page ∙ q.at_page) in
      let nn : n ≡ q.size = pos-injective (sym of_size ∙ q.of_size) in
      let (r, e, page) =
        stream_list-IsPage sorting s (filter_of req) rs opened decoded p n at_page of_size
          (omega (arith, pp, q.first_page)) (omega (arith, pp, q.page_fits))
          (omega (arith, nn, q.size_fits)) no_overflow in
      let es = x.bolt.entries s.stream_storage.db s.stream_storage.name in
      let collected : collect (filter_of req) es ≡ ok (fitting (filter_of req) rs) =
        rw (collect_lem, decoded) refl in
      (
        fitting (filter_of req) rs,
        subst (Collected (filter_of req) es) collected (collect-Collected (filter_of req) es),
        build_stream_list_response r,
        ap (request_parsed sorting s) h ∙ ap listed e,
        IsPage-IsAnswered (sorted_streams sorting (filter_of req) rs) p n r page,
      )
