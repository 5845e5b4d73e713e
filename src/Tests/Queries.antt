-- ===== src/Tests/Queries.antt =====
-- Queries for the list of streams.
use cc_core_server.Common.{List, [], ◌∷◌, ok, returns, ◌≡◌, refl, arith}
use cc_core_server.Common.Int.{pos}
use cc_core_server.Common.SyncMap
use cc_core_server.Common.Atoi.{atoi}
use cc_core_server.Service.{StreamInfo}
use cc_core_server.Server.Listing.{filter_streams}
use cc_core_server.Server.Listing.Fitting.{Collected}
use cc_core_server.Server.Listing.Response.{decode_all}
use cc_core_server.Models.{StreamListResponse, stream_list_body, write_json_response}
use cc_core_server.Api.{Values, StreamListRequest, parse_url_request, get_streams}
use cc_core_server.Api.Requests.{IsListRequest, parse_url_request-IsListRequest}
use cc_core_server.Api.Paging.{asked_filter, IsAnswered, get_streams-IsPage}
use cc_core_server.Tests.Sample.{sample}
use cc_core_server.Tests.Sorting.{insertion}
use cc_core_server.Tests.Listing.{three_streams, records}
use cc_core_server.Tests.Rules.{validation}

-- ?status=running&pageSize=1&page=2
abbrev query : Values
query = ("status", "running" ∷ []) ∷ ("pageSize", "1" ∷ []) ∷ ("page", "2" ∷ []) ∷ []

abbrev pub request : StreamListRequest
request = record {
  term = "";
  launch_modes = [];
  statuses = "running" ∷ [];
  sort_by = "uuid";
  sort_order = "asc";
  page_size = pos 1;
  page = pos 2;
}

parse_url_request-IsListRequest_example : IsListRequest request
unfolding parse_url_request SyncMap.load atoi
parse_url_request-IsListRequest_example =
    parse_url_request-IsListRequest validation query request refl

get_streams-IsPage_example :
    (all : List StreamInfo) × Collected ⦃x = sample⦄
      (asked_filter request)
      (sample.bolt.entries three_streams.stream_storage.db "stream")
      (ok all)
    × (q : StreamListResponse) × (get_streams validation insertion three_streams query
        ≡ returns (write_json_response 200 (stream_list_body q)))
    × IsAnswered (filter_streams insertion all "uuid" "asc") 2 1 q
unfolding parse_url_request SyncMap.load atoi decode_all
get_streams-IsPage_example =
    get_streams-IsPage validation insertion three_streams query request records 2 1 refl refl refl
      refl refl (omega arith)
