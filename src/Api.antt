-- ===== src/Api.antt =====
-- The endpoint that lists the streams: its request (handler/models/api.go), the checks of a request
-- (handler/middleware/request.go), its handler and its answer (handler/api/get_streams.go).
pub mod Requests
pub mod Paging
pub mod Endpoints
use cc_core_server.Common.{
  ℕ, zero, String, Bool, true, false, Option, none, some, List, [], ◌∷◌, ◌++◌, map, All, any,
  GoError, error_text, Result, ok, err, ◌>>=◌, wrap_err, Run, returns, panics, if◌then◌else◌, ◌≡◌,
}
use cc_core_server.Common.Int.{ℤ, pos, ltb_ℤ}
use cc_core_server.Common.Text.{◌==◌}
use cc_core_server.Common.SyncMap
use cc_core_server.Common.SyncMap.{SyncMap}
use cc_core_server.Common.Atoi.{atoi}
use cc_core_server.Service.{
  JoinPolicy, StreamLaunchMode, StreamStatus, Time, StreamFilter, StreamInfo, StreamList,
  launch_mode_standalone_app, launch_mode_docker_container, stream_status_running,
  stream_status_finished,
}
use cc_core_server.Checks.{Validation, one_of, Parsed, parsed, refused_request, validate_request}
use cc_core_server.Errors.{
  WebError, text_details, param_details, new, err_invalid_request, err_invalid_request_param,
  err_stream_list,
}
use cc_core_server.Models.{
  StreamInfoResponse, StreamListResponse, Response, stream_list_body, write_json_response,
  write_error,
}
use cc_core_server.Launch.{is_zero, or_default}
use cc_core_server.Server.{Externals, Server}
use cc_core_server.Server.Listing.{SortSlice, stream_list}

-- `url.Values`, and its `Get` and its index.
abbrev pub Values : Type 0
Values = SyncMap (List String)

abbrev pub first_of : Option (List String) → String
first_of none = ""
first_of (some []) = ""
first_of (some (v ∷ vs)) = v

abbrev pub all_of : Option (List String) → List String
all_of none = []
all_of (some vs) = vs

pub record StreamListRequest : Type 0 where
  pub term : String
  pub launch_modes : List StreamLaunchMode
  pub statuses : List StreamStatus
  pub sort_by : String
  pub sort_order : String
  pub page_size : ℤ
  pub page : ℤ

abbrev pub default_page_number : ℤ
default_page_number = pos 1

abbrev pub default_page_size : ℤ
default_page_size = pos 10

abbrev pub unless_zero : ℤ → ℤ → ℤ
unless_zero fallback n = if is_zero n then fallback else n

-- A numeric parameter, which is 0 if it is not given.
abbrev pub int_param : String → String → Result ℤ
int_param message s = if s == "" then ok (pos 0) else wrap_err message (atoi s)

-- `StreamListRequest.Build`.
unfoldable pub build : Values → Result StreamListRequest
build values = do
  size ← int_param "could not parse pageSize param" (first_of (SyncMap.load "pageSize" values))
  number ← int_param "could not parse page param" (first_of (SyncMap.load "page" values))
  ok (record {
    term = first_of (SyncMap.load "term" values);
    launch_modes = all_of (SyncMap.load "mode" values);
    statuses = all_of (SyncMap.load "status" values);
    sort_by = or_default (first_of (SyncMap.load "sortBy" values)) "uuid";
    sort_order = or_default (first_of (SyncMap.load "sortOrder" values)) "asc";
    page_size = unless_zero default_page_size size;
    page = unless_zero default_page_number number;
  })

-- The errors of the first value of a list that has some: a loop of `Validate`.
unfoldable pub check_each :
    Validation → String → List String → List String → List (String × GoError)
check_each v param allowed [] = []
check_each v param allowed (m ∷ ms) =
    let rest = check_each v param allowed ms in
    elim (v.filter ((param, v.check (one_of allowed ∷ []) m) ∷ [])) [
      | [] ↦ rest
      | ◌∷◌ e es ↦ e ∷ es
    ]

abbrev pub launch_modes_allowed : List String
launch_modes_allowed = launch_mode_docker_container ∷ launch_mode_standalone_app ∷ []

abbrev pub statuses_allowed : List String
statuses_allowed = stream_status_finished ∷ stream_status_running ∷ []

abbrev pub sort_fields_allowed : List String
sort_fields_allowed = "uuid" ∷ "name" ∷ "mode" ∷ "started" ∷ "status" ∷ []

abbrev pub sort_orders_allowed : List String
sort_orders_allowed = "asc" ∷ "desc" ∷ []

-- The checks of `Validate` that follow its loops.
abbrev pub field_checks : Validation → StreamListRequest → List (String × Result (Unit {0}))
field_checks v req =
    ("sortBy", v.check (one_of sort_fields_allowed ∷ []) req.sort_by)
    ∷ ("sortOrder", v.check (one_of sort_orders_allowed ∷ []) req.sort_order)
    ∷ ("pageSize", v.min (pos 1) req.page_size)
    ∷ ("page", v.min (pos 1) req.page)
    ∷ []

-- `return err` if there are errors, or go on.
abbrev pub errors_or : List (String × GoError) → List (String × GoError) → List (String × GoError)
errors_or [] rest = rest
errors_or (e ∷ es) rest = e ∷ es

-- `StreamListRequest.Validate`: no errors is nil.
unfoldable pub validate : Validation → StreamListRequest → List (String × GoError)
unfolding check_each
validate v req = errors_or (check_each v "mode" launch_modes_allowed req.launch_modes) (
    errors_or (check_each v "status" statuses_allowed req.statuses) (v.filter (field_checks v req)))

-- `ParseURLRequest`.
unfoldable pub built : Validation → Result StreamListRequest → Parsed StreamListRequest
unfolding validate_request validate
built v (err e) = refused_request (new err_invalid_request (text_details (error_text e)))
built v (ok req) = validate_request req (validate v req)

unfoldable pub parse_url_request : Validation → Values → Parsed StreamListRequest
unfolding built build
parse_url_request v values = built v (build values)

-- The filter that the handler makes of the request.
abbrev pub filter_of : StreamListRequest → StreamFilter
filter_of req = record {
  search_phrase = req.term;
  launch_modes = req.launch_modes;
  statuses = req.statuses;
  sort_by = req.sort_by;
  sort_order = req.sort_order;
  page_size = req.page_size;
  page = req.page;
}

-- `buildStreamListResponse`, and its loop.
unfoldable pub build_stream_info_response : StreamInfo → StreamInfoResponse
build_stream_info_response r = record {
  uuid = r.uuid;
  name = r.name;
  description = r.description;
  ip = r.ip;
  port = r.port;
  launch_mode = r.launch_mode;
  started_at = r.started_at;
  finished_at = r.finished_at;
  status = r.status;
  join = record { join_policy = r.join.join_policy; join_code = r.join.join_code };
  host = record {
    uuid = r.host.uuid;
    username = r.host.username;
    avatar_id = r.host.avatar_id;
    ip = r.host.ip;
  };
}

unfoldable pub build_stream_list_response : StreamList → StreamListResponse
unfolding build_stream_info_response
build_stream_list_response r = record {
  streams = map build_stream_info_response r.streams;
  page = r.page;
  page_size = r.page_size;
  count = r.count;
  has_next = r.has_next;
  total = r.total;
}

unfoldable pub listed : Run (Result StreamList) → Run Response
unfolding build_stream_list_response write_json_response write_error
listed panics = panics
listed (returns (err e)) =
    returns (write_error 500 (new err_stream_list (text_details (error_text e))))
listed (returns (ok streams)) =
    returns (write_json_response 200 (stream_list_body (build_stream_list_response streams)))

module _ ⦃x : Externals⦄ where
  unfoldable pub request_parsed :
      SortSlice StreamInfo → Server x → Parsed StreamListRequest → Run Response
  unfolding listed write_error
  request_parsed sorting s (refused_request e) = returns (write_error 400 e)
  request_parsed sorting s (parsed req) = listed (stream_list sorting s (filter_of req))

  -- `getStreams`.
  unfoldable pub get_streams : Validation → SortSlice StreamInfo → Server x → Values → Run Response
  unfolding request_parsed parse_url_request
  get_streams v sorting s values = request_parsed sorting s (parse_url_request v values)
