-- ===== src/Client.antt =====
-- The client of the administration interface (cli/client.go). net/http, the encoding of queries and
-- the decoding of answers are parameters.
pub mod Queries
pub mod Answers
use cc_core_server.Common.{
  ℕ, String, Bool, true, false, not, List, [], ◌∷◌, GoError, plain, wrap, Result, ok, err, eqb,
  if◌then◌else◌,
}
use cc_core_server.Common.Int.{ℤ, pos}
use cc_core_server.Common.Text.{◌&◌, show_int}
use cc_core_server.Common.SyncMap
use cc_core_server.Errors.{WebError}
use cc_core_server.Models.{ServerInfoResponse, StreamListResponse}
use cc_core_server.Payload.{GenerateServerTokenRequest}
use cc_core_server.Api.{Values, StreamListRequest}

-- `RequestParams`, but for the targets of the decoders; the body by its JSON, if there is one.
pub record RequestParams : Type 0 where
  pub base_path : String
  pub method : String
  pub query_params : Values
  pub marshalled : Result (Unit {0})
  pub exp_status_code : ℕ

-- What comes back: the status with its text, the body decoded as an error of the server, and the
-- body as the call wants it.
pub record Reply (A : Type 0) : Type 0 where
  pub status_code : ℕ
  pub status : String
  pub as_error : Result WebError
  pub as_answer : Result A

-- What a call of the client comes to: an answer, an error of its own, or one that the server gave.
pub data Got (A : Type 0) : Type 0 where
  got : A → Got A
  failed : GoError → Got A
  server_error : WebError → Got A

abbrev pub status_ok : ℕ
status_ok = 200

module _ {A : Type 0} where
  unfoldable pub decoded_answer : Result A → Got A
  decoded_answer (err e) = failed (wrap "could not parse response body" e)
  decoded_answer (ok a) = got a

  unfoldable pub decoded_error : Reply A → Result WebError → Got A
  decoded_error r (err e) =
      failed (plain ("unexpected response: " & show_int (pos r.status_code) & " " & r.status))
  decoded_error r (ok e) = server_error e

  unfoldable pub replied : ℕ → Result (Reply A) → Got A
  unfolding decoded_answer decoded_error
  replied expected (err e) = failed (wrap "could not do request" e)
  replied expected (ok r) =
      if not (eqb r.status_code expected)
      then decoded_error r r.as_error
      else decoded_answer r.as_answer

  unfoldable pub request_made :
      RequestParams → (RequestParams → Result (Reply A)) → Result (Unit {0}) → Got A
  unfolding replied
  request_made params send (err e) = failed (wrap "could not create request" e)
  request_made params send (ok u) = replied params.exp_status_code (send params)

  unfoldable pub body_marshalled :
      RequestParams
      → (RequestParams → Result (Unit {0}))
      → (RequestParams → Result (Reply A))
      → Result (Unit {0})
      → Got A
  unfolding request_made
  body_marshalled params new_request send (err e) = failed (wrap "could not encode request body" e)
  body_marshalled params new_request send (ok u) = request_made params send (new_request params)

  -- `DoRequest`: `new_request` is the outcome of `http.NewRequestWithContext`, `send` that of
  -- `Do`.
  unfoldable pub do_request :
      (RequestParams → Result (Unit {0}))
      → (RequestParams → Result (Reply A))
      → RequestParams
      → Got A
  unfolding body_marshalled
  do_request new_request send params = body_marshalled params new_request send params.marshalled

-- The requests of the calls.
abbrev bodiless : String → String → Values → RequestParams
bodiless method path query = record {
  base_path = path;
  method = method;
  query_params = query;
  marshalled = ok tt;
  exp_status_code = status_ok;
}

abbrev pub info_params : RequestParams
info_params = bodiless "GET" "/" []

abbrev pub ping_params : RequestParams
ping_params = bodiless "GET" "/ping" []

-- `NewToken`, on the outcome of the encoding of its body.
abbrev pub new_token_params : Result (Unit {0}) → RequestParams
new_token_params marshalled = record (bodiless "POST" "/token" []) { marshalled = marshalled }

-- The query of `GetStreams`.
unfoldable pub stream_query : StreamListRequest → Values
unfolding SyncMap.store
stream_query filter =
    ("term", filter.term ∷ [])
    ∷ ("mode", filter.launch_modes)
    ∷ ("status", filter.statuses)
    ∷ ("sortBy", filter.sort_by ∷ [])
    ∷ ("sortOrder", filter.sort_order ∷ [])
    ∷ ("pageSize", show_int filter.page_size ∷ [])
    ∷ ("page", show_int filter.page ∷ [])
    ∷ []

abbrev pub get_streams_params : StreamListRequest → RequestParams
get_streams_params filter = bodiless "GET" "/stream" (stream_query filter)

abbrev pub finish_stream_params : String → RequestParams
finish_stream_params stream_uuid = bodiless "DELETE" ("/stream/" & stream_uuid) []

abbrev pub create_storage_backup_params : String → RequestParams
create_storage_backup_params storage_name = bodiless "GET" ("/storage/" & storage_name) []
