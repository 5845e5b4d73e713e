-- ===== src/Api/Endpoints.antt =====
-- The other endpoints of the administration interface, and its routes (handler/api/).
use cc_core_server.Common.{
  ℕ, String, List, [], ◌∷◌, error_text, Result, ok, err, Run, returns, panics,
}
use cc_core_server.Common.Text.{◌&◌}
use cc_core_server.Common.SyncMap
use cc_core_server.Common.SyncMap.{SyncMap}
use cc_core_server.Service.{AuthInfo, StreamInfo, Time}
use cc_core_server.Server.{StandardClaims, Externals, Server}
use cc_core_server.Server.Lifecycle.{finish_stream}
use cc_core_server.Server.Listing.{SortSlice}
use cc_core_server.Server.Info.{info, ping_server}
use cc_core_server.Errors.{text_details, new, err_generate_token, err_backup_storage}
use cc_core_server.Models.{
  error_body, server_info_body, server_token_body, backup_body, Header, Response,
  write_json_response_after, write_json_response, write_error,
}
use cc_core_server.Checks.{Validation, Decoded, Parsed, parsed, refused_request, parse_json_request}
use cc_core_server.Payload.{
  GenerateServerTokenRequest, validate_generate_server_token, blank_generate_server_token,
}
use cc_core_server.Setup.{Surroundings}
use cc_core_server.Setup.Building.{storage_backup, new_server_token}
use cc_core_server.Api.{Values, get_streams}
use cc_core_server.Handlers.{
  Outcome, responded, crashed, var, write_failure, build_server_info_response, answer_ping,
}
use cc_core_server.Handlers.Endpoints.{Handled, finished}

pub data ApiEndpoint : Type 0 where
  get_server_info ping generate_token list_streams end_stream backup_storage : ApiEndpoint

-- A route of the table: its path, its methods (none for each), its handler.
pub record ApiRoute : Type 0 where
  pub path : String
  pub methods : List String
  pub endpoint : ApiEndpoint

abbrev route : String → List String → ApiEndpoint → ApiRoute
route path methods endpoint = record { path = path; methods = methods; endpoint = endpoint }

-- The routes of `New`; no middleware is in front of them.
abbrev pub api_routes : List ApiRoute
api_routes =
    route "/" ("GET" ∷ []) get_server_info
    ∷ route "/ping" [] ping
    ∷ route "/token" ("POST" ∷ []) generate_token
    ∷ route "/stream" ("GET" ∷ []) list_streams
    ∷ route "/stream/{uuid}" ("DELETE" ∷ []) end_stream
    ∷ route "/storage/{name}" ("GET" ∷ []) backup_storage
    ∷ []

-- A request: the variables of its path, its query, and what the decoder makes of its body; `stamp`
-- is the time in the form of a file name.
pub record ApiRequest : Type 0 where
  pub vars : SyncMap String
  pub query : Values
  pub token_request : Decoded GenerateServerTokenRequest
  pub now : Time
  pub stamp : String

-- The claims that `generateToken` asks for.
unfoldable pub claims_of : GenerateServerTokenRequest → StandardClaims
claims_of req = record {
  audience = req.audience;
  expires_at = req.expires_at;
  issued_at = req.issued_at;
  issuer = req.issuer;
  not_before = req.not_before;
  subject = req.subject;
}

unfoldable pub answer_token : Result AuthInfo → Response
unfolding write_failure write_json_response
answer_token (err e) = write_failure 500 err_generate_token e
answer_token (ok a) = write_json_response 201 (server_token_body a.access_token)

-- The header that `storageBackup` sets first.
unfoldable pub backup_header : String → String → Header
unfolding SyncMap.store
backup_header storage_name stamp = SyncMap.store "Content-Type" "application/octet-stream" (
    SyncMap.store "Content-Disposition"
      ("attachment; filename=backup_" & storage_name & "_" & stamp & ".db") [])

-- The end of `storageBackup`; a backup is taken to be written as a whole.
unfoldable pub answer_backup : String → String → Result (List ℕ) → Response
unfolding backup_header write_json_response_after
answer_backup storage_name stamp (err e) =
    write_json_response_after (backup_header storage_name stamp) 500
      (error_body (new err_backup_storage (text_details (error_text e))))
answer_backup storage_name stamp (ok bytes) = record {
  status = 200;
  header = backup_header storage_name stamp;
  body = backup_body bytes;
}

module _ ⦃x : Externals⦄ where
  unfoldable pub token_parsed : Server x → Run (Parsed GenerateServerTokenRequest) → Outcome x
  unfolding answer_token claims_of write_error
  token_parsed s panics = crashed
  token_parsed s (returns (refused_request e)) = responded (write_error 400 e)
  token_parsed s (returns (parsed req)) =
      responded (answer_token (new_server_token s (claims_of req)))

  abbrev pub list_answer : Run Response → Outcome x
  list_answer panics = crashed
  list_answer (returns a) = responded a

  -- The handler of each endpoint.
  unfoldable pub handle_api :
      Validation
      → SortSlice StreamInfo
      → Surroundings x
      → ApiEndpoint
      → ApiRequest
      → Server x
      → Handled
  unfolding token_parsed answer_backup finished answer_ping build_server_info_response
      write_json_response
  handle_api v sorting around get_server_info r s = (
    responded (write_json_response 200 (server_info_body (build_server_info_response (info s)))),
    s,
  )
  handle_api v sorting around ping r s = (responded (answer_ping (ping_server s)), s)
  handle_api v sorting around generate_token r s = (
    token_parsed s (
        parse_json_request blank_generate_server_token (validate_generate_server_token v)
          r.token_request),
    s,
  )
  handle_api v sorting around list_streams r s = (list_answer (get_streams v sorting s r.query), s)
  handle_api v sorting around end_stream r s = finished (finish_stream r.now (var "uuid" r.vars) s)
  handle_api v sorting around backup_storage r s = (
    responded
        (answer_backup (var "name" r.vars) r.stamp (storage_backup around s (var "name" r.vars))),
    s,
  )
