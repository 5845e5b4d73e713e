-- ===== src/Handlers.antt =====
-- The handlers of the public interface (handler/*.go, with UpgradeRequestToSSE of
-- handler/middleware/request.go and GetIP of util/net.go).
pub mod Endpoints
pub mod Routes
pub mod Effects
pub mod Guards
pub mod Isolation
pub mod Runs
pub mod Owners
pub mod Patches
use cc_core_server.Common.{
  ℕ, zero, String, Bool, true, false, ◌&&◌, ◌||◌, Option, none, some, List, [], ◌∷◌, map, GoError,
  error_text, is_not_exist, Result, ok, err, if◌then◌else◌, ◌≡◌,
}
use cc_core_server.Common.Int.{ℤ, pos, ltb_ℤ}
use cc_core_server.Common.Text.{◌==◌, ◌&◌, show_int}
use cc_core_server.Common.SyncMap
use cc_core_server.Common.SyncMap.{SyncMap}
use cc_core_server.Service.{
  StreamOwnerInfo, StreamPublicInfo, Participant, AuthInfo, ServerInfo, AvatarRestrictions,
  join_policy_by_code,
}
use cc_core_server.Launch.{Platform}
use cc_core_server.Server.{Externals, Server}
use cc_core_server.Server.Lifecycle.{Draw}
use cc_core_server.Server.Running.{stream_info, stream_address, new_stream_host_token}
use cc_core_server.Server.Participants.{Waiting}
use cc_core_server.Server.Participants.Roster.{stream_participants, decide_participant_join}
use cc_core_server.Server.Avatars.{Images, new_avatar, avatar_by_id}
use cc_core_server.Server.Info.{info, ping_server, avatar_restrictions}
use cc_core_server.Errors.{
  WebError, text_details, no_details, new, err_invalid_request, err_server_ping, err_stream_info,
  err_fetch_stream_participants, err_decide_participant_join, err_generate_access_token,
}
use cc_core_server.Models.{
  HostOwnerInfo, AuthorizationInfo, StreamOwnerInfoResponse, StreamPublicInfoResponse,
  ParticipantResponse, ServerInfoResponse, Body, no_body, error_body, server_info_body, pong_body,
  avatar_id_body, image_body, public_info_body, authorization_body, participants_body, Header,
  Response, write_json_response, write_error,
}
use cc_core_server.Checks.{Validation, Decoded}
use cc_core_server.Payload.{
  CreateStreamRequest, ParticipantJoinRequest, PatchStreamRequest, PatchParticipantRequest,
}
use cc_core_server.Api.{Values}

-- A file of a form: its size, the values of its `Content-Type`, and its bytes.
pub record UploadedFile : Type 0 where
  pub size : ℤ
  pub content_types : Option (List String)
  pub contents : List ℕ

-- net/http, encoding/json and jwt: what is read from a body, the answer of `http.Redirect`, and what
-- `jwt.Parse` refuses before it uses the key, a malformed token or another method of signing.
pub record Http : Type 1 where
  pub Content : Type 0
  pub decode_create_stream : Content → Decoded CreateStreamRequest
  pub decode_participant_join : Content → Decoded ParticipantJoinRequest
  pub decode_patch_stream : Content → Decoded PatchStreamRequest
  pub decode_patch_participant : Content → Decoded PatchParticipantRequest
  pub form_file : Content → String → Result UploadedFile
  pub refused_unkeyed : String → Option GoError
  pub redirect : String → ℕ → Response
  pub redirect-status : (url : String) (status : ℕ) → (redirect url status).status ≡ status

-- A request, as far as the program reads it: the method, the path, three headers (a header that is
-- missing reads as the empty text), the address of the client, the query and the body; `can_flush`
-- is whether the writer of the answer is an `http.Flusher`.
pub record Request (h : Http) : Type 0 where
  pub method : String
  pub path : String
  pub authorization : String
  pub code_cord_auth : String
  pub forwarded_for : String
  pub remote_addr : String
  pub query : Values
  pub content : h.Content
  pub can_flush : Bool

-- `mux.Vars(r)[name]`.
abbrev pub var : String → SyncMap String → String
var name vars = elim (SyncMap.load name vars) [ none ↦ "" | some v ↦ v ]

-- `r.URL.Query().Has(name)`.
abbrev pub has : String → Values → Bool
has name values = elim (SyncMap.load name values) [ none ↦ false | some vs ↦ true ]

-- `GetIP`.
unfoldable pub get_ip : {h : Http} → Request h → String
get_ip r = if r.forwarded_for == "" then r.remote_addr else r.forwarded_for

-- What is outside of the server: the system, the images, ozzo-validation and net/http.
pub record World : Type 1 where
  pub platform : Platform
  pub images : Images
  pub validation : Validation
  pub http : Http

-- What a request draws: what `NewStream` draws, with the time, and one more identifier.
pub record Drawn (x : Externals) : Type 0 where
  pub stream : Draw x
  pub uuid : String

-- What a handler comes to: its answer; or it waits for the host; or it panics, and nothing is
-- answered.
pub data Outcome (x : Externals) : Type 0 where
  responded : Response → Outcome x
  awaits : Waiting x → Outcome x
  crashed : Outcome x

-- `WriteJSONResponse(w, status, e.New(err.Error()))`.
unfoldable pub write_failure : ℕ → WebError → GoError → Response
unfolding write_error
write_failure status e cause = write_error status (new e (text_details (error_text cause)))

unfoldable pub build_server_info_response : ServerInfo → ServerInfoResponse
build_server_info_response i = record {
  name = i.name;
  description = i.description;
  version = i.version;
  additional_info = i.meta;
}

unfoldable pub build_public_info_response : StreamPublicInfo → StreamPublicInfoResponse
build_public_info_response i = record {
  uuid = i.uuid;
  name = i.name;
  description = i.description;
  join_policy = i.join_policy;
  started_at = i.started_at;
  finished_at = i.finished_at;
}

unfoldable pub build_stream_participant_response : Participant → ParticipantResponse
build_stream_participant_response p = record {
  uuid = p.uuid;
  name = p.name;
  avatar_id = p.avatar_id;
  status = p.status;
}

unfoldable pub build_stream_participants_response : List Participant → List ParticipantResponse
unfolding build_stream_participant_response
build_stream_participants_response ps = map build_stream_participant_response ps

unfoldable pub build_owner_info_response : StreamOwnerInfo → StreamOwnerInfoResponse
build_owner_info_response i = record {
  uuid = i.uuid;
  name = i.name;
  description = i.description;
  started_at = i.started_at;
  join_policy = i.join_policy;
  join_code = if i.join_policy == join_policy_by_code then i.join_code else "";
  port = i.port;
  ip = i.ip;
  launch_mode = i.launch_mode;
  host_info = record {
    uuid = i.host.uuid;
    username = i.host.username;
    avatar_id = i.host.avatar_id;
    ip = i.host.ip;
  };
  auth = elim i.auth [
    | none ↦ none
    | some a ↦ some (record { access_token = a.access_token; token_type = a.token_type })
  ];
}

abbrev pub default_server_pong_message : String
default_server_pong_message = "pong"

-- The answers of the handlers that only read, on what the server says.
unfoldable pub answer_ping : Result (Unit {0}) → Response
unfolding write_failure write_json_response
answer_ping (err e) = write_failure 500 err_server_ping e
answer_ping (ok u) = write_json_response 200 (pong_body default_server_pong_message)

-- The content type is set after the header is written, and so is not in it.
unfoldable pub answer_avatar : Result (List ℕ × String) → Response
unfolding write_failure
answer_avatar (err e) =
    if is_not_exist e
    then record { status = 404; header = []; body = no_body }
    else write_failure 400 err_invalid_request e
answer_avatar (ok (data_, content_type)) = record {
  status = 200;
  header = [];
  body = image_body data_;
}

unfoldable pub answer_stream_info : Result StreamPublicInfo → Response
unfolding write_failure write_json_response build_public_info_response
answer_stream_info (err e) = write_failure (if is_not_exist e then 404 else 500) err_stream_info e
answer_stream_info (ok i) =
    write_json_response 200 (public_info_body (build_public_info_response i))

unfoldable pub answer_participants : Result (List Participant) → Response
unfolding write_failure write_json_response build_stream_participants_response
answer_participants (err e) = write_failure 500 err_fetch_stream_participants e
answer_participants (ok ps) =
    write_json_response 200 (participants_body (build_stream_participants_response ps))

unfoldable pub answer_decision : {A : Type 0} → Result A → Response
unfolding write_failure write_json_response
answer_decision (err e) = write_failure 500 err_decide_participant_join e
answer_decision (ok a) = write_json_response 200 no_body

unfoldable pub answer_host_token : Result AuthInfo → Response
unfolding write_failure write_json_response
answer_host_token (err e) = write_failure 500 err_generate_access_token e
answer_host_token (ok a) =
    write_json_response 201
      (authorization_body (record { access_token = a.access_token; token_type = a.token_type }))

unfoldable pub answer_proxy : Http → String → Result String → Response
unfolding write_failure
answer_proxy h route (err e) = write_failure 500 err_stream_info e
answer_proxy h route (ok address) = h.redirect ("http://" & address & "/" & route) 308
