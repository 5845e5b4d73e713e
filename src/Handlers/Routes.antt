-- ===== src/Handlers/Routes.antt =====
-- The table of routes and the way of a request through it (handler/router.go). gorilla/mux, which
-- matches a request with the table, is a parameter.
use cc_core_server.Common.{
  String, Bool, true, false, error_text, none, some, List, [], ◌∷◌, Run, returns, panics,
}
use cc_core_server.Common.SyncMap.{SyncMap}
use cc_core_server.Server.{Externals, Server}
use cc_core_server.Server.Lifecycle.{finish_stream}
use cc_core_server.Server.Running.{stream_info, stream_address, new_stream_host_token}
use cc_core_server.Server.Participants.Roster.{stream_participants, decide_participant_join}
use cc_core_server.Server.Avatars.{avatar_by_id}
use cc_core_server.Server.Info.{info, ping_server}
use cc_core_server.Models.{server_info_body, Response, write_json_response, write_error}
use cc_core_server.Checks.{parse_json_request}
use cc_core_server.Payload.{
  validate_create_stream, validate_participant_join, validate_patch_stream, blank_create_stream,
  blank_participant_join, blank_patch_stream,
}
use cc_core_server.Middleware.{ParticipantCtxData}
use cc_core_server.Handlers.{
  Http, Request, var, has, World, Drawn, responded, crashed, build_server_info_response,
  answer_ping, answer_avatar, answer_stream_info, answer_participants, answer_decision,
  answer_host_token, answer_proxy,
}
use cc_core_server.Common.{◌++◌, All, any, ◌≡◌}
use cc_core_server.Common.Text.{◌==◌}
use cc_core_server.Middleware.{
  Access, passed, refused, stream_auth, server_auth, status_unauthorized, auth_error,
}
use cc_core_server.Handlers.Endpoints.{
  Context, Handled, finished, create_parsed, patch_parsed, patch_participant_known, join_parsed,
  file_opened, subject_in,
}

pub data Endpoint : Type 0 where
  get_server_info ping add_avatar get_avatar get_stream_info join_stream create_stream : Endpoint
  new_auth_token get_stream_participants stream_proxy change_participant : Endpoint
  join_participant_decision end_stream change_stream : Endpoint

-- Which middleware is in front of a handler.
pub data Guard : Type 0 where
  public server_secured : Guard
  stream_secured : Bool → Guard

-- A route; without methods, it serves each.
pub record Route : Type 0 where
  pub path : String
  pub methods : List String
  pub endpoint : Endpoint
  pub guard : Guard

abbrev pub route : String → List String → Endpoint → Guard → Route
route path methods endpoint guard = record {
  path = path;
  methods = methods;
  endpoint = endpoint;
  guard = guard;
}

-- The routes that `New` registers behind `ServerAuthMiddleware`, or without it and without tokens.
abbrev pub server_routes : Bool → List Route
server_routes true =
    route "/stream" ("POST" ∷ []) create_stream server_secured
    ∷ route "/stream/{uuid}/token" ("GET" ∷ []) new_auth_token server_secured
    ∷ []
server_routes false = route "/stream" ("POST" ∷ []) create_stream public ∷ []

abbrev public_routes : List Route
public_routes =
    route "/" ("GET" ∷ []) get_server_info public
    ∷ route "/ping" [] ping public
    ∷ route "/avatar" ("POST" ∷ []) add_avatar public
    ∷ route "/avatar/{id}" ("GET" ∷ []) get_avatar public
    ∷ route "/stream/{uuid}" ("GET" ∷ []) get_stream_info public
    ∷ route "/stream/{uuid}/join" ("POST" ∷ []) join_stream public
    ∷ []

abbrev stream_routes : List Route
stream_routes =
    route "/stream/{uuid}/participants" ("GET" ∷ []) get_stream_participants (stream_secured false)
    ∷ route "/stream/{uuid}/service/{route:[a-zA-Z0-9=\\-\\/]+}" [] stream_proxy
        (stream_secured false)
    ∷ route "/stream/{uuid}/participants/me" ("PATCH" ∷ []) change_participant
        (stream_secured false)
    ∷ route "/stream/{uuid}/participants/{participantUUID}/decision" ("GET" ∷ [])
        join_participant_decision (stream_secured true)
    ∷ route "/stream/{uuid}" ("DELETE" ∷ []) end_stream (stream_secured true)
    ∷ route "/stream/{uuid}" ("PATCH" ∷ []) change_stream (stream_secured true)
    ∷ []

-- The routes of `New`, in the order of their registration.
unfoldable pub routes : Bool → List Route
routes secured = public_routes ++ server_routes secured ++ stream_routes

-- What mux makes of a request: a route with the variables of the path, or an answer of its own.
pub data Matched : Type 0 where
  matched : Route → SyncMap String → Matched
  unmatched : Response → Matched

abbrev pub serves : String → List String → Bool
serves method [] = true
serves method (m ∷ ms) = any (λ n. n == method) (m ∷ ms)

-- The route that is matched is one of the table, and serves the method of the request.
pub record Mux (h : Http) : Type 1 where
  pub match : List Route → Request h → Matched
  pub match-All :
      (rs : List Route) (r : Request h) (q : Route) (vars : SyncMap String)
      → match rs r ≡ matched q vars
      → (P : Route → Type 0) → All P rs
      → P q
  pub match-serves :
      (rs : List Route) (r : Request h) (q : Route) (vars : SyncMap String)
      → match rs r ≡ matched q vars
      → serves r.method q.methods ≡ true

abbrev no_context : Context
no_context = record { server_subject = none; participant = none }

-- What a middleware puts into the context.
abbrev pub with_subject : Access String → Run (Access Context)
with_subject (refused status e) = returns (refused status e)
with_subject (passed t) = returns (passed (record { server_subject = some t; participant = none }))

abbrev pub with_participant : Run (Access ParticipantCtxData) → Run (Access Context)
with_participant panics = panics
with_participant (returns (refused status e)) = returns (refused status e)
with_participant (returns (passed p)) =
    returns (passed (record { server_subject = none; participant = some p }))

module _ ⦃x : Externals⦄ (world : World) (d : Drawn x) where
  -- The handler of each endpoint, on the variables of its path and its context.
  unfoldable pub handle :
      Endpoint → Request world.http → SyncMap String → Context → Server x → Handled
  unfolding create_parsed patch_parsed patch_participant_known join_parsed file_opened finished
      answer_ping answer_avatar answer_stream_info answer_participants answer_decision
      answer_host_token answer_proxy build_server_info_response write_json_response
  handle get_server_info r vars c s = (
    responded (write_json_response 200 (server_info_body (build_server_info_response (info s)))),
    s,
  )
  handle ping r vars c s = (responded (answer_ping (ping_server s)), s)
  handle add_avatar r vars c s = file_opened world d s (world.http.form_file r.content "avatar")
  handle get_avatar r vars c s = (responded (answer_avatar (avatar_by_id s (var "id" vars))), s)
  handle get_stream_info r vars c s =
      (responded (answer_stream_info (stream_info s (var "uuid" vars))), s)
  handle join_stream r vars c s = join_parsed world d r (var "uuid" vars) s (
      parse_json_request blank_participant_join (validate_participant_join world.validation)
        (world.http.decode_participant_join r.content))
  handle create_stream r vars c s = create_parsed world d r c s (
      parse_json_request blank_create_stream (validate_create_stream world.validation)
        (world.http.decode_create_stream r.content))
  handle new_auth_token r vars c s = (
    responded (
        answer_host_token
          (new_stream_host_token s (var "uuid" vars) (subject_in c.server_subject))),
    s,
  )
  handle get_stream_participants r vars c s =
      (responded (answer_participants (stream_participants (var "uuid" vars) s)), s)
  handle stream_proxy r vars c s = (
    responded (answer_proxy world.http (var "route" vars) (stream_address s (var "uuid" vars))),
    s,
  )
  handle change_participant r vars c s =
      patch_participant_known world d r (var "uuid" vars) s c.participant
  handle join_participant_decision r vars c s = (
    responded (
        answer_decision (
          decide_participant_join (var "uuid" vars) (var "participantUUID" vars)
            (has "allowed" r.query) s)),
    s,
  )
  handle end_stream r vars c s = finished (finish_stream d.stream.now (var "uuid" vars) s)
  handle change_stream r vars c s = patch_parsed world d (var "uuid" vars) s (
      parse_json_request blank_patch_stream (validate_patch_stream world.validation)
        (world.http.decode_patch_stream r.content))

  -- The middleware of a route. With server security there is a key; a nil one would be
  -- dereferenced for a token that is not refused before.
  unfoldable pub guarded :
      Guard → Request world.http → SyncMap String → Server x → Run (Access Context)
  guarded public r vars s = returns (passed no_context)
  guarded server_secured r vars s = elim s.opts.public_key [
    | none ↦ elim (world.http.refused_unkeyed r.code_cord_auth) [
      | none ↦ panics
      | some e ↦ returns (refused status_unauthorized (auth_error (error_text e)))
    ]
    | some key ↦ with_subject (server_auth key r.code_cord_auth)
  ]
  guarded (stream_secured host_specific) r vars s =
      with_participant (stream_auth host_specific r.authorization (var "uuid" vars) s)

  unfoldable pub admitted :
      Endpoint → Request world.http → SyncMap String → Server x → Run (Access Context) → Handled
  unfolding handle write_error
  admitted e r vars s panics = (crashed, s)
  admitted e r vars s (returns (refused status why)) = (responded (write_error status why), s)
  admitted e r vars s (returns (passed c)) = handle e r vars c s

  unfoldable pub routed : Request world.http → Server x → Matched → Handled
  unfolding guarded admitted
  routed r s (unmatched answer) = (responded answer, s)
  routed r s (matched q vars) = admitted q.endpoint r vars s (guarded q.guard r vars s)

  -- A request to the router that `New` made for the options of the server.
  unfoldable pub serve : Mux world.http → Request world.http → Server x → Handled
  unfolding routed routes
  serve mux r s = routed r s (mux.match (routes s.opts.server_security_enabled) r)
