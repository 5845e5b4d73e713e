-- ===== src/Tests/Requests.antt =====
-- Runs of the router on requests for a stream.
use cc_core_server.Common.{
  true, not, ◌||◌, none, some, [], ◌∷◌, plain, ok, err, returns, if◌then◌else◌, ◌≡◌, refl,
}
use cc_core_server.Common.Text.{◌==◌}
use cc_core_server.Common.SyncMap
use cc_core_server.Storage.{load_value, store_value}
use cc_core_server.Launch.{start, start_standalone, choose_port, free_port}
use cc_core_server.Server.{Server}
use cc_core_server.Server.Records.{new_record, patch_record, stream_claims}
use cc_core_server.Server.Lifecycle.{new_module, new_stream}
use cc_core_server.Server.Running.{patch_stream, host_auth, new_stream_host_token}
use cc_core_server.Server.Participants.{
  returned, join_participant, participants_or_none, resolve_join,
}
use cc_core_server.Server.Participants.Joining.{IsAdmitted, NotPending}
use cc_core_server.Server.Participants.Admitting.{resolve_join-returns}
use cc_core_server.Server.Invariant.{IsConsistent}
use cc_core_server.Models.{Response}
use cc_core_server.Checks.{byte_length, is_join_code, decoded, parsed, parse_json_request}
use cc_core_server.Payload.{
  PatchStreamRequest, validate_create_stream, blank_patch_stream, validate_patch_stream,
}
use cc_core_server.Payload.Accepted.{IsCreateRequest, parse_json_request-IsCreateRequest}
use cc_core_server.Handlers.Endpoints.{Context, patch_config, stream_config}
use cc_core_server.Handlers.Routes.{create_stream, handle, serve}
use cc_core_server.Handlers.Isolation.{IsAllowed, serve-IsAllowed}
use cc_core_server.Handlers.Runs.{request, decided, turns, turns-IsConsistent}
use cc_core_server.Handlers.Owners.{create_stream-new_stream_host_token}
use cc_core_server.Handlers.Patches.{only_code, patch_stream-host, patch_stream-no_more_joins}
use cc_core_server.Tests.Db.{stream_doc, participants_doc}
use cc_core_server.Tests.Sample.{sample, draw, empty_server}
use cc_core_server.Tests.Lifecycle.{one_stream, info}
use cc_core_server.Tests.Joins.{bob_waits}
use cc_core_server.Tests.Access.{bob}
use cc_core_server.Tests.Rules.{validation}
use cc_core_server.Tests.Web.{
  world, drawn, mux, create_request, post_stream, delete_stream, post_join,
}
use cc_core_server.Common.{ℕ}
use cc_core_server.Service.{JoinParticipantDecision}
use cc_core_server.Launch.{process}
use cc_core_server.Models.{owner_info_body, write_json_response}
use cc_core_server.Server.Records.{build_stream_owner_info, default_mode}
use cc_core_server.Server.Participants.{activate}
use cc_core_server.Handlers.{build_owner_info_response}
use cc_core_server.Tests.Lifecycle.{started}

serve-IsAllowed_example :
    IsAllowed world drawn delete_stream one_stream
      (serve world drawn mux delete_stream one_stream).1
      "s1"
serve-IsAllowed_example = serve-IsAllowed world drawn mux delete_stream one_stream "s1"

turns-IsConsistent_example : IsConsistent (
    turns world mux
      (request drawn post_stream
        ∷ request drawn post_join
        ∷ decided true bob_waits
        ∷ request drawn delete_stream
        ∷ [])
      empty_server)
turns-IsConsistent_example =
    turns-IsConsistent world mux
      (request drawn post_stream
        ∷ request drawn post_join
        ∷ decided true bob_waits
        ∷ request drawn delete_stream
        ∷ [])
      empty_server refl

parse_json_request-IsCreateRequest_example : IsCreateRequest create_request
unfolding parse_json_request validate_create_stream byte_length is_join_code
parse_json_request-IsCreateRequest_example =
    parse_json_request-IsCreateRequest validation (decoded create_request) create_request refl

abbrev by_administrator : Context
by_administrator = record { server_subject = some "administrator"; participant = none }

-- The server after this user has made a stream, and what he is told.
abbrev with_stream : Server sample
with_stream = (handle world drawn create_stream post_stream [] by_administrator empty_server).1

abbrev owner_answer : Response
owner_answer = write_json_response 201 (
    owner_info_body (
      build_owner_info_response (
        build_stream_owner_info
          (new_record (default_mode (stream_config create_request "10.0.0.1" "administrator")) "s1"
            "h1" started 100)
          "host-token")))

create_stream-new_stream_host_token_example :
    (key : ℕ) × (draw.key ≡ ok key)
    × (new_stream_host_token with_stream "s1" "administrator" ≡ (
        if "administrator" == "" || not ("administrator" == "administrator")
        then err (plain "could not verify stream subject")
        else host_auth (sample.sign key (stream_claims "s1" "h1" true))))
unfolding handle new_stream start start_standalone choose_port free_port store_value SyncMap.store
    SyncMap.load stream_config parse_json_request validate_create_stream byte_length is_join_code
create_stream-new_stream_host_token_example =
    create_stream-new_stream_host_token world drawn post_stream [] by_administrator empty_server
      with_stream owner_answer "administrator" refl refl

abbrev new_host : PatchStreamRequest
new_host = record {
  name = some "another talk";
  description = none;
  join = none;
  host = some (record { name = "mallory"; avatar_id = "" });
}

patch_stream-host_example : (patch_record (patch_config new_host) info).host ≡ info.host
unfolding patch_stream store_value SyncMap.load SyncMap.store load_value patch_record patch_config
    new_record
patch_stream-host_example =
    patch_stream-host new_host "s1" one_stream info (patch_record (patch_config new_host) info) refl
      refl

patch_stream-no_more_joins_example :
    (parse_json_request blank_patch_stream
        (validate_patch_stream validation)
        (decoded (only_code "654321"))
      ≡ returns (parsed (only_code "654321")))
    × ((join_participant "p1" "s1" "654321" bob
          (patch_stream "s1" (patch_config (only_code "654321")) one_stream).1).0
        ≡ returned (err (plain "unknown stream join policy")))
unfolding store_value SyncMap.load SyncMap.store load_value patch_record patch_config new_record
patch_stream-no_more_joins_example =
    patch_stream-no_more_joins validation "654321" "s1" one_stream
      (new_module ⦃x = sample⦄ 7 started (process 4242)) info
      (record {
        name = "stream";
        db =
            (
              "stream",
              ("s1", stream_doc (patch_record (patch_config (only_code "654321")) info)) ∷ [],
            )
            ∷ [];
      })
      "p1" "654321" bob refl refl refl

abbrev let_in : JoinParticipantDecision
let_in = record { join_allowed = true; access_token = "guest-token" }

resolve_join-returns_example :
    ((resolve_join true bob_waits one_stream).0 ≡ ok let_in)
    × IsAdmitted one_stream bob_waits let_in (resolve_join true bob_waits one_stream).1
    × NotPending (resolve_join true bob_waits one_stream).1 "s1" "p1"
unfolding participants_or_none store_value SyncMap.load SyncMap.store load_value
resolve_join-returns_example =
    resolve_join-returns bob_waits one_stream "guest-token" []
      (record {
        name = "participant";
        db =
            ("participant", ("s1", participants_doc (activate bob_waits.participant ∷ [])) ∷ [])
            ∷ [];
      })
      refl refl refl
