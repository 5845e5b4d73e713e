-- ===== src/Handlers/Endpoints.antt =====
-- The handlers that change the server or read the request (handler/*.go).
use cc_core_server.Common.{
  String, true, false, ◌&&◌, Option, none, some, List, [], ◌∷◌, error_text, Result, ok, err, Run,
  returns, panics, if◌then◌else◌,
}
use cc_core_server.Common.Int.{pos, ltb_ℤ, leb_ℤ}
use cc_core_server.Common.Text.{◌&◌, show_int}
use cc_core_server.Common.SyncMap
use cc_core_server.Common.SyncMap.{SyncMap}
use cc_core_server.Service.{
  StreamConfig, StreamOwnerInfo, Participant, JoinParticipantDecision, PatchStreamConfig,
}
use cc_core_server.Server.{Externals, Server}
use cc_core_server.Server.Lifecycle.{new_stream}
use cc_core_server.Server.Running.{patch_stream}
use cc_core_server.Server.Participants.{Progress, returned, waits, join_participant}
use cc_core_server.Server.Participants.Roster.{patch_participant}
use cc_core_server.Server.Avatars.{new_avatar}
use cc_core_server.Server.Info.{avatar_restrictions}
use cc_core_server.Errors.{
  text_details, no_details, new, err_invalid_request, err_sse_upgrade, err_auth, err_create_stream,
  err_finish_stream, err_update_stream, err_join_stream, err_update_participant_info,
}
use cc_core_server.Models.{
  no_body, error_body, avatar_id_body, owner_info_body, join_body, participant_body, Header,
  Response, write_json_response_after, write_json_response, write_error,
}
use cc_core_server.Checks.{Parsed, parsed, refused_request, parse_json_request}
use cc_core_server.Payload.{
  CreateStreamRequest, ParticipantJoinRequest, PatchStreamRequest, PatchParticipantRequest,
  validate_patch_participant, blank_patch_participant,
}
use cc_core_server.Middleware.{ParticipantCtxData}
use cc_core_server.Handlers.{
  UploadedFile, Request, get_ip, World, Drawn, Outcome, responded, awaits, crashed, write_failure,
  build_stream_participant_response, build_owner_info_response,
}

-- What the middlewares put into the context of a request.
pub record Context : Type 0 where
  pub server_subject : Option String
  pub participant : Option ParticipantCtxData

-- `UpgradeRequestToSSE`.
unfoldable pub upgrade_request_to_sse : String → Header → Header
unfolding SyncMap.store
upgrade_request_to_sse origin header = SyncMap.store "Connection" "keep-alive" (
    SyncMap.store "Cache-Control" "no-cache" (
      SyncMap.store "Content-Type" "text/event-stream" (
        SyncMap.store "Access-Control-Allow-Headers" "Content-Type"
          (SyncMap.store "Access-Control-Allow-Origin" origin header))))

abbrev sse_header : Header
sse_header = upgrade_request_to_sse "*" []

-- The subject of the context, if any.
abbrev pub subject_in : Option String → String
subject_in none = ""
subject_in (some subject) = subject

-- The configurations that the handlers make of their requests. That of a patch has no host: the
-- handler looks for the host in the configuration that it has just made, not in the request.
unfoldable pub stream_config : CreateStreamRequest → String → String → StreamConfig
stream_config req ip subject = record {
  name = req.name;
  description = req.description;
  join = record { join_policy = req.join.policy; join_code = req.join.code };
  launch = record {
    preferred_port = req.stream.preferred_port;
    preferred_ip = req.stream.preferred_ip;
    mode = req.stream.launch_mode;
  };
  host = record { username = req.host.name; avatar_id = req.host.avatar_id; ip = ip };
  subject = subject;
}

-- The configuration whose host is asked for, where the request's is meant: it is nil there.
unfoldable pub patch_config : PatchStreamRequest → PatchStreamConfig
patch_config req =
    let cfg : PatchStreamConfig = record {
      name = req.name;
      description = req.description;
      join = elim req.join [
        | none ↦ none
        | some j ↦ some (record { join_policy = j.policy; join_code = j.code })
      ];
      host = none;
    } in
    elim cfg.host [
      | none ↦ cfg
      | some h ↦ record cfg {
        host = elim req.host [
          | none ↦ none
          | some given ↦
              some (record { username = given.name; avatar_id = given.avatar_id; ip = "" })
        ];
      }
    ]

-- The end of `joinStream`, on what `JoinParticipant` returns, at once or after its wait.
unfoldable pub answer_join : Result JoinParticipantDecision → Response
unfolding write_json_response_after upgrade_request_to_sse
answer_join (err e) =
    write_json_response_after sse_header 500
      (error_body (new err_join_stream (text_details (error_text e))))
answer_join (ok d) =
    write_json_response_after sse_header 200
      (join_body (record { allowed = d.join_allowed; access_token = d.access_token }))

module _ ⦃x : Externals⦄ where
  abbrev pub Handled : Type 0
  Handled = Outcome x × Server x

  unfoldable pub finished : Result (Unit {0}) × Server x → Handled
  unfolding write_failure write_json_response
  finished (err e, s) = (responded (write_failure 500 err_finish_stream e), s)
  finished (ok u, s) = (responded (write_json_response 200 no_body), s)

  unfoldable pub created : Result StreamOwnerInfo × Server x → Handled
  unfolding write_failure write_json_response build_owner_info_response
  created (err e, s) = (responded (write_failure 500 err_create_stream e), s)
  created (ok i, s) =
      (responded (write_json_response 201 (owner_info_body (build_owner_info_response i))), s)

  unfoldable pub patched : Result StreamOwnerInfo × Server x → Handled
  unfolding write_failure write_json_response build_owner_info_response
  patched (err e, s) = (responded (write_failure 500 err_update_stream e), s)
  patched (ok i, s) =
      (responded (write_json_response 200 (owner_info_body (build_owner_info_response i))), s)

  unfoldable pub participant_patched : Result Participant × Server x → Handled
  unfolding write_failure write_json_response build_stream_participant_response
  participant_patched (err e, s) = (responded (write_failure 500 err_update_participant_info e), s)
  participant_patched (ok p, s) = (
    responded (write_json_response 200 (participant_body (build_stream_participant_response p))),
    s,
  )

  unfoldable pub joined : Progress x × Server x → Handled
  unfolding answer_join
  joined (returned r, s) = (responded (answer_join r), s)
  joined (waits w, s) = (awaits w, s)

  unfoldable pub avatar_added : Result String × Server x → Handled
  unfolding write_failure write_json_response
  avatar_added (err e, s) = (responded (write_failure 400 err_invalid_request e), s)
  avatar_added (ok id, s) = (responded (write_json_response 201 (avatar_id_body id)), s)

module _ ⦃x : Externals⦄ (world : World) (d : Drawn x) where
  -- `createStream`, on its parsed request.
  unfoldable pub create_parsed :
      Request world.http → Context → Server x → Run (Parsed CreateStreamRequest) → Handled
  unfolding created stream_config get_ip write_error
  create_parsed r c s panics = (crashed, s)
  create_parsed r c s (returns (refused_request e)) = (responded (write_error 400 e), s)
  create_parsed r c s (returns (parsed req)) = created (
      new_stream world.platform d.stream
        (stream_config req (get_ip r) (subject_in c.server_subject)) s)

  -- `patchStream`, on its parsed request.
  unfoldable pub patch_parsed : String → Server x → Run (Parsed PatchStreamRequest) → Handled
  unfolding patched patch_config write_error
  patch_parsed uuid s panics = (crashed, s)
  patch_parsed uuid s (returns (refused_request e)) = (responded (write_error 400 e), s)
  patch_parsed uuid s (returns (parsed req)) = patched (patch_stream uuid (patch_config req) s)

  -- `patchParticipant`, on its parsed request and on the context.
  unfoldable pub patch_participant_parsed :
      String → String → Server x → Run (Parsed PatchParticipantRequest) → Handled
  unfolding participant_patched write_error
  patch_participant_parsed stream_uuid uuid s panics = (crashed, s)
  patch_participant_parsed stream_uuid uuid s (returns (refused_request e)) =
      (responded (write_error 400 e), s)
  patch_participant_parsed stream_uuid uuid s (returns (parsed req)) =
      participant_patched (
        patch_participant stream_uuid uuid (record { name = req.name; avatar_id = req.avatar_id })
          s)

  unfoldable pub patch_participant_known :
      Request world.http → String → Server x → Option ParticipantCtxData → Handled
  unfolding patch_participant_parsed write_error
  patch_participant_known r stream_uuid s none =
      (responded (write_error 401 (new err_auth (text_details "invalid context data"))), s)
  patch_participant_known r stream_uuid s (some p) = patch_participant_parsed stream_uuid p.uuid s (
      parse_json_request blank_patch_participant (validate_patch_participant world.validation)
        (world.http.decode_patch_participant r.content))

  -- `joinStream`, on its parsed request.
  unfoldable pub join_parsed :
      Request world.http → String → Server x → Run (Parsed ParticipantJoinRequest) → Handled
  unfolding joined get_ip write_error write_json_response_after upgrade_request_to_sse
  join_parsed r stream_uuid s panics = (crashed, s)
  join_parsed r stream_uuid s (returns (refused_request e)) = (responded (write_error 400 e), s)
  join_parsed r stream_uuid s (returns (parsed req)) = elim r.can_flush [
    | false ↦ (
      responded
          (write_json_response_after sse_header 400 (error_body (new err_sse_upgrade no_details))),
      s,
    )
    | true ↦ joined (
        join_participant d.uuid stream_uuid req.join_code
          (record {
            uuid = "";
            name = req.name;
            avatar_id = req.avatar_id;
            ip = get_ip r;
            status = "";
          })
          s)
  ]

  -- `addAvatar`, on the values of the content type, and on the file.
  unfoldable pub avatar_typed : UploadedFile → Server x → List String → Handled
  unfolding avatar_added write_error
  avatar_typed file s [] = (
    responded (
        write_error 400
          (new err_invalid_request (text_details "could not detect content type of the image"))),
    s,
  )
  avatar_typed file s (content_type ∷ more) =
      avatar_added (new_avatar world.images d.uuid content_type file.contents s)

  unfoldable pub file_opened : Server x → Result UploadedFile → Handled
  unfolding avatar_typed write_failure write_error avatar_restrictions
  file_opened s (err e) = (responded (write_failure 400 err_invalid_request e), s)
  file_opened s (ok file) =
      let limit = (avatar_restrictions s).max_file_size in
      if ltb_ℤ (pos 0) limit && leb_ℤ limit file.size
      then (
        responded (
            write_error 400 (
              new err_invalid_request
                (text_details ("file size should be less than " & show_int limit & " bytes")))),
        s,
      )
      else avatar_typed file s (elim file.content_types [ none ↦ [] | some types ↦ types ])
