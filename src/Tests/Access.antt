-- ===== src/Tests/Access.antt =====
-- Participants that join, and tokens that open the endpoints of a stream.
use cc_core_server.Common.{true, false, none, some, ok, returns, ◌≡◌, refl}
use cc_core_server.Common.Text.{◌&◌, trim_prefix}
use cc_core_server.Common.SyncMap
use cc_core_server.Service.{Participant, AuthInfo}
use cc_core_server.Storage.{load_value, store_value}
use cc_core_server.Launch.{start, start_standalone, choose_port, free_port}
use cc_core_server.Server.{StreamRecord, stored}
use cc_core_server.Server.Records.{new_record}
use cc_core_server.Server.Lifecycle.{new_stream}
use cc_core_server.Server.Running.{new_stream_host_token}
use cc_core_server.Server.Running.Tokens.{IsHostToken, new_stream_host_token-IsHostToken}
use cc_core_server.Server.Invariant.{IsConsistent, IsConsistent-same, IsConsistent-empty}
use cc_core_server.Server.Invariant.Operations.{new_stream-IsConsistent}
use cc_core_server.Service.{PatchParticipantConfig}
use cc_core_server.Server.Participants.Patching.{stream_participants-patch_participant}
use cc_core_server.Server.Participants.Roster.{stream_participants, patch_participant}
use cc_core_server.Server.Participants.{join_participant, policy_case}
use cc_core_server.Server.Participants.Policy.{IsJoin, join_participant-IsJoin}
use cc_core_server.Middleware.Guests.{join_participant-stream_auth}
use cc_core_server.Middleware.{
  refused, auth_error, status_unauthorized, passed, stream_auth, ParticipantCtxData, bearer_prefix,
}
use cc_core_server.Middleware.Passing.{
  IsAuthorized, stream_auth-IsAuthorized, new_stream_host_token-stream_auth,
}
use cc_core_server.Tests.Sample.{sample, host_dialling, draw, config, empty_server}
use cc_core_server.Tests.Lifecycle.{one_stream}

one_stream-IsConsistent : IsConsistent one_stream
unfolding new_stream start start_standalone choose_port free_port store_value SyncMap.store
    SyncMap.load
one_stream-IsConsistent =
    IsConsistent-same (new_stream (host_dialling (ok tt)) draw (config "by_code") empty_server).1
      one_stream refl refl
      (new_stream-IsConsistent (host_dialling (ok tt)) draw (config "by_code") empty_server
        (IsConsistent-empty empty_server refl))

abbrev pub bob : Participant
bob = record { uuid = ""; name = "bob"; avatar_id = ""; ip = "10.0.0.2"; status = "" }

join_participant-IsJoin_example :
    IsJoin "p1" "s1" "1234" bob one_stream
      (record { join_allowed = true; access_token = "guest-token" })
      (join_participant "p1" "s1" "1234" bob one_stream).1
unfolding join_participant SyncMap.load SyncMap.store load_value store_value policy_case new_record
join_participant-IsJoin_example =
    join_participant-IsJoin "p1" "s1" "1234" bob one_stream
      (record { join_allowed = true; access_token = "guest-token" }) refl

abbrev host_auth_info : AuthInfo
host_auth_info = record { access_token = "host-token"; token_type = "bearer" }

new_stream_host_token-IsHostToken_example : IsHostToken one_stream "s1" "alice" host_auth_info
unfolding new_stream_host_token SyncMap.load load_value new_record
new_stream_host_token-IsHostToken_example =
    new_stream_host_token-IsHostToken one_stream "s1" "alice" host_auth_info one_stream-IsConsistent
      refl

abbrev the_host : ParticipantCtxData
the_host = record { uuid = "h1"; stream_uuid = "s1"; is_host = true }

stream_auth-IsAuthorized_example : IsAuthorized true "bearer host-token" "s1" one_stream the_host
unfolding stream_auth SyncMap.load
stream_auth-IsAuthorized_example =
    stream_auth-IsAuthorized true "bearer host-token" "s1" one_stream the_host refl

new_stream_host_token-stream_auth_example :
    (r : StreamRecord) × (stored one_stream "s1" ≡ some (ok r))
    × (stream_auth true (bearer_prefix & "host-token") "s1" one_stream
        ≡ returns (passed (record { uuid = r.host.uuid; stream_uuid = "s1"; is_host = true })))
unfolding new_stream_host_token SyncMap.load load_value trim_prefix new_record
new_stream_host_token-stream_auth_example =
    new_stream_host_token-stream_auth one_stream "s1" "alice" host_auth_info true
      one_stream-IsConsistent refl refl

abbrev carol : PatchParticipantConfig
carol = record { name = some "carol"; avatar_id = none }

stream_participants-patch_participant_example :
    stream_participants "s1"
      (patch_participant "s1" "p1" carol (join_participant "p1" "s1" "1234" bob one_stream).1).1
    ≡ stream_participants "s1" (join_participant "p1" "s1" "1234" bob one_stream).1
stream_participants-patch_participant_example =
    stream_participants-patch_participant "s1" "p1" "s1" carol
      (join_participant "p1" "s1" "1234" bob one_stream).1

join_participant-stream_auth_example :
    (stream_auth false
        (bearer_prefix & "guest-token")
        "s1"
        (join_participant "p1" "s1" "1234" bob one_stream).1
      ≡ returns (passed (record { uuid = "p1"; stream_uuid = "s1"; is_host = false })))
    × (stream_auth true
          (bearer_prefix & "guest-token")
          "s1"
          (join_participant "p1" "s1" "1234" bob one_stream).1
        ≡ returns (
            refused status_unauthorized
              (auth_error "only host of the stream has access to this endpoint")))
unfolding join_participant SyncMap.load SyncMap.store load_value store_value policy_case new_record
    trim_prefix
join_participant-stream_auth_example =
    join_participant-stream_auth "p1" "s1" "1234" bob one_stream
      (record { join_allowed = true; access_token = "guest-token" }) one_stream-IsConsistent refl
      refl
