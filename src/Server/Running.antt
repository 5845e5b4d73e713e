-- ===== src/Server/Running.antt =====
-- What reads or patches a stream that is there: StreamInfo, StreamAddress, StreamKey, PatchStream
-- and NewStreamHostToken (server/stream.go).
pub mod Tokens
use mathlib.Core.Option
use cc_core_server.Common.{
  ℕ, zero, suc, ◌+◌, String, Bool, true, false, Option, none, some, List, [], ◌∷◌, GoError, plain,
  wrap, Result, ok, err, ◌>>=◌, ◌||◌, ◌&&◌, not, wrap_err, if◌then◌else◌, ◌≡◌, eqb, not_exist,
}
use cc_core_server.Common.Int.{ℤ, pos}
use cc_core_server.Common.Text.{◌==◌, ◌&◌}
use cc_core_server.Common.SyncMap
use cc_core_server.Common.SyncMap.{SyncMap}
use cc_core_server.Service.{
  JoinPolicy, StreamLaunchMode, StreamStatus, ParticipantStatus, Time, StreamParticipant,
  StreamConfig, StreamOwnerInfo, AuthInfo, StreamPublicInfo, HostInfo, PatchStreamConfig,
  StartStreamInfo, launch_mode_standalone_app, launch_mode_docker_container, stream_status_running,
  stream_status_finished, participant_status_active,
}
use cc_core_server.Storage.{Bolt, Codec, Bucket, load_value, store_value}
use cc_core_server.Launch.{
  RunningStream, Stream, Platform, standalone, docker_container, start, stop, tcp_address,
}
use cc_core_server.Server.{
  StreamRecord, JoinRecord, HostRecord, ClaimValue, text_claim, bool_claim, MapClaims, Externals,
  Call, launched, stopped, Task, listen_interrupt, add_participant, update_participant, Options,
  StreamModule, Server, not_running, running, stored, call, spawn,
}
use cc_core_server.Server.Records.{
  default_stream_token_type, stream_claims, build_stream_owner_info, default_mode, new_record,
  finish, or_keep, patch_record, host_participant, generate_stream_access_token,
}

module _ ⦃x : Externals⦄ where
  -- `StreamInfo`.
  unfoldable pub stream_info : Server x → String → Result StreamPublicInfo
  stream_info s uuid = elim (stored s uuid) [
    | none ↦ err not_exist
    | some (err e) ↦ err (wrap "could not decode stream data" e)
    | some (ok r) ↦ ok (record {
      uuid = uuid;
      name = r.name;
      description = r.description;
      join_policy = r.join.policy;
      started_at = r.started_at;
      finished_at = r.finished_at;
    })
  ]

  -- `StreamAddress` and `StreamKey`.
  unfoldable pub stream_address : Server x → String → Result String
  stream_address s uuid = elim (running s uuid) [
    | none ↦ err (not_running uuid)
    | some m ↦ ok m.serve_address
  ]

  unfoldable pub stream_key : Server x → String → Result x.PublicKey
  stream_key s uuid = elim (running s uuid) [
    | none ↦ err (not_running uuid)
    | some m ↦ ok m.public_key
  ]

  -- The stored record of a running stream, as `PatchStream`, `NewStreamHostToken` and
  -- `JoinParticipant` fetch it.
  unfoldable pub running_record : Server x → String → Result (StreamModule x × StreamRecord)
  running_record s uuid = elim (running s uuid) [
    | none ↦ err (not_running uuid)
    | some m ↦ elim (stored s uuid) [
      | none ↦ err (not_running uuid)
      | some (err e) ↦ err (wrap "could not decode stream data" e)
      | some (ok r) ↦ ok (m, r)
    ]
  ]

  -- `if cfg.Host != nil { go s.updateParticipantInfo(...) }`.
  abbrev pub notify_host : PatchStreamConfig → String → StreamRecord → Server x → Server x
  notify_host cfg uuid r s = elim cfg.host [
    | none ↦ s
    | some h ↦ spawn (update_participant uuid (host_participant r.host)) s
  ]

  -- The end of `PatchStream`, on the outcome of the store of the patched record.
  unfoldable pub patch_stored :
      PatchStreamConfig
      → String
      → StreamRecord
      → Server x
      → Result (Bucket x.bolt)
      → Result StreamOwnerInfo × Server x
  patch_stored cfg uuid r s (err e) = (err (wrap "could not update stream info" e), s)
  patch_stored cfg uuid r s (ok b) =
      (ok (build_stream_owner_info r ""), notify_host cfg uuid r (record s { stream_storage = b }))

  unfoldable pub patch_found :
      PatchStreamConfig
      → String
      → Server x
      → Result (StreamModule x × StreamRecord)
      → Result StreamOwnerInfo × Server x
  unfolding patch_stored
  patch_found cfg uuid s (err e) = (err e, s)
  patch_found cfg uuid s (ok (m, r)) =
      patch_stored cfg uuid (patch_record cfg r) s
        (store_value x.stream_codec s.stream_storage uuid (patch_record cfg r))

  unfoldable pub patch_stream :
      String → PatchStreamConfig → Server x → Result StreamOwnerInfo × Server x
  unfolding running_record patch_found
  patch_stream uuid cfg s = patch_found cfg uuid s (running_record s uuid)

  -- `NewStreamHostToken`: the answer from the token, the check of the subject, and the whole.
  unfoldable pub host_auth : Result String → Result AuthInfo
  host_auth (err e) = err (wrap "could not generate access token" e)
  host_auth (ok token) =
      ok (record { access_token = token; token_type = default_stream_token_type })

  unfoldable pub subject_verified : String → Bool → StreamModule x → StreamRecord → Result AuthInfo
  unfolding host_auth generate_stream_access_token
  subject_verified uuid true m r = err (plain "could not verify stream subject")
  subject_verified uuid false m r =
      host_auth (generate_stream_access_token uuid r.host.uuid true m.private_key)

  unfoldable pub host_token_found :
      String → String → Result (StreamModule x × StreamRecord) → Result AuthInfo
  unfolding subject_verified
  host_token_found uuid subject (err e) = err e
  host_token_found uuid subject (ok (m, r)) =
      subject_verified uuid (r.subject == "" || not (r.subject == subject)) m r

  unfoldable pub new_stream_host_token : Server x → String → String → Result AuthInfo
  unfolding running_record host_token_found
  new_stream_host_token s uuid subject = host_token_found uuid subject (running_record s uuid)
