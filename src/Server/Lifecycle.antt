-- ===== src/Server/Lifecycle.antt =====
-- NewStream, killStream, FinishStream and the stop of the server (server/stream.go,
-- server/server.go).
pub mod Launching
pub mod Parts
pub mod Frames
pub mod Finish
pub mod Creation
pub mod Failure
pub mod Undoing
use mathlib.Core.Option
use cc_core_server.Common.{
  ℕ, zero, suc, ◌+◌, String, Bool, true, false, Option, none, some, map, error_text, List, [], ◌∷◌,
  GoError, plain, wrap, Result, ok, err, ◌>>=◌, ◌||◌, ◌&&◌, not, wrap_err, if◌then◌else◌, ◌≡◌, eqb,
  not_exist,
}
use cc_core_server.Common.Int.{ℤ, pos}
use cc_core_server.Common.Text.{◌==◌, ◌&◌}
use cc_core_server.Common.SyncMap
use cc_core_server.Common.SyncMap.{SyncMap}
use cc_core_server.Service.{
  JoinPolicy, StreamLaunchMode, StreamStatus, ParticipantStatus, Time, StreamParticipant,
  StreamConfig, StreamOwnerInfo, AuthInfo, StreamPublicInfo, HostInfo, PatchStreamConfig,
  StartStreamInfo, launch_mode_standalone_app, launch_mode_docker_container, stream_status_running,
  stream_status_finished, participant_status_active,
}
use cc_core_server.Storage.{Bolt, Codec, Bucket, load_value, store_value}
use cc_core_server.Launch.{
  RunningStream, Stream, Platform, standalone, docker_container, start, stop, tcp_address,
}
use cc_core_server.Server.{
  StreamRecord, JoinRecord, HostRecord, ClaimValue, text_claim, bool_claim, MapClaims, Externals,
  Call, launched, stopped, Task, listen_interrupt, add_participant, update_participant, Options,
  StreamModule, Server, not_running, running, stored, call, spawn,
}
use cc_core_server.Server.Records.{
  default_stream_token_type, stream_claims, build_stream_owner_info, default_mode, new_record,
  finish, or_keep, patch_record, host_participant, generate_stream_access_token,
}
use cc_core_server.Server.Start.{start_stream_and_connect, new_stream_handler}

-- What `NewStream` draws: the RSA key, the identifiers, and the time.
pub record Draw (x : Externals) : Type 0 where
  pub key : Result x.PrivateKey
  pub stream_uuid : String
  pub host_uuid : String
  pub now : Time

-- `fmt.Sprintf` of each error, and `strings.Join(errs, ";")`.
failures : List (String × Result (Unit {0})) → List String
failures [] = []
failures ((prefix, r) ∷ rest) =
    let more = failures rest in
    elim r [ ok u ↦ more | err e ↦ (prefix & ": " & error_text e) ∷ more ]

join_texts : String → List String → String
join_texts t [] = t
join_texts t (u ∷ us) = t & ";" & join_texts u us

join_errors : List String → Result (Unit {0})
join_errors [] = ok tt
join_errors (t ∷ ts) = err (plain (join_texts t ts))

module _ ⦃x : Externals⦄ where
  -- The outcome of a store: on an error, which is logged, nothing has changed.
  abbrev pub keep_bucket : Server x → Result (Bucket x.bolt) → Server x
  keep_bucket s (err e) = s
  keep_bucket s (ok b) = record s { stream_storage = b }

  abbrev pub finish_found : Time → String → Server x → Option (Result StreamRecord) → Server x
  finish_found now uuid s none = s
  finish_found now uuid s (some (err e)) = s
  finish_found now uuid s (some (ok r)) =
      keep_bucket s (store_value x.stream_codec s.stream_storage uuid (finish now r))

  -- The second half of `killStream`: the stored record, if any, is marked as finished.
  unfoldable pub finish_stored : Time → String → Server x → Server x
  finish_stored now uuid s = finish_found now uuid s (stored s uuid)

  -- The first half: a running stream is stopped, whatever `Stop` answers, and forgotten.
  unfoldable pub forget_running : String → Server x → Server x
  forget_running uuid s = elim (running s uuid) [
    | none ↦ s
    | some m ↦ record (call (stopped m.stream) s) { streams = SyncMap.delete uuid s.streams }
  ]

  unfoldable pub kill_stream : Time → String → Server x → Server x
  unfolding finish_stored forget_running
  kill_stream now uuid s = finish_stored now uuid (forget_running uuid s)

  -- The module that `NewStream` keeps for the stream.
  abbrev pub new_module : x.PrivateKey → StartStreamInfo → RunningStream → StreamModule x
  new_module key started r = record {
    stream = r;
    pending_participants = [];
    private_key = key;
    public_key = x.public_key key;
    serve_address = tcp_address started.ip started.port;
    handler_address = "http://" & tcp_address started.ip started.port;
  }

  -- The end of `NewStream`, on the outcome of the store of the record.
  unfoldable pub stream_stored :
      Draw x
      → x.PrivateKey
      → StartStreamInfo
      → RunningStream
      → StreamRecord
      → String
      → Server x
      → Result (Bucket x.bolt)
      → Result StreamOwnerInfo × Server x
  unfolding kill_stream
  stream_stored d key started r info token s (err e) = (
    err (wrap ("could not store " & d.stream_uuid & " stream data") e),
    kill_stream d.now d.stream_uuid s,
  )
  stream_stored d key started r info token s (ok b) = (
    ok (build_stream_owner_info info token),
    record s {
      stream_storage = b;
      streams = SyncMap.store d.stream_uuid (new_module key started r) s.streams;
      tasks = add_participant d.stream_uuid (host_participant info.host) ∷ s.tasks;
    },
  )

  -- The part of `NewStream` that follows the start.
  unfoldable pub stream_started :
      Draw x
      → x.PrivateKey
      → StreamConfig
      → String
      → Result (StartStreamInfo × RunningStream) × Server x
      → Result StreamOwnerInfo × Server x
  unfolding stream_stored
  stream_started d key cfg token (err e, s) = (err e, s)
  stream_started d key cfg token (ok (started, r), s) =
      let info = new_record cfg d.stream_uuid d.host_uuid started d.now in
      let s' : Server x = spawn (listen_interrupt d.stream_uuid r) s in
      stream_stored d key started r info token s'
        (store_value x.stream_codec s'.stream_storage d.stream_uuid info)

  unfoldable pub host_authorized :
      Platform
      → Draw x
      → x.PrivateKey
      → StreamConfig
      → Stream
      → Server x
      → Result String
      → Result StreamOwnerInfo × Server x
  unfolding stream_started start_stream_and_connect
  host_authorized p d key cfg stream s (err e) =
      (err (wrap "could not authorize host user for the stream" e), s)
  host_authorized p d key cfg stream s (ok token) =
      stream_started d key cfg token (start_stream_and_connect p stream s)

  unfoldable pub handler_chosen :
      Platform
      → Draw x
      → x.PrivateKey
      → StreamConfig
      → Server x
      → Result Stream
      → Result StreamOwnerInfo × Server x
  unfolding host_authorized generate_stream_access_token
  handler_chosen p d key cfg s (err e) = (err e, s)
  handler_chosen p d key cfg s (ok stream) =
      host_authorized p d key cfg stream s
        (generate_stream_access_token d.stream_uuid d.host_uuid true key)

  unfoldable pub key_generated :
      Platform
      → Draw x
      → StreamConfig
      → Server x
      → Result x.PrivateKey
      → Result StreamOwnerInfo × Server x
  unfolding handler_chosen new_stream_handler
  key_generated p d cfg s (err e) = (
    err (
        wrap "could not generate stream access keys" (wrap "could not generate private RSA key" e)),
    s,
  )
  key_generated p d cfg s (ok key) =
      handler_chosen p d key (default_mode cfg) s
        (new_stream_handler s.opts (default_mode cfg) d.stream_uuid)

  unfoldable pub new_stream :
      Platform → Draw x → StreamConfig → Server x → Result StreamOwnerInfo × Server x
  unfolding key_generated
  new_stream p d cfg s = key_generated p d cfg s d.key

  abbrev pub finish_found_stream :
      Time → String → Server x → Option (StreamModule x) → Result (Unit {0}) × Server x
  finish_found_stream now uuid s none = (err (not_running uuid), s)
  finish_found_stream now uuid s (some m) = (ok tt, kill_stream now uuid s)

  unfoldable pub finish_stream : Time → String → Server x → Result (Unit {0}) × Server x
  unfolding kill_stream
  finish_stream now uuid s = finish_found_stream now uuid s (running s uuid)

  unfoldable pub kill_all : Time → List String → Server x → Server x
  kill_all now [] s = s
  kill_all now (uuid ∷ uuids) s = kill_all now uuids (kill_stream now uuid s)

  -- `Stop`: every running stream is killed, then the servers and the storages are closed; `closed`
  -- are the five answers, with the text of each error.
  unfoldable pub stop_server :
      Time → List (String × Result (Unit {0})) → Server x → Result (Unit {0}) × Server x
  unfolding kill_all kill_stream failures join_errors join_texts
  stop_server now closed s =
      (join_errors (failures closed), kill_all now (map (λ e. e.0) s.streams) s)
