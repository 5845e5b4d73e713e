-- ===== src/Server/Isolation.antt =====
-- What the operations on one stream leave of the others.
pub mod Joins
use mathlib.Core.Option
use cc_core_server.Common.{
  ℕ, String, Bool, true, false, Option, none, some, List, [], Result, ok, err, if◌then◌else◌, ◌≡◌,
  ◌∙◌, ap, refl, arith,
}
use cc_core_server.Common.Text.{◌==◌}
use cc_core_server.Common.SyncMap
use cc_core_server.Common.SyncMap.{SyncMap, load-store}
use cc_core_server.Service.{
  Time, StartStreamInfo, StreamConfig, PatchStreamConfig, Participant, PatchParticipantConfig,
}
use cc_core_server.Storage.{Bucket, load_value, store_value}
use cc_core_server.Storage.Laws.{load_value-store_value}
use cc_core_server.Launch.{RunningStream, Stream, Platform}
use cc_core_server.Server.{
  StreamRecord, ParticipantRecord, Externals, StreamModule, Server, running, stored,
}
use cc_core_server.Server.Records.{default_mode, new_record, patch_record}
use cc_core_server.Server.Start.{start_stream_and_connect}
use cc_core_server.Server.Lifecycle.{
  Draw, kill_stream, new_module, stream_stored, stream_started, host_authorized, handler_chosen,
  key_generated, new_stream, finish_found_stream, finish_stream,
}
use cc_core_server.Server.Lifecycle.Frames.{running-kill_stream, stored-kill_stream_ne}
use cc_core_server.Server.Lifecycle.Creation.{start-running}
use cc_core_server.Server.Running.{running_record, patch_stored, patch_found, patch_stream}
use cc_core_server.Server.Avatars.{Images, new_avatar}
use cc_core_server.Server.Participants.Roster.{patch_participant}
use cc_core_server.Server.Participants.{
  Waiting, with_pending, update_pending, remove_pending, admit, after_answer, resolve_join,
  PolicyCase, auto_case, by_code_case, host_resolve_case, default_case, rejected, join_by_policy,
  join_found, join_participant,
}
use cc_core_server.Server.Invariant.Joins.{
  running-update_pending, storage-update_pending, admit-streams,
}

module _ ⦃x : Externals⦄ where
  -- A running stream but for its pending participants.
  abbrev pub bare : StreamModule x → StreamModule x
  bare m = with_pending (λ pending. []) m

  abbrev pub running_bare : Server x → String → Option (StreamModule x)
  running_bare s j = Option.map bare (running s j)

  -- The stream `j` runs in `t` as in `s`, or in neither, and is recorded the same.
  pub record SameStream (s t : Server x) (j : String) : Type 0 where
    pub runs : running_bare t j ≡ running_bare s j
    pub recorded : stored t j ≡ stored s j

  pub SameStream-refl : (s : Server x) (j : String) → SameStream s s j
  SameStream-refl s j = record { runs = refl; recorded = refl }

  pub SameStream-trans :
      (s t u : Server x) (j : String) → SameStream s t j → SameStream t u j → SameStream s u j
  SameStream-trans s t u j a b = record {
    runs = b.runs ∙ a.runs;
    recorded = b.recorded ∙ a.recorded;
  }

  pub SameStream-parts :
      (s t : Server x) (j : String)
      → t.streams ≡ s.streams
      → t.stream_storage ≡ s.stream_storage
      → SameStream s t j
  SameStream-parts s t j e e' = record {
    runs = ap (λ m. Option.map bare (SyncMap.load j m)) e;
    recorded = ap (λ b. load_value x.stream_codec b j) e';
  }

  kill_stream-SameStream :
      (now : Time) (s : Server x) (uuid j : String)
      → (uuid == j) ≡ false
      → SameStream s (kill_stream now uuid s) j
  kill_stream-SameStream now s uuid j other = record {
    runs = ap (Option.map bare) (running-kill_stream now s uuid j ∙ rw other refl);
    recorded = stored-kill_stream_ne now s uuid j other;
  }

  recorded_else :
      (s : Server x) (b : Bucket x.bolt) (uuid j : String) (r : StreamRecord)
      → store_value x.stream_codec s.stream_storage uuid r ≡ ok b
      → (uuid == j) ≡ false
      → load_value x.stream_codec b j ≡ stored s j
  recorded_else s b uuid j r done other =
      load_value-store_value x.stream_codec s.stream_storage b uuid j r done ∙ rw other refl

  stream_stored-SameStream :
      (d : Draw x) (key : x.PrivateKey) (started : StartStreamInfo) (r : RunningStream)
      (info : StreamRecord) (token : String) (s : Server x) (o : Result (Bucket x.bolt))
      (j : String)
      → (d.stream_uuid == j) ≡ false
      → store_value x.stream_codec s.stream_storage d.stream_uuid info ≡ o
      → SameStream s (stream_stored d key started r info token s o).1 j
  unfolding stream_stored
  stream_stored-SameStream d key started r info token s (err e) j other done =
      kill_stream-SameStream d.now s d.stream_uuid j other
  stream_stored-SameStream d key started r info token s (ok b) j other done = record {
    runs =
        ap (Option.map bare)
          (load-store d.stream_uuid j (new_module key started r) s.streams ∙ rw other refl);
    recorded = recorded_else s b d.stream_uuid j info done other;
  }

  stream_started-SameStream :
      (d : Draw x) (key : x.PrivateKey) (cfg : StreamConfig) (token : String)
      (o : Result (StartStreamInfo × RunningStream) × Server x) (j : String)
      → (d.stream_uuid == j) ≡ false
      → SameStream o.1 (stream_started d key cfg token o).1 j
  unfolding stream_started
  stream_started-SameStream d key cfg token (err e, s) j other = SameStream-refl s j
  stream_started-SameStream d key cfg token (ok (started, r), s) j other =
      let same =
        stream_stored-SameStream d key started r
          (new_record cfg d.stream_uuid d.host_uuid started d.now) token _ _ j other refl in
      record { runs = same.runs; recorded = same.recorded }

  host_authorized-SameStream :
      (p : Platform) (d : Draw x) (key : x.PrivateKey) (cfg : StreamConfig) (stream : Stream)
      (s : Server x) (o : Result String) (j : String)
      → (d.stream_uuid == j) ≡ false
      → SameStream s (host_authorized p d key cfg stream s o).1 j
  unfolding host_authorized
  host_authorized-SameStream p d key cfg stream s (err e) j other = SameStream-refl s j
  host_authorized-SameStream p d key cfg stream s (ok token) j other =
      SameStream-trans s (start_stream_and_connect p stream s).1 _ j
        (SameStream-parts s (start_stream_and_connect p stream s).1 j (start-running p stream s).0
          (start-running p stream s).1)
        (stream_started-SameStream d key cfg token (start_stream_and_connect p stream s) j other)

  handler_chosen-SameStream :
      (p : Platform) (d : Draw x) (key : x.PrivateKey) (cfg : StreamConfig) (s : Server x)
      (o : Result Stream) (j : String)
      → (d.stream_uuid == j) ≡ false
      → SameStream s (handler_chosen p d key cfg s o).1 j
  unfolding handler_chosen
  handler_chosen-SameStream p d key cfg s (err e) j other = SameStream-refl s j
  handler_chosen-SameStream p d key cfg s (ok stream) j other =
      host_authorized-SameStream p d key cfg stream s _ j other

  -- NewStream, whatever comes of it, leaves every stream but its own as it was.
  pub new_stream-SameStream :
      (p : Platform) (d : Draw x) (cfg : StreamConfig) (s : Server x) (j : String)
      → (d.stream_uuid == j) ≡ false
      → SameStream s (new_stream p d cfg s).1 j
  unfolding new_stream key_generated
  new_stream-SameStream p d cfg s j other = go d.key
    where
      go : (o : Result x.PrivateKey) → SameStream s (key_generated p d cfg s o).1 j
      go (err e) = SameStream-refl s j
      go (ok key) = handler_chosen-SameStream p d key (default_mode cfg) s _ j other

  pub finish_stream-SameStream :
      (now : Time) (uuid : String) (s : Server x) (j : String)
      → (uuid == j) ≡ false
      → SameStream s (finish_stream now uuid s).1 j
  unfolding finish_stream
  finish_stream-SameStream now uuid s j other = go (running s uuid)
    where
      go : (o : Option (StreamModule x)) → SameStream s (finish_found_stream now uuid s o).1 j
      go none = SameStream-refl s j
      go (some m) = kill_stream-SameStream now s uuid j other

  patch_stored-SameStream :
      (cfg : PatchStreamConfig) (uuid : String) (r : StreamRecord) (s : Server x)
      (o : Result (Bucket x.bolt)) (j : String)
      → (uuid == j) ≡ false
      → store_value x.stream_codec s.stream_storage uuid r ≡ o
      → SameStream s (patch_stored cfg uuid r s o).1 j
  unfolding patch_stored
  patch_stored-SameStream cfg uuid r s (err e) j other done = SameStream-refl s j
  patch_stored-SameStream cfg uuid r s (ok b) j other done = record {
    runs = ground arith;
    recorded =
        ap (λ c. load_value x.stream_codec c j) {y = b} (ground arith)
        ∙ recorded_else s b uuid j r done other;
  }

  pub patch_stream-SameStream :
      (uuid : String) (cfg : PatchStreamConfig) (s : Server x) (j : String)
      → (uuid == j) ≡ false
      → SameStream s (patch_stream uuid cfg s).1 j
  unfolding patch_stream patch_found
  patch_stream-SameStream uuid cfg s j other = go (running_record s uuid)
    where
      go :
          (o : Result (StreamModule x × StreamRecord)) → SameStream s (patch_found cfg uuid s o).1 j
      go (err e) = SameStream-refl s j
      go (ok (m, r)) = patch_stored-SameStream cfg uuid (patch_record cfg r) s _ j other refl
