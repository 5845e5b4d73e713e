-- ===== src/Server/Lifecycle/Failure.antt =====
-- NewStream when it fails: no stream is added; and a process that was started before the failure is
-- stopped if it cannot be reached, but not if its record cannot be stored.
use cc_core_server.Common.{
  String, true, none, ◌∷◌, Result, ok, err, ◌≡◌, ◌∙◌, ap, sym, refl, arith, eq_iff, GoError, wrap,
}
use cc_core_server.Common.Text.{eq_refl, ◌&◌}
use mathlib.Core.Path.{subst}
use cc_core_server.Common.SyncMap
use cc_core_server.Service.{StreamConfig, StartStreamInfo}
use cc_core_server.Storage.{Bucket, store_value}
use cc_core_server.Launch.{RunningStream, Stream, Platform, tcp_address, start}
use cc_core_server.Server.{StreamRecord, Externals, Server, running, call, launched}
use cc_core_server.Server.Records.{default_mode, new_record, generate_stream_access_token}
use cc_core_server.Server.Start.{
  start_stream_and_connect, process_started, stream_connected, new_stream_handler,
  connect_to_stream, default_connect_to_stream_retry_count,
}
use cc_core_server.Server.Lifecycle.{
  Draw, stream_stored, stream_started, host_authorized, handler_chosen, key_generated, new_stream,
}
use cc_core_server.Server.Lifecycle.Frames.{running-kill_stream}
use cc_core_server.Server.Lifecycle.Finish.{calls-kill_stream-none}
use cc_core_server.Server.Lifecycle.Creation.{start-running}

module _ ⦃x : Externals⦄ where
  -- The same streams run, with the same modules.
  abbrev pub SameRunning : Server x → Server x → Type 0
  SameRunning s t = (j : String) → running t j ≡ running s j

  stream_stored-SameRunning :
      (d : Draw x) (key : x.PrivateKey) (started : StartStreamInfo) (r : RunningStream)
      (info : StreamRecord) (token : String) (t : Server x) (o : Result (Bucket x.bolt))
      (e : GoError)
      → running t d.stream_uuid ≡ none
      → (stream_stored d key started r info token t o).0 ≡ err e
      → SameRunning t (stream_stored d key started r info token t o).1
  unfolding stream_stored
  stream_stored-SameRunning d key started r info token t (err e') e fresh h j =
      ground (arith, running-kill_stream d.now t d.stream_uuid j, eq_iff d.stream_uuid j)
  stream_stored-SameRunning d key started r info token t (ok b) e fresh h j = cc h

  stream_started-SameRunning :
      (d : Draw x) (key : x.PrivateKey) (cfg : StreamConfig) (token : String)
      (o : Result (StartStreamInfo × RunningStream) × Server x) (e : GoError)
      → running o.1 d.stream_uuid ≡ none
      → (stream_started d key cfg token o).0 ≡ err e
      → SameRunning o.1 (stream_started d key cfg token o).1
  unfolding stream_started
  stream_started-SameRunning d key cfg token (err e', s) e fresh h = λ j. refl
  stream_started-SameRunning d key cfg token (ok (started, r), s) e fresh h =
      stream_stored-SameRunning d key started r _ token _ _ e fresh h

  host_authorized-SameRunning :
      (p : Platform) (d : Draw x) (key : x.PrivateKey) (cfg : StreamConfig) (stream : Stream)
      (s : Server x) (o : Result String) (e : GoError)
      → running s d.stream_uuid ≡ none
      → (host_authorized p d key cfg stream s o).0 ≡ err e
      → SameRunning s (host_authorized p d key cfg stream s o).1
  unfolding host_authorized
  host_authorized-SameRunning p d key cfg stream s (err e') e fresh h j = refl
  host_authorized-SameRunning p d key cfg stream s (ok token) e fresh h j =
      let same = ap (SyncMap.load j) (start-running p stream s).0 in
      let same_here = ap (SyncMap.load d.stream_uuid) (start-running p stream s).0 in
      stream_started-SameRunning d key cfg token (start_stream_and_connect p stream s) e
        (same_here ∙ fresh) h j
      ∙ same

  handler_chosen-SameRunning :
      (p : Platform) (d : Draw x) (key : x.PrivateKey) (cfg : StreamConfig) (s : Server x)
      (o : Result Stream) (e : GoError)
      → running s d.stream_uuid ≡ none
      → (handler_chosen p d key cfg s o).0 ≡ err e
      → SameRunning s (handler_chosen p d key cfg s o).1
  unfolding handler_chosen
  handler_chosen-SameRunning p d key cfg s (err e') e fresh h = λ j. refl
  handler_chosen-SameRunning p d key cfg s (ok stream) e fresh h =
      host_authorized-SameRunning p d key cfg stream s _ e fresh h

  key_generated-SameRunning :
      (p : Platform) (d : Draw x) (cfg : StreamConfig) (s : Server x) (o : Result x.PrivateKey)
      (e : GoError)
      → running s d.stream_uuid ≡ none
      → (key_generated p d cfg s o).0 ≡ err e
      → SameRunning s (key_generated p d cfg s o).1
  unfolding key_generated
  key_generated-SameRunning p d cfg s (err e') e fresh h = λ j. refl
  key_generated-SameRunning p d cfg s (ok key) e fresh h =
      handler_chosen-SameRunning p d key (default_mode cfg) s _ e fresh h

  -- A NewStream that returns an error, under a fresh identifier, leaves the same streams running.
  pub new_stream-SameRunning :
      (p : Platform) (d : Draw x) (cfg : StreamConfig) (s : Server x) (e : GoError)
      → running s d.stream_uuid ≡ none
      → (new_stream p d cfg s).0 ≡ err e
      → SameRunning s (new_stream p d cfg s).1
  unfolding new_stream
  new_stream-SameRunning p d cfg s = key_generated-SameRunning p d cfg s d.key

  -- Up to the start of the process, NewStream goes on in the same way.
  new_stream-start :
      (p : Platform) (d : Draw x) (cfg : StreamConfig) (s : Server x) (key : x.PrivateKey)
      (stream : Stream) (token : String)
      → d.key ≡ ok key
      → new_stream_handler s.opts (default_mode cfg) d.stream_uuid ≡ ok stream
      → generate_stream_access_token d.stream_uuid d.host_uuid true key ≡ ok token
      → new_stream p d cfg s
        ≡ stream_started d key (default_mode cfg) token (start_stream_and_connect p stream s)
  unfolding new_stream key_generated handler_chosen host_authorized
  new_stream-start p d cfg s key stream token hk hs ht =
      rw (hk, key_generated, hs, handler_chosen, ht)

  start-connected :
      (p : Platform) (stream : Stream) (s : Server x) (started : StartStreamInfo)
      (r : RunningStream)
      → start p stream ≡ ok (started, r)
      → connect_to_stream p
          (tcp_address started.ip started.port)
          default_connect_to_stream_retry_count
        ≡ ok tt
      → start_stream_and_connect p stream s ≡ (ok (started, r), call (launched r) s)
  unfolding start_stream_and_connect process_started stream_connected
  start-connected p stream s started r hr hc = rw (hr, hc)

  stream_started-leak :
      (d : Draw x) (key : x.PrivateKey) (cfg : StreamConfig) (token : String)
      (started : StartStreamInfo) (r : RunningStream) (s : Server x) (e : GoError)
      → store_value x.stream_codec s.stream_storage d.stream_uuid
          (new_record cfg d.stream_uuid d.host_uuid started d.now)
        ≡ err e
      → running s d.stream_uuid ≡ none
      → ((stream_started d key cfg token (ok (started, r), s)).0
          ≡ err (wrap ("could not store " & d.stream_uuid & " stream data") e))
        × ((stream_started d key cfg token (ok (started, r), s)).1.calls ≡ s.calls)
        × (running (stream_started d key cfg token (ok (started, r), s)).1 d.stream_uuid ≡ none)
  unfolding stream_started stream_stored
  stream_started-leak d key cfg token started r s e hd fresh =
      rw (hd, stream_stored)
        (
          refl,
          calls-kill_stream-none d.now _ d.stream_uuid fresh,
          running-kill_stream d.now _ d.stream_uuid d.stream_uuid ∙ rw eq_refl,
        )

  -- When the process of a stream under a fresh identifier is reached but its record cannot be
  -- stored, NewStream fails, has started the process and not stopped it, and the stream is not
  -- among the running ones.
  pub new_stream_leak :
      (p : Platform) (d : Draw x) (cfg : StreamConfig) (s : Server x) (key : x.PrivateKey)
      (stream : Stream) (token : String) (started : StartStreamInfo) (r : RunningStream)
      (e : GoError)
      → d.key ≡ ok key
      → new_stream_handler s.opts (default_mode cfg) d.stream_uuid ≡ ok stream
      → generate_stream_access_token d.stream_uuid d.host_uuid true key ≡ ok token
      → start p stream ≡ ok (started, r)
      → connect_to_stream p
          (tcp_address started.ip started.port)
          default_connect_to_stream_retry_count
        ≡ ok tt
      → store_value x.stream_codec s.stream_storage d.stream_uuid
          (new_record (default_mode cfg) d.stream_uuid d.host_uuid started d.now)
        ≡ err e
      → running s d.stream_uuid ≡ none
      → ((new_stream p d cfg s).0
          ≡ err (wrap ("could not store " & d.stream_uuid & " stream data") e))
        × ((new_stream p d cfg s).1.calls ≡ launched r ∷ s.calls)
        × (running (new_stream p d cfg s).1 d.stream_uuid ≡ none)
  new_stream_leak p d cfg s key stream token started r e hk hs ht hr hc hd fresh =
      subst
        (λ o.
          (o.0 ≡ err (wrap ("could not store " & d.stream_uuid & " stream data") e))
          × (o.1.calls ≡ launched r ∷ s.calls)
          × (running o.1 d.stream_uuid ≡ none))
        (sym (
          new_stream-start p d cfg s key stream token hk hs ht
          ∙ ap (stream_started d key (default_mode cfg) token)
              (start-connected p stream s started r hr hc)))
        (stream_started-leak d key (default_mode cfg) token started r (call (launched r) s) e hd
          fresh)
