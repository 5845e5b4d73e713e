-- ===== src/Server/Lifecycle/Undoing.antt =====
-- What a NewStream that fails has done, and has undone (server/stream.go).
use cc_core_server.Common.{String, true, none, ◌∷◌, GoError, Result, ok, err, ◌≡◌, refl}
use cc_core_server.Common.Text.{◌&◌, show_int}
use cc_core_server.Service.{StreamConfig, StartStreamInfo}
use cc_core_server.Storage.{Bucket, store_value}
use cc_core_server.Launch.{RunningStream, Stream, Platform, start}
use cc_core_server.Server.{StreamRecord, Externals, Server, running, launched, stopped}
use cc_core_server.Server.Records.{default_mode, generate_stream_access_token}
use cc_core_server.Server.Start.{connect_to_stream, new_stream_handler}
use cc_core_server.Server.Lifecycle.{
  Draw, stream_stored, stream_started, host_authorized, handler_chosen, key_generated, new_stream,
}
use cc_core_server.Server.Lifecycle.Finish.{calls-kill_stream-none}
use cc_core_server.Server.Lifecycle.Launching.{
  IsAsked, handler-IsAsked, Launched, not_started, unreachable, reached, start-Launched,
}
use cc_core_server.Server.Lifecycle.Parts.{IsRecordOf, new_record-IsRecordOf}

module _ ⦃x : Externals⦄ where
  -- How far a failed NewStream came: nothing was started and the server is as before; or what the
  -- configuration asks for was started, could not be reached and was stopped again, and nothing
  -- else has changed; or it was reached, but the record of the stream could not be stored.
  pub data Fails (p : Platform) (d : Draw x) (cfg : StreamConfig) (s t : Server x) : Type 0 where
    before_start : t ≡ s → Fails p d cfg s t
    out_of_reach :
        (asked : Stream) (started : StartStreamInfo) (r : RunningStream) (c : GoError)
        → IsAsked s.opts cfg d.stream_uuid asked
        → start p asked ≡ ok (started, r)
        → connect_to_stream p (started.ip & ":" & show_int started.port) 6 ≡ err c
        → t ≡ record s { calls = stopped r ∷ launched r ∷ s.calls }
        → Fails p d cfg s t
    not_stored :
        (asked : Stream) (started : StartStreamInfo) (r : RunningStream) (made : StreamRecord)
        (c : GoError)
        → IsAsked s.opts cfg d.stream_uuid asked
        → start p asked ≡ ok (started, r)
        → connect_to_stream p (started.ip & ":" & show_int started.port) 6 ≡ ok tt
        → IsRecordOf d cfg started made
        → store_value x.stream_codec s.stream_storage d.stream_uuid made ≡ err c
        → t.calls ≡ launched r ∷ s.calls
        → Fails p d cfg s t

  stream_stored-err :
      (d : Draw x) (key : x.PrivateKey) (started : StartStreamInfo) (r : RunningStream)
      (made : StreamRecord) (token : String) (s : Server x) (o : Result (Bucket x.bolt))
      (e : GoError)
      → (stream_stored d key started r made token s o).0 ≡ err e
      → running s d.stream_uuid ≡ none
      → (c : GoError) × (o ≡ err c)
        × ((stream_stored d key started r made token s o).1.calls ≡ s.calls)
  unfolding stream_stored
  stream_stored-err d key started r made token s (err c) e h fresh =
      (c, refl, calls-kill_stream-none d.now s d.stream_uuid fresh)
  stream_stored-err d key started r made token s (ok b) e h fresh = absurd (cc)

  stream_started-Fails :
      (p : Platform) (d : Draw x) (key : x.PrivateKey) (cfg : StreamConfig) (stream : Stream)
      (token : String) (s : Server x) (o : Result (StartStreamInfo × RunningStream) × Server x)
      (e : GoError)
      → running s d.stream_uuid ≡ none
      → IsAsked s.opts cfg d.stream_uuid stream
      → Launched p stream s o
      → (stream_started d key (default_mode cfg) token o).0 ≡ err e
      → Fails p d cfg s (stream_started d key (default_mode cfg) token o).1
  unfolding stream_started
  stream_started-Fails p d key cfg stream token s _ e fresh asked (not_started e') h =
      before_start refl
  stream_started-Fails p d key cfg stream token s _ e fresh asked (unreachable i r e' c hr hc) h =
      out_of_reach stream i r c asked hr hc refl
  stream_started-Fails p d key cfg stream token s _ e fresh asked (reached started r hr hc) h =
      let (c, full, calls) = stream_stored-err d key started r _ token _ _ e h fresh in
      not_stored stream started r _ c asked hr hc (new_record-IsRecordOf d cfg started) full calls

  handler_chosen-Fails :
      (p : Platform) (d : Draw x) (key : x.PrivateKey) (cfg : StreamConfig) (s : Server x)
      (o : Result Stream) (e : GoError)
      → running s d.stream_uuid ≡ none
      → new_stream_handler s.opts (default_mode cfg) d.stream_uuid ≡ o
      → (handler_chosen p d key (default_mode cfg) s o).0 ≡ err e
      → Fails p d cfg s (handler_chosen p d key (default_mode cfg) s o).1
  unfolding handler_chosen host_authorized
  handler_chosen-Fails p d key cfg s (err e') e fresh chosen h = before_start refl
  handler_chosen-Fails p d key cfg s (ok stream) e fresh chosen h =
      authorized (generate_stream_access_token d.stream_uuid d.host_uuid true key) h
    where
      authorized :
          (o : Result String)
          → (host_authorized p d key (default_mode cfg) stream s o).0 ≡ err e
          → Fails p d cfg s (host_authorized p d key (default_mode cfg) stream s o).1
      authorized (err e') k = before_start refl
      authorized (ok token) k =
          stream_started-Fails p d key cfg stream token s _ e fresh
            (handler-IsAsked s.opts cfg d.stream_uuid stream chosen) (start-Launched p stream s) k

  -- A NewStream that returns an error, under a fresh identifier, leaves nothing running that it has
  -- started, unless the record could not be stored: either it has not changed the server, or all
  -- that it did was to start the process or the container that the configuration asks for and, as
  -- this could not be reached, to stop it again. Only where this was reached and the storage then
  -- refused the record of the stream, what was started is not stopped.
  pub new_stream-Fails :
      (p : Platform) (d : Draw x) (cfg : StreamConfig) (s : Server x) (e : GoError)
      → running s d.stream_uuid ≡ none
      → (new_stream p d cfg s).0 ≡ err e
      → Fails p d cfg s (new_stream p d cfg s).1
  unfolding new_stream key_generated
  new_stream-Fails p d cfg s e fresh h = go d.key h
    where
      go :
          (o : Result x.PrivateKey)
          → (key_generated p d cfg s o).0 ≡ err e
          → Fails p d cfg s (key_generated p d cfg s o).1
      go (err e') k = before_start refl
      go (ok key) k = handler_chosen-Fails p d key cfg s _ e fresh refl k
