-- ===== src/Server/Lifecycle/Finish.antt =====
-- FinishStream: what it has done when it returns, and that it works once.
use cc_core_server.Common.{
  String, false, Option, none, some, ◌∷◌, Result, ok, err, ◌≡◌, ◌∙◌, refl, arith,
}
use cc_core_server.Common.Text.{◌==◌, eq_refl}
use cc_core_server.Service.{Time}
use cc_core_server.Storage.{Bucket, store_value}
use cc_core_server.Server.{
  StreamRecord, Externals, StreamModule, Server, running, stored, stopped, not_running,
}
use cc_core_server.Server.Records.{finish}
use cc_core_server.Server.Lifecycle.{
  forget_running, keep_bucket, finish_found, kill_stream, finish_stream, finish_found_stream,
}
use cc_core_server.Server.Lifecycle.Frames.{
  running-kill_stream, stored-kill_stream, stored-kill_stream_ne,
}

module _ ⦃x : Externals⦄ where
  calls-keep_bucket :
      (s : Server x) (o : Result (Bucket x.bolt)) → (keep_bucket s o).calls ≡ s.calls
  calls-keep_bucket s (err e) = refl
  calls-keep_bucket s (ok b) = refl

  calls-finish_found :
      (now : Time) (s : Server x) (uuid : String) (o : Option (Result StreamRecord))
      → (finish_found now uuid s o).calls ≡ s.calls
  calls-finish_found now s uuid none = refl
  calls-finish_found now s uuid (some (err e)) = refl
  calls-finish_found now s uuid (some (ok r)) =
      calls-keep_bucket s (store_value x.stream_codec s.stream_storage uuid (finish now r))

  -- A kill stops the process of the stream.
  pub calls-kill_stream :
      (now : Time) (s : Server x) (uuid : String) (m : StreamModule x)
      → running s uuid ≡ some m
      → (kill_stream now uuid s).calls ≡ stopped m.stream ∷ s.calls
  unfolding kill_stream
  calls-kill_stream now s uuid m h =
      let s' = forget_running uuid s in
      calls-finish_found now s' uuid (stored s' uuid) ∙ ground arith

  -- A kill of what does not run calls nobody.
  pub calls-kill_stream-none :
      (now : Time) (s : Server x) (uuid : String)
      → running s uuid ≡ none
      → (kill_stream now uuid s).calls ≡ s.calls
  unfolding kill_stream
  calls-kill_stream-none now s uuid h =
      let s' = forget_running uuid s in
      calls-finish_found now s' uuid (stored s' uuid) ∙ ground arith

  -- The server after a stream has been finished at a time.
  pub record IsFinished (s t : Server x) (uuid : String) (m : StreamModule x) (r : StreamRecord)
      (now : Time) : Type 0 where
    pub gone : running t uuid ≡ none
    pub marked : stored t uuid ≡ some (ok (finish now r))
    pub process_stopped : t.calls ≡ stopped m.stream ∷ s.calls
    pub others_run : (j : String) → (uuid == j) ≡ false → running t j ≡ running s j
    pub others_stored : (j : String) → (uuid == j) ≡ false → stored t j ≡ stored s j

  finish_stream-kill :
      (now : Time) (uuid : String) (s : Server x) (m : StreamModule x)
      → running s uuid ≡ some m
      → finish_stream now uuid s ≡ (ok tt, kill_stream now uuid s)
  unfolding finish_stream
  finish_stream-kill now uuid s m h = rw h

  -- FinishStream of a running stream whose record is stored and can be stored again as finished
  -- answers no error, stops its process, forgets it, marks its record as finished at that time,
  -- and leaves the other streams alone.
  pub finish_stream-IsFinished :
      (now : Time) (uuid : String) (s : Server x) (m : StreamModule x) (r : StreamRecord)
      (b : Bucket x.bolt)
      → running s uuid ≡ some m
      → stored s uuid ≡ some (ok r)
      → store_value x.stream_codec s.stream_storage uuid (finish now r) ≡ ok b
      → ((finish_stream now uuid s).0 ≡ ok tt)
        × IsFinished s (finish_stream now uuid s).1 uuid m r now
  finish_stream-IsFinished now uuid s m r b runs was done =
      rw (finish_stream-kill now uuid s m runs) (
        refl,
        record {
          gone = running-kill_stream now s uuid uuid ∙ rw eq_refl;
          marked = stored-kill_stream now s uuid r b was done;
          process_stopped = calls-kill_stream now s uuid m runs;
          others_run = λ j h. running-kill_stream now s uuid j ∙ rw h;
          others_stored = λ j h. stored-kill_stream_ne now s uuid j h;
        },
      )

  gone_after :
      (now : Time) (uuid : String) (s : Server x) → running (finish_stream now uuid s).1 uuid ≡ none
  unfolding finish_stream
  gone_after now uuid s = go (running s uuid) refl
    where
      go :
          (o : Option (StreamModule x))
          → running s uuid ≡ o
          → running (finish_found_stream now uuid s o).1 uuid ≡ none
      go none e = e
      go (some m) e = running-kill_stream now s uuid uuid ∙ rw eq_refl

  finish_stream-none :
      (now : Time) (uuid : String) (s : Server x)
      → running s uuid ≡ none
      → finish_stream now uuid s ≡ (err (not_running uuid), s)
  unfolding finish_stream
  finish_stream-none now uuid s h = rw h

  -- After a FinishStream, whatever it met, another one of the same stream is refused and changes
  -- nothing.
  pub finish_stream_twice :
      (now later : Time) (uuid : String) (s : Server x)
      → finish_stream later uuid (finish_stream now uuid s).1
        ≡ (err (not_running uuid), (finish_stream now uuid s).1)
  finish_stream_twice now later uuid s =
      finish_stream-none later uuid (finish_stream now uuid s).1 (gone_after now uuid s)
