-- ===== src/Tests/Lifecycle.antt =====
-- Streams that are created, fail to be created, are finished and are patched.
use cc_core_server.Common.{
  none, some, [], ◌∷◌, if◌then◌else◌, GoError, plain, wrap, ok, err, ◌≡◌, refl,
}
use cc_core_server.Common.Int.{pos}
use cc_core_server.Common.Text.{◌&◌, ◌==◌}
use cc_core_server.Common.SyncMap
use cc_core_server.Service.{StartStreamInfo, StreamOwnerInfo}
use cc_core_server.Storage.{Bucket, load_value, store_value}
use cc_core_server.Storage.Laws.{load_value-store_value}
use cc_core_server.Launch.{
  Stream, process, standalone, start, start_standalone, choose_port, free_port,
}
use cc_core_server.Launch.Laws.{IsLaunched, start-IsLaunched}
use cc_core_server.Server.{StreamRecord, Server, running, launched, not_running}
use cc_core_server.Server.Records.{
  new_record, build_stream_owner_info, default_mode, finish, generate_stream_access_token,
}
use cc_core_server.Server.Start.{new_stream_handler, connect_to_stream}
use cc_core_server.Server.Lifecycle.{new_module, new_stream, finish_stream}
use cc_core_server.Server.Lifecycle.Finish.{
  IsFinished, finish_stream-IsFinished, finish_stream_twice,
}
use cc_core_server.Server.Lifecycle.Creation.{IsCreated, new_stream-IsCreated}
use cc_core_server.Server.Lifecycle.Failure.{SameRunning, new_stream-SameRunning, new_stream_leak}
use cc_core_server.Server.Lifecycle.Undoing.{Fails, new_stream-Fails}
use cc_core_server.Common.{◌&&◌}
use cc_core_server.Server.Tasks.{Event, listen_stream_interrupt_event}
use cc_core_server.Server.Tasks.Interrupts.{is_reported, listen_stream_interrupt_event-running}
use cc_core_server.Server.Invariant.{IsConsistent}
use cc_core_server.Server.Invariant.Reach.{here, next, creates, finishes, Reach-IsConsistent}
use cc_core_server.Tests.Db.{stream_doc}
use cc_core_server.Tests.Sample.{
  sample, host_dialling, config, draw, empty_server, full_disk, full_draw, full_server,
}

abbrev pub started : StartStreamInfo
started = record { ip = "127.0.0.1"; port = pos 40000 }

-- The record of the created stream, and what its owner is told.
abbrev pub info : StreamRecord
info = new_record (default_mode (config "by_code")) "s1" "h1" started 100

abbrev owner_info : StreamOwnerInfo
owner_info = build_stream_owner_info info "host-token"

-- A server with one running stream.
abbrev pub one_stream : Server sample
one_stream = record empty_server {
  streams = ("s1", new_module ⦃x = sample⦄ 7 started (process 4242)) ∷ [];
  stream_storage = record { name = "stream"; db = ("stream", ("s1", stream_doc info) ∷ []) ∷ [] };
}

abbrev finished_bucket : Bucket sample.bolt
finished_bucket = record {
  name = "stream";
  db = ("stream", ("s1", stream_doc (finish 200 info)) ∷ []) ∷ [];
}

new_stream-IsCreated_example :
    IsCreated
      (host_dialling (ok tt))
      draw
      (config "by_code")
      empty_server
      (new_stream (host_dialling (ok tt)) draw (config "by_code") empty_server).1
      owner_info
unfolding new_stream start start_standalone choose_port free_port store_value
new_stream-IsCreated_example =
    new_stream-IsCreated (host_dialling (ok tt)) draw (config "by_code") empty_server owner_info
      refl

new_stream-SameRunning_example :
    SameRunning empty_server
      (new_stream (host_dialling (err (plain "refused"))) draw (config "by_code") empty_server).1
unfolding new_stream SyncMap.load start start_standalone choose_port free_port
new_stream-SameRunning_example =
    new_stream-SameRunning (host_dialling (err (plain "refused"))) draw (config "by_code")
      empty_server (wrap "could not connect to the running stream" (plain "connection timeout"))
      refl refl

Reach-IsConsistent_example :
    IsConsistent
      (finish_stream 200 "s1"
        (new_stream (host_dialling (ok tt)) draw (config "auto") empty_server).1).1
Reach-IsConsistent_example = Reach-IsConsistent refl (
    next (next here (creates (host_dialling (ok tt)) draw (config "auto") empty_server))
      (finishes 200 "s1" (new_stream (host_dialling (ok tt)) draw (config "auto") empty_server).1))

finish_stream-IsFinished_example :
    ((finish_stream 200 "s1" one_stream).0 ≡ ok tt)
    × IsFinished one_stream
        (finish_stream 200 "s1" one_stream).1
        "s1"
        (new_module 7 started (process 4242))
        info
        200
unfolding SyncMap.load load_value store_value SyncMap.store
finish_stream-IsFinished_example =
    finish_stream-IsFinished 200 "s1" one_stream (new_module 7 started (process 4242)) info
      finished_bucket refl refl refl

finish_stream_twice_example :
    finish_stream 300 "s1" (finish_stream 200 "s1" one_stream).1
    ≡ (err (not_running "s1"), (finish_stream 200 "s1" one_stream).1)
finish_stream_twice_example = finish_stream_twice 200 300 "s1" one_stream

-- The process that runs for the stream, and the error of a connection that is refused.
abbrev chosen : Stream
chosen = standalone (record { prefered_ip = ""; prefered_port = pos 0; bin_path = "bin" })

abbrev timeout : GoError
timeout = plain "connection timeout"

new_stream-Fails_example :
    Fails
      (host_dialling (err (plain "refused")))
      draw
      (config "auto")
      empty_server
      (new_stream (host_dialling (err (plain "refused"))) draw (config "auto") empty_server).1
unfolding new_stream SyncMap.load start start_standalone choose_port free_port
new_stream-Fails_example =
    new_stream-Fails (host_dialling (err (plain "refused"))) draw (config "auto") empty_server
      (wrap "could not connect to the running stream" timeout) refl refl

new_stream_leak_example :
    ((new_stream ⦃x = full_disk⦄ (host_dialling (ok tt)) full_draw (config "auto") full_server).0
      ≡ err (wrap ("could not store " & "s1" & " stream data") (plain "no space left")))
    × ((new_stream ⦃x = full_disk⦄
          (host_dialling (ok tt))
          full_draw
          (config "auto")
          full_server).1.calls
        ≡ launched (process 4242) ∷ [])
    × (running ⦃x = full_disk⦄
          (new_stream ⦃x = full_disk⦄
            (host_dialling (ok tt))
            full_draw
            (config "auto")
            full_server).1
          "s1"
        ≡ none)
unfolding start start_standalone choose_port free_port store_value SyncMap.load new_stream_handler
    generate_stream_access_token connect_to_stream
new_stream_leak_example =
    new_stream_leak ⦃x = full_disk⦄ (host_dialling (ok tt)) full_draw (config "auto") full_server 7
      chosen "host-token" started (process 4242) (plain "no space left") refl refl refl refl refl
      refl refl

-- A stream that asks for its address.
abbrev asking : Stream
asking =
    standalone (record { prefered_ip = "10.0.0.5"; prefered_port = pos 8080; bin_path = "bin" })

start-IsLaunched_example :
    IsLaunched
      (host_dialling (ok tt))
      asking
      (record { ip = "10.0.0.5"; port = pos 8080 })
      (process 4242)
unfolding start start_standalone choose_port free_port
start-IsLaunched_example =
    start-IsLaunched (host_dialling (ok tt)) asking (record { ip = "10.0.0.5"; port = pos 8080 })
      (process 4242) refl

load_value-store_value_example : load_value sample.stream_codec finished_bucket "s2" ≡ (
    if "s1" == "s2"
    then some (ok (finish 200 info))
    else load_value sample.stream_codec one_stream.stream_storage "s2")
unfolding store_value SyncMap.store SyncMap.load
load_value-store_value_example =
    load_value-store_value sample.stream_codec one_stream.stream_storage finished_bucket "s1" "s2"
      (finish 200 info) refl

-- The process of the stream crashes.
abbrev crash : Event
crash = record { ended = err (plain "exit status 1"); status = ""; now = 300 }

listen_stream_interrupt_event-running_example :
    running (listen_stream_interrupt_event "s1" (process 4242) crash one_stream) "s1" ≡ (
      if "s1" == "s1" && is_reported (process 4242) crash.ended
      then none
      else running one_stream "s1")
listen_stream_interrupt_event-running_example =
    listen_stream_interrupt_event-running "s1" (process 4242) crash one_stream "s1"
