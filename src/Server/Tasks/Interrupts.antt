-- ===== src/Server/Tasks/Interrupts.antt =====
-- When the end of a process makes the server forget its stream.
use cc_core_server.Common.{
  String, Bool, true, false, ◌&&◌, none, some, Result, ok, err, if◌then◌else◌, ◌≡◌, arith,
}
use cc_core_server.Common.Text.{◌==◌}
use cc_core_server.Launch.{RunningStream, process, container, interruption}
use cc_core_server.Server.{Externals, Server, running}
use cc_core_server.Server.Lifecycle.{kill_stream}
use cc_core_server.Server.Lifecycle.Frames.{running-kill_stream}
use cc_core_server.Server.Tasks.{Event, listen_stream_interrupt_event}

-- A container is reported when its wait ends with a status, a process only when it ends with an
-- error.
abbrev pub is_reported : RunningStream → Result (Unit {0}) → Bool
is_reported (process pid) (ok u) = false
is_reported (process pid) (err e) = true
is_reported (container id) (ok u) = true
is_reported (container id) (err e) = false

module _ ⦃x : Externals⦄ where
  -- After the goroutine that listens to a process or container has seen its end, its stream is not
  -- among the running ones if it was a container whose wait gave a status, or the process ended with
  -- an error; a process that ended without one, and a container whose wait failed, leave their
  -- stream running. Other streams run as before.
  pub listen_stream_interrupt_event-running :
      (uuid : String) (r : RunningStream) (ev : Event) (s : Server x) (j : String)
      → running (listen_stream_interrupt_event uuid r ev s) j
        ≡ (if uuid == j && is_reported r ev.ended then none else running s j)
  unfolding listen_stream_interrupt_event interruption
  listen_stream_interrupt_event-running uuid r ev s j = go r ev.ended
    where
      go :
          (q : RunningStream) (o : Result (Unit {0}))
          → running
              (elim (interruption q o ev.status) [ none ↦ s | some e ↦ kill_stream ev.now uuid s ])
              j
            ≡ (if uuid == j && is_reported q o then none else running s j)
      go (process pid) (ok u) = ground arith
      go (process pid) (err e) = ground (arith, running-kill_stream ev.now s uuid j)
      go (container id) (ok u) = ground (arith, running-kill_stream ev.now s uuid j)
      go (container id) (err e) = ground arith
