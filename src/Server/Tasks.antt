-- ===== src/Server/Tasks.antt =====
-- The goroutines of the server: `listenStreamInterruptEvent` (server/stream.go),
-- `addNewParticipant` and `updateParticipantInfo` (server/participant.go), with the handler of
-- server/stream_handler.go, and the steps of a server between which they run.
pub mod Interrupts
use cc_core_server.Common.{String, none, some, Result}
use cc_core_server.Service.{Time, StreamParticipant}
use cc_core_server.Launch.{RunningStream, interruption}
use cc_core_server.Server.{
  Externals, new_participant, change_participant, Task, listen_interrupt, add_participant,
  update_participant, Server, running, call,
}
use cc_core_server.Server.Lifecycle.{kill_stream}

-- What the world has for a goroutine: the outcome of the wait for its process or container, the
-- status of the container as `%d: %v` prints it with its error, and the time.
pub record Event : Type 0 where
  pub ended : Result (Unit {0})
  pub status : String
  pub now : Time

module _ ⦃x : Externals⦄ where
  -- `addNewParticipant`: errors are logged only.
  unfoldable pub add_new_participant : String → StreamParticipant → Server x → Server x
  add_new_participant uuid p s = elim (running s uuid) [
    | none ↦ s
    | some m ↦ call (new_participant m.handler_address p) s
  ]

  unfoldable pub update_participant_info : String → StreamParticipant → Server x → Server x
  update_participant_info uuid p s = elim (running s uuid) [
    | none ↦ s
    | some m ↦ call (change_participant m.handler_address p) s
  ]

  -- `listenStreamInterruptEvent`, when the process has ended: nothing is sent on the channel if
  -- there is nothing to report, and the goroutine waits on.
  unfoldable pub listen_stream_interrupt_event :
      String → RunningStream → Event → Server x → Server x
  unfolding kill_stream interruption
  listen_stream_interrupt_event uuid r ev s = elim (interruption r ev.ended ev.status) [
    | none ↦ s
    | some e ↦ kill_stream ev.now uuid s
  ]

  unfoldable pub run_task : Task → Event → Server x → Server x
  unfolding add_new_participant update_participant_info listen_stream_interrupt_event
  run_task (listen_interrupt uuid r) ev s = listen_stream_interrupt_event uuid r ev s
  run_task (add_participant uuid p) ev s = add_new_participant uuid p s
  run_task (update_participant uuid p) ev s = update_participant_info uuid p s
