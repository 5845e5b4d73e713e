-- ===== src/Server/Invariant/Reach.antt =====
-- The runs of a server: operations of clients, decisions that wake up waiting joins, and goroutines
-- in any order.
use cc_core_server.Common.{String, Bool, [], ◌≡◌}
use cc_core_server.Service.{Time, StreamConfig, PatchStreamConfig, Participant}
use cc_core_server.Launch.{Platform}
use cc_core_server.Server.{Externals, Server, Task}
use cc_core_server.Server.Lifecycle.{Draw, new_stream, finish_stream}
use cc_core_server.Server.Running.{patch_stream}
use cc_core_server.Server.Participants.{Waiting, join_participant, resolve_join}
use cc_core_server.Server.Tasks.{Event, run_task}
use cc_core_server.Server.Invariant.{IsConsistent, IsConsistent-empty}
use cc_core_server.Common.{ℕ, Result, List}
use cc_core_server.Service.{PatchParticipantConfig}
use cc_core_server.Server.Lifecycle.{stop_server}
use cc_core_server.Server.Participants.Roster.{patch_participant}
use cc_core_server.Server.Avatars.{Images, new_avatar}
use cc_core_server.Server.Invariant.Others.{
  stop_server-IsConsistent, patch_participant-IsConsistent, new_avatar-IsConsistent,
}
use cc_core_server.Server.Invariant.Operations.{new_stream-IsConsistent}
use cc_core_server.Server.Invariant.Joins.{
  patch_stream-IsConsistent, join_participant-IsConsistent, resolve_join-IsConsistent,
  run_task-IsConsistent, finish_stream-IsConsistent,
}

-- One step. A join may be resolved at any time after it began, also when its stream is gone.
pub data Step ⦃x : Externals⦄ : Server x → Server x → Type 1 where
  creates :
      (p : Platform) (d : Draw x) (cfg : StreamConfig) (s : Server x)
      → Step s (new_stream p d cfg s).1
  finishes : (now : Time) (uuid : String) (s : Server x) → Step s (finish_stream now uuid s).1
  patches :
      (uuid : String) (cfg : PatchStreamConfig) (s : Server x) → Step s (patch_stream uuid cfg s).1
  joins :
      (uuid stream_uuid code : String) (p : Participant) (s : Server x)
      → Step s (join_participant uuid stream_uuid code p s).1
  resolves : (allowed : Bool) (w : Waiting x) (s : Server x) → Step s (resolve_join allowed w s).1
  runs : (t : Task) (ev : Event) (s : Server x) → Step s (run_task t ev s)
  stops :
      (now : Time) (closed : List (String × Result (Unit {0}))) (s : Server x)
      → Step s (stop_server now closed s).1
  patches_participant :
      (stream_uuid participant_uuid : String) (cfg : PatchParticipantConfig) (s : Server x)
      → Step s (patch_participant stream_uuid participant_uuid cfg s).1
  adds_avatar :
      (i : Images) (uuid content_type : String) (body : List ℕ) (s : Server x)
      → Step s (new_avatar i uuid content_type body s).1

pub data Reach ⦃x : Externals⦄ (s : Server x) : Server x → Type 1 where
  here : Reach s s
  next : {t u : Server x} → Reach s t → Step t u → Reach s u

module _ ⦃x : Externals⦄ where
  Step-IsConsistent : {s t : Server x} → Step s t → IsConsistent s → IsConsistent t
  Step-IsConsistent (creates p d cfg s) c = new_stream-IsConsistent p d cfg s c
  Step-IsConsistent (finishes now uuid s) c = finish_stream-IsConsistent now uuid s c
  Step-IsConsistent (patches uuid cfg s) c = patch_stream-IsConsistent uuid cfg s c
  Step-IsConsistent (joins uuid stream_uuid code p s) c =
      join_participant-IsConsistent uuid stream_uuid code p s c
  Step-IsConsistent (resolves allowed w s) c = resolve_join-IsConsistent allowed w s c
  Step-IsConsistent (runs t ev s) c = run_task-IsConsistent t ev s c
  Step-IsConsistent (stops now closed s) c = stop_server-IsConsistent now closed s c
  Step-IsConsistent (patches_participant stream_uuid participant_uuid cfg s) c =
      patch_participant-IsConsistent stream_uuid participant_uuid cfg s c
  Step-IsConsistent (adds_avatar i uuid content_type body s) c =
      new_avatar-IsConsistent i uuid content_type body s c

  -- The invariant is kept by any run.
  pub Reach-keeps : {s t : Server x} → Reach s t → IsConsistent s → IsConsistent t
  Reach-keeps here c = c
  Reach-keeps (next r step) c = Step-IsConsistent step (Reach-keeps r c)

  -- From a server with no running stream, whatever it has stored, every run of operations,
  -- decisions and goroutines ends in a server where each running stream has its record stored, as
  -- running and unfinished, under its own identifier and with the address that the stream is
  -- served at, and holds both halves of one key.
  pub Reach-IsConsistent : {s t : Server x} → s.streams ≡ [] → Reach s t → IsConsistent t
  Reach-IsConsistent {s} e r = Reach-keeps r (IsConsistent-empty s e)
