-- ===== src/Handlers/Runs.antt =====
-- A server over time: requests, joins that are woken up, and goroutines, in any order.
use cc_core_server.Common.{Bool, List, [], ◌∷◌, ◌≡◌}
use cc_core_server.Server.{Externals, Task, Server}
use cc_core_server.Server.Participants.{Waiting, resolve_join}
use cc_core_server.Server.Tasks.{Event, run_task}
use cc_core_server.Server.Invariant.{IsConsistent, IsConsistent-empty}
use cc_core_server.Server.Invariant.Joins.{resolve_join-IsConsistent, run_task-IsConsistent}
use cc_core_server.Server.Invariant.Reach.{Reach-keeps}
use cc_core_server.Handlers.{Request, World, Drawn}
use cc_core_server.Handlers.Routes.{Mux, serve}
use cc_core_server.Handlers.Isolation.{serve-Reach}

-- What comes next.
pub data Turn ⦃x : Externals⦄ (world : World) : Type 1 where
  request : Drawn x → Request world.http → Turn world
  decided : Bool → Waiting x → Turn world
  goroutine : Task → Event → Turn world

module _ ⦃x : Externals⦄ (world : World) (mux : Mux world.http) where
  unfoldable pub turn : Turn world → Server x → Server x
  unfolding serve resolve_join run_task
  turn (request d r) s = (serve world d mux r s).1
  turn (decided allowed w) s = (resolve_join allowed w s).1
  turn (goroutine t ev) s = run_task t ev s

  unfoldable pub turns : List (Turn world) → Server x → Server x
  unfolding turn
  turns [] s = s
  turns (t ∷ ts) s = turns ts (turn t s)

  turn-IsConsistent : (t : Turn world) (s : Server x) → IsConsistent s → IsConsistent (turn t s)
  unfolding turn
  turn-IsConsistent (request d r) s c = Reach-keeps (serve-Reach world d mux r s) c
  turn-IsConsistent (decided allowed w) s c = resolve_join-IsConsistent allowed w s c
  turn-IsConsistent (goroutine t ev) s c = run_task-IsConsistent t ev s c

  kept : (ts : List (Turn world)) (s : Server x) → IsConsistent s → IsConsistent (turns ts s)
  unfolding turns
  kept [] s c = c
  kept (t ∷ ts) s c = kept ts (turn t s) (turn-IsConsistent t s c)

  -- A server that starts without running streams, whatever is stored, is consistent after any
  -- sequence of requests to its router, with any content, of decisions on waiting joins, and of
  -- goroutines: each running stream has its record stored, as running and unfinished, under its own
  -- identifier and with its address, and holds both halves of one key.
  pub turns-IsConsistent :
      (ts : List (Turn world)) (s : Server x) → s.streams ≡ [] → IsConsistent (turns ts s)
  turns-IsConsistent ts s e = kept ts s (IsConsistent-empty s e)
