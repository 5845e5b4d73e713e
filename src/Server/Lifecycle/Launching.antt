-- ===== src/Server/Lifecycle/Launching.antt =====
-- What starting the process of a new stream has done (server/stream.go): the inversion of
-- newStreamHandler and of startStreamAndConnect.
use cc_core_server.Common.{
  String, Bool, true, false, ◌∷◌, GoError, plain, wrap, Result, ok, err, ◌≡◌, refl, arith,
  if◌then◌else◌, eq_iff,
}
use cc_core_server.Common.Text.{◌==◌, ◌&◌, show_int}
use cc_core_server.Service.{
  StreamConfig, StartStreamInfo, launch_mode_standalone_app, launch_mode_docker_container,
}
use cc_core_server.Launch.{
  RunningStream, Stream, Platform, standalone, docker_container, start, tcp_address,
}
use cc_core_server.Server.{Externals, Options, Server, launched, stopped}
use cc_core_server.Server.Records.{default_mode}
use cc_core_server.Server.Start.{
  connect_to_stream, new_stream_handler, stream_connected, process_started,
  start_stream_and_connect,
}

-- The mode that a configuration asks for: without one, a process.
abbrev pub wanted_mode : StreamConfig → String
wanted_mode cfg = if cfg.launch.mode == "" then "standalone_app" else cfg.launch.mode

abbrev pub process_for : {x : Externals} → Options x → StreamConfig → Stream
process_for o cfg = standalone (record {
  prefered_ip = cfg.launch.preferred_ip;
  prefered_port = cfg.launch.preferred_port;
  bin_path = o.bin_folder;
})

abbrev pub container_for : {x : Externals} → Options x → StreamConfig → String → Stream
container_for o cfg uuid = docker_container (record {
  stream_uuid = uuid;
  container_prefix = o.stream_container_prefix;
  docker_image = o.stream_image;
  prefered_port = cfg.launch.preferred_port;
  prefered_ip = cfg.launch.preferred_ip;
})

-- The stream that a configuration asks for.
pub data IsAsked {x : Externals} (o : Options x) (cfg : StreamConfig) (uuid : String) (s : Stream)
    : Type 0 where
  asks_process : wanted_mode cfg ≡ "standalone_app" → s ≡ process_for o cfg → IsAsked o cfg uuid s
  asks_container :
      wanted_mode cfg ≡ "docker_container" → s ≡ container_for o cfg uuid → IsAsked o cfg uuid s

stream_of : {a b : Stream} → ok a ≡ ok b → b ≡ a
stream_of h = cc

pub handler-IsAsked :
    {x : Externals} (o : Options x) (cfg : StreamConfig) (uuid : String) (s : Stream)
    → new_stream_handler o (default_mode cfg) uuid ≡ ok s
    → IsAsked o cfg uuid s
unfolding new_stream_handler
handler-IsAsked {x} o cfg uuid s h = go (cfg.launch.mode == "") refl h
  where
    by_mode :
        (c d : Bool)
        → (cfg.launch.mode == "") ≡ false
        → (cfg.launch.mode == launch_mode_standalone_app) ≡ c
        → (cfg.launch.mode == launch_mode_docker_container) ≡ d
        → (if c
            then ok (process_for o cfg)
            else if d
            then ok (container_for o cfg uuid)
            else err (plain ("invalid launch mode: " & cfg.launch.mode)))
          ≡ ok s
        → IsAsked o cfg uuid s
    by_mode true d e f g k =
        asks_process (rw e (ground (arith, eq_iff cfg.launch.mode launch_mode_standalone_app)))
          (stream_of k)
    by_mode false true e f g k =
        asks_container (rw e (ground (arith, eq_iff cfg.launch.mode launch_mode_docker_container)))
          (stream_of k)
    by_mode false false e f g k = absurd (cc)

    go :
        (b : Bool)
        → (cfg.launch.mode == "") ≡ b
        → new_stream_handler o
            (if b
              then record cfg { launch = record cfg.launch { mode = launch_mode_standalone_app } }
              else cfg)
            uuid
          ≡ ok s
        → IsAsked o cfg uuid s
    go true e k = asks_process (rw e refl) (stream_of k)
    go false e k = by_mode _ _ e refl refl k

module _ ⦃x : Externals⦄ where
  -- How far starting a process came, with what the server has called for.
  pub data Launched (p : Platform) (stream : Stream) (s : Server x)
      : Result (StartStreamInfo × RunningStream) × Server x → Type 0 where
    not_started : (e : GoError) → Launched p stream s (err e, s)
    unreachable :
        (info : StartStreamInfo) (r : RunningStream) (e c : GoError)
        → start p stream ≡ ok (info, r)
        → connect_to_stream p (info.ip & ":" & show_int info.port) 6 ≡ err c
        → Launched p stream s (err e, record s { calls = stopped r ∷ launched r ∷ s.calls })
    reached :
        (info : StartStreamInfo) (r : RunningStream)
        → start p stream ≡ ok (info, r)
        → connect_to_stream p (info.ip & ":" & show_int info.port) 6 ≡ ok tt
        → Launched p stream s (ok (info, r), record s { calls = launched r ∷ s.calls })

  pub start-Launched :
      (p : Platform) (stream : Stream) (s : Server x)
      → Launched p stream s (start_stream_and_connect p stream s)
  unfolding start_stream_and_connect process_started stream_connected tcp_address
  start-Launched p stream s = started (start p stream) refl
    where
      connected :
          (info : StartStreamInfo) (r : RunningStream) (o : Result (Unit {0}))
          → start p stream ≡ ok (info, r)
          → connect_to_stream p (info.ip & ":" & show_int info.port) 6 ≡ o
          → Launched p stream s
              (stream_connected info r (record s { calls = launched r ∷ s.calls }) o)
      connected info r (ok tt) h k = reached info r h k
      connected info r (err c) h k =
          unreachable info r (wrap "could not connect to the running stream" c) c h k

      started :
          (o : Result (StartStreamInfo × RunningStream))
          → start p stream ≡ o
          → Launched p stream s (process_started p s o)
      started (err e) h = not_started (wrap "could not run stream instance" e)
      started (ok (info, r)) h = connected info r _ h refl
