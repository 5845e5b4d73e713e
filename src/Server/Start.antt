-- ===== src/Server/Start.antt =====
-- Choosing, starting and reaching the process of a new stream (server/stream.go).
use cc_core_server.Common.{ℕ, zero, suc, String, plain, wrap, Result, ok, err, if◌then◌else◌}
use cc_core_server.Common.Text.{◌==◌, ◌&◌}
use cc_core_server.Service.{
  StreamConfig, StartStreamInfo, launch_mode_standalone_app, launch_mode_docker_container,
}
use cc_core_server.Launch.{
  RunningStream, Stream, Platform, standalone, docker_container, start, tcp_address,
}
use cc_core_server.Server.{Externals, launched, stopped, Options, Server, call}

abbrev pub default_connect_to_stream_retry_count : ℕ
default_connect_to_stream_retry_count = 6

-- The loop of `connectToStream`: attempt `i` of those that are left.
unfoldable pub connect_from : Platform → String → ℕ → ℕ → Result (Unit {0})
connect_from p address i zero = err (plain "connection timeout")
connect_from p address i (suc left) =
    let again = connect_from p address (suc i) left in
    elim (p.dial address i) [ ok closed ↦ closed | err e ↦ again ]

unfoldable pub connect_to_stream : Platform → String → ℕ → Result (Unit {0})
unfolding connect_from
connect_to_stream p address try_count = connect_from p address 0 try_count

-- `newStreamHandler`.
unfoldable pub new_stream_handler :
    {x : Externals} → Options x → StreamConfig → String → Result Stream
new_stream_handler o cfg uuid =
    if cfg.launch.mode == launch_mode_standalone_app
    then ok (
        standalone (record {
          prefered_ip = cfg.launch.preferred_ip;
          prefered_port = cfg.launch.preferred_port;
          bin_path = o.bin_folder;
        }))
    else if cfg.launch.mode == launch_mode_docker_container
    then ok (
        docker_container (record {
          stream_uuid = uuid;
          container_prefix = o.stream_container_prefix;
          docker_image = o.stream_image;
          prefered_port = cfg.launch.preferred_port;
          prefered_ip = cfg.launch.preferred_ip;
        }))
    else err (plain ("invalid launch mode: " & cfg.launch.mode))

module _ ⦃x : Externals⦄ where
  -- `startStreamAndConnect`, on the outcome of the connection and of the start: a stream that does
  -- not answer is stopped again.
  unfoldable pub stream_connected :
      StartStreamInfo
      → RunningStream
      → Server x
      → Result (Unit {0})
      → Result (StartStreamInfo × RunningStream) × Server x
  stream_connected info r s (err e) =
      (err (wrap "could not connect to the running stream" e), call (stopped r) s)
  stream_connected info r s (ok u) = (ok (info, r), s)

  unfoldable pub process_started :
      Platform
      → Server x
      → Result (StartStreamInfo × RunningStream)
      → Result (StartStreamInfo × RunningStream) × Server x
  unfolding stream_connected connect_to_stream
  process_started p s (err e) = (err (wrap "could not run stream instance" e), s)
  process_started p s (ok (info, r)) =
      stream_connected info r (call (launched r) s)
        (connect_to_stream p (tcp_address info.ip info.port) default_connect_to_stream_retry_count)

  unfoldable pub start_stream_and_connect :
      Platform → Stream → Server x → Result (StartStreamInfo × RunningStream) × Server x
  unfolding process_started
  start_stream_and_connect p stream s = process_started p s (start p stream)
