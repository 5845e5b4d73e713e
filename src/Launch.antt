-- ===== src/Launch.antt =====
-- Starting and stopping the process behind a stream: stream/standalone.go,
-- stream/docker_container.go and util/net.go. The operating system, the network and docker are a
-- parameter, the answers that they give during one call.
pub mod Laws
use cc_core_server.Common.{
  ℕ, zero, String, Bool, true, false, Option, none, some, GoError, plain, Result, ok, err, ◌>>=◌,
  ◌>>◌, wrap_err, if◌then◌else◌,
}
use cc_core_server.Common.Int.{ℤ, pos}
use cc_core_server.Common.Text.{◌==◌, ◌&◌, show_int}
use cc_core_server.Service.{StartStreamInfo, StreamParticipant}

pub record Platform : Type 0 where
  -- `net.ResolveTCPAddr`, `net.ListenTCP` (with the port that it took) and `Close`.
  pub resolve : String → Result String
  pub listen : String → Result ℤ
  pub close_listener : Result (Unit {0})
  -- `path.Join` of the folder and the name of a binary.
  pub join_path : String → String → String
  pub is_windows : Bool
  -- `exec.Command(path, "-addr", address).Start()`, with the process, and `Process.Kill`.
  pub spawn : String → String → Result ℕ
  pub kill : ℕ → Result (Unit {0})
  -- `client.NewClientWithOpts`, `ContainerCreate` (image, address, host, port and name, with the
  -- identifier), `ContainerStart` and `ContainerStop`.
  pub docker_client : Result (Unit {0})
  pub container_create : String → String → String → String → String → Result String
  pub container_start : String → Result (Unit {0})
  pub container_stop : String → Result (Unit {0})
  -- `net.Dial`, at the given attempt, with the result of closing the connection.
  pub dial : String → ℕ → Result (Result (Unit {0}))
  -- A request with the body to the running stream: method and URL.
  pub notify : String → String → StreamParticipant → Result (Unit {0})

-- `StandaloneStream`, before it is started.
pub record StandaloneStream : Type 0 where
  pub prefered_ip : String
  pub prefered_port : ℤ
  pub bin_path : String

-- `DockerContainerStream`, before it is started.
pub record DockerContainerStream : Type 0 where
  pub stream_uuid : String
  pub container_prefix : String
  pub docker_image : String
  pub prefered_port : ℤ
  pub prefered_ip : String

-- The implementations of `service.Stream`.
pub data Stream : Type 0 where
  standalone : StandaloneStream → Stream
  docker_container : DockerContainerStream → Stream

-- What `Start` leaves in a stream, for `Stop`: the process, or the container.
pub data RunningStream : Type 0 where
  process : ℕ → RunningStream
  container : String → RunningStream

abbrev pub default_standalone_app_ip : String
default_standalone_app_ip = "127.0.0.1"

abbrev pub default_docker_container_host_ip : String
default_docker_container_host_ip = "0.0.0.0"

abbrev pub default_stream_bin : String
default_stream_bin = "stream"

-- `fmt.Sprintf("%s:%d", ip, port)`.
unfoldable pub tcp_address : String → ℤ → String
tcp_address ip port = ip & ":" & show_int port

abbrev pub is_zero : ℤ → Bool
is_zero (pos zero) = true
is_zero _ = false

-- `util.FreePort`.
unfoldable pub free_port : Platform → String → Result ℤ
free_port p host = do
  address ← p.resolve (host & ":0")
  port ← p.listen address
  p.close_listener
  ok port

abbrev pub or_default : String → String → String
or_default s fallback = if s == "" then fallback else s

-- The preferred port, or a free one if it is 0.
unfoldable pub choose_port : Platform → String → String → ℤ → Result ℤ
choose_port p prefix ip port = if is_zero port then wrap_err prefix (free_port p ip) else ok port

unfoldable pub resolve_bin_path : Platform → String → String → String
resolve_bin_path p folder name = p.join_path folder (if p.is_windows then name & ".exe" else name)

unfoldable pub start_standalone :
    Platform → StandaloneStream → Result (StartStreamInfo × RunningStream)
start_standalone p s = do
  let ip = or_default s.prefered_ip default_standalone_app_ip
  port ← choose_port p "could not find free port to run stream" ip s.prefered_port
  pid ← p.spawn (resolve_bin_path p s.bin_path default_stream_bin) (tcp_address ip port)
  ok (record { ip = ip; port = port }, process pid)

unfoldable pub start_docker_container :
    Platform → DockerContainerStream → Result (StartStreamInfo × RunningStream)
start_docker_container p s = do
  wrap_err "could not init docker cli client" p.docker_client
  let ip = or_default s.prefered_ip default_docker_container_host_ip
  port ← choose_port p "could not find free port to run container" ip s.prefered_port
  let name = s.container_prefix & "-" & s.stream_uuid
  id ←
      wrap_err "could not create docker container"
        (p.container_create s.docker_image (tcp_address ip port) ip (show_int port) name)
  wrap_err "could not start docker container" (p.container_start id)
  ok (record { ip = ip; port = port }, container id)

-- `Start` of the interface.
unfoldable pub start : Platform → Stream → Result (StartStreamInfo × RunningStream)
start p (standalone s) = start_standalone p s
start p (docker_container s) = start_docker_container p s

-- `Stop` of the interface.
unfoldable pub stop : Platform → RunningStream → Result (Unit {0})
stop p (process pid) = p.kill pid
stop p (container id) = do
  wrap_err "could not init docker cli client" p.docker_client
  p.container_stop id

-- What is sent on the interrupt channel when the process or the container ends: the error of
-- `Wait`, if there is one, or the status of a container. The error channel of `ContainerWait` is not
-- read: where it fails, nothing is sent.
unfoldable pub interruption : RunningStream → Result (Unit {0}) → String → Option GoError
interruption (process pid) (ok u) status = none
interruption (process pid) (err e) status = some e
interruption (container id) (ok u) status = some (plain ("status code " & status))
interruption (container id) (err e) status = none
