-- ===== src/Launch/Laws.antt =====
-- Where a started stream listens, and what runs there.
use mathlib.Core.Path.{subst}
use cc_core_server.Common.{
  String, true, false, Result, ok, >>=-eq-ok, wrap_err, if◌then◌else◌, ◌≡◌, refl, sym, ap, ◌∙◌, ℕ,
}
use cc_core_server.Common.Int.{ℤ}
use cc_core_server.Common.Text.{◌==◌, ◌&◌, show_int}
use cc_core_server.Storage.Laws.{wrap_err-eq-ok}
use cc_core_server.Service.{StartStreamInfo}
use cc_core_server.Launch.{
  Platform, Stream, RunningStream, standalone, docker_container, StandaloneStream,
  DockerContainerStream, process, container, start, is_zero, or_default, start_standalone,
  start_docker_container, choose_port, free_port, tcp_address, resolve_bin_path,
}

-- The address that was chosen: the preferred IP, or the default one; the preferred port, or a free
-- one of that IP.
pub record IsChosen (p : Platform) (ip default_ip : String) (port : ℤ) (info : StartStreamInfo)
    : Type 0 where
  pub given_ip : (ip == "") ≡ false → info.ip ≡ ip
  pub other_ip : (ip == "") ≡ true → info.ip ≡ default_ip
  pub given_port : is_zero port ≡ false → info.port ≡ port
  pub other_port : is_zero port ≡ true → free_port p info.ip ≡ ok info.port

-- What runs: a process that was spawned to listen at `info`, or a container that was created for
-- this address and port, and started.
pub data IsLaunched (p : Platform) (s : Stream) (info : StartStreamInfo) (r : RunningStream)
    : Type 0 where
  spawned :
      (a : StandaloneStream) (pid : ℕ)
      → s ≡ standalone a
      → IsChosen p a.prefered_ip "127.0.0.1" a.prefered_port info
      → p.spawn (resolve_bin_path p a.bin_path "stream") (info.ip & ":" & show_int info.port)
        ≡ ok pid
      → r ≡ process pid
      → IsLaunched p s info r
  contained :
      (a : DockerContainerStream) (id : String)
      → s ≡ docker_container a
      → IsChosen p a.prefered_ip "0.0.0.0" a.prefered_port info
      → p.container_create a.docker_image
          (info.ip & ":" & show_int info.port)
          info.ip
          (show_int info.port)
          (a.container_prefix & "-" & a.stream_uuid)
        ≡ ok id
      → p.container_start id ≡ ok tt
      → r ≡ container id
      → IsLaunched p s info r

choose_port-IsChosen :
    (p : Platform) (prefix ip default_ip : String) (wanted port : ℤ)
    → choose_port p prefix (or_default ip default_ip) wanted ≡ ok port
    → IsChosen p ip default_ip wanted (record { ip = or_default ip default_ip; port = port })
unfolding choose_port
choose_port-IsChosen p prefix ip default_ip wanted port h = record {
  given_ip = λ k. rw k refl;
  other_ip = λ k. rw k refl;
  given_port = λ k. ok_of (sym (ap (λ b. if b then wrap_err prefix free else ok wanted) k) ∙ h);
  other_port = λ k.
      wrap_err-eq-ok prefix free
        (sym (ap (λ b. if b then wrap_err prefix free else ok wanted) k) ∙ h);
}
  where
    free : Result ℤ
    free = free_port p (or_default ip default_ip)

    ok_of : {a b : ℤ} → ok a ≡ ok b → b ≡ a
    ok_of k = cc

started_of : {a b : StartStreamInfo × RunningStream} → ok a ≡ ok b → a ≡ b
started_of h = cc

wrapped-unit :
    (prefix : String) (o : Result (Unit {0})) (u : Unit {0}) → wrap_err prefix o ≡ ok u → o ≡ ok tt
wrapped-unit prefix o tt h = wrap_err-eq-ok prefix o h

-- A stream that has started runs where it says: its process was spawned, or its container created
-- and started, for the address of the info. This is at the preferred IP, or the default one of its
-- kind if none is given, and at the preferred port, or a free one of this IP if that is 0.
pub start-IsLaunched :
    (p : Platform) (s : Stream) (info : StartStreamInfo) (r : RunningStream)
    → start p s ≡ ok (info, r)
    → IsLaunched p s info r
unfolding start start_standalone start_docker_container tcp_address
start-IsLaunched p (standalone a) info r h =
    let (port, hp, h') =
      >>=-eq-ok
        (choose_port p "could not find free port to run stream"
          (or_default a.prefered_ip "127.0.0.1") a.prefered_port)
        _ h in
    let (pid, hs, last) = >>=-eq-ok (p.spawn _ _) _ h' in
    let e = started_of last in
    subst (λ (o : StartStreamInfo × RunningStream). IsLaunched p (standalone a) o.0 o.1) e
      (spawned a pid refl
        (choose_port-IsChosen p _ a.prefered_ip "127.0.0.1" a.prefered_port port hp) hs refl)
start-IsLaunched p (docker_container a) info r h =
    let (u, hc, h1) = >>=-eq-ok (wrap_err "could not init docker cli client" p.docker_client) _ h in
    let (port, hp, h2) =
      >>=-eq-ok
        (choose_port p "could not find free port to run container"
          (or_default a.prefered_ip "0.0.0.0") a.prefered_port)
        _ h1 in
    let (id, hm, h3) =
      >>=-eq-ok (wrap_err "could not create docker container" (p.container_create _ _ _ _ _)) _
        h2 in
    let (u', hs, last) =
      >>=-eq-ok (wrap_err "could not start docker container" (p.container_start id)) _ h3 in
    let e = started_of last in
    subst (λ (o : StartStreamInfo × RunningStream). IsLaunched p (docker_container a) o.0 o.1) e
      (contained a id refl
        (choose_port-IsChosen p _ a.prefered_ip "0.0.0.0" a.prefered_port port hp)
        (wrap_err-eq-ok _ _ hm) (wrapped-unit _ _ u' hs) refl)
