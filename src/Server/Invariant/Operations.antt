-- ===== src/Server/Invariant/Operations.antt =====
-- Every operation and every goroutine keeps the invariant of the running streams.
use mathlib.Core.Path.{subst}
use cc_core_server.Common.{
  String, true, some, Result, ok, err, Bool-cases, inl, inr, if◌then◌else◌, ◌≡◌, ◌∙◌, ap, sym, refl,
  arith, eq_iff,
}
use cc_core_server.Common.Text.{◌==◌}
use cc_core_server.Service.{StartStreamInfo, StreamConfig}
use cc_core_server.Storage.{Bucket, store_value}
use cc_core_server.Storage.Laws.{load_value-store_value}
use cc_core_server.Launch.{RunningStream, Stream, Platform, tcp_address}
use cc_core_server.Server.{StreamRecord, Externals, StreamModule, Server, stored}
use cc_core_server.Server.Records.{new_record, default_mode}
use cc_core_server.Server.Start.{start_stream_and_connect}
use cc_core_server.Server.Lifecycle.{
  Draw, new_module, stream_stored, stream_started, host_authorized, handler_chosen, key_generated,
  new_stream,
}
use cc_core_server.Server.Invariant.{
  IsRegistered, IsConsistent, IsConsistent-same, IsConsistent-store, kill_stream-IsConsistent,
  IsRegistered-moved,
}

module _ ⦃x : Externals⦄ where
  start-streams :
      (p : Platform) (stream : Stream) (s : Server x)
      → (start_stream_and_connect p stream s).1.streams ≡ s.streams
  unfolding start_stream_and_connect
  start-streams p stream s = ground arith

  start-storage :
      (p : Platform) (stream : Stream) (s : Server x)
      → (start_stream_and_connect p stream s).1.stream_storage ≡ s.stream_storage
  unfolding start_stream_and_connect
  start-storage p stream s = ground arith

  stream_stored-IsConsistent :
      (d : Draw x) (key : x.PrivateKey) (started : StartStreamInfo) (r : RunningStream)
      (cfg : StreamConfig) (token : String) (s : Server x) (o : Result (Bucket x.bolt))
      → store_value x.stream_codec s.stream_storage d.stream_uuid
          (new_record cfg d.stream_uuid d.host_uuid started d.now)
        ≡ o
      → IsConsistent s
      → IsConsistent
          (stream_stored d key started r
            (new_record cfg d.stream_uuid d.host_uuid started d.now)
            token
            s
            o).1
  unfolding stream_stored new_record
  stream_stored-IsConsistent d key started r cfg token s (err e) h c =
      kill_stream-IsConsistent d.now d.stream_uuid s c
  stream_stored-IsConsistent d key started r cfg token s (ok b) h c =
      IsConsistent-same _ _ refl refl (
        IsConsistent-store s d.stream_uuid (new_module key started r) b
          (new_record cfg d.stream_uuid d.host_uuid started d.now) h refl refl refl refl refl refl
          c)

  stream_started-IsConsistent :
      (d : Draw x) (key : x.PrivateKey) (cfg : StreamConfig) (token : String)
      (o : Result (StartStreamInfo × RunningStream) × Server x)
      → IsConsistent o.1
      → IsConsistent (stream_started d key cfg token o).1
  unfolding stream_started
  stream_started-IsConsistent d key cfg token (err e, s) c = c
  stream_started-IsConsistent d key cfg token (ok (started, r), s) c =
      stream_stored-IsConsistent d key started r cfg token _ _ refl
        (IsConsistent-same s _ refl refl c)

  host_authorized-IsConsistent :
      (p : Platform) (d : Draw x) (key : x.PrivateKey) (cfg : StreamConfig) (stream : Stream)
      (s : Server x) (o : Result String)
      → IsConsistent s
      → IsConsistent (host_authorized p d key cfg stream s o).1
  unfolding host_authorized
  host_authorized-IsConsistent p d key cfg stream s (err e) c = c
  host_authorized-IsConsistent p d key cfg stream s (ok token) c =
      stream_started-IsConsistent d key cfg token (start_stream_and_connect p stream s)
        (IsConsistent-same s _ (start-streams p stream s) (start-storage p stream s) c)

  handler_chosen-IsConsistent :
      (p : Platform) (d : Draw x) (key : x.PrivateKey) (cfg : StreamConfig) (s : Server x)
      (o : Result Stream)
      → IsConsistent s
      → IsConsistent (handler_chosen p d key cfg s o).1
  unfolding handler_chosen
  handler_chosen-IsConsistent p d key cfg s (err e) c = c
  handler_chosen-IsConsistent p d key cfg s (ok stream) c =
      host_authorized-IsConsistent p d key cfg stream s _ c

  key_generated-IsConsistent :
      (p : Platform) (d : Draw x) (cfg : StreamConfig) (s : Server x) (o : Result x.PrivateKey)
      → IsConsistent s
      → IsConsistent (key_generated p d cfg s o).1
  unfolding key_generated
  key_generated-IsConsistent p d cfg s (err e) c = c
  key_generated-IsConsistent p d cfg s (ok key) c =
      handler_chosen-IsConsistent p d key (default_mode cfg) s _ c

  pub new_stream-IsConsistent :
      (p : Platform) (d : Draw x) (cfg : StreamConfig) (s : Server x)
      → IsConsistent s
      → IsConsistent (new_stream p d cfg s).1
  unfolding new_stream
  new_stream-IsConsistent p d cfg s = key_generated-IsConsistent p d cfg s d.key

  -- A patch of the stored record that leaves what the running stream was started with.
  pub IsConsistent-restore :
      (s : Server x) (uuid : String) (b : Bucket x.bolt) (r r' : StreamRecord)
      → stored s uuid ≡ some (ok r)
      → store_value x.stream_codec s.stream_storage uuid r' ≡ ok b
      → r'.status ≡ r.status
      → r'.finished_at ≡ r.finished_at
      → r'.uuid ≡ r.uuid
      → r'.ip ≡ r.ip
      → r'.port ≡ r.port
      → IsConsistent s
      → IsConsistent (record s { stream_storage = b })
  IsConsistent-restore s uuid b r r' was done st fin id ip port c = record {
    at = λ j m h. elim (Bool-cases (uuid == j)) [
      | inl same ↦ moved j m same (c.at j m h)
      | inr other ↦
          IsRegistered-moved s t j m m (seen j ∙ rw other) refl refl refl refl (c.at j m h)
    ];
  }
    where
      t : Server x
      t = record s { stream_storage = b }

      seen : (j : String) → stored t j ≡ (if uuid == j then some (ok r') else stored s j)
      seen j = load_value-store_value x.stream_codec s.stream_storage b uuid j r' done

      found :
          (j : String) (m : StreamModule x)
          → (uuid == j) ≡ true
          → (reg : IsRegistered s j m) → reg.info ≡ r
      found j m same reg =
          let e : stored s j ≡ some (ok r) =
            subst (λ k. stored s k ≡ some (ok r)) ((eq_iff uuid j).0 same) was in
          cc (reg.stored_as, e)

      moved :
          (j : String) (m : StreamModule x)
          → (uuid == j) ≡ true
          → IsRegistered s j m
          → IsRegistered t j m
      moved j m same reg =
          let e = found j m same reg in
          record {
            info = r';
            stored_as = seen j ∙ rw same;
            is_running = st ∙ ap (λ (i : StreamRecord). i.status) (sym e) ∙ reg.is_running;
            unfinished = fin ∙ ap (λ (i : StreamRecord). i.finished_at) (sym e) ∙ reg.unfinished;
            same_uuid = id ∙ ap (λ (i : StreamRecord). i.uuid) (sym e) ∙ reg.same_uuid;
            address =
                reg.address ∙ ap (λ (i : StreamRecord). tcp_address i.ip i.port) e ∙ cc (ip, port);
            handler = reg.handler;
            key_pair = reg.key_pair;
          }
