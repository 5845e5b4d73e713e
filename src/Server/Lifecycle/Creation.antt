-- ===== src/Server/Lifecycle/Creation.antt =====
-- NewStream: what a client may rely on when it succeeds, and what is left when it fails.
use mathlib.Core.Path.{subst}
use cc_core_server.Common.{
  String, true, false, some, ◌∷◌, Result, ok, err, if◌then◌else◌, ◌≡◌, ◌∙◌, ap, sym, refl, arith,
}
use cc_core_server.Common.Text.{◌==◌, ◌&◌, show_int, eq_refl}
use cc_core_server.Common.SyncMap.{load-store}
use cc_core_server.Service.{
  StreamConfig, StreamOwnerInfo, StartStreamInfo, participant_status_active,
}
use cc_core_server.Storage.{Bucket, load_value, store_value}
use cc_core_server.Storage.Laws.{load_value-store_value}
use cc_core_server.Launch.{RunningStream, Stream, Platform}
use cc_core_server.Launch.Laws.{IsLaunched, start-IsLaunched}
use cc_core_server.Server.{
  StreamRecord, Externals, StreamModule, Server, running, stored, launched, add_participant,
  listen_interrupt,
}
use cc_core_server.Server.Records.{
  default_mode, new_record, stream_claims, build_stream_owner_info, generate_stream_access_token,
  host_participant,
}
use cc_core_server.Server.Start.{connect_to_stream, start_stream_and_connect, new_stream_handler}
use cc_core_server.Server.Lifecycle.{
  Draw, new_module, stream_stored, stream_started, host_authorized, handler_chosen, key_generated,
  new_stream,
}
use cc_core_server.Server.Lifecycle.Launching.{
  IsAsked, handler-IsAsked, Launched, not_started, unreachable, reached, start-Launched,
}
use cc_core_server.Server.Lifecycle.Parts.{
  IsRecordOf, IsAnswer, IsModuleOf, new_record-IsRecordOf, announced,
  build_stream_owner_info-IsAnswer, new_module-IsModuleOf,
}

module _ ⦃x : Externals⦄ where
  -- A stream that NewStream has created: the process or the container that the configuration asks
  -- for was launched and could be reached; it runs where it was started, under the drawn key; its
  -- record is stored; the returned token is the host's, who is announced to the stream.
  pub record IsCreated (p : Platform) (d : Draw x) (cfg : StreamConfig) (s t : Server x)
      (info : StreamOwnerInfo) : Type 0 where
    pub key : x.PrivateKey
    pub drawn : d.key ≡ ok key
    pub asked : Stream
    pub is_asked : IsAsked s.opts cfg d.stream_uuid asked
    pub started : StartStreamInfo
    pub process : RunningStream
    pub is_launched : IsLaunched p asked started process
    pub is_reached : connect_to_stream p (started.ip & ":" & show_int started.port) 6 ≡ ok tt
    pub calls : t.calls ≡ launched process ∷ s.calls
    pub module_kept : StreamModule x
    pub runs : running t d.stream_uuid ≡ some module_kept
    pub is_module : IsModuleOf key started process module_kept
    pub kept : StreamRecord
    pub is_stored : stored t d.stream_uuid ≡ some (ok kept)
    pub is_record : IsRecordOf d cfg started kept
    pub token : String
    pub authorized : x.sign key (stream_claims d.stream_uuid d.host_uuid true) ≡ ok token
    pub answered : IsAnswer kept token info
    pub tasks :
        t.tasks
        ≡ add_participant d.stream_uuid (record {
          uuid = d.host_uuid;
          name = cfg.host.username;
          avatar_id = cfg.host.avatar_id;
          status = participant_status_active;
          host = true;
        })
          ∷ listen_interrupt d.stream_uuid process
          ∷ s.tasks
    pub others_run : (j : String) → (d.stream_uuid == j) ≡ false → running t j ≡ running s j
    pub others_stored : (j : String) → (d.stream_uuid == j) ≡ false → stored t j ≡ stored s j

  -- The end of NewStream has stored the record and kept the module.
  record Made (d : Draw x) (key : x.PrivateKey) (started : StartStreamInfo) (r : RunningStream)
      (made : StreamRecord) (token : String) (s t : Server x) (info : StreamOwnerInfo)
      : Type 0 where
    runs : running t d.stream_uuid ≡ some (new_module key started r)
    is_stored : stored t d.stream_uuid ≡ some (ok made)
    answered : info ≡ build_stream_owner_info made token
    calls : t.calls ≡ s.calls
    tasks : t.tasks ≡ add_participant d.stream_uuid (host_participant made.host) ∷ s.tasks
    others_run : (j : String) → (d.stream_uuid == j) ≡ false → running t j ≡ running s j
    others_stored : (j : String) → (d.stream_uuid == j) ≡ false → stored t j ≡ stored s j

  stream_stored-Made :
      (d : Draw x) (key : x.PrivateKey) (started : StartStreamInfo) (r : RunningStream)
      (made : StreamRecord) (token : String) (s : Server x) (o : Result (Bucket x.bolt))
      (info : StreamOwnerInfo)
      → store_value x.stream_codec s.stream_storage d.stream_uuid made ≡ o
      → (stream_stored d key started r made token s o).0 ≡ ok info
      → Made d key started r made token s (stream_stored d key started r made token s o).1 info
  unfolding stream_stored
  stream_stored-Made d key started r made token s (err e) info done h = absurd (cc)
  stream_stored-Made d key started r made token s (ok b) info done h = record {
    runs = load-store uuid uuid m s.streams ∙ rw eq_refl refl;
    is_stored = seen uuid ∙ rw eq_refl refl;
    answered = cc;
    calls = refl;
    tasks = refl;
    others_run = λ j k. load-store uuid j m s.streams ∙ rw k refl;
    others_stored = λ j k. seen j ∙ rw k refl;
  }
    where
      uuid : String
      uuid = d.stream_uuid

      m : StreamModule x
      m = new_module key started r

      seen :
          (j : String)
          → load_value x.stream_codec b j ≡ (if uuid == j then some (ok made) else stored s j)
      seen j = load_value-store_value x.stream_codec s.stream_storage b uuid j made done

  -- Starting a process changes no stream.
  pub start-running :
      (p : Platform) (stream : Stream) (s : Server x)
      → ((start_stream_and_connect p stream s).1.streams ≡ s.streams)
        × ((start_stream_and_connect p stream s).1.stream_storage ≡ s.stream_storage)
  unfolding start_stream_and_connect
  start-running p stream s = (ground arith, ground arith)

  stream_started-IsCreated :
      (p : Platform) (d : Draw x) (key : x.PrivateKey) (cfg : StreamConfig) (stream : Stream)
      (token : String) (s : Server x) (o : Result (StartStreamInfo × RunningStream) × Server x)
      (info : StreamOwnerInfo)
      → d.key ≡ ok key
      → new_stream_handler s.opts (default_mode cfg) d.stream_uuid ≡ ok stream
      → x.sign key (stream_claims d.stream_uuid d.host_uuid true) ≡ ok token
      → Launched p stream s o
      → (stream_started d key (default_mode cfg) token o).0 ≡ ok info
      → IsCreated p d cfg s (stream_started d key (default_mode cfg) token o).1 info
  unfolding stream_started
  stream_started-IsCreated p d key cfg stream token s _ info drawn chosen signed (not_started e) h =
      absurd (cc)
  stream_started-IsCreated p d key cfg stream token s _ info drawn chosen signed
        (unreachable i r e c hr hc) h =
      absurd (cc)
  stream_started-IsCreated p d key cfg stream token s _ info drawn chosen signed
        (reached started r hr hc) h =
      let made = new_record (default_mode cfg) d.stream_uuid d.host_uuid started d.now in
      let m = stream_stored-Made d key started r made token _ _ info refl h in
      let is_record = new_record-IsRecordOf d cfg started in
      record {
        key = key;
        drawn = drawn;
        asked = stream;
        is_asked = handler-IsAsked s.opts cfg d.stream_uuid stream chosen;
        started = started;
        process = r;
        is_launched = start-IsLaunched p stream started r hr;
        is_reached = hc;
        calls = m.calls;
        module_kept = new_module key started r;
        runs = m.runs;
        is_module = new_module-IsModuleOf key started r;
        kept = made;
        is_stored = m.is_stored;
        is_record = is_record;
        token = token;
        authorized = signed;
        answered =
            subst (IsAnswer made token) (sym m.answered)
              (build_stream_owner_info-IsAnswer made token);
        tasks =
            m.tasks
            ∙ ap (λ h. add_participant d.stream_uuid h ∷ listen_interrupt d.stream_uuid r ∷ s.tasks)
                (announced d cfg started made is_record);
        others_run = m.others_run;
        others_stored = m.others_stored;
      }

  host_authorized-IsCreated :
      (p : Platform) (d : Draw x) (key : x.PrivateKey) (cfg : StreamConfig) (stream : Stream)
      (s : Server x) (o : Result String) (info : StreamOwnerInfo)
      → d.key ≡ ok key
      → new_stream_handler s.opts (default_mode cfg) d.stream_uuid ≡ ok stream
      → x.sign key (stream_claims d.stream_uuid d.host_uuid true) ≡ o
      → (host_authorized p d key (default_mode cfg) stream s o).0 ≡ ok info
      → IsCreated p d cfg s (host_authorized p d key (default_mode cfg) stream s o).1 info
  unfolding host_authorized
  host_authorized-IsCreated p d key cfg stream s (err e) info drawn chosen signed h = absurd (cc)
  host_authorized-IsCreated p d key cfg stream s (ok token) info drawn chosen signed h =
      stream_started-IsCreated p d key cfg stream token s _ info drawn chosen signed
        (start-Launched p stream s) h

  handler_chosen-IsCreated :
      (p : Platform) (d : Draw x) (key : x.PrivateKey) (cfg : StreamConfig) (s : Server x)
      (o : Result Stream) (info : StreamOwnerInfo)
      → d.key ≡ ok key
      → new_stream_handler s.opts (default_mode cfg) d.stream_uuid ≡ o
      → (handler_chosen p d key (default_mode cfg) s o).0 ≡ ok info
      → IsCreated p d cfg s (handler_chosen p d key (default_mode cfg) s o).1 info
  unfolding handler_chosen generate_stream_access_token
  handler_chosen-IsCreated p d key cfg s (err e) info drawn chosen h = absurd (cc)
  handler_chosen-IsCreated p d key cfg s (ok stream) info drawn chosen h =
      host_authorized-IsCreated p d key cfg stream s _ info drawn chosen refl h

  -- A NewStream that returns no error has launched and reached the process or the container that
  -- its configuration asks for, at the address of the answer; runs the stream there under the drawn
  -- key, with nobody waiting; has stored its record with the texts, the policy and the host of the
  -- configuration, and answers with them and a token that this key signed with the host's claims;
  -- announces the host; and leaves the other streams and records alone.
  pub new_stream-IsCreated :
      (p : Platform) (d : Draw x) (cfg : StreamConfig) (s : Server x) (info : StreamOwnerInfo)
      → (new_stream p d cfg s).0 ≡ ok info
      → IsCreated p d cfg s (new_stream p d cfg s).1 info
  unfolding new_stream key_generated
  new_stream-IsCreated p d cfg s info h = go d.key refl h
    where
      go :
          (o : Result x.PrivateKey)
          → d.key ≡ o
          → (key_generated p d cfg s o).0 ≡ ok info
          → IsCreated p d cfg s (key_generated p d cfg s o).1 info
      go (err e) drawn k = absurd (cc)
      go (ok key) drawn k = handler_chosen-IsCreated p d key cfg s _ info drawn refl k
