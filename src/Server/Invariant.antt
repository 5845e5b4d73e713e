-- ===== src/Server/Invariant.antt =====
-- What holds of every running stream: its record is stored, as running, and its addresses and keys
-- agree with it.
pub mod Operations
pub mod Joins
pub mod Others
pub mod Reach
use cc_core_server.Common.{
  ℕ, String, Bool, true, false, Option, none, some, List, [], ◌∷◌, GoError, Result, ok, err,
  Bool-cases, Option-cases, inl, inr, if◌then◌else◌, ◌≡◌, ◌∙◌, ap, sym, refl, arith, eq_iff,
}
use cc_core_server.Common.Text.{◌==◌, ◌&◌, eq_refl}
use mathlib.Core.Path.{subst}
use cc_core_server.Common.SyncMap
use cc_core_server.Common.SyncMap.{SyncMap, load-delete, load-store}
use cc_core_server.Service.{
  Time, stream_status_running, StartStreamInfo, StreamConfig, PatchStreamConfig,
}
use cc_core_server.Storage.{Codec, Bucket, load_value, store_value}
use cc_core_server.Storage.Laws.{load_value-store_value}
use cc_core_server.Launch.{RunningStream, Stream, Platform, tcp_address}
use cc_core_server.Server.{
  StreamRecord, ParticipantRecord, Externals, StreamModule, Server, running, stored, call, stopped,
}
use cc_core_server.Server.Records.{finish, new_record, patch_record}
use cc_core_server.Server.Start.{start_stream_and_connect}
use cc_core_server.Server.Lifecycle.{
  kill_stream, Draw, new_module, stream_stored, stream_started, host_authorized, handler_chosen,
  key_generated, new_stream,
}
use cc_core_server.Server.Lifecycle.Frames.{running-kill_stream, stored-kill_stream_ne}
use cc_core_server.Server.Running.{
  running_record, patch_stored, patch_found, patch_stream, notify_host,
}

module _ ⦃x : Externals⦄ where
  pub record IsRegistered (s : Server x) (uuid : String) (m : StreamModule x) : Type 0 where
    pub info : StreamRecord
    pub stored_as : stored s uuid ≡ some (ok info)
    pub is_running : info.status ≡ stream_status_running
    pub unfinished : info.finished_at ≡ none
    pub same_uuid : info.uuid ≡ uuid
    pub address : m.serve_address ≡ tcp_address info.ip info.port
    pub handler : m.handler_address ≡ "http://" & m.serve_address
    pub key_pair : m.public_key ≡ x.public_key m.private_key

  pub record IsConsistent (s : Server x) : Type 0 where
    pub at : (uuid : String) (m : StreamModule x) → running s uuid ≡ some m → IsRegistered s uuid m

  -- The invariant is about the running streams and their storage.
  pub IsConsistent-same :
      (s t : Server x)
      → t.streams ≡ s.streams
      → t.stream_storage ≡ s.stream_storage
      → IsConsistent s
      → IsConsistent t
  IsConsistent-same s t e e' c = record {
    at = λ uuid m h.
        let reg = c.at uuid m (rw (ap (SyncMap.load uuid) e) at h) in
        record {
          info = reg.info;
          stored_as = ap (λ b. load_value x.stream_codec b uuid) e' ∙ reg.stored_as;
          is_running = reg.is_running;
          unfinished = reg.unfinished;
          same_uuid = reg.same_uuid;
          address = reg.address;
          handler = reg.handler;
          key_pair = reg.key_pair;
        };
  }

  IsRegistered-moved :
      (s t : Server x) (uuid : String) (m n : StreamModule x)
      → stored t uuid ≡ stored s uuid
      → n.serve_address ≡ m.serve_address
      → n.handler_address ≡ m.handler_address
      → n.public_key ≡ m.public_key
      → n.private_key ≡ m.private_key
      → IsRegistered s uuid m
      → IsRegistered t uuid n
  IsRegistered-moved s t uuid m n e a h pk sk reg = record {
    info = reg.info;
    stored_as = e ∙ reg.stored_as;
    is_running = reg.is_running;
    unfinished = reg.unfinished;
    same_uuid = reg.same_uuid;
    address = a ∙ reg.address;
    handler = h ∙ reg.handler ∙ ap (λ (t : String). "http://" & t) (sym a);
    key_pair = pk ∙ reg.key_pair ∙ ap x.public_key (sym sk);
  }

  -- Killing a stream, running or not, keeps the invariant.
  pub kill_stream-IsConsistent :
      (now : Time) (uuid : String) (s : Server x)
      → IsConsistent s
      → IsConsistent (kill_stream now uuid s)
  kill_stream-IsConsistent now uuid s c = record {
    at = λ j m h. elim (Bool-cases (uuid == j)) [
      | inl same ↦ absurd (gone j m same h)
      | inr other ↦
          IsRegistered-moved s (kill_stream now uuid s) j m m
            (stored-kill_stream_ne now s uuid j other) refl refl refl refl
            (c.at j m (still j m other h))
    ];
  }
    where
      gone :
          (j : String) (m : StreamModule x)
          → (uuid == j) ≡ true
          → running (kill_stream now uuid s) j ≡ some m
          → ⊥
      gone j m same h = ground (arith, running-kill_stream now s uuid j)

      still :
          (j : String) (m : StreamModule x)
          → (uuid == j) ≡ false
          → running (kill_stream now uuid s) j ≡ some m
          → running s j ≡ some m
      still j m other h = ground (arith, running-kill_stream now s uuid j)

  -- Storing a module under an identifier, with a record that agrees with it.
  pub IsConsistent-store :
      (s : Server x) (uuid : String) (n : StreamModule x) (b : Bucket x.bolt) (info : StreamRecord)
      → store_value x.stream_codec s.stream_storage uuid info ≡ ok b
      → info.status ≡ stream_status_running
      → info.finished_at ≡ none
      → info.uuid ≡ uuid
      → n.serve_address ≡ tcp_address info.ip info.port
      → n.handler_address ≡ "http://" & n.serve_address
      → n.public_key ≡ x.public_key n.private_key
      → IsConsistent s
      → IsConsistent (record s { stream_storage = b; streams = SyncMap.store uuid n s.streams })
  IsConsistent-store s uuid n b info done st fin id addr hand pair c = record {
    at = λ j m h. elim (Bool-cases (uuid == j)) [
      | inl same ↦
          subst (λ k. IsRegistered t k m) ((eq_iff uuid j).0 same)
            (subst (IsRegistered t uuid) (is_new j m same h) (record {
              info = info;
              stored_as = seen uuid ∙ rw eq_refl;
              is_running = st;
              unfinished = fin;
              same_uuid = id;
              address = addr;
              handler = hand;
              key_pair = pair;
            }))
      | inr other ↦
          IsRegistered-moved s t j m m (seen j ∙ rw other) refl refl refl refl
            (c.at j m (is_old j m other h))
    ];
  }
    where
      t : Server x
      t = record s { stream_storage = b; streams = SyncMap.store uuid n s.streams }

      seen : (j : String) → stored t j ≡ (if uuid == j then some (ok info) else stored s j)
      seen j = load_value-store_value x.stream_codec s.stream_storage b uuid j info done

      is_new : (j : String) (m : StreamModule x) → (uuid == j) ≡ true → running t j ≡ some m → n ≡ m
      is_new j m same h = ground (arith, load-store uuid j n s.streams)

      is_old :
          (j : String) (m : StreamModule x)
          → (uuid == j) ≡ false
          → running t j ≡ some m
          → running s j ≡ some m
      is_old j m other h = ground (arith, load-store uuid j n s.streams)

  pub IsConsistent-empty : (s : Server x) → s.streams ≡ [] → IsConsistent s
  IsConsistent-empty s e = record {
    at = λ uuid m h. absurd (none-ne-some uuid m (nothing uuid m h));
  }
    where
      nothing :
          (uuid : String) (m : StreamModule x)
          → running s uuid ≡ some m
          → SyncMap.load {V = StreamModule x} uuid [] ≡ some m
      nothing uuid m h = ap (SyncMap.load uuid) (sym e) ∙ h

      none-ne-some :
          (uuid : String) (m : StreamModule x)
          → SyncMap.load {V = StreamModule x} uuid [] ≡ some m
          → ⊥
      none-ne-some uuid m h = unfold SyncMap.load in cc h
