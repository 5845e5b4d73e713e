-- ===== src/Server/Lifecycle/Frames.antt =====
-- What killing and registering a stream change, and what they leave alone.
use cc_core_server.Common.{
  String, false, Option, none, some, Result, ok, err, if◌then◌else◌, ◌≡◌, ◌∙◌, ap, refl, arith,
  eq_iff,
}
use cc_core_server.Common.Text.{◌==◌, eq_refl}
use cc_core_server.Common.SyncMap
use cc_core_server.Common.SyncMap.{load-delete, load-store}
use cc_core_server.Service.{Time}
use cc_core_server.Storage.{Bucket, load_value, store_value}
use cc_core_server.Storage.Laws.{load_value-store_value}
use cc_core_server.Server.{StreamRecord, Externals, Server, running, stored}
use cc_core_server.Server.Records.{finish}
use cc_core_server.Server.Lifecycle.{forget_running, keep_bucket, finish_found, kill_stream}

module _ ⦃x : Externals⦄ where
  running-forget_running :
      (s : Server x) (uuid j : String)
      → running (forget_running uuid s) j ≡ (if uuid == j then none else running s j)
  unfolding forget_running
  running-forget_running s uuid j = ground (arith, load-delete uuid j s.streams, eq_iff uuid j)

  storage-forget_running :
      (s : Server x) (uuid : String) → (forget_running uuid s).stream_storage ≡ s.stream_storage
  unfolding forget_running
  storage-forget_running s uuid = ground arith

  running-keep_bucket :
      (s : Server x) (r : Result (Bucket x.bolt)) → (keep_bucket s r).streams ≡ s.streams
  running-keep_bucket s (err e) = refl
  running-keep_bucket s (ok b) = refl

  running-finish_found :
      (now : Time) (s : Server x) (uuid : String) (o : Option (Result StreamRecord))
      → (finish_found now uuid s o).streams ≡ s.streams
  running-finish_found now s uuid none = refl
  running-finish_found now s uuid (some (err e)) = refl
  running-finish_found now s uuid (some (ok r)) =
      running-keep_bucket s (store_value x.stream_codec s.stream_storage uuid (finish now r))

  -- The streams that run after a kill are the others.
  pub running-kill_stream :
      (now : Time) (s : Server x) (uuid j : String)
      → running (kill_stream now uuid s) j ≡ (if uuid == j then none else running s j)
  unfolding kill_stream
  running-kill_stream now s uuid j =
      let s' = forget_running uuid s in
      ap (SyncMap.load j) (running-finish_found now s' uuid (stored s' uuid))
      ∙ running-forget_running s uuid j

  -- What a store shows to a load, whether it succeeds or not.
  pub stored-keep_bucket_ne :
      (s : Server x) (uuid j : String) (a : StreamRecord) (r : Result (Bucket x.bolt))
      → store_value x.stream_codec s.stream_storage uuid a ≡ r
      → (uuid == j) ≡ false
      → stored (keep_bucket s r) j ≡ stored s j
  stored-keep_bucket_ne s uuid j a (err e) h k = refl
  stored-keep_bucket_ne s uuid j a (ok b) h k =
      load_value-store_value x.stream_codec s.stream_storage b uuid j a h ∙ rw k

  stored-finish_found :
      (now : Time) (s : Server x) (uuid j : String) (o : Option (Result StreamRecord))
      → (uuid == j) ≡ false
      → stored (finish_found now uuid s o) j ≡ stored s j
  stored-finish_found now s uuid j none h = refl
  stored-finish_found now s uuid j (some (err e)) h = refl
  stored-finish_found now s uuid j (some (ok r)) h =
      stored-keep_bucket_ne s uuid j (finish now r) _ refl h

  -- A kill leaves the records of the other streams.
  pub stored-kill_stream_ne :
      (now : Time) (s : Server x) (uuid j : String)
      → (uuid == j) ≡ false
      → stored (kill_stream now uuid s) j ≡ stored s j
  unfolding kill_stream
  stored-kill_stream_ne now s uuid j h =
      let s' = forget_running uuid s in
      stored-finish_found now s' uuid j (stored s' uuid) h
      ∙ ap (λ b. load_value x.stream_codec b j) (storage-forget_running s uuid)

  stored-keep_bucket :
      (s : Server x) (uuid : String) (a : StreamRecord) (r : Result (Bucket x.bolt))
      (b : Bucket x.bolt)
      → store_value x.stream_codec s.stream_storage uuid a ≡ ok b
      → r ≡ ok b
      → stored (keep_bucket s r) uuid ≡ some (ok a)
  stored-keep_bucket s uuid a r b h k =
      rw k (load_value-store_value x.stream_codec s.stream_storage b uuid uuid a h ∙ rw eq_refl)

  stored-finish_found_self :
      (now : Time) (s : Server x) (uuid : String) (r : StreamRecord) (b : Bucket x.bolt)
      (o : Option (Result StreamRecord))
      → o ≡ some (ok r)
      → store_value x.stream_codec s.stream_storage uuid (finish now r) ≡ ok b
      → stored (finish_found now uuid s o) uuid ≡ some (ok (finish now r))
  stored-finish_found_self now s uuid r b o h k =
      rw h (stored-keep_bucket s uuid (finish now r) _ b k k)

  -- If the record of the stream decodes, and the store of the finished one succeeds, then that is
  -- what is stored.
  pub stored-kill_stream :
      (now : Time) (s : Server x) (uuid : String) (r : StreamRecord) (b : Bucket x.bolt)
      → stored s uuid ≡ some (ok r)
      → store_value x.stream_codec s.stream_storage uuid (finish now r) ≡ ok b
      → stored (kill_stream now uuid s) uuid ≡ some (ok (finish now r))
  unfolding kill_stream
  stored-kill_stream now s uuid r b h k =
      let e = storage-forget_running s uuid in
      stored-finish_found_self now (forget_running uuid s) uuid r b _ (rw e h) (rw e k)
