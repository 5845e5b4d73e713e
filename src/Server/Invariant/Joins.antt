-- ===== src/Server/Invariant/Joins.antt =====
-- The invariant under PatchStream, the joins and the goroutines.
use mathlib.Core.Option
use mathlib.Core.Option.{some-injective}
use cc_core_server.Common.{
  String, Bool, true, false, Option, none, some, GoError, Result, ok, err, if◌then◌else◌, ◌≡◌, ap,
  refl, arith, eq_iff,
}
use cc_core_server.Common.Text.{◌==◌}
use cc_core_server.Common.SyncMap
use cc_core_server.Common.SyncMap.{SyncMap, load-delete, load-store}
use cc_core_server.Service.{Time, PatchStreamConfig, Participant, JoinParticipantDecision}
use cc_core_server.Storage.{Bucket, load_value, store_value}
use cc_core_server.Launch.{interruption}
use cc_core_server.Server.{
  StreamRecord, ParticipantRecord, Externals, StreamModule, Server, Task, listen_interrupt,
  add_participant, update_participant, running, stored,
}
use cc_core_server.Server.Records.{patch_record}
use cc_core_server.Server.Lifecycle.{finish_stream, finish_found_stream, kill_stream}
use cc_core_server.Server.Running.{
  running_record, patch_stored, patch_found, patch_stream, notify_host,
}
use cc_core_server.Server.Participants.{
  PolicyCase, policy_case, auto_case, by_code_case, host_resolve_case, default_case, joining,
  with_pending, set_pending, join_found, answered, update_pending, remove_pending, Waiting, admit,
  resolve_join, join_by_policy, join_participant, rejected,
}
use cc_core_server.Server.Tasks.{
  Event, run_task, add_new_participant, update_participant_info, listen_stream_interrupt_event,
}
use cc_core_server.Server.Invariant.{
  IsConsistent, IsConsistent-same, kill_stream-IsConsistent, IsRegistered-moved,
}
use cc_core_server.Server.Invariant.Operations.{IsConsistent-restore}

module _ ⦃x : Externals⦄ where
  streams-notify_host :
      (cfg : PatchStreamConfig) (uuid : String) (r : StreamRecord) (s : Server x)
      → (notify_host cfg uuid r s).streams ≡ s.streams
  streams-notify_host cfg uuid r s = ground arith

  storage-notify_host :
      (cfg : PatchStreamConfig) (uuid : String) (r : StreamRecord) (s : Server x)
      → (notify_host cfg uuid r s).stream_storage ≡ s.stream_storage
  storage-notify_host cfg uuid r s = ground arith

  patch_stored-IsConsistent :
      (cfg : PatchStreamConfig) (uuid : String) (r : StreamRecord) (s : Server x)
      (o : Result (Bucket x.bolt))
      → stored s uuid ≡ some (ok r)
      → store_value x.stream_codec s.stream_storage uuid (patch_record cfg r) ≡ o
      → IsConsistent s
      → IsConsistent (patch_stored cfg uuid (patch_record cfg r) s o).1
  unfolding patch_stored patch_record
  patch_stored-IsConsistent cfg uuid r s (err e) was done c = c
  patch_stored-IsConsistent cfg uuid r s (ok b) was done c =
      IsConsistent-same (record s { stream_storage = b }) _
        (streams-notify_host cfg uuid (patch_record cfg r) (record s { stream_storage = b }))
        (storage-notify_host cfg uuid (patch_record cfg r) (record s { stream_storage = b }))
        (IsConsistent-restore s uuid b r (patch_record cfg r) was done refl refl refl refl refl c)

  -- What the fetch of a running stream has found.
  pub running_record-eq-ok :
      (s : Server x) (uuid : String) (m : StreamModule x) (r : StreamRecord)
      → running_record s uuid ≡ ok (m, r)
      → (running s uuid ≡ some m) × (stored s uuid ≡ some (ok r))
  unfolding running_record
  running_record-eq-ok s uuid m r h = ground arith

  patch_found-IsConsistent :
      (cfg : PatchStreamConfig) (uuid : String) (s : Server x)
      (o : Result (StreamModule x × StreamRecord))
      → running_record s uuid ≡ o
      → IsConsistent s
      → IsConsistent (patch_found cfg uuid s o).1
  unfolding patch_found
  patch_found-IsConsistent cfg uuid s (err e) h c = c
  patch_found-IsConsistent cfg uuid s (ok (m, r)) h c =
      patch_stored-IsConsistent cfg uuid r s _ (running_record-eq-ok s uuid m r h).1 refl c

  pub patch_stream-IsConsistent :
      (uuid : String) (cfg : PatchStreamConfig) (s : Server x)
      → IsConsistent s
      → IsConsistent (patch_stream uuid cfg s).1
  unfolding patch_stream
  patch_stream-IsConsistent uuid cfg s c = patch_found-IsConsistent cfg uuid s _ refl c

  -- The module under `j` after a change of the pending participants of `uuid`.
  pub running-update_pending :
      (uuid : String) (f : SyncMap ParticipantRecord → SyncMap ParticipantRecord) (s : Server x)
      (j : String)
      → running (update_pending uuid f s) j
        ≡ (if uuid == j then Option.map (with_pending f) (running s j) else running s j)
  unfolding update_pending
  running-update_pending uuid f s j = go (running s uuid) refl
    where
      go :
          (o : Option (StreamModule x))
          → running s uuid ≡ o
          → running (set_pending uuid f s o) j
            ≡ (if uuid == j then Option.map (with_pending f) (running s j) else running s j)
      go none e = ground (arith, eq_iff uuid j)
      go (some m) e = ground (arith, load-store uuid j (with_pending f m) s.streams, eq_iff uuid j)

  pub storage-update_pending :
      (uuid : String) (f : SyncMap ParticipantRecord → SyncMap ParticipantRecord) (s : Server x)
      → (update_pending uuid f s).stream_storage ≡ s.stream_storage
  unfolding update_pending
  storage-update_pending uuid f s = ground arith

  pub update_pending-IsConsistent :
      (uuid : String) (f : SyncMap ParticipantRecord → SyncMap ParticipantRecord) (s : Server x)
      → IsConsistent s
      → IsConsistent (update_pending uuid f s)
  update_pending-IsConsistent uuid f s c = record {
    at = λ j m h.
        let (n, e, a, b, pk, sk) = origin j m h (running s j) refl in
        IsRegistered-moved s (update_pending uuid f s) j n m
          (ap (λ b. load_value x.stream_codec b j) (storage-update_pending uuid f s)) a b pk sk
          (c.at j n e);
  }
    where
      origin :
          (j : String) (m : StreamModule x)
          → running (update_pending uuid f s) j ≡ some m
          → (o : Option (StreamModule x)) → running s j ≡ o
          → (n : StreamModule x) × (running s j ≡ some n)
            × (m.serve_address ≡ n.serve_address)
            × (m.handler_address ≡ n.handler_address)
            × (m.public_key ≡ n.public_key)
            × (m.private_key ≡ n.private_key)
      origin j m h none e = absurd (ground (arith, running-update_pending uuid f s j))
      origin j m h (some n) e = (
        n,
        e,
        ground (arith, running-update_pending uuid f s j),
        ground (arith, running-update_pending uuid f s j),
        ground (arith, running-update_pending uuid f s j),
        ground (arith, running-update_pending uuid f s j),
      )

  -- Admitting a participant changes neither the running streams nor their records.
  pub admit-streams :
      (w : Waiting x) (s : Server x)
      → ((admit w s).1.streams ≡ s.streams) × ((admit w s).1.stream_storage ≡ s.stream_storage)
  unfolding admit
  admit-streams w s = (ground arith, ground arith)

  pub resolve_join-IsConsistent :
      (allowed : Bool) (w : Waiting x) (s : Server x)
      → IsConsistent s
      → IsConsistent (resolve_join allowed w s).1
  unfolding resolve_join remove_pending
  resolve_join-IsConsistent true w s c =
      update_pending-IsConsistent w.stream_uuid (SyncMap.delete w.participant.uuid) (admit w s).1
        (IsConsistent-same s (admit w s).1 (admit-streams w s).0 (admit-streams w s).1 c)
  resolve_join-IsConsistent false w s c =
      update_pending-IsConsistent w.stream_uuid (SyncMap.delete w.participant.uuid) s c

  answered-IsConsistent :
      (o : Result JoinParticipantDecision × Server x)
      → IsConsistent o.1
      → IsConsistent (answered o).1
  answered-IsConsistent (r, s) c = c

  rejected-IsConsistent :
      (message : String) (w : Waiting x) (s : Server x)
      → IsConsistent s
      → IsConsistent (rejected message w s).1
  unfolding rejected remove_pending
  rejected-IsConsistent message w s =
      update_pending-IsConsistent w.stream_uuid (SyncMap.delete w.participant.uuid) s

  join_by_policy-IsConsistent :
      (policy : PolicyCase) (code_fits : Bool) (w : Waiting x) (s : Server x)
      → IsConsistent s
      → IsConsistent (join_by_policy policy code_fits w s).1
  unfolding join_by_policy
  join_by_policy-IsConsistent auto_case code_fits w s c =
      answered-IsConsistent (resolve_join true w s) (resolve_join-IsConsistent true w s c)
  join_by_policy-IsConsistent by_code_case true w s c =
      answered-IsConsistent (resolve_join true w s) (resolve_join-IsConsistent true w s c)
  join_by_policy-IsConsistent by_code_case false w s c =
      rejected-IsConsistent "invalid join code" w s c
  join_by_policy-IsConsistent host_resolve_case code_fits w s c = c
  join_by_policy-IsConsistent default_case code_fits w s c =
      rejected-IsConsistent "unknown stream join policy" w s c

  join_found-IsConsistent :
      (uuid stream_uuid code : String) (p : Participant) (s : Server x)
      (o : Result (StreamModule x × StreamRecord))
      → IsConsistent s
      → IsConsistent (join_found uuid stream_uuid code p s o).1
  unfolding join_found
  join_found-IsConsistent uuid stream_uuid code p s (err e) c = c
  join_found-IsConsistent uuid stream_uuid code p s (ok (m, r)) c =
      join_by_policy-IsConsistent (policy_case r.join.policy) _ _ _
        (update_pending-IsConsistent stream_uuid (SyncMap.store uuid (joining uuid p)) s c)

  pub join_participant-IsConsistent :
      (uuid stream_uuid code : String) (p : Participant) (s : Server x)
      → IsConsistent s
      → IsConsistent (join_participant uuid stream_uuid code p s).1
  unfolding join_participant
  join_participant-IsConsistent uuid stream_uuid code p s =
      join_found-IsConsistent uuid stream_uuid code p s _

  pub run_task-IsConsistent :
      (t : Task) (ev : Event) (s : Server x) → IsConsistent s → IsConsistent (run_task t ev s)
  unfolding run_task add_new_participant update_participant_info listen_stream_interrupt_event
  run_task-IsConsistent (listen_interrupt uuid r) ev s c =
      interrupted (interruption r ev.ended ev.status)
    where
      interrupted :
          (o : Option GoError)
          → IsConsistent (elim o [ none ↦ s | some e ↦ kill_stream ev.now uuid s ])
      interrupted none = c
      interrupted (some e) = kill_stream-IsConsistent ev.now uuid s c
  run_task-IsConsistent (add_participant uuid p) ev s c =
      IsConsistent-same s (add_new_participant uuid p s) (ground arith) (ground arith) c
  run_task-IsConsistent (update_participant uuid p) ev s c =
      IsConsistent-same s (update_participant_info uuid p s) (ground arith) (ground arith) c

  pub finish_stream-IsConsistent :
      (now : Time) (uuid : String) (s : Server x)
      → IsConsistent s
      → IsConsistent (finish_stream now uuid s).1
  unfolding finish_stream
  finish_stream-IsConsistent now uuid s c = go (running s uuid)
    where
      go : (o : Option (StreamModule x)) → IsConsistent (finish_found_stream now uuid s o).1
      go none = c
      go (some m) = kill_stream-IsConsistent now uuid s c
