-- ===== src/Server/Participants/Deciding.antt =====
-- Joins that the host decides: JoinParticipant until its wait, DecideParticipantJoin, and what
-- follows a refusal.
use cc_core_server.Common.{
  String, Bool, true, false, some, Result, ok, err, ◌≡◌, ◌∙◌, ap, refl, arith,
}
use cc_core_server.Common.Text.{eq_refl}
use cc_core_server.Common.SyncMap
use cc_core_server.Common.SyncMap.{load-store}
use cc_core_server.Service.{Participant, join_policy_host_resolve}
use cc_core_server.Server.{StreamRecord, Externals, StreamModule, Server, running}
use cc_core_server.Server.Running.{running_record}
use cc_core_server.Server.Invariant.Joins.{running_record-eq-ok, running-update_pending}
use cc_core_server.Server.Participants.Roster.{decide_participant_join}
use cc_core_server.Server.Participants.{
  Waiting, waits, PolicyCase, auto_case, by_code_case, host_resolve_case, default_case, joining,
  denied, update_pending, remove_pending, resolve_join, after_answer, rejected, join_by_policy,
  join_found, join_participant,
}
use cc_core_server.Server.Participants.Joining.{
  NotPending, remove_pending-NotPending, update_pending-storage,
}
use cc_core_server.Server.Participants.Policy.{policy_case-host_resolve}

module _ ⦃x : Externals⦄ where
  -- A join that waits for the host, and turned `s` into `t`.
  pub record IsWaiting (uuid stream_uuid : String) (p : Participant) (s : Server x) (w : Waiting x)
      (t : Server x) : Type 0 where
    pub module_of : StreamModule x
    pub info : StreamRecord
    pub found : running_record s stream_uuid ≡ ok (module_of, info)
    pub policy : info.join.policy ≡ join_policy_host_resolve
    pub waiting : w ≡ record {
      stream_uuid = stream_uuid;
      private_key = module_of.private_key;
      participant = joining uuid p;
    }
    pub decidable :
        (allowed : Bool)
        → decide_participant_join stream_uuid uuid allowed t ≡ ok (joining uuid p, allowed)
    pub nothing_stored : t.participant_storage ≡ s.participant_storage

  join_by_policy-waits :
      (c : PolicyCase) (fits : Bool) (w w' : Waiting x) (s : Server x)
      → (join_by_policy c fits w s).0 ≡ waits w'
      → (c ≡ host_resolve_case) × (w' ≡ w) × ((join_by_policy c fits w s).1 ≡ s)
  unfolding join_by_policy rejected
  join_by_policy-waits auto_case fits w w' s h = absurd (cc)
  join_by_policy-waits by_code_case true w w' s h = absurd (cc)
  join_by_policy-waits by_code_case false w w' s h = absurd (cc)
  join_by_policy-waits host_resolve_case fits w w' s h = (refl, cc, refl)
  join_by_policy-waits default_case fits w w' s h = absurd (cc)

  decide-pending :
      (uuid stream_uuid : String) (p : Participant) (s : Server x) (m : StreamModule x)
      (allowed : Bool)
      → running s stream_uuid ≡ some m
      → decide_participant_join stream_uuid uuid allowed
          (update_pending stream_uuid (SyncMap.store uuid (joining uuid p)) s)
        ≡ ok (joining uuid p, allowed)
  unfolding decide_participant_join
  decide-pending uuid stream_uuid p s m allowed h = ground (
    arith,
    running-update_pending stream_uuid (SyncMap.store uuid (joining uuid p)) s stream_uuid,
    eq_refl stream_uuid,
    load-store uuid uuid (joining uuid p) m.pending_participants,
    eq_refl uuid,
  )

  -- A join waits only for a running stream whose policy is that the host decides. It then waits with
  -- the private key of this stream, DecideParticipantJoin finds it by its identifier and hands on
  -- either decision, and no participant has been stored.
  pub join_participant-IsWaiting :
      (uuid stream_uuid join_code : String) (p : Participant) (s : Server x) (w : Waiting x)
      → (join_participant uuid stream_uuid join_code p s).0 ≡ waits w
      → IsWaiting uuid stream_uuid p s w (join_participant uuid stream_uuid join_code p s).1
  unfolding join_participant join_found
  join_participant-IsWaiting uuid stream_uuid join_code p s w h =
      go (running_record s stream_uuid) refl h
    where
      go :
          (o : Result (StreamModule x × StreamRecord))
          → running_record s stream_uuid ≡ o
          → (join_found uuid stream_uuid join_code p s o).0 ≡ waits w
          → IsWaiting uuid stream_uuid p s w (join_found uuid stream_uuid join_code p s o).1
      go (err e) found h' = absurd (cc)
      go (ok (m, r)) found h' =
          let (case, same, kept) = join_by_policy-waits _ _ _ w _ h' in
          record {
            module_of = m;
            info = r;
            found = found;
            policy = policy_case-host_resolve r.join.policy case;
            waiting = same;
            decidable = λ allowed.
                ap (decide_participant_join stream_uuid uuid allowed) kept
                ∙ decide-pending uuid stream_uuid p s m allowed
                    (running_record-eq-ok s stream_uuid m r found).0;
            nothing_stored =
                ap (λ (t : Server x). t.participant_storage) kept
                ∙ (update_pending-storage stream_uuid (SyncMap.store uuid (joining uuid p)) s).0;
          }

  -- When the host does not let a waiting participant in, the join answers so without an error, no
  -- participant is stored, and he waits no more, whatever has happened to the stream meanwhile.
  pub resolve_join-denied :
      (w : Waiting x) (s : Server x)
      → ((resolve_join false w s).0 ≡ ok denied)
        × ((resolve_join false w s).1.participant_storage ≡ s.participant_storage)
        × NotPending (resolve_join false w s).1 w.stream_uuid w.participant.uuid
  unfolding resolve_join after_answer remove_pending
  resolve_join-denied w s = (
    refl,
    (update_pending-storage w.stream_uuid (SyncMap.delete w.participant.uuid) s).0,
    remove_pending-NotPending w.stream_uuid w.participant s,
  )
