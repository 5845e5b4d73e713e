-- ===== src/Server/Participants/Policy.antt =====
-- JoinParticipant and DecideParticipantJoin: who is let in, and what the call has done when it
-- returns.
use cc_core_server.Common.{String, Bool, true, false, Result, ok, err, ◌≡◌, refl, arith, eq_iff}
use cc_core_server.Common.Text.{◌==◌}
use cc_core_server.Common.SyncMap
use cc_core_server.Common.SyncMap.{SyncMap, load-store, load-delete}
use cc_core_server.Service.{
  JoinPolicy, JoinParticipantDecision, Participant, join_policy_auto, join_policy_by_code,
  join_policy_host_resolve,
}
use cc_core_server.Server.{StreamRecord, Externals, StreamModule, Server}
use cc_core_server.Server.Running.{running_record}
use cc_core_server.Server.Participants.{
  Waiting, Progress, returned, PolicyCase, auto_case, by_code_case, host_resolve_case, default_case,
  policy_case, joining, resolve_join, rejected, join_by_policy, join_found, join_participant,
}
use cc_core_server.Server.Participants.Joining.{
  IsAdmitted, NotPending, remove_pending-NotPending, resolve_join-IsAdmitted,
  update_pending-storage, IsAdmitted-moved,
}

-- The policy of a stream and its code let a participant in who gave this code.
pub data IsLetIn (info : StreamRecord) (join_code : String) : Type 0 where
  by_auto : info.join.policy ≡ join_policy_auto → IsLetIn info join_code
  by_code :
      info.join.policy ≡ join_policy_by_code → info.join.code ≡ join_code → IsLetIn info join_code

policy_case-auto : (p : JoinPolicy) → policy_case p ≡ auto_case → p ≡ join_policy_auto
unfolding policy_case
policy_case-auto p h = ground (
  arith,
  eq_iff p join_policy_auto,
  eq_iff p join_policy_by_code,
  eq_iff p join_policy_host_resolve,
)

policy_case-by_code : (p : JoinPolicy) → policy_case p ≡ by_code_case → p ≡ join_policy_by_code
unfolding policy_case
policy_case-by_code p h = ground (
  arith,
  eq_iff p join_policy_auto,
  eq_iff p join_policy_by_code,
  eq_iff p join_policy_host_resolve,
)

pub policy_case-host_resolve :
    (p : JoinPolicy) → policy_case p ≡ host_resolve_case → p ≡ join_policy_host_resolve
unfolding policy_case
policy_case-host_resolve p h = ground (
  arith,
  eq_iff p join_policy_auto,
  eq_iff p join_policy_by_code,
  eq_iff p join_policy_host_resolve,
)

module _ ⦃x : Externals⦄ where
  -- A join of the stream `stream_uuid` that let the participant in, and turned `s` into `t`.
  pub record IsJoin (uuid stream_uuid join_code : String) (p : Participant) (s : Server x)
      (d : JoinParticipantDecision) (t : Server x) : Type 0 where
    pub module_of : StreamModule x
    pub info : StreamRecord
    pub found : running_record s stream_uuid ≡ ok (module_of, info)
    pub let_in : IsLetIn info join_code
    pub admitted :
        IsAdmitted s
          (record {
            stream_uuid = stream_uuid;
            private_key = module_of.private_key;
            participant = joining uuid p;
          })
          d
          t
    pub not_pending : NotPending t stream_uuid uuid

  returned-ok :
      {a : Result JoinParticipantDecision} {d : JoinParticipantDecision} (q : Progress x)
      → q ≡ returned a
      → q ≡ returned (ok d)
      → a ≡ ok d
  returned-ok q e h = cc

  join_by_policy-IsLetIn :
      (c : PolicyCase) (fits : Bool) (info : StreamRecord) (code : String) (w : Waiting x)
      (s : Server x) (d : JoinParticipantDecision)
      → policy_case info.join.policy ≡ c
      → (info.join.code == code) ≡ fits
      → (join_by_policy c fits w s).0 ≡ returned (ok d)
      → IsLetIn info code
        × IsAdmitted s w d (join_by_policy c fits w s).1
        × NotPending (join_by_policy c fits w s).1 w.stream_uuid w.participant.uuid
  unfolding join_by_policy rejected resolve_join
  join_by_policy-IsLetIn auto_case fits info code w s d hc hf h = (
    by_auto (policy_case-auto _ hc),
    resolve_join-IsAdmitted w s d (returned-ok _ refl h),
    remove_pending-NotPending w.stream_uuid w.participant _,
  )
  join_by_policy-IsLetIn by_code_case true info code w s d hc hf h = (
    by_code (policy_case-by_code _ hc) (ground (arith, hf, eq_iff info.join.code code)),
    resolve_join-IsAdmitted w s d (returned-ok _ refl h),
    remove_pending-NotPending w.stream_uuid w.participant _,
  )
  join_by_policy-IsLetIn by_code_case false info code w s d hc hf h = cc
  join_by_policy-IsLetIn host_resolve_case fits info code w s d hc hf h = cc
  join_by_policy-IsLetIn default_case fits info code w s d hc hf h = cc

  -- A join that returns at once and without an error lets the participant in, as the policy of the
  -- running stream says: `auto`, or `by_code` with the code of the stream. The participant is
  -- appended to those that are stored, as active, is given a token that the public half of the
  -- stream's private key accepts, with the claims of a guest, is announced to the stream, and
  -- waits no more.
  pub join_participant-IsJoin :
      (uuid stream_uuid join_code : String) (p : Participant) (s : Server x)
      (d : JoinParticipantDecision)
      → (join_participant uuid stream_uuid join_code p s).0 ≡ returned (ok d)
      → IsJoin uuid stream_uuid join_code p s d (join_participant uuid stream_uuid join_code p s).1
  unfolding join_participant join_found
  join_participant-IsJoin uuid stream_uuid join_code p s d h =
      go (running_record s stream_uuid) refl h
    where
      go :
          (o : Result (StreamModule x × StreamRecord))
          → running_record s stream_uuid ≡ o
          → (join_found uuid stream_uuid join_code p s o).0 ≡ returned (ok d)
          → IsJoin uuid stream_uuid join_code p s d (join_found uuid stream_uuid join_code p s o).1
      go (err e) found h' = cc
      go (ok (m, r)) found h' =
          let (let_in, done, gone) = join_by_policy-IsLetIn _ _ r join_code _ _ d refl refl h' in
          let (storage, tasks) =
            update_pending-storage stream_uuid (SyncMap.store uuid (joining uuid p)) s in
          record {
            module_of = m;
            info = r;
            found = found;
            let_in = let_in;
            admitted = IsAdmitted-moved _ _ _ _ _ storage tasks done;
            not_pending = gone;
          }
