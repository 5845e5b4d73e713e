-- ===== src/Middleware/Guests.antt =====
-- What the token of a participant opens.
use cc_core_server.Common.{String, Bool, true, false, some, ok, returns, ◌≡◌, ◌∙◌, ap, refl}
use cc_core_server.Common.Text.{◌&◌, eq_refl, trim_prefix}
use cc_core_server.Common.SyncMap
use cc_core_server.Service.{JoinParticipantDecision, Participant}
use cc_core_server.Server.{StreamRecord, Externals, StreamModule, Server, running}
use cc_core_server.Server.Running.{running_record}
use cc_core_server.Server.Invariant.{IsConsistent}
use cc_core_server.Server.Invariant.Joins.{
  running_record-eq-ok, running-update_pending, admit-streams,
}
use cc_core_server.Server.Participants.{
  Waiting, returned, PolicyCase, auto_case, by_code_case, host_resolve_case, default_case,
  with_pending, joining, update_pending, remove_pending, admit, after_answer, resolve_join,
  rejected, join_by_policy, join_found, join_participant,
}
use cc_core_server.Server.Participants.Policy.{join_participant-IsJoin}
use cc_core_server.Middleware.{
  bearer_prefix, bearer_prefix_lower, passed, refused, auth_error, status_unauthorized, stream_auth,
}
use cc_core_server.Middleware.Passing.{stream_auth-stream_claims}

module _ ⦃x : Externals⦄ where
  -- The stream still runs in `t`, and its key is that of `m`.
  abbrev KeepsKey : Server x → String → StreamModule x → Type 0
  KeepsKey t uuid m =
      (n : StreamModule x) × (running t uuid ≡ some n) × (n.public_key ≡ m.public_key)

  resolve_join-KeepsKey :
      (w : Waiting x) (s : Server x) (m : StreamModule x)
      → running s w.stream_uuid ≡ some m
      → KeepsKey (resolve_join true w s).1 w.stream_uuid m
  unfolding resolve_join after_answer remove_pending
  resolve_join-KeepsKey w s m h =
      let still : running (admit w s).1 w.stream_uuid ≡ some m =
        ap (SyncMap.load w.stream_uuid) (admit-streams w s).0 ∙ h in
      (
        with_pending (SyncMap.delete w.participant.uuid) m,
        running-update_pending w.stream_uuid (SyncMap.delete w.participant.uuid) (admit w s).1
              w.stream_uuid
            ∙ rw (eq_refl w.stream_uuid, still) refl,
        refl,
      )

  join_by_policy-KeepsKey :
      (c : PolicyCase) (fits : Bool) (w : Waiting x) (s : Server x) (m : StreamModule x)
      (d : JoinParticipantDecision)
      → running s w.stream_uuid ≡ some m
      → (join_by_policy c fits w s).0 ≡ returned (ok d)
      → KeepsKey (join_by_policy c fits w s).1 w.stream_uuid m
  unfolding join_by_policy rejected
  join_by_policy-KeepsKey auto_case fits w s m d h e = resolve_join-KeepsKey w s m h
  join_by_policy-KeepsKey by_code_case true w s m d h e = resolve_join-KeepsKey w s m h
  join_by_policy-KeepsKey by_code_case false w s m d h e = absurd (cc)
  join_by_policy-KeepsKey host_resolve_case fits w s m d h e = absurd (cc)
  join_by_policy-KeepsKey default_case fits w s m d h e = absurd (cc)

  join_participant-KeepsKey :
      (uuid stream_uuid join_code : String) (p : Participant) (s : Server x) (m : StreamModule x)
      (r : StreamRecord) (d : JoinParticipantDecision)
      → running_record s stream_uuid ≡ ok (m, r)
      → (join_participant uuid stream_uuid join_code p s).0 ≡ returned (ok d)
      → KeepsKey (join_participant uuid stream_uuid join_code p s).1 stream_uuid m
  unfolding join_participant join_found
  join_participant-KeepsKey uuid stream_uuid join_code p s m r d found = rw found (λ e.
      let runs : running (update_pending stream_uuid (SyncMap.store uuid (joining uuid p)) s)
            stream_uuid
          ≡ some (with_pending (SyncMap.store uuid (joining uuid p)) m) =
        running-update_pending stream_uuid (SyncMap.store uuid (joining uuid p)) s stream_uuid
        ∙ rw (eq_refl stream_uuid, (running_record-eq-ok s stream_uuid m r found).0) refl in
      join_by_policy-KeepsKey _ _ _ _ (with_pending (SyncMap.store uuid (joining uuid p)) m) d runs
        e)

  -- In a consistent server, the token that a participant is given by a join that lets him in opens
  -- the endpoints of the stream that ask for no host, as this participant, and none that is for the
  -- host only, if the token does not itself begin with "bearer ".
  pub join_participant-stream_auth :
      (uuid stream_uuid join_code : String) (p : Participant) (s : Server x)
      (d : JoinParticipantDecision)
      → IsConsistent s
      → (join_participant uuid stream_uuid join_code p s).0 ≡ returned (ok d)
      → trim_prefix d.access_token bearer_prefix_lower ≡ d.access_token
      → (stream_auth false
            (bearer_prefix & d.access_token)
            stream_uuid
            (join_participant uuid stream_uuid join_code p s).1
          ≡ returns (passed (record { uuid = uuid; stream_uuid = stream_uuid; is_host = false })))
        × (stream_auth true
              (bearer_prefix & d.access_token)
              stream_uuid
              (join_participant uuid stream_uuid join_code p s).1
            ≡ returns (
                refused status_unauthorized
                  (auth_error "only host of the stream has access to this endpoint")))
  join_participant-stream_auth uuid stream_uuid join_code p s d c h trimmed =
      let join = join_participant-IsJoin uuid stream_uuid join_code p s d h in
      let (n, runs, same) =
        join_participant-KeepsKey uuid stream_uuid join_code p s join.module_of join.info d
          join.found h in
      let key =
        same
        ∙ (c.at stream_uuid join.module_of
            (running_record-eq-ok s stream_uuid join.module_of join.info join.found).0).key_pair in
      let accepted = ap (λ k. x.parse_token k d.access_token) key ∙ join.admitted.accepted in
      let access = λ (host_specific : Bool).
        stream_auth-stream_claims host_specific d.access_token stream_uuid uuid false
          (join_participant uuid stream_uuid join_code p s).1 n runs trimmed accepted in
      (access false, access true)
