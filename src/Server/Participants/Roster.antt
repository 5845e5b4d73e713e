-- ===== src/Server/Participants/Roster.antt =====
-- DecideParticipantJoin, StreamParticipants and PatchParticipant (server/participant.go).
use cc_core_server.Common.{
  Bool, String, none, some, List, ◌++◌, map, plain, wrap, Result, ok, err, ◌>>=◌, wrap_err,
}
use cc_core_server.Common.Text.{◌&◌}
use cc_core_server.Common.SyncMap
use cc_core_server.Common.SyncMap.{SyncMap}
use cc_core_server.Service.{Participant, PatchParticipantConfig}
use cc_core_server.Server.{
  ParticipantRecord, Externals, update_participant, Server, not_running, running,
  stored_participants, spawn,
}
use cc_core_server.Server.Participants.{
  to_participant, stream_participant, find_participant, patch_participant_record,
  participants_or_none,
}

module _ ⦃x : Externals⦄ where
  -- `DecideParticipantJoin`: the pending participant whose channel takes the decision, and what is
  -- sent on it; the join that this wakes up is `resolve_join`.
  unfoldable pub decide_participant_join :
      String → String → Bool → Server x → Result (ParticipantRecord × Bool)
  decide_participant_join stream_uuid participant_uuid join_allowed s =
      elim (running s stream_uuid) [
        | none ↦ err (not_running stream_uuid)
        | some m ↦ elim (SyncMap.load participant_uuid m.pending_participants) [
          | none ↦ err (plain ("could not find pending participant by UUID " & participant_uuid))
          | some p ↦ ok (p, join_allowed)
        ]
      ]

  -- `StreamParticipants`: those that wait, then those that are stored.
  unfoldable pub stream_participants : String → Server x → Result (List Participant)
  unfolding participants_or_none
  stream_participants uuid s = elim (running s uuid) [
    | none ↦ err (not_running uuid)
    | some m ↦ do
      ps ← wrap_err "could not decode participants data" (participants_or_none s uuid)
      ok (map to_participant (map (λ e. e.1) m.pending_participants ++ ps))
  ]

  -- `PatchParticipant`: the patched participant is returned and sent to the stream.
  unfoldable pub patch_participant :
      String → String → PatchParticipantConfig → Server x → Result Participant × Server x
  unfolding find_participant
  patch_participant stream_uuid participant_uuid cfg s = elim (running s stream_uuid) [
    | none ↦ (err (not_running stream_uuid), s)
    | some m ↦ elim (stored_participants s stream_uuid) [
      | none ↦ (err (plain "could not find participants data"), s)
      | some (err e) ↦ (err (wrap "could not decode participants data" e), s)
      | some (ok ps) ↦ elim (find_participant participant_uuid ps) [
        | none ↦ (err (plain ("could not find participant by UUID " & participant_uuid)), s)
        | some p ↦ (
          ok (to_participant (patch_participant_record cfg p)),
          spawn
              (update_participant stream_uuid (stream_participant (patch_participant_record cfg p)))
              s,
        )
      ]
    ]
  ]
