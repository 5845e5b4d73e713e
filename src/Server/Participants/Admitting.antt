-- ===== src/Server/Participants/Admitting.antt =====
-- Joins that are let in come to an end (JoinParticipant of server/participant.go).
use cc_core_server.Common.{String, true, false, List, [], ◌∷◌, ◌++◌, ok, ◌≡◌, ◌∙◌, ap}
use cc_core_server.Storage.{Bucket, store_value}
use cc_core_server.Server.{ParticipantRecord, Externals, Server}
use cc_core_server.Server.Records.{stream_claims, generate_stream_access_token}
use cc_core_server.Server.Participants.{
  Waiting, activate, participants_or_none, participant_stored, participants_decoded, token_signed,
  admit, after_answer, remove_pending, resolve_join,
}
use cc_core_server.Server.Participants.Joining.{
  IsAdmitted, resolve_join-IsAdmitted, NotPending, remove_pending-NotPending,
}

module _ ⦃x : Externals⦄ where
  admit-answer :
      (w : Waiting x) (s : Server x) (token : String) (ps : List ParticipantRecord)
      (b : Bucket x.bolt)
      → x.sign w.private_key (stream_claims w.stream_uuid w.participant.uuid false) ≡ ok token
      → participants_or_none s w.stream_uuid ≡ ok ps
      → store_value x.participants_codec s.participant_storage w.stream_uuid
          (ps ++ activate w.participant ∷ [])
        ≡ ok b
      → (admit w s).0 ≡ ok (record { join_allowed = true; access_token = token })
  unfolding admit generate_stream_access_token token_signed participants_decoded participant_stored
  admit-answer w s token ps b signed decoded stored =
      ap (λ o. (token_signed w s o).0) signed
      ∙ ap (λ o. (participants_decoded w token s o).0) decoded
      ∙ ap (λ o. (participant_stored w token s o).0) stored

  -- A waiting join that the host lets in returns: if its token can be signed, the participants of
  -- the stream can be decoded and the new list can be stored, the participant is told that he may
  -- join, with this token, is stored after the others, is announced to the stream, and waits no more.
  pub resolve_join-returns :
      (w : Waiting x) (s : Server x) (token : String) (ps : List ParticipantRecord)
      (b : Bucket x.bolt)
      → x.sign w.private_key (stream_claims w.stream_uuid w.participant.uuid false) ≡ ok token
      → participants_or_none s w.stream_uuid ≡ ok ps
      → store_value x.participants_codec s.participant_storage w.stream_uuid
          (ps ++ activate w.participant ∷ [])
        ≡ ok b
      → ((resolve_join true w s).0 ≡ ok (record { join_allowed = true; access_token = token }))
        × IsAdmitted s w
            (record { join_allowed = true; access_token = token })
            (resolve_join true w s).1
        × NotPending (resolve_join true w s).1 w.stream_uuid w.participant.uuid
  unfolding resolve_join after_answer remove_pending
  resolve_join-returns w s token ps b signed decoded stored =
      let answer = admit-answer w s token ps b signed decoded stored in
      (
        answer,
        resolve_join-IsAdmitted w s _ answer,
        remove_pending-NotPending w.stream_uuid w.participant (admit w s).1,
      )
