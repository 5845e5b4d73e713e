-- ===== src/Server/Participants/Joining.antt =====
-- What a successful join has done, and what one that fails leaves as it was.
use cc_core_server.Common.{
  String, true, false, Option, none, some, List, [], ◌∷◌, ◌++◌, Result, ok, err, ◌≡◌, ◌∙◌, ap, sym,
  refl,
}
use cc_core_server.Common.Text.{eq_refl}
use cc_core_server.Common.SyncMap
use cc_core_server.Common.SyncMap.{SyncMap, load-store, load-delete}
use cc_core_server.Service.{JoinParticipantDecision}
use cc_core_server.Storage.{Bucket, load_value, store_value}
use cc_core_server.Storage.Laws.{load_value-store_value}
use cc_core_server.Server.{
  ParticipantRecord, Externals, add_participant, StreamModule, Server, running, stored_participants,
}
use cc_core_server.Server.Records.{
  parse_token-stream_claims, stream_claims, generate_stream_access_token,
}
use cc_core_server.Server.Participants.{
  Waiting, with_pending, activate, stream_participant, participants_or_none, set_pending,
  update_pending, remove_pending, participant_stored, participants_decoded, token_signed, admit,
  after_answer, resolve_join,
}

module _ ⦃x : Externals⦄ where
  -- The participant of `w` was admitted to `s`, which became `t`.
  pub record IsAdmitted (s : Server x) (w : Waiting x) (d : JoinParticipantDecision) (t : Server x)
      : Type 0 where
    pub before : List ParticipantRecord
    pub decoded : participants_or_none s w.stream_uuid ≡ ok before
    pub joined :
        stored_participants t w.stream_uuid ≡ some (ok (before ++ activate w.participant ∷ []))
    pub allowed : d.join_allowed ≡ true
    pub accepted :
        x.parse_token (x.public_key w.private_key) d.access_token
        ≡ ok (stream_claims w.stream_uuid w.participant.uuid false)
    pub announced :
        t.tasks
        ≡ add_participant w.stream_uuid (stream_participant (activate w.participant)) ∷ s.tasks

  participant_stored-IsAdmitted :
      (w : Waiting x) (s : Server x) (ps : List ParticipantRecord) (token : String)
      (d : JoinParticipantDecision) (o : Result (Bucket x.bolt))
      → participants_or_none s w.stream_uuid ≡ ok ps
      → x.parse_token (x.public_key w.private_key) token
        ≡ ok (stream_claims w.stream_uuid w.participant.uuid false)
      → store_value x.participants_codec s.participant_storage w.stream_uuid
          (ps ++ activate w.participant ∷ [])
        ≡ o
      → (participant_stored w token s o).0 ≡ ok d
      → IsAdmitted s w d (participant_stored w token s o).1
  unfolding participant_stored
  participant_stored-IsAdmitted w s ps token d (err e) hp ht ho h = cc
  participant_stored-IsAdmitted w s ps token d (ok b) hp ht ho h =
      let same : record { join_allowed = true; access_token = token } ≡ d = cc in
      record {
        before = ps;
        decoded = hp;
        joined =
            load_value-store_value x.participants_codec s.participant_storage b w.stream_uuid
              w.stream_uuid _ ho
            ∙ rw (eq_refl w.stream_uuid) refl;
        allowed = ap (λ (e : JoinParticipantDecision). e.join_allowed) (sym same);
        accepted =
            ap
              (λ (e : JoinParticipantDecision).
                x.parse_token (x.public_key w.private_key) e.access_token)
              (sym same)
            ∙ ht;
        announced = refl;
      }

  participants_decoded-IsAdmitted :
      (w : Waiting x) (s : Server x) (token : String) (d : JoinParticipantDecision)
      (o : Result (List ParticipantRecord))
      → participants_or_none s w.stream_uuid ≡ o
      → x.parse_token (x.public_key w.private_key) token
        ≡ ok (stream_claims w.stream_uuid w.participant.uuid false)
      → (participants_decoded w token s o).0 ≡ ok d
      → IsAdmitted s w d (participants_decoded w token s o).1
  unfolding participants_decoded
  participants_decoded-IsAdmitted w s token d (err e) hp ht h = cc
  participants_decoded-IsAdmitted w s token d (ok ps) hp ht h =
      participant_stored-IsAdmitted w s ps token d _ hp ht refl h

  token_signed-IsAdmitted :
      (w : Waiting x) (s : Server x) (d : JoinParticipantDecision) (o : Result String)
      → x.sign w.private_key (stream_claims w.stream_uuid w.participant.uuid false) ≡ o
      → (token_signed w s o).0 ≡ ok d
      → IsAdmitted s w d (token_signed w s o).1
  unfolding token_signed
  token_signed-IsAdmitted w s d (err e) ho h = cc
  token_signed-IsAdmitted w s d (ok token) ho h =
      participants_decoded-IsAdmitted w s token d _ refl
        (parse_token-stream_claims w.private_key _ _ _ token ho) h

  pub admit-IsAdmitted :
      (w : Waiting x) (s : Server x) (d : JoinParticipantDecision)
      → (admit w s).0 ≡ ok d
      → IsAdmitted s w d (admit w s).1
  unfolding admit generate_stream_access_token
  admit-IsAdmitted w s d = token_signed-IsAdmitted w s d _ refl

  participants_or_none-same :
      (s t : Server x) (uuid : String)
      → t.participant_storage ≡ s.participant_storage
      → participants_or_none t uuid ≡ participants_or_none s uuid
  unfolding participants_or_none
  participants_or_none-same s t uuid e = rw e refl

  set_pending-storage :
      (uuid : String) (f : SyncMap ParticipantRecord → SyncMap ParticipantRecord) (s : Server x)
      (o : Option (StreamModule x))
      → ((set_pending uuid f s o).participant_storage ≡ s.participant_storage)
        × ((set_pending uuid f s o).tasks ≡ s.tasks)
  set_pending-storage uuid f s none = (refl, refl)
  set_pending-storage uuid f s (some m) = (refl, refl)

  -- What is pending changes neither the stored participants nor the tasks.
  pub update_pending-storage :
      (uuid : String) (f : SyncMap ParticipantRecord → SyncMap ParticipantRecord) (s : Server x)
      → ((update_pending uuid f s).participant_storage ≡ s.participant_storage)
        × ((update_pending uuid f s).tasks ≡ s.tasks)
  unfolding update_pending
  update_pending-storage uuid f s = set_pending-storage uuid f s _

  set_pending-running :
      (uuid : String) (f : SyncMap ParticipantRecord → SyncMap ParticipantRecord) (s : Server x)
      (o : Option (StreamModule x))
      → running s uuid ≡ o
      → running (set_pending uuid f s o) uuid
        ≡ elim o [ none ↦ none | some m ↦ some (with_pending f m) ]
  set_pending-running uuid f s none h = h
  set_pending-running uuid f s (some m) h =
      load-store uuid uuid _ s.streams ∙ rw (eq_refl uuid) refl

  -- Nobody waits under this identifier in the running stream, if it runs.
  pub record NotPending (s : Server x) (uuid participant : String) : Type 0 where
    pub gone :
        (m : StreamModule x)
        → running s uuid ≡ some m
        → SyncMap.load participant m.pending_participants ≡ none

  pub remove_pending-NotPending :
      (uuid : String) (p : ParticipantRecord) (s : Server x)
      → NotPending (remove_pending uuid p s) uuid p.uuid
  unfolding remove_pending update_pending
  remove_pending-NotPending uuid p s = record { gone = λ m h. go (running s uuid) refl m h }
    where
      go :
          (o : Option (StreamModule x))
          → running s uuid ≡ o
          → (m : StreamModule x)
          → running (set_pending uuid (SyncMap.delete p.uuid) s o) uuid ≡ some m
          → SyncMap.load p.uuid m.pending_participants ≡ none
      go none e m h = cc
      go (some n) e m h =
          let same : with_pending (SyncMap.delete p.uuid) n ≡ m =
            cc (set_pending-running uuid (SyncMap.delete p.uuid) s (some n) e) in
          ap (λ (k : StreamModule x). SyncMap.load p.uuid k.pending_participants) (sym same)
          ∙ load-delete p.uuid p.uuid n.pending_participants
          ∙ rw (eq_refl p.uuid) refl

  -- The end of a join that was let in: it is admitted, and waits no more.
  pub resolve_join-IsAdmitted :
      (w : Waiting x) (s : Server x) (d : JoinParticipantDecision)
      → (resolve_join true w s).0 ≡ ok d
      → IsAdmitted s w d (resolve_join true w s).1
  unfolding resolve_join after_answer remove_pending
  resolve_join-IsAdmitted w s d h =
      let done = admit-IsAdmitted w s d h in
      let (storage, tasks) =
        update_pending-storage w.stream_uuid (SyncMap.delete w.participant.uuid) (admit w s).1 in
      record {
        before = done.before;
        decoded = done.decoded;
        joined = ap (λ b. load_value x.participants_codec b w.stream_uuid) storage ∙ done.joined;
        allowed = done.allowed;
        accepted = done.accepted;
        announced = tasks ∙ done.announced;
      }

  -- Being admitted depends on the stored participants and the tasks only.
  pub IsAdmitted-moved :
      (s s' : Server x) (w : Waiting x) (d : JoinParticipantDecision) (t : Server x)
      → s'.participant_storage ≡ s.participant_storage
      → s'.tasks ≡ s.tasks
      → IsAdmitted s' w d t
      → IsAdmitted s w d t
  IsAdmitted-moved s s' w d t e e' done = record {
    before = done.before;
    decoded = sym (participants_or_none-same s s' w.stream_uuid e) ∙ done.decoded;
    joined = done.joined;
    allowed = done.allowed;
    accepted = done.accepted;
    announced =
        done.announced
        ∙ ap
            (λ ts. add_participant w.stream_uuid (stream_participant (activate w.participant)) ∷ ts)
            e';
  }
