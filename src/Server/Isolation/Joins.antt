-- ===== src/Server/Isolation/Joins.antt =====
-- What joins, participants and avatars leave alone (server/participant.go, server/avatar.go).
use mathlib.Core.Option
use cc_core_server.Common.{
  ℕ, String, Bool, true, false, Option, none, some, List, Result, ok, err, if◌then◌else◌, ◌≡◌, ◌∙◌,
  ap, arith,
}
use cc_core_server.Common.Text.{◌==◌}
use cc_core_server.Common.SyncMap.{SyncMap}
use cc_core_server.Service.{Participant, PatchParticipantConfig}
use cc_core_server.Storage.{load_value}
use cc_core_server.Server.{
  StreamRecord, ParticipantRecord, Externals, StreamModule, Server, running,
}
use cc_core_server.Server.Running.{running_record}
use cc_core_server.Server.Avatars.{Images, new_avatar}
use cc_core_server.Server.Participants.Roster.{patch_participant}
use cc_core_server.Server.Participants.{
  Waiting, with_pending, update_pending, remove_pending, admit, after_answer, resolve_join,
  PolicyCase, auto_case, by_code_case, host_resolve_case, default_case, rejected, join_by_policy,
  join_found, join_participant,
}
use cc_core_server.Server.Invariant.Joins.{
  running-update_pending, storage-update_pending, admit-streams,
}
use cc_core_server.Server.Isolation.{
  bare, SameStream, SameStream-refl, SameStream-trans, SameStream-parts,
}

module _ ⦃x : Externals⦄ where
  -- Pending participants are all that a join changes of a stream.
  update_pending-SameStream :
      (uuid : String) (f : SyncMap ParticipantRecord → SyncMap ParticipantRecord) (s : Server x)
      (j : String)
      → SameStream s (update_pending uuid f s) j
  update_pending-SameStream uuid f s j = record {
    runs = ap (Option.map bare) (running-update_pending uuid f s j) ∙ forgotten (running s j);
    recorded = ap (λ b. load_value x.stream_codec b j) (storage-update_pending uuid f s);
  }
    where
      forgotten :
          (o : Option (StreamModule x))
          → Option.map bare (if uuid == j then Option.map (with_pending f) o else o)
            ≡ Option.map bare o
      forgotten none = ground arith
      forgotten (some m) = ground arith

  resolve_join-SameStream :
      (allowed : Bool) (w : Waiting x) (s : Server x) (j : String)
      → SameStream s (resolve_join allowed w s).1 j
  unfolding resolve_join remove_pending after_answer
  resolve_join-SameStream true w s j =
      SameStream-trans s (admit w s).1 _ j
        (SameStream-parts s (admit w s).1 j (admit-streams w s).0 (admit-streams w s).1)
        (update_pending-SameStream w.stream_uuid _ (admit w s).1 j)
  resolve_join-SameStream false w s j = update_pending-SameStream w.stream_uuid _ s j

  join_by_policy-SameStream :
      (c : PolicyCase) (fits : Bool) (w : Waiting x) (s : Server x) (j : String)
      → SameStream s (join_by_policy c fits w s).1 j
  unfolding join_by_policy rejected remove_pending
  join_by_policy-SameStream auto_case fits w s j = resolve_join-SameStream true w s j
  join_by_policy-SameStream by_code_case true w s j = resolve_join-SameStream true w s j
  join_by_policy-SameStream by_code_case false w s j = update_pending-SameStream w.stream_uuid _ s j
  join_by_policy-SameStream host_resolve_case fits w s j = SameStream-refl s j
  join_by_policy-SameStream default_case fits w s j = update_pending-SameStream w.stream_uuid _ s j

  pub join_participant-SameStream :
      (uuid stream_uuid code : String) (p : Participant) (s : Server x) (j : String)
      → SameStream s (join_participant uuid stream_uuid code p s).1 j
  unfolding join_participant join_found
  join_participant-SameStream uuid stream_uuid code p s j = go (running_record s stream_uuid)
    where
      go :
          (o : Result (StreamModule x × StreamRecord))
          → SameStream s (join_found uuid stream_uuid code p s o).1 j
      go (err e) = SameStream-refl s j
      go (ok (m, r)) =
          SameStream-trans s (update_pending stream_uuid _ s) _ j
            (update_pending-SameStream stream_uuid _ s j) (join_by_policy-SameStream _ _ _ _ j)

  pub patch_participant-SameStream :
      (stream_uuid uuid : String) (cfg : PatchParticipantConfig) (s : Server x) (j : String)
      → SameStream s (patch_participant stream_uuid uuid cfg s).1 j
  unfolding patch_participant
  patch_participant-SameStream stream_uuid uuid cfg s j =
      SameStream-parts s _ j (ground arith) (ground arith)

  pub new_avatar-SameStream :
      (i : Images) (uuid content_type : String) (body : List ℕ) (s : Server x) (j : String)
      → SameStream s (new_avatar i uuid content_type body s).1 j
  unfolding new_avatar
  new_avatar-SameStream i uuid content_type body s j =
      SameStream-parts s _ j (ground arith) (ground arith)
