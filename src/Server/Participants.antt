-- ===== src/Server/Participants.antt =====
-- Joining a stream (server/participant.go). `JoinParticipant` is two functions, before and after it waits for the
-- host; all that it does between two waits is one step.
pub mod Roster
pub mod Joining
pub mod Policy
pub mod Patching
pub mod Deciding
pub mod Admitting
use cc_core_server.Common.{
  ℕ, zero, suc, ◌+◌, String, Bool, true, false, Option, none, some, List, [], ◌∷◌, ◌++◌, map,
  GoError, plain, wrap, Result, ok, err, ◌>>=◌, ◌||◌, ◌&&◌, not, wrap_err, if◌then◌else◌, ◌≡◌, eqb,
  not_exist,
}
use cc_core_server.Common.Text.{◌==◌, ◌&◌}
use cc_core_server.Common.SyncMap
use cc_core_server.Common.SyncMap.{SyncMap}
use cc_core_server.Service.{
  JoinPolicy, ParticipantStatus, StreamParticipant, Participant, JoinParticipantDecision,
  PatchParticipantConfig, join_policy_auto, join_policy_by_code, join_policy_host_resolve,
  participant_status_active, participant_status_pending,
}
use cc_core_server.Storage.{Bolt, Codec, Bucket, load_value, store_value}
use cc_core_server.Server.{
  StreamRecord, ParticipantRecord, Externals, Call, Task, add_participant, update_participant,
  Options, StreamModule, Server, not_running, running, stored_participants, call, spawn,
}
use cc_core_server.Server.Records.{generate_stream_access_token, or_keep}
use cc_core_server.Server.Running.{running_record}

-- A joining participant that waits for the host: the stream, the private key that its goroutine
-- holds, and the participant.
pub record Waiting (x : Externals) : Type 0 where
  pub stream_uuid : String
  pub private_key : x.PrivateKey
  pub participant : ParticipantRecord

-- What a join has come to: it returned, or it waits on its channel.
pub data Progress (x : Externals) : Type 0 where
  returned : Result JoinParticipantDecision → Progress x
  waits : Waiting x → Progress x

-- The cases of the `switch` on the policy of the stream.
pub data PolicyCase : Type 0 where
  auto_case by_code_case host_resolve_case default_case : PolicyCase

unfoldable pub policy_case : JoinPolicy → PolicyCase
policy_case policy =
    if policy == join_policy_auto
    then auto_case
    else if policy == join_policy_by_code
    then by_code_case
    else if policy == join_policy_host_resolve
    then host_resolve_case
    else default_case

abbrev pub denied : JoinParticipantDecision
denied = record { join_allowed = false; access_token = "" }

abbrev pub activate : ParticipantRecord → ParticipantRecord
activate p = record p { status = participant_status_active }

abbrev pub stream_participant : ParticipantRecord → StreamParticipant
stream_participant p = record {
  uuid = p.uuid;
  name = p.name;
  avatar_id = p.avatar_id;
  status = p.status;
  host = false;
}

abbrev pub to_participant : ParticipantRecord → Participant
to_participant p = record {
  uuid = p.uuid;
  name = p.name;
  avatar_id = p.avatar_id;
  ip = p.ip;
  status = p.status;
}

-- The participant of a new join.
abbrev pub joining : String → Participant → ParticipantRecord
joining uuid p = record {
  uuid = uuid;
  name = p.name;
  avatar_id = p.avatar_id;
  ip = p.ip;
  status = participant_status_pending;
}

-- The loop of `PatchParticipant` that looks for the participant.
unfoldable pub find_participant : String → List ParticipantRecord → Option ParticipantRecord
find_participant uuid [] = none
find_participant uuid (p ∷ ps) = if p.uuid == uuid then some p else find_participant uuid ps

abbrev pub patch_participant_record : PatchParticipantConfig → ParticipantRecord → ParticipantRecord
patch_participant_record cfg p = record p {
  avatar_id = or_keep cfg.avatar_id p.avatar_id;
  name = or_keep cfg.name p.name;
}

module _ ⦃x : Externals⦄ where
  abbrev pub with_pending :
      (SyncMap ParticipantRecord → SyncMap ParticipantRecord) → StreamModule x → StreamModule x
  with_pending f m = record m { pending_participants = f m.pending_participants }

  -- `streamData.pendingParticipants.Store` and `Delete`: the map is shared through its pointer, so
  -- the change is seen in the running stream, as long as that is there.
  abbrev pub set_pending :
      String
      → (SyncMap ParticipantRecord → SyncMap ParticipantRecord)
      → Server x
      → Option (StreamModule x)
      → Server x
  set_pending uuid f s none = s
  set_pending uuid f s (some m) = record s {
    streams = SyncMap.store uuid (with_pending f m) s.streams;
  }

  unfoldable pub update_pending :
      String → (SyncMap ParticipantRecord → SyncMap ParticipantRecord) → Server x → Server x
  update_pending uuid f s = set_pending uuid f s (running s uuid)

  unfoldable pub remove_pending : String → ParticipantRecord → Server x → Server x
  unfolding update_pending
  remove_pending uuid p s = update_pending uuid (SyncMap.delete p.uuid) s

  -- The participants that are stored, none if nothing is.
  unfoldable pub participants_or_none : Server x → String → Result (List ParticipantRecord)
  participants_or_none s uuid = elim (stored_participants s uuid) [ none ↦ ok [] | some r ↦ r ]

  -- The part of `JoinParticipant` that follows an allowed join, before its deferred `Delete`: on
  -- the outcome of the store, of the decoding of the stored participants, and of the signature.
  unfoldable pub participant_stored :
      Waiting x
      → String
      → Server x
      → Result (Bucket x.bolt)
      → Result JoinParticipantDecision × Server x
  participant_stored w token s (err e) = (err (wrap "could not add participant" e), s)
  participant_stored w token s (ok b) = (
    ok (record { join_allowed = true; access_token = token }),
    spawn (add_participant w.stream_uuid (stream_participant (activate w.participant)))
        (record s { participant_storage = b }),
  )

  unfoldable pub participants_decoded :
      Waiting x
      → String
      → Server x
      → Result (List ParticipantRecord)
      → Result JoinParticipantDecision × Server x
  unfolding participant_stored
  participants_decoded w token s (err e) =
      (err (wrap "could not decode stream participants data" e), s)
  participants_decoded w token s (ok ps) = participant_stored w token s (
      store_value x.participants_codec s.participant_storage w.stream_uuid
        (ps ++ activate w.participant ∷ []))

  unfoldable pub token_signed :
      Waiting x → Server x → Result String → Result JoinParticipantDecision × Server x
  unfolding participants_decoded participants_or_none
  token_signed w s (err e) = (err (wrap "could not generate access token" e), s)
  token_signed w s (ok token) =
      participants_decoded w token s (participants_or_none s w.stream_uuid)

  unfoldable pub admit : Waiting x → Server x → Result JoinParticipantDecision × Server x
  unfolding token_signed generate_stream_access_token
  admit w s =
      token_signed w s
        (generate_stream_access_token w.stream_uuid w.participant.uuid false w.private_key)

  -- The end of `JoinParticipant` on the answer to whether the join is allowed.
  unfoldable pub after_answer :
      Bool → Waiting x → Server x → Result JoinParticipantDecision × Server x
  unfolding admit
  after_answer true w s = admit w s
  after_answer false w s = (ok denied, s)

  unfoldable pub resolve_join :
      Bool → Waiting x → Server x → Result JoinParticipantDecision × Server x
  unfolding after_answer remove_pending
  resolve_join allowed w s = (
    (after_answer allowed w s).0,
    remove_pending w.stream_uuid w.participant (after_answer allowed w s).1,
  )

  abbrev pub answered : Result JoinParticipantDecision × Server x → Progress x × Server x
  answered (r, s) = (returned r, s)

  -- An early return with an error, after which the deferred `Delete` runs.
  unfoldable pub rejected : String → Waiting x → Server x → Progress x × Server x
  unfolding remove_pending
  rejected message w s =
      (returned (err (plain message)), remove_pending w.stream_uuid w.participant s)

  -- The `switch` on the policy.
  unfoldable pub join_by_policy : PolicyCase → Bool → Waiting x → Server x → Progress x × Server x
  unfolding resolve_join rejected
  join_by_policy auto_case code_fits w s = answered (resolve_join true w s)
  join_by_policy by_code_case true w s = answered (resolve_join true w s)
  join_by_policy by_code_case false w s = rejected "invalid join code" w s
  join_by_policy host_resolve_case code_fits w s = (waits w, s)
  join_by_policy default_case code_fits w s = rejected "unknown stream join policy" w s

  -- What follows the fetch of the stream: the participant is pending, then the policy decides.
  unfoldable pub join_found :
      String
      → String
      → String
      → Participant
      → Server x
      → Result (StreamModule x × StreamRecord)
      → Progress x × Server x
  unfolding join_by_policy update_pending
  join_found uuid stream_uuid join_code p s (err e) = (returned (err e), s)
  join_found uuid stream_uuid join_code p s (ok (m, r)) =
      join_by_policy (policy_case r.join.policy) (r.join.code == join_code)
        (record {
          stream_uuid = stream_uuid;
          private_key = m.private_key;
          participant = joining uuid p;
        })
        (update_pending stream_uuid (SyncMap.store uuid (joining uuid p)) s)

  -- `JoinParticipant`, up to its end or to its wait; `uuid` is the identifier that it draws.
  unfoldable pub join_participant :
      String → String → String → Participant → Server x → Progress x × Server x
  unfolding join_found running_record
  join_participant uuid stream_uuid join_code p s =
      join_found uuid stream_uuid join_code p s (running_record s stream_uuid)
