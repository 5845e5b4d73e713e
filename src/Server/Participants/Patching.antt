-- ===== src/Server/Participants/Patching.antt =====
-- PatchParticipant: its change is announced and returned, but not stored.
use cc_core_server.Common.{String, ◌≡◌, arith}
use cc_core_server.Service.{PatchParticipantConfig}
use cc_core_server.Server.{Externals, Server}
use cc_core_server.Server.Participants.Roster.{stream_participants, patch_participant}
use cc_core_server.Server.Participants.{participants_or_none}

module _ ⦃x : Externals⦄ where
  -- Whatever PatchParticipant answers, the participants that StreamParticipants lists afterwards
  -- are those it listed before.
  pub stream_participants-patch_participant :
      (stream_uuid participant_uuid uuid : String) (cfg : PatchParticipantConfig) (s : Server x)
      → stream_participants uuid (patch_participant stream_uuid participant_uuid cfg s).1
        ≡ stream_participants uuid s
  unfolding patch_participant stream_participants participants_or_none
  stream_participants-patch_participant stream_uuid participant_uuid uuid cfg s = ground arith
