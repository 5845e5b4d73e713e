-- ===== src/Server/Invariant/Others.antt =====
-- The operations that leave the running streams and their records alone, and the stop of the server.
use cc_core_server.Common.{ℕ, String, List, [], ◌∷◌, Result, ◌≡◌, map, arith}
use cc_core_server.Service.{Time, PatchParticipantConfig}
use cc_core_server.Server.{Externals, Server}
use cc_core_server.Server.Lifecycle.{kill_all, stop_server}
use cc_core_server.Server.Participants.Roster.{patch_participant}
use cc_core_server.Server.Avatars.{
  Images, avatar_stored, image_encoded, image_decoded, processor_found, new_avatar,
}
use cc_core_server.Server.Invariant.{IsConsistent, IsConsistent-same, kill_stream-IsConsistent}

module _ ⦃x : Externals⦄ where
  kill_all-IsConsistent :
      (now : Time) (uuids : List String) (s : Server x)
      → IsConsistent s
      → IsConsistent (kill_all now uuids s)
  unfolding kill_all
  kill_all-IsConsistent now [] s c = c
  kill_all-IsConsistent now (uuid ∷ uuids) s c =
      kill_all-IsConsistent now uuids _ (kill_stream-IsConsistent now uuid s c)

  pub stop_server-IsConsistent :
      (now : Time) (closed : List (String × Result (Unit {0}))) (s : Server x)
      → IsConsistent s
      → IsConsistent (stop_server now closed s).1
  unfolding stop_server
  stop_server-IsConsistent now closed s c = kill_all-IsConsistent now (map (λ e. e.0) s.streams) s c

  pub patch_participant-IsConsistent :
      (stream_uuid participant_uuid : String) (cfg : PatchParticipantConfig) (s : Server x)
      → IsConsistent s
      → IsConsistent (patch_participant stream_uuid participant_uuid cfg s).1
  unfolding patch_participant
  patch_participant-IsConsistent stream_uuid participant_uuid cfg s =
      IsConsistent-same s _ (ground arith) (ground arith)

  -- What is the same after an avatar was added.
  abbrev SameStreams : Server x → Server x → Type 0
  SameStreams s t = (t.streams ≡ s.streams) × (t.stream_storage ≡ s.stream_storage)

  new_avatar-SameStreams :
      (i : Images) (uuid content_type : String) (body : List ℕ) (s : Server x)
      → SameStreams s (new_avatar i uuid content_type body s).1
  unfolding new_avatar processor_found image_decoded image_encoded avatar_stored
  new_avatar-SameStreams i uuid content_type body s = (ground arith, ground arith)

  pub new_avatar-IsConsistent :
      (i : Images) (uuid content_type : String) (body : List ℕ) (s : Server x)
      → IsConsistent s
      → IsConsistent (new_avatar i uuid content_type body s).1
  new_avatar-IsConsistent i uuid content_type body s =
      let (streams, storage) = new_avatar-SameStreams i uuid content_type body s in
      IsConsistent-same s _ streams storage
