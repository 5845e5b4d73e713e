-- ===== src/Handlers/Effects.antt =====
-- What a handler does to the server: nothing, or one of six operations.
use mathlib.Core.Path.{subst}
use cc_core_server.Common.{
  String, true, Option, none, some, List, [], ◌∷◌, Result, ok, err, Run, returns, panics,
  Bool-cases, inl, inr, ◌⊎◌, ◌&&◌, ◌≡◌, sym, refl,
}
use cc_core_server.Common.Int.{pos, ltb_ℤ, leb_ℤ}
use cc_core_server.Common.Text.{◌==◌}
use cc_core_server.Common.SyncMap.{SyncMap}
use cc_core_server.Service.{
  StreamConfig, StreamOwnerInfo, Participant, PatchStreamConfig, PatchParticipantConfig,
}
use cc_core_server.Server.{Externals, Server}
use cc_core_server.Server.Lifecycle.{new_stream, finish_stream}
use cc_core_server.Server.Running.{patch_stream}
use cc_core_server.Server.Participants.{Progress, returned, waits, join_participant}
use cc_core_server.Server.Participants.Roster.{patch_participant}
use cc_core_server.Server.Avatars.{new_avatar}
use cc_core_server.Server.Info.{avatar_restrictions}
use cc_core_server.Server.Isolation.{
  SameStream, SameStream-refl, new_stream-SameStream, finish_stream-SameStream,
  patch_stream-SameStream,
}
use cc_core_server.Server.Isolation.Joins.{
  join_participant-SameStream, patch_participant-SameStream, new_avatar-SameStream,
}
use cc_core_server.Server.Invariant.Reach.{
  Reach, here, next, creates, finishes, patches, joins, patches_participant, adds_avatar,
}
use cc_core_server.Checks.{Parsed, parsed, refused_request}
use cc_core_server.Payload.{
  CreateStreamRequest, ParticipantJoinRequest, PatchStreamRequest, PatchParticipantRequest,
}
use cc_core_server.Middleware.{ParticipantCtxData}
use cc_core_server.Handlers.{UploadedFile, Request, var, World, Drawn}
use cc_core_server.Handlers.Endpoints.{
  Context, finished, created, patched, participant_patched, joined, avatar_added, create_parsed,
  patch_parsed, patch_participant_parsed, patch_participant_known, join_parsed, avatar_typed,
  file_opened,
}
use cc_core_server.Handlers.Routes.{
  Endpoint, get_server_info, ping, add_avatar, get_avatar, get_stream_info, join_stream,
  create_stream, new_auth_token, get_stream_participants, stream_proxy, change_participant,
  join_participant_decision, end_stream, change_stream, handle,
}

-- Whether the endpoint ends or changes a stream.
abbrev pub IsHostEndpoint : Endpoint → Type 0
IsHostEndpoint e = (e ≡ end_stream) ⊎ (e ≡ change_stream)

-- The server after the request of an endpoint for a stream.
pub data Effect ⦃x : Externals⦄ (world : World) (d : Drawn x) (e : Endpoint) (uuid : String)
    (s : Server x) : Server x → Type 1 where
  nothing : Effect world d e uuid s s
  makes :
      (cfg : StreamConfig)
      → e ≡ create_stream
      → Effect world d e uuid s (new_stream world.platform d.stream cfg s).1
  ends : e ≡ end_stream → Effect world d e uuid s (finish_stream d.stream.now uuid s).1
  changes :
      (cfg : PatchStreamConfig)
      → e ≡ change_stream
      → Effect world d e uuid s (patch_stream uuid cfg s).1
  lets_in :
      (code : String) (p : Participant)
      → Effect world d e uuid s (join_participant d.uuid uuid code p s).1
  renames :
      (participant : String) (cfg : PatchParticipantConfig)
      → Effect world d e uuid s (patch_participant uuid participant cfg s).1
  draws :
      (content_type : String) (file : UploadedFile)
      → Effect world d e uuid s (new_avatar world.images d.uuid content_type file.contents s).1

module _ ⦃x : Externals⦄ where
  -- The answer of a handler leaves the server as the operation did.
  created-server : (o : Result StreamOwnerInfo × Server x) → (created o).1 ≡ o.1
  unfolding created
  created-server (err e, s) = refl
  created-server (ok i, s) = refl

  patched-server : (o : Result StreamOwnerInfo × Server x) → (patched o).1 ≡ o.1
  unfolding patched
  patched-server (err e, s) = refl
  patched-server (ok i, s) = refl

  finished-server : (o : Result (Unit {0}) × Server x) → (finished o).1 ≡ o.1
  unfolding finished
  finished-server (err e, s) = refl
  finished-server (ok u, s) = refl

  joined-server : (o : Progress x × Server x) → (joined o).1 ≡ o.1
  unfolding joined
  joined-server (returned r, s) = refl
  joined-server (waits w, s) = refl

  participant_patched-server : (o : Result Participant × Server x) → (participant_patched o).1 ≡ o.1
  unfolding participant_patched
  participant_patched-server (err e, s) = refl
  participant_patched-server (ok p, s) = refl

  avatar_added-server : (o : Result String × Server x) → (avatar_added o).1 ≡ o.1
  unfolding avatar_added
  avatar_added-server (err e, s) = refl
  avatar_added-server (ok id, s) = refl

module _ ⦃x : Externals⦄ (world : World) (d : Drawn x) where
  create_parsed-Effect :
      (r : Request world.http) (c : Context) (uuid : String) (s : Server x)
      (o : Run (Parsed CreateStreamRequest))
      → Effect world d create_stream uuid s (create_parsed world d r c s o).1
  unfolding create_parsed
  create_parsed-Effect r c uuid s panics = nothing
  create_parsed-Effect r c uuid s (returns (refused_request e)) = nothing
  create_parsed-Effect r c uuid s (returns (parsed req)) =
      subst (Effect world d create_stream uuid s) (sym (created-server _)) (makes _ refl)

  patch_parsed-Effect :
      (uuid : String) (s : Server x) (o : Run (Parsed PatchStreamRequest))
      → Effect world d change_stream uuid s (patch_parsed world d uuid s o).1
  unfolding patch_parsed
  patch_parsed-Effect uuid s panics = nothing
  patch_parsed-Effect uuid s (returns (refused_request e)) = nothing
  patch_parsed-Effect uuid s (returns (parsed req)) =
      subst (Effect world d change_stream uuid s) (sym (patched-server _)) (changes _ refl)

  patch_participant_parsed-Effect :
      (uuid participant : String) (s : Server x) (o : Run (Parsed PatchParticipantRequest))
      → Effect world d change_participant uuid s
          (patch_participant_parsed world d uuid participant s o).1
  unfolding patch_participant_parsed
  patch_participant_parsed-Effect uuid participant s panics = nothing
  patch_participant_parsed-Effect uuid participant s (returns (refused_request e)) = nothing
  patch_participant_parsed-Effect uuid participant s (returns (parsed req)) =
      subst (Effect world d change_participant uuid s) (sym (participant_patched-server _))
        (renames participant _)

  patch_participant_known-Effect :
      (r : Request world.http) (uuid : String) (s : Server x) (o : Option ParticipantCtxData)
      → Effect world d change_participant uuid s (patch_participant_known world d r uuid s o).1
  unfolding patch_participant_known
  patch_participant_known-Effect r uuid s none = nothing
  patch_participant_known-Effect r uuid s (some p) = patch_participant_parsed-Effect uuid p.uuid s _

  join_parsed-Effect :
      (r : Request world.http) (uuid : String) (s : Server x)
      (o : Run (Parsed ParticipantJoinRequest))
      → Effect world d join_stream uuid s (join_parsed world d r uuid s o).1
  unfolding join_parsed
  join_parsed-Effect r uuid s panics = nothing
  join_parsed-Effect r uuid s (returns (refused_request e)) = nothing
  join_parsed-Effect r uuid s (returns (parsed req)) = elim (Bool-cases r.can_flush) [
    | inl flushes ↦
        rw flushes (subst (Effect world d join_stream uuid s) (sym (joined-server _)) (lets_in _ _))
    | inr stuck ↦ rw stuck nothing
  ]

  avatar_typed-Effect :
      (uuid : String) (file : UploadedFile) (s : Server x) (types : List String)
      → Effect world d add_avatar uuid s (avatar_typed world d file s types).1
  unfolding avatar_typed
  avatar_typed-Effect uuid file s [] = nothing
  avatar_typed-Effect uuid file s (t ∷ ts) =
      subst (Effect world d add_avatar uuid s) (sym (avatar_added-server _)) (draws t file)

  file_opened-Effect :
      (uuid : String) (s : Server x) (o : Result UploadedFile)
      → Effect world d add_avatar uuid s (file_opened world d s o).1
  unfolding file_opened avatar_restrictions
  file_opened-Effect uuid s (err e) = nothing
  file_opened-Effect uuid s (ok file) =
      elim (Bool-cases (
        ltb_ℤ (pos 0) (avatar_restrictions s).max_file_size
        && leb_ℤ (avatar_restrictions s).max_file_size file.size)) [
          | inl large ↦ rw large nothing
          | inr fits ↦ rw fits (avatar_typed-Effect uuid file s _)
        ]

  pub handle-Effect :
      (e : Endpoint) (r : Request world.http) (vars : SyncMap String) (c : Context) (s : Server x)
      → Effect world d e (var "uuid" vars) s (handle world d e r vars c s).1
  unfolding handle
  handle-Effect get_server_info r vars c s = nothing
  handle-Effect ping r vars c s = nothing
  handle-Effect add_avatar r vars c s = file_opened-Effect (var "uuid" vars) s _
  handle-Effect get_avatar r vars c s = nothing
  handle-Effect get_stream_info r vars c s = nothing
  handle-Effect join_stream r vars c s = join_parsed-Effect r (var "uuid" vars) s _
  handle-Effect create_stream r vars c s = create_parsed-Effect r c (var "uuid" vars) s _
  handle-Effect new_auth_token r vars c s = nothing
  handle-Effect get_stream_participants r vars c s = nothing
  handle-Effect stream_proxy r vars c s = nothing
  handle-Effect change_participant r vars c s =
      patch_participant_known-Effect r (var "uuid" vars) s c.participant
  handle-Effect join_participant_decision r vars c s = nothing
  handle-Effect end_stream r vars c s =
      subst (Effect world d end_stream (var "uuid" vars) s) (sym (finished-server _)) (ends refl)
  handle-Effect change_stream r vars c s = patch_parsed-Effect (var "uuid" vars) s _

  pub Effect-Reach :
      (e : Endpoint) (uuid : String) (s t : Server x) → Effect world d e uuid s t → Reach s t
  Effect-Reach e uuid s _ nothing = here
  Effect-Reach e uuid s _ (makes cfg h) = next here (creates _ _ cfg s)
  Effect-Reach e uuid s _ (ends h) = next here (finishes _ uuid s)
  Effect-Reach e uuid s _ (changes cfg h) = next here (patches uuid cfg s)
  Effect-Reach e uuid s _ (lets_in code p) = next here (joins _ uuid code p s)
  Effect-Reach e uuid s _ (renames participant cfg) =
      next here (patches_participant uuid participant cfg s)
  Effect-Reach e uuid s _ (draws t file) = next here (adds_avatar _ _ t file.contents s)

  pub Effect-SameStream :
      (e : Endpoint) (uuid : String) (s t : Server x) (j : String)
      → Effect world d e uuid s t
      → SameStream s t j
        ⊎ (((d.stream.stream_uuid == j) ≡ true) × (e ≡ create_stream))
        ⊎ (((uuid == j) ≡ true) × IsHostEndpoint e)
  Effect-SameStream e uuid s _ j nothing = inl (SameStream-refl s j)
  Effect-SameStream e uuid s _ j (makes cfg h) = elim (Bool-cases (d.stream.stream_uuid == j)) [
    | inl own ↦ inr (inl (own, h))
    | inr other ↦ inl (new_stream-SameStream world.platform d.stream cfg s j other)
  ]
  Effect-SameStream e uuid s _ j (ends h) = elim (Bool-cases (uuid == j)) [
    | inl own ↦ inr (inr (own, inl h))
    | inr other ↦ inl (finish_stream-SameStream d.stream.now uuid s j other)
  ]
  Effect-SameStream e uuid s _ j (changes cfg h) = elim (Bool-cases (uuid == j)) [
    | inl own ↦ inr (inr (own, inr h))
    | inr other ↦ inl (patch_stream-SameStream uuid cfg s j other)
  ]
  Effect-SameStream e uuid s _ j (lets_in code p) =
      inl (join_participant-SameStream d.uuid uuid code p s j)
  Effect-SameStream e uuid s _ j (renames participant cfg) =
      inl (patch_participant-SameStream uuid participant cfg s j)
  Effect-SameStream e uuid s _ j (draws t file) =
      inl (new_avatar-SameStream world.images d.uuid t file.contents s j)
