-- ===== src/Handlers/Guards.antt =====
-- The guards of the routes (handler/router.go), and what a guard lets through.
use cc_core_server.Common.{
  String, Bool, true, false, Option, none, some, All, Run, returns, panics, inl, inr, ◌≡◌, ap, sym,
  refl,
}
use cc_core_server.Middleware.{Access, passed, refused, ParticipantCtxData}
use cc_core_server.Handlers.Endpoints.{Context}
use cc_core_server.Handlers.Routes.{
  Endpoint, create_stream, end_stream, change_stream, Guard, server_secured, stream_secured, Route,
  routes, with_subject, with_participant,
}
use cc_core_server.Handlers.Effects.{IsHostEndpoint}

-- The guard that an endpoint has to have, if any: streams are ended and changed by their hosts,
-- and, with server security, made by users of the server.
pub guard_needed : Bool → Endpoint → Option Guard
guard_needed secured end_stream = some (stream_secured true)
guard_needed secured change_stream = some (stream_secured true)
guard_needed true create_stream = some server_secured
guard_needed secured e = none

abbrev pub IsGuarded : Bool → Route → Type 0
IsGuarded secured q = (g : Guard) → guard_needed secured q.endpoint ≡ some g → q.guard ≡ g

pub routes-IsGuarded : (secured : Bool) → All (IsGuarded secured) (routes secured)
unfolding routes guard_needed
routes-IsGuarded true = (
  λ g h. cc,
  (
    λ g h. cc,
    (
      λ g h. cc,
      (
        λ g h. cc,
        (
          λ g h. cc,
          (
            λ g h. cc,
            (
              λ g h. cc,
              (
                λ g h. cc,
                (λ g h. cc, (λ g h. cc, (λ g h. cc, (λ g h. cc, (λ g h. cc, (λ g h. cc, tt)))))),
              ),
            ),
          ),
        ),
      ),
    ),
  ),
)
routes-IsGuarded false = (
  λ g h. cc,
  (
    λ g h. cc,
    (
      λ g h. cc,
      (
        λ g h. cc,
        (
          λ g h. cc,
          (
            λ g h. cc,
            (
              λ g h. cc,
              (λ g h. cc, (λ g h. cc, (λ g h. cc, (λ g h. cc, (λ g h. cc, (λ g h. cc, tt)))))),
            ),
          ),
        ),
      ),
    ),
  ),
)

pub guard_needed-host :
    (secured : Bool) (e : Endpoint)
    → IsHostEndpoint e
    → guard_needed secured e ≡ some (stream_secured true)
unfolding guard_needed
guard_needed-host secured e (inl h) = rw h refl
guard_needed-host secured e (inr h) = rw h refl

pub guard_needed-create :
    (e : Endpoint) → e ≡ create_stream → guard_needed true e ≡ some server_secured
unfolding guard_needed
guard_needed-create e h = rw h refl

pub with_participant-passed :
    (o : Run (Access ParticipantCtxData)) (c : Context)
    → with_participant o ≡ returns (passed c)
    → (p : ParticipantCtxData) × (o ≡ returns (passed p)) × (c.participant ≡ some p)
with_participant-passed panics c h = cc
with_participant-passed (returns (refused status e)) c h = cc
with_participant-passed (returns (passed p)) c h =
    (p, refl, ap (λ (o : Run (Access Context)). participant_in o) (sym h))
  where
    participant_in : Run (Access Context) → Option ParticipantCtxData
    participant_in (returns (passed c)) = c.participant
    participant_in _ = none

pub with_subject-passed :
    (o : Access String) (c : Context)
    → with_subject o ≡ returns (passed c)
    → (t : String) × (o ≡ passed t)
with_subject-passed (refused status e) c h = cc
with_subject-passed (passed t) c h = (t, refl)
