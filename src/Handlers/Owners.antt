-- ===== src/Handlers/Owners.antt =====
-- What the owner of a stream can do through the handlers (handler/create_stream.go,
-- handler/new_auth_token.go, handler/patch_stream_info.go).
use mathlib.Core.Path.{subst}
use cc_core_server.Common.{
  ℕ, String, Bool, true, false, not, ◌||◌, some, plain, Result, ok, err, Run, returns, panics,
  if◌then◌else◌, ◌≡◌, ◌∙◌, ap, refl, arith,
}
use cc_core_server.Common.Text.{◌==◌}
use cc_core_server.Common.SyncMap.{SyncMap}
use cc_core_server.Service.{StreamOwnerInfo}
use cc_core_server.Server.{StreamRecord, Externals, StreamModule, Server, running, stored}
use cc_core_server.Server.Records.{stream_claims, new_record, generate_stream_access_token}
use cc_core_server.Server.Lifecycle.{new_stream}
use cc_core_server.Server.Lifecycle.Creation.{IsCreated, new_stream-IsCreated}
use cc_core_server.Server.Running.{
  running_record, host_auth, subject_verified, host_token_found, new_stream_host_token,
}
use cc_core_server.Models.{Response, write_json_response, write_error}
use cc_core_server.Checks.{Parsed, parsed, refused_request}
use cc_core_server.Payload.{CreateStreamRequest}
use cc_core_server.Handlers.{Request, World, Drawn, responded, write_failure, get_ip}
use cc_core_server.Handlers.Endpoints.{
  Context, Handled, subject_in, stream_config, created, create_parsed,
}
use cc_core_server.Handlers.Routes.{create_stream, handle}

module _ ⦃x : Externals⦄ where
  abbrev status_of : Handled → ℕ
  status_of (responded a, s) = a.status
  status_of o = 0

  created-answer :
      (o : Result StreamOwnerInfo × Server x) (a : Response) (t : Server x)
      → created o ≡ (responded a, t)
      → a.status ≡ 201
      → (i : StreamOwnerInfo) × (o ≡ (ok i, t))
  unfolding created write_failure write_error write_json_response
  created-answer (err e, s) a t h k =
      let clash : 500 ≡ 201 = ap status_of h ∙ k in absurd (omega (arith, clash))
  created-answer (ok i, s) a t h k = (i, cc)

  pub running_record-found :
      (s : Server x) (uuid : String) (m : StreamModule x) (r : StreamRecord)
      → running s uuid ≡ some m
      → stored s uuid ≡ some (ok r)
      → running_record s uuid ≡ ok (m, r)
  unfolding running_record
  running_record-found s uuid m r runs was = ground arith

  -- What a token for a stream takes whose module and record are known.
  host_token-found :
      (s : Server x) (uuid subject : String) (m : StreamModule x) (r : StreamRecord)
      → running s uuid ≡ some m
      → stored s uuid ≡ some (ok r)
      → new_stream_host_token s uuid subject ≡ (
          if r.subject == "" || not (r.subject == subject)
          then err (plain "could not verify stream subject")
          else host_auth (x.sign m.private_key (stream_claims uuid r.host.uuid true)))
  unfolding new_stream_host_token running_record host_token_found subject_verified
      generate_stream_access_token
  host_token-found s uuid subject m r runs was =
      ap (host_token_found uuid subject) {y = ok (m, r)} (running_record-found s uuid m r runs was)
      ∙ verified (r.subject == "" || not (r.subject == subject))
    where
      verified :
          (b : Bool)
          → subject_verified uuid b m r ≡ (
              if b
              then err (plain "could not verify stream subject")
              else host_auth (x.sign m.private_key (stream_claims uuid r.host.uuid true)))
      verified true = refl
      verified false = refl

module _ ⦃x : Externals⦄ (world : World) (d : Drawn x) where
  create_parsed-answer :
      (r : Request world.http) (c : Context) (s t : Server x) (a : Response)
      (o : Run (Parsed CreateStreamRequest))
      → create_parsed world d r c s o ≡ (responded a, t)
      → a.status ≡ 201
      → (req : CreateStreamRequest) × (i : StreamOwnerInfo) × (new_stream world.platform d.stream
            (stream_config req (get_ip r) (subject_in c.server_subject))
            s
          ≡ (ok i, t))
  unfolding create_parsed write_error write_json_response
  create_parsed-answer r c s t a panics h k =
      let clash : 0 ≡ 201 = ap status_of h ∙ k in absurd (omega (arith, clash))
  create_parsed-answer r c s t a (returns (refused_request e)) h k =
      let clash : 400 ≡ 201 = ap status_of h ∙ k in absurd (omega (arith, clash))
  create_parsed-answer r c s t a (returns (parsed req)) h k =
      let (i, e) = created-answer _ a t h k in (req, i, e)

  -- After a request for a stream was answered with status 201, a new host token for this stream is
  -- signed, with the stream's own key and the claims of its host, for the subject of that request
  -- and for no other; without a subject, that is without server security, for nobody.
  pub create_stream-new_stream_host_token :
      (r : Request world.http) (vars : SyncMap String) (c : Context) (s t : Server x) (a : Response)
      (subject : String)
      → handle world d create_stream r vars c s ≡ (responded a, t)
      → a.status ≡ 201
      → (key : x.PrivateKey) × (d.stream.key ≡ ok key)
        × (new_stream_host_token t d.stream.stream_uuid subject ≡ (
            if subject_in c.server_subject == "" || not (subject_in c.server_subject == subject)
            then err (plain "could not verify stream subject")
            else host_auth
                (x.sign key (stream_claims d.stream.stream_uuid d.stream.host_uuid true))))
  unfolding handle stream_config new_record
  create_stream-new_stream_host_token r vars c s t a subject h k =
      let (req, i, e) = create_parsed-answer r c s t a _ h k in
      let made : IsCreated world.platform d.stream
          (stream_config req (get_ip r) (subject_in c.server_subject)) s t i =
        subst
          (λ u.
            IsCreated world.platform d.stream
              (stream_config req (get_ip r) (subject_in c.server_subject)) s u i)
          (ap (λ (p : Result StreamOwnerInfo × Server x). p.1) e)
          (new_stream-IsCreated world.platform d.stream
            (stream_config req (get_ip r) (subject_in c.server_subject)) s i
            (ap (λ (p : Result StreamOwnerInfo × Server x). p.0) e)) in
      (
        made.key,
        made.drawn,
        host_token-found t d.stream.stream_uuid subject _ _ made.runs made.is_stored
            ∙ same_token made.is_record.subject made.is_module.private_key made.is_record.host_uuid,
      )
    where
      same_token :
          {own own' host host' : String} {key key' : x.PrivateKey}
          → own ≡ own'
          → key ≡ key'
          → host ≡ host'
          → (if own == "" || not (own == subject)
              then err (plain "could not verify stream subject")
              else host_auth (x.sign key (stream_claims d.stream.stream_uuid host true)))
            ≡ (if own' == "" || not (own' == subject)
                then err (plain "could not verify stream subject")
                else host_auth (x.sign key' (stream_claims d.stream.stream_uuid host' true)))
      same_token e f g = rw (e, f, g) refl
