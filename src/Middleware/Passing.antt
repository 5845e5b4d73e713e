-- ===== src/Middleware/Passing.antt =====
-- Who gets through StreamAuthMiddleware: what it has checked, and the tokens that the server gave.
use cc_core_server.Common.{
  String, Bool, true, not, ◌&&◌, Option, none, some, Result, ok, err, Run, returns, panics,
  if◌then◌else◌, ◌≡◌, ◌∙◌, refl, arith, eq_iff,
}
use cc_core_server.Common.Text.{◌&◌, eq_refl, trim_prefix, trim_prefix-append}
use cc_core_server.Common.SyncMap
use cc_core_server.Service.{AuthInfo}
use cc_core_server.Server.{
  MapClaims, StreamRecord, Externals, stored, StreamModule, Server, running, not_running,
}
use cc_core_server.Server.Records.{stream_claims}
use cc_core_server.Server.Running.{stream_key, new_stream_host_token}
use cc_core_server.Server.Running.Tokens.{new_stream_host_token-IsHostToken}
use cc_core_server.Server.Invariant.{IsConsistent}
use cc_core_server.Middleware.{
  bearer_prefix, bearer_prefix_lower, passed, refused, auth_error, status_unauthorized,
  ParticipantCtxData, participant_of, participant_checked, bearer_token, claims_checked, key_found,
  stream_auth,
}

participant_checked-passed :
    (b : Bool) (uuid : String) (o : Run ParticipantCtxData) (c : ParticipantCtxData)
    → participant_checked b uuid o ≡ returns (passed c)
    → (o ≡ returns c) × (c.stream_uuid ≡ uuid) × (b ≡ true → c.is_host ≡ true)
unfolding participant_checked
participant_checked-passed b uuid panics c h = cc
participant_checked-passed b uuid (returns d) c h = (
  ground arith,
  ground (arith, eq_iff uuid d.stream_uuid),
  λ asked. ground (arith, eq_iff uuid d.stream_uuid),
)

module _ ⦃x : Externals⦄ where
  -- A request that got through: the stream runs, its key accepts the token, and the claims name
  -- this stream and, where that is asked, the host.
  pub record IsAuthorized (host_specific : Bool) (header stream_uuid : String) (s : Server x)
      (c : ParticipantCtxData) : Type 0 where
    pub module_of : StreamModule x
    pub claims : MapClaims
    pub runs : running s stream_uuid ≡ some module_of
    pub accepted : x.parse_token module_of.public_key (bearer_token header) ≡ ok claims
    pub context : participant_of claims ≡ returns c
    pub same_stream : c.stream_uuid ≡ stream_uuid
    pub is_host : host_specific ≡ true → c.is_host ≡ true

  claims_checked-passed :
      (b : Bool) (uuid : String) (o : Result MapClaims) (c : ParticipantCtxData)
      → claims_checked b uuid o ≡ returns (passed c)
      → (claims : MapClaims) × (o ≡ ok claims)
        × (participant_of claims ≡ returns c)
        × (c.stream_uuid ≡ uuid)
        × (b ≡ true → c.is_host ≡ true)
  unfolding claims_checked
  claims_checked-passed b uuid (err e) c h = cc
  claims_checked-passed b uuid (ok claims) c h =
      let (e, same, host) = participant_checked-passed b uuid (participant_of claims) c h in
      (claims, refl, e, same, host)

  -- When StreamAuthMiddleware lets a request through, the stream of its path runs, the key of this
  -- stream accepts the token of its header, the context is made of the claims of this token, and
  -- they name this stream and, where the endpoint is for the host only, the host.
  pub stream_auth-IsAuthorized :
      (host_specific : Bool) (header stream_uuid : String) (s : Server x) (c : ParticipantCtxData)
      → stream_auth host_specific header stream_uuid s ≡ returns (passed c)
      → IsAuthorized host_specific header stream_uuid s c
  unfolding stream_auth key_found stream_key
  stream_auth-IsAuthorized host_specific header stream_uuid s c h =
      go (running s stream_uuid) refl h
    where
      go :
          (o : Option (StreamModule x))
          → running s stream_uuid ≡ o
          → key_found host_specific stream_uuid
              (bearer_token header)
              (elim o [ none ↦ err (not_running stream_uuid) | some m ↦ ok m.public_key ])
            ≡ returns (passed c)
          → IsAuthorized host_specific header stream_uuid s c
      go none e h' = cc
      go (some m) e h' =
          let (claims, accepts, context, same, host) =
            claims_checked-passed host_specific stream_uuid _ c h' in
          record {
            module_of = m;
            claims = claims;
            runs = e;
            accepted = accepts;
            context = context;
            same_stream = same;
            is_host = host;
          }

  bearer_token-append :
      (token : String)
      → trim_prefix token bearer_prefix_lower ≡ token
      → bearer_token (bearer_prefix & token) ≡ token
  unfolding bearer_token
  bearer_token-append token h = rw (trim_prefix-append bearer_prefix token) h

  -- Conversely, a token that the key of a running stream accepts, with the claims that the server
  -- makes for this stream, lets its participant through, and a guest where no host is asked.
  pub stream_auth-stream_claims :
      (host_specific : Bool) (token stream_uuid participant_uuid : String) (is_host : Bool)
      (s : Server x) (m : StreamModule x)
      → running s stream_uuid ≡ some m
      → trim_prefix token bearer_prefix_lower ≡ token
      → x.parse_token m.public_key token ≡ ok (stream_claims stream_uuid participant_uuid is_host)
      → stream_auth host_specific (bearer_prefix & token) stream_uuid s ≡ (
          if host_specific && not is_host
          then returns (
              refused status_unauthorized
                (auth_error "only host of the stream has access to this endpoint"))
          else returns (
              passed
                (record { uuid = participant_uuid; stream_uuid = stream_uuid; is_host = is_host })))
  unfolding stream_auth key_found stream_key claims_checked participant_checked participant_of
      SyncMap.load
  stream_auth-stream_claims host_specific token stream_uuid participant_uuid is_host s m runs
        trimmed accepts =
      rw (bearer_token-append token trimmed, stream_key, runs, accepts, eq_refl stream_uuid) refl

  -- In a consistent server, the host token of NewStreamHostToken, sent as a bearer token, passes
  -- every check of the endpoints of its stream, those of the host included, as the host that is on
  -- record, if the token does not itself begin with "bearer ".
  pub new_stream_host_token-stream_auth :
      (s : Server x) (uuid subject : String) (auth : AuthInfo) (host_specific : Bool)
      → IsConsistent s
      → new_stream_host_token s uuid subject ≡ ok auth
      → trim_prefix auth.access_token bearer_prefix_lower ≡ auth.access_token
      → (info : StreamRecord) × (stored s uuid ≡ some (ok info))
        × (stream_auth host_specific (bearer_prefix & auth.access_token) uuid s
            ≡ returns
                (passed (record { uuid = info.host.uuid; stream_uuid = uuid; is_host = true })))
  new_stream_host_token-stream_auth s uuid subject auth host_specific c h trimmed =
      let host = new_stream_host_token-IsHostToken s uuid subject auth c h in
      (
        host.info,
        host.is_stored,
        stream_auth-stream_claims host_specific auth.access_token uuid host.info.host.uuid true s
              host.module_of host.runs trimmed host.accepted
            ∙ ground arith,
      )
