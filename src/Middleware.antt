-- ===== src/Middleware.antt =====
-- The middlewares of handler/middleware/auth.go: what a request has to bring to reach its handler.
pub mod Passing
pub mod Guests
use cc_core_server.Common.{
  ℕ, String, Bool, true, false, not, ◌&&◌, Option, none, some, List, [], ◌∷◌, GoError, error_text,
  Result, ok, err, Run, returns, panics, if◌then◌else◌, ◌≡◌,
}
use cc_core_server.Common.Text.{◌==◌, trim_prefix}
use cc_core_server.Common.SyncMap
use cc_core_server.Errors.{WebError, text_details, new, err_auth}
use cc_core_server.Server.{
  ClaimValue, text_claim, bool_claim, number_claim, other_claim, MapClaims, Externals, Server,
}
use cc_core_server.Server.Running.{stream_key}

abbrev pub bearer_prefix : String
bearer_prefix = "Bearer "

-- `strings.ToLower(bearerPrefix)`.
abbrev pub bearer_prefix_lower : String
bearer_prefix_lower = "bearer "

-- `ErrAuth.New(details)`, for a text.
abbrev pub auth_error : String → WebError
auth_error details = new err_auth (text_details details)

abbrev pub status_unauthorized : ℕ
status_unauthorized = 401

abbrev pub status_forbidden : ℕ
status_forbidden = 403

-- What a middleware does with a request: the handler runs with this value in its context, or an
-- answer is written.
pub data Access (A : Type 0) : Type 0 where
  passed : A → Access A
  refused : ℕ → WebError → Access A

-- `ParticipantCtxData`.
pub record ParticipantCtxData : Type 0 where
  pub uuid : String
  pub stream_uuid : String
  pub is_host : Bool

-- `claims["..."].(string)`: panics on a claim that is missing or of another type.
unfoldable pub text_of : Option ClaimValue → Run String
text_of none = panics
text_of (some (text_claim t)) = returns t
text_of (some (bool_claim b)) = panics
text_of (some (number_claim n)) = panics
text_of (some other_claim) = panics

-- `if isHost, ok := claims["host"]; ok { participant.IsHost = isHost.(bool) }`.
unfoldable pub host_of : Option ClaimValue → Run Bool
host_of none = returns false
host_of (some (text_claim t)) = panics
host_of (some (bool_claim b)) = returns b
host_of (some (number_claim n)) = panics
host_of (some other_claim) = panics

abbrev pub >>=P : {A B : Type 0} → Run A → (A → Run B) → Run B
>>=P (returns a) f = f a
>>=P panics f = panics

-- `ParticipantCtxData` of the claims.
unfoldable pub participant_of : MapClaims → Run ParticipantCtxData
unfolding text_of host_of
participant_of claims = >>=P (text_of (SyncMap.load "UUID" claims)) (λ uuid.
    >>=P (text_of (SyncMap.load "streamUUID" claims)) (λ stream_uuid.
      >>=P (host_of (SyncMap.load "host" claims)) (λ is_host.
        returns (record { uuid = uuid; stream_uuid = stream_uuid; is_host = is_host }))))

-- The last two checks of `StreamAuthMiddleware`.
unfoldable pub participant_checked :
    Bool → String → Run ParticipantCtxData → Run (Access ParticipantCtxData)
participant_checked host_specific stream_uuid panics = panics
participant_checked host_specific stream_uuid (returns c) =
    if not (stream_uuid == c.stream_uuid)
    then returns (refused status_forbidden (auth_error "access denied"))
    else if host_specific && not c.is_host
    then returns (
        refused status_unauthorized
          (auth_error "only host of the stream has access to this endpoint"))
    else returns (passed c)

-- The token of an `Authorization` header.
unfoldable pub bearer_token : String → String
unfolding trim_prefix
bearer_token header = trim_prefix (trim_prefix header bearer_prefix) bearer_prefix_lower

unfoldable pub claims_checked : Bool → String → Result MapClaims → Run (Access ParticipantCtxData)
unfolding participant_checked participant_of
claims_checked host_specific stream_uuid (err e) =
    returns (refused status_unauthorized (auth_error (error_text e)))
claims_checked host_specific stream_uuid (ok claims) =
    participant_checked host_specific stream_uuid (participant_of claims)

-- `subject, ok := claims["sub"].(string); !ok || subject == ""`.
unfoldable pub subject_of : Option ClaimValue → Access String
subject_of none = refused status_unauthorized (auth_error "coukd not find subject of the token")
subject_of (some (text_claim t)) =
    if t == ""
    then refused status_unauthorized (auth_error "coukd not find subject of the token")
    else passed t
subject_of (some (bool_claim b)) =
    refused status_unauthorized (auth_error "coukd not find subject of the token")
subject_of (some (number_claim n)) =
    refused status_unauthorized (auth_error "coukd not find subject of the token")
subject_of (some other_claim) =
    refused status_unauthorized (auth_error "coukd not find subject of the token")

unfoldable pub server_claims_checked : Result MapClaims → Access String
unfolding subject_of
server_claims_checked (err e) = refused status_unauthorized (auth_error (error_text e))
server_claims_checked (ok claims) = subject_of (SyncMap.load "sub" claims)

module _ ⦃x : Externals⦄ where
  unfoldable pub key_found :
      Bool → String → String → Result x.PublicKey → Run (Access ParticipantCtxData)
  unfolding claims_checked
  key_found host_specific stream_uuid token (err e) =
      returns (refused status_unauthorized (auth_error (error_text e)))
  key_found host_specific stream_uuid token (ok key) =
      claims_checked host_specific stream_uuid (x.parse_token key token)

  -- `StreamAuthMiddleware`, on the header `Authorization` and the `uuid` of the path. `parse_token`
  -- answers the claims of a token that is valid, or an error.
  unfoldable pub stream_auth : Bool → String → String → Server x → Run (Access ParticipantCtxData)
  unfolding key_found bearer_token stream_key
  stream_auth host_specific header stream_uuid s =
      key_found host_specific stream_uuid (bearer_token header) (stream_key s stream_uuid)

  -- `ServerAuthMiddleware`, on its key and the header `X-CODE-CORD-AUTH`.
  unfoldable pub server_auth : x.PublicKey → String → Access String
  unfolding server_claims_checked
  server_auth key header = server_claims_checked (x.parse_token key header)
