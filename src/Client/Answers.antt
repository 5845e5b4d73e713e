-- ===== src/Client/Answers.antt =====
-- The answers of the administration interface, as the client takes them.
use cc_core_server.Common.{
  ℕ, Bool, false, not, Result, ok, err, Run, returns, panics, eqb, if◌then◌else◌, ◌≡◌, ◌∙◌, ap, sym,
  refl,
}
use cc_core_server.Service.{AuthInfo, StreamInfo}
use cc_core_server.Server.{Externals, Server}
use cc_core_server.Server.Listing.{SortSlice}
use cc_core_server.Setup.{Surroundings}
use cc_core_server.Setup.Building.{new_server_token}
use cc_core_server.Models.{Response, write_json_response, write_error}
use cc_core_server.Checks.{Validation, Parsed, parsed, refused_request}
use cc_core_server.Payload.{GenerateServerTokenRequest}
use cc_core_server.Handlers.{Outcome, responded, write_failure}
use cc_core_server.Handlers.Endpoints.{Handled}
use cc_core_server.Api.Endpoints.{
  ApiRequest, generate_token, claims_of, answer_token, token_parsed, handle_api,
}
use cc_core_server.Client.{
  RequestParams, Reply, got, decoded_answer, decoded_error, replied, request_made, body_marshalled,
  do_request, new_token_params,
}

module _ ⦃x : Externals⦄ where
  abbrev is_status_ok : Outcome x → Bool
  is_status_ok (responded a) = eqb a.status 200
  is_status_ok o = false

  answer_token-status : (o : Result AuthInfo) → eqb (answer_token o).status 200 ≡ false
  unfolding answer_token write_failure write_error write_json_response
  answer_token-status (err e) = refl
  answer_token-status (ok a) = refl

  token_parsed-status :
      (s : Server x) (o : Run (Parsed GenerateServerTokenRequest))
      → is_status_ok (token_parsed s o) ≡ false
  unfolding token_parsed write_error write_json_response
  token_parsed-status s panics = refl
  token_parsed-status s (returns (refused_request e)) = refl
  token_parsed-status s (returns (parsed req)) =
      answer_token-status (new_server_token s (claims_of req))

module _ {A : Type 0} where
  decoded_error-not_got : (r : Reply A) (o : Result _) (a : A) → ¬ (decoded_error r o ≡ got a)
  unfolding decoded_error
  decoded_error-not_got r (err e) a h = absurd (cc)
  decoded_error-not_got r (ok e) a h = absurd (cc)

  -- A reply with another status than the expected one is no answer.
  replied-not_got :
      (expected : ℕ) (o : Result (Reply A)) (a : A)
      → ((r : Reply A) → o ≡ ok r → eqb r.status_code expected ≡ false)
      → ¬ (replied expected o ≡ got a)
  unfolding replied
  replied-not_got expected (err e) a other h = absurd (cc)
  replied-not_got expected (ok r) a other h = decoded_error-not_got r r.as_error a (
      ap (λ b. if not b then decoded_error r r.as_error else decoded_answer r.as_answer)
        (sym (other r refl))
      ∙ h)

-- Whatever the server's state and the request, and also where the server gives a token, NewToken of
-- the client never returns one: its reply has the status that the server answered, and the client
-- expects another.
pub new_token-not_got :
    ⦃x : Externals⦄ (v : Validation) (sorting : SortSlice StreamInfo) (around : Surroundings x)
    (r : ApiRequest) (s t : Server x) (answer : Response) {A : Type 0}
    (new_request : RequestParams → Result (Unit {0})) (send : RequestParams → Result (Reply A))
    (marshalled : Result (Unit {0})) (token : A)
    → handle_api v sorting around generate_token r s ≡ (responded answer, t)
    → ((p : RequestParams) (y : Reply A) → send p ≡ ok y → y.status_code ≡ answer.status)
    → ¬ (do_request new_request send (new_token_params marshalled) ≡ got token)
unfolding do_request handle_api request_made body_marshalled
new_token-not_got v sorting around r s t answer new_request send marshalled token h from_server =
    by_body marshalled
  where
    other : eqb answer.status 200 ≡ false
    other = ap (λ (o : Handled). is_status_ok o.0) (sym h) ∙ token_parsed-status s _

    by_request :
        (m n : Result (Unit {0})) → ¬ (request_made (new_token_params m) send n ≡ got token)
    by_request m (err e) k = absurd (cc)
    by_request m (ok u) k =
        replied-not_got 200 (send (new_token_params m)) token
          (λ y e. ap (λ n. eqb n 200) (from_server (new_token_params m) y e) ∙ other) k

    by_body :
        (m : Result (Unit {0}))
        → ¬ (body_marshalled (new_token_params m) new_request send m ≡ got token)
    by_body (err e) k = absurd (cc)
    by_body (ok u) k = by_request (ok u) (new_request (new_token_params (ok u))) k
