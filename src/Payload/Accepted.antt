-- ===== src/Payload/Accepted.antt =====
-- What the requests that are accepted say.
use cc_core_server.Common.{
  eq_iff, not, ℕ, ◌≤◌, String, Bool, true, false, List, [], ◌∷◌, ◌++◌, All, any, GoError, Result,
  ok, Run, returns, panics, Bool-cases, inl, inr, ◌≡◌, ◌∙◌, ap, sym, refl, arith,
}
use cc_core_server.Common.Int.{ℤ, pos, negsuc, ltb_ℤ}
use cc_core_server.Common.Text.{◌==◌}
use cc_core_server.Service.{join_policy_by_code}
use cc_core_server.Launch.{is_zero}
use cc_core_server.Api.{launch_modes_allowed}
use cc_core_server.Checks.{
  required, length_between, byte_length, is_join_code, Validation, parsed, validate_request,
  Decoded, decoded, end_of_input, malformed, validated, parse_json_request,
}
use cc_core_server.Payload.{
  CreateStreamRequest, Checked, check_if, create_checks, validate_create_stream, check_join_code,
  mode_check, ip_check, port_check, join_policies_allowed, blank_create_stream,
}

-- A request for a stream that can be made: its texts have their lengths in bytes, the policy is
-- known, a code that is needed has six digits, and the port is not negative.
pub record IsCreateRequest (req : CreateStreamRequest) : Type 0 where
  pub name_from : 5 ≤ byte_length req.name
  pub name_to : byte_length req.name ≤ 32
  pub description_to : byte_length req.description ≤ 96
  pub policy_known : any (λ w. w == req.join.policy) join_policies_allowed ≡ true
  pub code_given :
      (req.join.policy == join_policy_by_code) ≡ true → is_join_code req.join.code ≡ true
  pub host_from : 5 ≤ byte_length req.host.name
  pub host_to : byte_length req.host.name ≤ 32
  pub mode_known :
      (req.stream.launch_mode == "") ≡ false
      → any (λ w. w == req.stream.launch_mode) launch_modes_allowed ≡ true
  pub port_from : ltb_ℤ req.stream.preferred_port (pos 0) ≡ false

module _ {A : Type 0} (blank : A) (validate : A → Run (List (String × GoError))) where
  -- A request that is accepted has been validated without errors.
  validated-parsed :
      (req r : A) (o : Run (List (String × GoError)))
      → validated req o ≡ returns (parsed r)
      → (o ≡ returns []) × (req ≡ r)
  unfolding validated validate_request
  validated-parsed req r panics h = cc
  validated-parsed req r (returns []) h = (refl, cc)
  validated-parsed req r (returns (e ∷ es)) h = cc

  pub parse_json_request-parsed :
      (d : Decoded A) (r : A)
      → parse_json_request blank validate d ≡ returns (parsed r)
      → validate r ≡ returns []
  unfolding parse_json_request
  parse_json_request-parsed (decoded req) r h =
      let (e, same) = validated-parsed req r (validate req) h in ap validate (sym same) ∙ e
  parse_json_request-parsed end_of_input r h =
      let (e, same) = validated-parsed blank r (validate blank) h in ap validate (sym same) ∙ e
  parse_json_request-parsed (malformed e) r h = cc

checked_parts :
    (es fs : Checked)
    → All (λ e. e.1 ≡ ok tt) (es ++ fs)
    → All (λ e. e.1 ≡ ok tt) es × All (λ e. e.1 ≡ ok tt) fs
checked_parts [] fs h = (tt, h)
checked_parts (e ∷ es) fs (first, others) =
    let (a, b) = checked_parts es fs others in ((first, a), b)

-- A check that was made under a condition that holds.
check_if-ok :
    (b : Bool) (key : String) (r : Result (Unit {0}))
    → All (λ e. e.1 ≡ ok tt) (check_if b (key, r))
    → b ≡ true
    → r ≡ ok tt
check_if-ok true key r (h, u) k = h
check_if-ok false key r h k = cc

not_negative :
    (v : Validation) (z : ℤ)
    → (is_zero z ≡ false → v.min (pos 0) z ≡ ok tt)
    → ltb_ℤ z (pos 0) ≡ false
not_negative v z h = elim (Bool-cases (is_zero z)) [
  | inl zero ↦ zero_case z zero
  | inr other ↦ v.min-ok (pos 0) z (h other) other
]
  where
    zero_case : (z : ℤ) → is_zero z ≡ true → ltb_ℤ z (pos 0) ≡ false
    zero_case (pos n) k = ground arith
    zero_case (negsuc n) k = cc

empty_fits : (high : ℕ) (t : String) → t ≡ "" → byte_length t ≤ high
unfolding byte_length
empty_fits high t h = rw h (omega arith)

module _ (v : Validation) where
  -- A text that is required and has its length checked.
  required_length :
      (low high : ℕ) (t : String)
      → v.check (required ∷ length_between low high ∷ []) t ≡ ok tt
      → 1 ≤ high
      → (low ≤ byte_length t) × (byte_length t ≤ high)
  required_length low high t h some_high =
      let (given, sized) = v.check-ok required (length_between low high ∷ []) t h in
      v.length_between-ok low high t sized (v.required-ok t given) some_high

  optional_length :
      (high : ℕ) (t : String)
      → v.check (length_between 0 high ∷ []) t ≡ ok tt
      → 1 ≤ high
      → byte_length t ≤ high
  optional_length high t h some_high = elim (Bool-cases (t == "")) [
    | inl empty ↦ empty_fits high t (ground (arith, eq_iff t ""))
    | inr given ↦ (v.length_between-ok 0 high t h given some_high).1
  ]

  create_checks-IsCreateRequest :
      (req : CreateStreamRequest)
      → All (λ e. e.1 ≡ ok tt) (create_checks v req)
      → IsCreateRequest req
  create_checks-IsCreateRequest req (name, (description, (policy, (host, others)))) =
      let (front, port) =
        checked_parts (check_join_code v req.join ++ mode_check v req ++ ip_check v req)
          (port_check v req) others in
      let (front', ip) =
        checked_parts (check_join_code v req.join ++ mode_check v req) (ip_check v req) front in
      let (code, mode) = checked_parts (check_join_code v req.join) (mode_check v req) front' in
      let (policy_given, policy_in) = v.check-ok required _ req.join.policy policy in
      record {
        name_from = (required_length 5 32 req.name name (omega arith)).0;
        name_to = (required_length 5 32 req.name name (omega arith)).1;
        description_to = optional_length 96 req.description description (omega arith);
        policy_known =
            v.one_of-ok join_policies_allowed req.join.policy policy_in
              (v.required-ok req.join.policy policy_given);
        code_given = λ by_code.
            let checked = check_if-ok _ "join.code" _ code by_code in
            let (given, fits) = v.check-ok required _ req.join.code checked in
            v.matches-ok req.join.code fits (v.required-ok req.join.code given);
        host_from = (required_length 5 32 req.host.name host (omega arith)).0;
        host_to = (required_length 5 32 req.host.name host (omega arith)).1;
        mode_known = λ given.
            v.one_of-ok launch_modes_allowed req.stream.launch_mode
              (check_if-ok _ "stream.launch" _ mode (ap not given)) given;
        port_from =
            not_negative v req.stream.preferred_port
              (λ other. check_if-ok _ "stream.port" _ port (ap not other));
      }

  -- A request for a stream that is accepted has a name, a description and a name of the host of
  -- their lengths, a known policy, six digits as the code where the policy needs it, a known mode
  -- if any, and no negative port.
  pub parse_json_request-IsCreateRequest :
      (d : Decoded CreateStreamRequest) (req : CreateStreamRequest)
      → parse_json_request blank_create_stream (validate_create_stream v) d ≡ returns (parsed req)
      → IsCreateRequest req
  unfolding validate_create_stream
  parse_json_request-IsCreateRequest d req h = create_checks-IsCreateRequest req (
      v.filter-ok (create_checks v req) (
        returns-injective
          (parse_json_request-parsed blank_create_stream (validate_create_stream v) d req h)))
    where
      returns-injective : {es fs : List (String × GoError)} → returns es ≡ returns fs → es ≡ fs
      returns-injective k = cc
