-- ===== src/Payload.antt =====
-- The requests of the HTTP interface and their checks (handler/models/stream.go,
-- handler/models/api.go).
pub mod Accepted
use cc_core_server.Common.{
  ℕ, String, Bool, true, false, not, Option, none, some, List, [], ◌∷◌, ◌++◌, GoError, Result, Run,
  returns, panics, if◌then◌else◌,
}
use cc_core_server.Common.Int.{ℤ, pos, negsuc}
use cc_core_server.Common.Text.{◌==◌}
use cc_core_server.Service.{
  JoinPolicy, StreamLaunchMode, join_policy_auto, join_policy_by_code, join_policy_host_resolve,
}
use cc_core_server.Launch.{is_zero}
use cc_core_server.Api.{launch_modes_allowed}
use cc_core_server.Checks.{
  required, length_between, one_of, matches, is_ip, join_code_pattern, Validation,
}

pub record JoinPolicyRequest : Type 0 where
  pub policy : JoinPolicy
  pub code : String

pub record StreamConfigRequest : Type 0 where
  pub preferred_port : ℤ
  pub preferred_ip : String
  pub launch_mode : StreamLaunchMode

pub record StreamHostInfoRequest : Type 0 where
  pub name : String
  pub avatar_id : String

pub record CreateStreamRequest : Type 0 where
  pub name : String
  pub description : String
  pub join : JoinPolicyRequest
  pub stream : StreamConfigRequest
  pub host : StreamHostInfoRequest

pub record ParticipantJoinRequest : Type 0 where
  pub name : String
  pub avatar_id : String
  pub join_code : String

pub record PatchStreamRequest : Type 0 where
  pub name : Option String
  pub description : Option String
  pub join : Option JoinPolicyRequest
  pub host : Option StreamHostInfoRequest

pub record PatchParticipantRequest : Type 0 where
  pub name : Option String
  pub avatar_id : Option String

-- The three times as `Unix` gives them: that of `time.Time{}` is -62135596800.
pub record GenerateServerTokenRequest : Type 0 where
  pub audience : String
  pub expires_at : ℤ
  pub issued_at : ℤ
  pub issuer : String
  pub not_before : ℤ
  pub subject : String

-- `validation.Errors`, before `Filter`.
abbrev pub Checked : Type 0
Checked = List (String × Result (Unit {0}))

-- `if test { errs[key] = ... }`.
abbrev pub check_if : Bool → String × Result (Unit {0}) → Checked
check_if true e = e ∷ []
check_if false e = []

-- `if p != nil { errs... = ...*p... }`.
abbrev pub check_given : {A : Type 0} → Option A → (A → Checked) → Checked
check_given none f = []
check_given (some a) f = f a

abbrev pub join_policies_allowed : List String
join_policies_allowed = join_policy_auto ∷ join_policy_by_code ∷ join_policy_host_resolve ∷ []

module _ (v : Validation) where
  abbrev pub check_join_code : JoinPolicyRequest → Checked
  check_join_code join =
      check_if (join.policy == join_policy_by_code)
        ("join.code", v.check (required ∷ matches join_code_pattern ∷ []) join.code)

  abbrev pub mode_check : CreateStreamRequest → Checked
  mode_check req =
      check_if (not (req.stream.launch_mode == ""))
        ("stream.launch", v.check (one_of launch_modes_allowed ∷ []) req.stream.launch_mode)

  abbrev pub ip_check : CreateStreamRequest → Checked
  ip_check req =
      check_if (not (req.stream.preferred_ip == ""))
        ("stream.ip", v.check (is_ip ∷ []) req.stream.preferred_ip)

  abbrev pub port_check : CreateStreamRequest → Checked
  port_check req =
      check_if (not (is_zero req.stream.preferred_port))
        ("stream.port", v.min (pos 0) req.stream.preferred_port)

  abbrev pub create_checks : CreateStreamRequest → Checked
  create_checks req =
      ("name", v.check (required ∷ length_between 5 32 ∷ []) req.name)
      ∷ ("description", v.check (length_between 0 96 ∷ []) req.description)
      ∷ ("join.policy", v.check (required ∷ one_of join_policies_allowed ∷ []) req.join.policy)
      ∷ ("host.username", v.check (required ∷ length_between 5 32 ∷ []) req.host.name)
      ∷ (check_join_code req.join ++ mode_check req ++ ip_check req ++ port_check req)

  -- `Validate` of each request; only that of a patch of a stream can panic, which asks `req.Join`
  -- for the name of the host.
  unfoldable pub validate_create_stream : CreateStreamRequest → Run (List (String × GoError))
  validate_create_stream req = returns (v.filter (create_checks req))

  unfoldable pub validate_participant_join : ParticipantJoinRequest → Run (List (String × GoError))
  validate_participant_join req =
      returns (v.filter (("name", v.check (required ∷ length_between 5 32 ∷ []) req.name) ∷ []))

  abbrev pub patch_checks : PatchStreamRequest → Checked
  patch_checks req =
      check_given req.name (λ name. ("name", v.check (length_between 5 32 ∷ []) name) ∷ [])
      ++ check_given req.description
          (λ text. ("description", v.check (length_between 0 96 ∷ []) text) ∷ [])
      ++ check_given req.join (λ join.
        ("join.policy", v.check (one_of join_policies_allowed ∷ []) join.policy)
        ∷ check_join_code join)

  unfoldable pub patch_host_checked :
      Checked
      → Option StreamHostInfoRequest
      → Option JoinPolicyRequest
      → Run (List (String × GoError))
  patch_host_checked es none join = returns (v.filter es)
  patch_host_checked es (some h) none = panics
  patch_host_checked es (some h) (some join) =
      returns
        (v.filter (es ++ ("host.username", v.check (length_between 5 32 ∷ []) join.code) ∷ []))

  unfoldable pub validate_patch_stream : PatchStreamRequest → Run (List (String × GoError))
  unfolding patch_host_checked
  validate_patch_stream req = patch_host_checked (patch_checks req) req.host req.join

  unfoldable pub validate_patch_participant :
      PatchParticipantRequest → Run (List (String × GoError))
  validate_patch_participant req = returns (
      v.filter
        (check_given req.name (λ name. ("name", v.check (length_between 5 32 ∷ []) name) ∷ [])))

  unfoldable pub validate_generate_server_token :
      GenerateServerTokenRequest → Run (List (String × GoError))
  validate_generate_server_token req =
      returns (v.filter (("sub", v.check (required ∷ length_between 10 64 ∷ []) req.subject) ∷ []))

-- The requests that the handlers decode into: their zero values.
abbrev pub zero_time : ℤ
zero_time = negsuc 62135596799

abbrev pub blank_join_policy : JoinPolicyRequest
blank_join_policy = record { policy = ""; code = "" }

abbrev pub blank_create_stream : CreateStreamRequest
blank_create_stream = record {
  name = "";
  description = "";
  join = blank_join_policy;
  stream = record { preferred_port = pos 0; preferred_ip = ""; launch_mode = "" };
  host = record { name = ""; avatar_id = "" };
}

abbrev pub blank_participant_join : ParticipantJoinRequest
blank_participant_join = record { name = ""; avatar_id = ""; join_code = "" }

abbrev pub blank_patch_stream : PatchStreamRequest
blank_patch_stream = record { name = none; description = none; join = none; host = none }

abbrev pub blank_patch_participant : PatchParticipantRequest
blank_patch_participant = record { name = none; avatar_id = none }

abbrev pub blank_generate_server_token : GenerateServerTokenRequest
blank_generate_server_token = record {
  audience = "";
  expires_at = zero_time;
  issued_at = zero_time;
  issuer = "";
  not_before = zero_time;
  subject = "";
}
