-- ===== src/Checks.antt =====
-- How a request is read and checked (handler/middleware/request.go). The rules of ozzo-validation
-- and the JSON decoder are parameters.
use cc_core_server.Common.{
  ℕ, ◌+◌, ◌≤◌, String, Bool, true, false, ◌&&◌, List, [], ◌∷◌, map, All, any, GoError, error_text,
  Result, ok, Run, returns, panics, length, eqb, ltb, leb, if◌then◌else◌, ◌≡◌,
}
use cc_core_server.Common.Int.{ℤ, ltb_ℤ}
use cc_core_server.Common.Text.{◌==◌, codes}
use cc_core_server.Launch.{is_zero}
use cc_core_server.Errors.{
  WebError, text_details, param_details, new, err_invalid_request, err_invalid_request_param,
}

-- The rules that the requests give to `validation.Validate` for a text.
pub data Rule : Type 0 where
  required : Rule
  length_between : ℕ → ℕ → Rule
  one_of : List String → Rule
  matches : String → Rule
  is_ip : Rule

abbrev utf8_width : ℕ → ℕ
utf8_width c = if ltb c 128 then 1 else if ltb c 2048 then 2 else if ltb c 65536 then 3 else 4

abbrev sum_of : List ℕ → ℕ
sum_of [] = 0
sum_of (n ∷ ns) = n + sum_of ns

-- `len` of a string: its bytes in UTF-8.
unfoldable pub byte_length : String → ℕ
byte_length s = sum_of (map utf8_width (codes s))

abbrev pub join_code_pattern : String
join_code_pattern = "^[0-9]{6}$"

abbrev is_digit : ℕ → Bool
is_digit c = leb 48 c && leb c 57

abbrev are_all : (ℕ → Bool) → List ℕ → Bool
are_all f [] = true
are_all f (c ∷ cs) = let rest = are_all f cs in f c && rest

-- What the pattern of the join codes accepts.
unfoldable pub is_join_code : String → Bool
is_join_code s = eqb (length (codes s)) 6 && are_all is_digit (codes s)

-- ozzo-validation: `check` is `Validate` of a text, which tries its rules in turn, and `min` that of
-- an int by `Min`; `filter` keeps the errors that are there. Only `required` looks at an empty text.
pub record Validation : Type 0 where
  pub check : List Rule → String → Result (Unit {0})
  pub min : ℤ → ℤ → Result (Unit {0})
  pub filter : List (String × Result (Unit {0})) → List (String × GoError)
  pub check-ok :
      (r : Rule) (rs : List Rule) (v : String)
      → check (r ∷ rs) v ≡ ok tt
      → (check (r ∷ []) v ≡ ok tt) × (check rs v ≡ ok tt)
  pub check_empty : (allowed : List String) → check (one_of allowed ∷ []) "" ≡ ok tt
  pub required-ok : (v : String) → check (required ∷ []) v ≡ ok tt → (v == "") ≡ false
  pub length_between-ok :
      (low high : ℕ) (v : String)
      → check (length_between low high ∷ []) v ≡ ok tt
      → (v == "") ≡ false
      → 1 ≤ high
      → (low ≤ byte_length v) × (byte_length v ≤ high)
  pub one_of-ok :
      (allowed : List String) (v : String)
      → check (one_of allowed ∷ []) v ≡ ok tt
      → (v == "") ≡ false
      → any (λ w. w == v) allowed ≡ true
  pub matches-ok :
      (v : String)
      → check (matches join_code_pattern ∷ []) v ≡ ok tt
      → (v == "") ≡ false
      → is_join_code v ≡ true
  pub min-ok :
      (threshold v : ℤ) → min threshold v ≡ ok tt → is_zero v ≡ false → ltb_ℤ v threshold ≡ false
  pub filter-ok :
      (es : List (String × Result (Unit {0}))) → filter es ≡ [] → All (λ e. e.1 ≡ ok tt) es
  pub filter-nil :
      (es : List (String × Result (Unit {0}))) → All (λ e. e.1 ≡ ok tt) es → filter es ≡ []

-- A request that is handled, or the error that is answered.
pub data Parsed (A : Type 0) : Type 0 where
  parsed : A → Parsed A
  refused_request : WebError → Parsed A

-- `validateRequest` on the errors of `Validate`.
unfoldable pub validate_request : {A : Type 0} → A → List (String × GoError) → Parsed A
validate_request req [] = parsed req
validate_request req (e ∷ es) = refused_request (
    new err_invalid_request_param
      (param_details (map (λ p. record { param = p.0; errors = error_text p.1 ∷ [] }) (e ∷ es))))

-- What the JSON decoder makes of a body: a value, `io.EOF` where there is none, or an error.
pub data Decoded (A : Type 0) : Type 0 where
  decoded : A → Decoded A
  end_of_input : Decoded A
  malformed : GoError → Decoded A

-- `validateRequest` on a `Validate` that may panic.
unfoldable pub validated : {A : Type 0} → A → Run (List (String × GoError)) → Run (Parsed A)
unfolding validate_request
validated req panics = panics
validated req (returns es) = returns (validate_request req es)

-- `ParseJSONRequest`, into a request that starts as `blank`.
unfoldable pub parse_json_request :
    {A : Type 0} → A → (A → Run (List (String × GoError))) → Decoded A → Run (Parsed A)
unfolding validated
parse_json_request blank validate (decoded req) = validated req (validate req)
parse_json_request blank validate end_of_input = validated blank (validate blank)
parse_json_request blank validate (malformed e) =
    returns (refused_request (new err_invalid_request (text_details (error_text e))))
