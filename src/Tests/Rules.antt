-- ===== src/Tests/Rules.antt =====
-- The rules of the tests.
use cc_core_server.Common.{
  ℕ, ◌≤◌, String, Bool, true, false, List, [], ◌∷◌, All, any, not, eqb, leb, ◌&&◌, ◌||◌, GoError,
  plain, Result, ok, err, if◌then◌else◌, ◌≡◌, refl, arith,
}
use cc_core_server.Common.Int.{ℤ, ltb_ℤ}
use cc_core_server.Common.Text.{◌==◌}
use cc_core_server.Launch.{is_zero}
use cc_core_server.Checks.{
  Rule, required, length_between, one_of, matches, is_ip, byte_length, is_join_code,
  join_code_pattern, Validation,
}
use cc_core_server.Tests.Sample.{sample}

abbrev refusal : GoError
refusal = plain "must be a valid value"

abbrev accept_if : Bool → Result (Unit {0})
accept_if true = ok tt
accept_if false = err refusal

-- The rules, and `Validate`, which skips what is empty.
abbrev accept : Rule → String → Bool
accept required v = not (v == "")
accept (length_between low high) v =
    v == "" || leb low (byte_length v) && (eqb high 0 || leb (byte_length v) high)
accept (one_of allowed) v = v == "" || any (λ w. w == v) allowed
accept (matches pattern) v = v == "" || is_join_code v
accept is_ip v = v == "" || not (v == "nowhere")

abbrev check_all : List Rule → String → Result (Unit {0})
check_all [] v = ok tt
check_all (r ∷ rs) v = let rest = check_all rs v in if accept r v then rest else err refusal

abbrev at_least : ℤ → ℤ → Result (Unit {0})
at_least threshold v = if is_zero v then ok tt else accept_if (not (ltb_ℤ v threshold))

abbrev errors_of : List (String × Result (Unit {0})) → List (String × GoError)
errors_of [] = []
errors_of ((p, ok u) ∷ es) = errors_of es
errors_of ((p, err e) ∷ es) = (p, e) ∷ errors_of es

pub errors_of-ok :
    (es : List (String × Result (Unit {0}))) → errors_of es ≡ [] → All (λ e. e.1 ≡ ok tt) es
errors_of-ok [] h = tt
errors_of-ok ((p, ok u) ∷ es) h = (refl, errors_of-ok es h)
errors_of-ok ((p, err e) ∷ es) h = absurd (cc)

accept_if-ok : (b : Bool) → accept_if b ≡ ok tt → b ≡ true
accept_if-ok true h = refl
accept_if-ok false h = cc

pub check_all-ok :
    (r : Rule) (rs : List Rule) (v : String)
    → check_all (r ∷ rs) v ≡ ok tt
    → (check_all (r ∷ []) v ≡ ok tt) × (check_all rs v ≡ ok tt)
check_all-ok r rs v h = (ground arith, ground arith)

pub check_all-accept : (r : Rule) (v : String) → check_all (r ∷ []) v ≡ ok tt → accept r v ≡ true
check_all-accept r v h = ground arith

pub check_all_required : (v : String) → check_all (required ∷ []) v ≡ ok tt → (v == "") ≡ false
check_all_required v h = ground (arith, check_all-accept required v h)

pub check_all_length :
    (low high : ℕ) (v : String)
    → check_all (length_between low high ∷ []) v ≡ ok tt
    → (v == "") ≡ false
    → 1 ≤ high
    → (low ≤ byte_length v) × (byte_length v ≤ high)
check_all_length low high v h given some_high =
    ground (arith, check_all-accept (length_between low high) v h)

pub check_all_one_of :
    (allowed : List String) (v : String)
    → check_all (one_of allowed ∷ []) v ≡ ok tt
    → (v == "") ≡ false
    → any (λ w. w == v) allowed ≡ true
check_all_one_of allowed v h given = ground (arith, check_all-accept (one_of allowed) v h)

pub check_all_matches :
    (v : String)
    → check_all (matches join_code_pattern ∷ []) v ≡ ok tt
    → (v == "") ≡ false
    → is_join_code v ≡ true
check_all_matches v h given = ground (arith, check_all-accept (matches join_code_pattern) v h)

pub errors_of-nil :
    (es : List (String × Result (Unit {0}))) → All (λ e. e.1 ≡ ok tt) es → errors_of es ≡ []
errors_of-nil [] h = refl
errors_of-nil ((p, ok u) ∷ es) (h, hs) = errors_of-nil es hs
errors_of-nil ((p, err e) ∷ es) (h, hs) = absurd (cc)

pub at_least-ok :
    (threshold v : ℤ) → at_least threshold v ≡ ok tt → is_zero v ≡ false → ltb_ℤ v threshold ≡ false
at_least-ok threshold v h e = ground (arith, accept_if-ok (not (ltb_ℤ v threshold)) (rw e at h))

abbrev pub validation : Validation
validation = record {
  check = check_all;
  min = at_least;
  filter = errors_of;
  check-ok = check_all-ok;
  check_empty = λ allowed. refl;
  required-ok = check_all_required;
  length_between-ok = check_all_length;
  one_of-ok = check_all_one_of;
  matches-ok = check_all_matches;
  min-ok = at_least-ok;
  filter-ok = errors_of-ok;
  filter-nil = errors_of-nil;
}
