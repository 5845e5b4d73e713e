-- ===== src/Common/Outcome.antt =====
-- Errors, results, and runs that may panic.
use mathlib.Core.Path.{◌≡◌, refl}
use mathlib.Core.Logic.{◌⊎◌, inl, inr}
use mathlib.Core.Bool.{Bool, true, false}
use Prim.Native.String.{String}
use cc_core_server.Common.Text.{◌&◌}

-- `os.ErrNotExist`, `errors.New(s)`, and `fmt.Errorf("prefix: %v", err)`.
pub data GoError : Type 0 where
  not_exist : GoError
  plain : String → GoError
  wrap : String → GoError → GoError

-- `err.Error()`.
unfoldable pub error_text : GoError → String
error_text not_exist = "file does not exist"
error_text (plain s) = s
error_text (wrap prefix e) = prefix & ": " & error_text e

-- `os.IsNotExist(err)`: `%v` keeps the text of the cause and forgets its identity.
unfoldable pub is_not_exist : GoError → Bool
is_not_exist not_exist = true
is_not_exist (plain s) = false
is_not_exist (wrap prefix e) = false

-- A value and a nil error, or an error.
pub data Result {ℓ} (A : Type ℓ) : Type ℓ where
  ok : A → Result A
  err : GoError → Result A

-- The rest of a function after a call that may return an error.
infixl 5 ◌>>=◌
abbrev pub ◌>>=◌ {ℓ κ} : {A : Type ℓ} {B : Type κ} → Result A → (A → Result B) → Result B
ok value >>= rest = rest value
err e >>= rest = err e

-- `if err != nil { return nil, fmt.Errorf("prefix: %v", err) }`.
abbrev pub wrap_err {ℓ} : {A : Type ℓ} → String → Result A → Result A
wrap_err prefix (ok a) = ok a
wrap_err prefix (err e) = err (wrap prefix e)

infixl 5 ◌>>◌
abbrev pub ◌>>◌ {ℓ} : {A : Type ℓ} → Result (Unit {0}) → Result A → Result A
done >> rest = done >>= λ u. rest

-- A call that returns, or that panics.
pub data Run {ℓ} (A : Type ℓ) : Type ℓ where
  returns : A → Run A
  panics : Run A

pub >>=-eq-ok {ℓ κ} :
    {A : Type ℓ} {B : Type κ} (r : Result A) (rest : A → Result B) {b : B}
    → (r >>= rest) ≡ ok b
    → (value : A) × (r ≡ ok value) × (rest value ≡ ok b)
>>=-eq-ok (ok value) rest h = (value, refl, h)
>>=-eq-ok (err e) rest h = cc

pub Result-cases {ℓ} :
    {A : Type ℓ} (r : Result A) → ((a : A) × (r ≡ ok a)) ⊎ ((e : GoError) × (r ≡ err e))
Result-cases (ok a) = inl (a, refl)
Result-cases (err e) = inr (e, refl)
