-- ===== src/Common/Atoi.antt =====
-- `strconv.Atoi` on a 64-bit machine.
use Prim.Native.Nat.{ℕ, zero, suc, ◌+◌, ◌-◌, ◌*◌, ◌^◌, ◌<◌}
use mathlib.Core.Bool.{◌&&◌}
use mathlib.Core.Path.{◌≡◌, refl}
use mathlib.Core.Option.{Option, none, some}
use mathlib.Core.List.{List, [], ◌∷◌}
use native.Mathlib.Omega.{arith}
use Prim.Native.String.{String}
use cc_core_server.Common.Tests.{eqb, ltb, leb, if◌then◌else◌}
use cc_core_server.Common.Int.{ℤ, pos, negsuc}
use cc_core_server.Common.Text.{codes, ◌&◌}
use cc_core_server.Common.Outcome.{GoError, plain, Result, ok, err}

-- The value of decimal digits that follow those of `n`.
unfoldable pub digits_value : List ℕ → ℕ → Option ℕ
digits_value [] n = some n
digits_value (c ∷ cs) n =
    let rest = digits_value cs (n * 10 + (c - 48)) in if leb 48 c && leb c 57 then rest else none

-- A number needs at least one digit.
unfoldable pub number_of : List ℕ → Option ℕ
unfolding digits_value
number_of [] = none
number_of (c ∷ cs) = digits_value (c ∷ cs) 0

abbrev pub number_error : String → String → GoError
number_error s message = plain ("strconv.Atoi: parsing \"" & s & "\": " & message)

-- The number under a sign, if it fits.
unfoldable pub positive : String → Option ℕ → Result ℤ
positive s none = err (number_error s "invalid syntax")
positive s (some n) =
    if ltb n (2 ^ 63) then ok (pos n) else err (number_error s "value out of range")

unfoldable pub negative : String → Option ℕ → Result ℤ
negative s none = err (number_error s "invalid syntax")
negative s (some zero) = ok (pos 0)
negative s (some (suc n)) =
    if ltb n (2 ^ 63) then ok (negsuc n) else err (number_error s "value out of range")

unfoldable pub signed : String → List ℕ → Result ℤ
unfolding number_of positive negative
signed s [] = err (number_error s "invalid syntax")
signed s (c ∷ cs) =
    if eqb c 45
    then negative s (number_of cs)
    else if eqb c 43
    then positive s (number_of cs)
    else positive s (number_of (c ∷ cs))

-- The quotation marks of the error text are written out; the escapes that it may need are not.
unfoldable pub atoi : String → Result ℤ
unfolding signed
atoi s = signed s (codes s)

-- What an int may hold.
abbrev pub IsInt : ℤ → Type 0
IsInt (pos n) = n < 2 ^ 63
IsInt (negsuc n) = n < 2 ^ 63

positive-IsInt : (s : String) (o : Option ℕ) (z : ℤ) → positive s o ≡ ok z → IsInt z
unfolding positive
positive-IsInt s none z h = absurd (cc)
positive-IsInt s (some n) (pos m) h = ground arith
positive-IsInt s (some n) (negsuc m) h = absurd (ground arith)

negative-IsInt : (s : String) (o : Option ℕ) (z : ℤ) → negative s o ≡ ok z → IsInt z
unfolding negative
negative-IsInt s none z h = absurd (cc)
negative-IsInt s (some zero) (pos m) h = ground arith
negative-IsInt s (some zero) (negsuc m) h = absurd (cc)
negative-IsInt s (some (suc n)) (pos m) h = absurd (ground arith)
negative-IsInt s (some (suc n)) (negsuc m) h = ground arith

signed-IsInt : (s : String) (cs : List ℕ) (z : ℤ) → signed s cs ≡ ok z → IsInt z
unfolding signed
signed-IsInt s [] z h = absurd (cc)
signed-IsInt s (c ∷ cs) z h = ground (
  arith,
  negative-IsInt s (number_of cs) z,
  positive-IsInt s (number_of cs) z,
  positive-IsInt s (number_of (c ∷ cs)) z,
)

-- What is parsed is an int.
pub atoi-IsInt : (s : String) (z : ℤ) → atoi s ≡ ok z → IsInt z
unfolding atoi
atoi-IsInt s z = signed-IsInt s (codes s) z

atoi_tests :
    (atoi "42" ≡ ok (pos 42))
    × (atoi "-1" ≡ ok (negsuc 0))
    × (atoi "4x" ≡ err (number_error "4x" "invalid syntax"))
unfolding atoi
atoi_tests = (refl, refl, refl)
