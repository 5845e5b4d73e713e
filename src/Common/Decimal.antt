-- ===== src/Common/Decimal.antt =====
-- The decimal digits of an int are read back as this int.
use Prim.Native.Nat.{ℕ, zero, suc, ◌+◌, ◌-◌, ◌*◌, ◌/◌, ◌%◌, ◌^◌, ◌<◌}
use Prim.Native.Nat.pow
use Prim.Native.String.append
use Prim.Native.String.{String}
use Prim.Native.Char.{Char, code}
use mathlib.Core.Path.{◌≡◌, refl, ap, ◌∙◌, sym}
use mathlib.Core.Bool.{true, false}
use mathlib.Core.Logic.{inl, inr}
use mathlib.Core.Option.{some}
use mathlib.Core.List.{List, ◌∷◌}
use native.Mathlib.Omega.{arith}
use text.Mathlib.TextEquality.{eq_iff}
use cc_core_server.Common.Tests.{eqb, ltb, leb, Bool-cases}
use cc_core_server.Common.Int.{ℤ, pos, negsuc}
use cc_core_server.Common.Text.{◌==◌, codes, digit, show_digits, show_int, ◌&◌}
use cc_core_server.Common.Outcome.{ok}
use cc_core_server.Common.Atoi.{digits_value, number_of, positive, negative, signed, atoi, IsInt}

one_char : (c : Char) (done : String) → codes (String.◌∷◌ c String.[] & done) ≡ code c ∷ codes done
one_char c done =
    ap codes (append.cons c String.[] done ∙ ap (λ s. String.◌∷◌ c s) (append.nil done))

codes-digit : (n : ℕ) (done : String) → n < 10 → codes (digit n & done) ≡ (48 + n) ∷ codes done
codes-digit zero done h = one_char "0" done
codes-digit (suc zero) done h = one_char "1" done
codes-digit (suc (suc zero)) done h = one_char "2" done
codes-digit (suc (suc (suc zero))) done h = one_char "3" done
codes-digit (suc (suc (suc (suc zero)))) done h = one_char "4" done
codes-digit (suc (suc (suc (suc (suc zero))))) done h = one_char "5" done
codes-digit (suc (suc (suc (suc (suc (suc zero)))))) done h = one_char "6" done
codes-digit (suc (suc (suc (suc (suc (suc (suc zero))))))) done h = one_char "7" done
codes-digit (suc (suc (suc (suc (suc (suc (suc (suc zero)))))))) done h = one_char "8" done
codes-digit (suc (suc (suc (suc (suc (suc (suc (suc (suc zero))))))))) done h = one_char "9" done
codes-digit (suc (suc (suc (suc (suc (suc (suc (suc (suc (suc n)))))))))) done h =
    absurd (omega arith)

read_digit :
    (k : ℕ) (cs : List ℕ) (a : ℕ)
    → k < 10
    → digits_value ((48 + k) ∷ cs) a ≡ digits_value cs (a * 10 + k)
unfolding digits_value
read_digit k cs a small =
    let low : leb 48 (48 + k) ≡ true = ground arith in
    let high : leb (48 + k) 57 ≡ true = ground arith in
    let value : a * 10 + (48 + k - 48) ≡ a * 10 + k = omega arith in
    rw (low, high) (ap (digits_value cs) value)

-- One digit, read before the digits that follow it.
digits_value-digit :
    (k : ℕ) (done : String) (a : ℕ)
    → k < 10
    → digits_value (codes (digit k & done)) a ≡ digits_value (codes done) (a * 10 + k)
digits_value-digit k done a small =
    ap (λ cs. digits_value cs a) (codes-digit k done small) ∙ read_digit k (codes done) a small

first_digit :
    (k : ℕ) (done : String)
    → k < 10
    → digits_value (codes (digit k & done)) 0 ≡ digits_value (codes done) k
first_digit k done small =
    digits_value-digit k done 0 small ∙ ap (digits_value (codes done)) (omega arith)

tenth : (f n : ℕ) → n < 10 ^ suc (suc f) → n / 10 < 10 ^ suc f
tenth f n h = let e : 10 ^ suc (suc f) ≡ 10 ^ suc f * 10 = pow.suc 10 (suc f) in omega (arith, e, h)

-- Printed digits, read before those that follow them.
digits_value-show_digits :
    (fuel n : ℕ) (done : String)
    → n < 10 ^ suc fuel
    → digits_value (codes (show_digits (suc fuel) n done)) 0 ≡ digits_value (codes done) n
unfolding show_digits
digits_value-show_digits zero n done h =
    let small : ltb n 10 ≡ true = ground arith in rw small (first_digit n done (ground arith))
digits_value-show_digits (suc f) n done h = elim (Bool-cases (ltb n 10)) [
  | inl small ↦ rw small (first_digit n done (ground arith))
  | inr large ↦ rw large (
      digits_value-show_digits f (n / 10) (digit (n % 10) & done) (tenth f n h)
      ∙ digits_value-digit (n % 10) done (n / 10) (omega arith)
      ∙ ap (digits_value (codes done)) (omega arith))
]

-- A code of a digit comes first.
abbrev StartsWithDigit : List ℕ → Type 0
StartsWithDigit cs = (k : ℕ) × (rest : List ℕ) × (cs ≡ (48 + k) ∷ rest) × (k < 10)

show_digits-StartsWithDigit :
    (fuel n : ℕ) (done : String)
    → n < 10 ^ suc fuel
    → StartsWithDigit (codes (show_digits (suc fuel) n done))
unfolding show_digits
show_digits-StartsWithDigit zero n done h =
    let small : ltb n 10 ≡ true = ground arith in
    rw small (n, codes done, codes-digit n done (ground arith), ground arith)
show_digits-StartsWithDigit (suc f) n done h = elim (Bool-cases (ltb n 10)) [
  | inl small ↦ rw small (n, codes done, codes-digit n done (ground arith), ground arith)
  | inr large ↦
      rw large (show_digits-StartsWithDigit f (n / 10) (digit (n % 10) & done) (tenth f n h))
]

-- The digits of a number are a number, and no sign.
signed-digits :
    (s : String) (cs : List ℕ) → StartsWithDigit cs → signed s cs ≡ positive s (digits_value cs 0)
unfolding signed number_of
signed-digits s cs (k, rest, e, small) =
    let minus : eqb (48 + k) 45 ≡ false = ground arith in
    let plus : eqb (48 + k) 43 ≡ false = ground arith in rw e (rw (minus, plus) refl)

number_of-digits : (cs : List ℕ) → StartsWithDigit cs → number_of cs ≡ digits_value cs 0
unfolding number_of
number_of-digits cs (k, rest, e, small) = rw e refl

signed-minus : (s d : String) → signed s (codes ("-" & d)) ≡ negative s (number_of (codes d))
unfolding signed
signed-minus s d = ap (signed s) (one_char "-" d)

-- An int has at most 20 digits, and they are read back as it.
pub atoi-show_int : (z : ℤ) → IsInt z → atoi (show_int z) ≡ ok z
unfolding atoi show_int signed positive negative digits_value
atoi-show_int (pos n) h =
    let fits : n < 10 ^ 20 = omega (arith, h) in
    let small : ltb n (2 ^ 63) ≡ true = ground arith in
    signed-digits _ _ (show_digits-StartsWithDigit 19 n "" fits)
    ∙ ap (positive _) (digits_value-show_digits 19 n "" fits)
    ∙ rw small refl
atoi-show_int (negsuc n) h =
    let fits : n + 1 < 10 ^ 20 = omega (arith, h) in
    let small : ltb n (2 ^ 63) ≡ true = ground arith in
    let digits = show_digits 20 (n + 1) "" in
    signed-minus ("-" & digits) digits
    ∙ ap (negative ("-" & digits)) (
        number_of-digits (codes digits) (show_digits-StartsWithDigit 19 (n + 1) "" fits)
        ∙ digits_value-show_digits 19 (n + 1) "" fits
        ∙ ap some {y = suc n} (omega arith))
    ∙ rw small refl

no_int : {z : ℤ} → ok z ≡ atoi "" → ⊥
unfolding atoi signed
no_int h = absurd (cc)

-- An int is printed as a text that is not empty.
pub show_int_given : (z : ℤ) → IsInt z → (show_int z == "") ≡ false
show_int_given z h = elim (Bool-cases (show_int z == "")) [
  | inl empty ↦ absurd (nothing (ground (arith, eq_iff (show_int z) "")))
  | inr given ↦ given
]
  where
    nothing : show_int z ≡ "" → ⊥
    nothing e = no_int (sym (atoi-show_int z h) ∙ ap atoi e)
