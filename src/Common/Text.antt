-- ===== src/Common/Text.antt =====
-- Texts: equality, the order of `<` on Go strings, and the pieces that `fmt.Sprintf` joins.
use Prim.Native.Nat.{ℕ, zero, suc, ◌+◌, ◌/◌, ◌%◌}
use mathlib.Core.Path.{◌≡◌, refl, ap}
use cc_core_server.Common.Tests.{eqb, ltb, if◌then◌else◌}
use cc_core_server.Common.Int.{ℤ, pos, negsuc}
use Prim.Native.String.append
use Prim.Native.String.{String, ◌++◌}
use Prim.Native.Char.{code}
use mathlib.Core.List.{List, [], ◌∷◌}
use mathlib.Core.Option.{Option, none, some}
use native.Mathlib.Omega.{arith}
use text.Mathlib.Text.{find?}
use mathlib.Core.Bool.{Bool, true, false}
pub use text.Mathlib.Text.{◌==◌}
pub use text.Mathlib.TextPositions.{eq_refl}
pub use text.Mathlib.TextLemmas.{append_cancel_left}

infixr 65 ◌&◌
abbrev pub ◌&◌ : String → String → String
s & t = s ++ t

abbrev pub digit : ℕ → String
digit n =
    if eqb n 0
    then "0"
    else if eqb n 1
    then "1"
    else if eqb n 2
    then "2"
    else if eqb n 3
    then "3"
    else if eqb n 4
    then "4"
    else if eqb n 5
    then "5"
    else if eqb n 6
    then "6"
    else if eqb n 7
    then "7"
    else if eqb n 8
    then "8"
    else "9"

-- The decimal digits of `n`, before `done`; a number of k digits needs k rounds of fuel.
unfoldable pub show_digits : ℕ → ℕ → String → String
show_digits zero n done = done
show_digits (suc fuel) n done =
    let more = show_digits fuel (n / 10) (digit (n % 10) & done) in
    if ltb n 10 then digit n & done else more

-- `%d` of an `int`: at most 19 digits.
unfoldable pub show_int : ℤ → String
unfolding show_digits
show_int (pos n) = show_digits 20 n ""
show_int (negsuc n) = "-" & show_digits 20 (n + 1) ""

show_int_tests : (show_int (pos 8080) ≡ "8080") × (show_int (negsuc 0) ≡ "-1")
unfolding show_int
show_int_tests = (refl, refl)

-- The code points of a text.
abbrev pub codes : String → List ℕ
codes String.[] = []
codes (String.◌∷◌ c s) = code c ∷ codes s

unfoldable pub lex_lt : List ℕ → List ℕ → Bool
lex_lt s [] = false
lex_lt [] (b ∷ t) = true
lex_lt (a ∷ s) (b ∷ t) =
    let rest = lex_lt s t in if ltb a b then true else if ltb b a then false else rest

-- `s < t`: Go compares strings byte by byte, and UTF-8 keeps the order of the code points.
unfoldable pub text_lt : String → String → Bool
unfolding lex_lt
text_lt s t = lex_lt (codes s) (codes t)

pub lex_lt_asymm : (s t : List ℕ) → lex_lt s t ≡ true → lex_lt t s ≡ false
unfolding lex_lt
lex_lt_asymm s [] h = cc
lex_lt_asymm [] (b ∷ t) h = refl
lex_lt_asymm (a ∷ s) (b ∷ t) h = ground (arith, lex_lt_asymm s t)

lex_ge_nil : (u : List ℕ) → lex_lt u [] ≡ false
unfolding lex_lt
lex_ge_nil [] = refl
lex_ge_nil (c ∷ u) = refl

pub lex_le_trans : (s t u : List ℕ) → lex_lt t s ≡ false → lex_lt u t ≡ false → lex_lt u s ≡ false
unfolding lex_lt
lex_le_trans [] t u h k = lex_ge_nil u
lex_le_trans (a ∷ s) [] u h k = cc
lex_le_trans (a ∷ s) (b ∷ t) [] h k = cc
lex_le_trans (a ∷ s) (b ∷ t) (c ∷ u) h k = ground (arith, lex_le_trans s t u)

-- `strings.Contains`.
unfoldable pub contains : String → String → Bool
contains s t = elim (find? s t) [ none ↦ false | some i ↦ true ]

-- What follows a prefix of a text, if it has it.
strip_prefix : String → String → Option String
strip_prefix String.[] t = some t
strip_prefix (String.◌∷◌ c p) String.[] = none
strip_prefix (String.◌∷◌ c p) (String.◌∷◌ d t) =
    let rest = strip_prefix p t in if eqb (code c) (code d) then rest else none

-- `strings.TrimPrefix`.
unfoldable pub trim_prefix : String → String → String
unfolding strip_prefix
trim_prefix t prefix = elim (strip_prefix prefix t) [ none ↦ t | some rest ↦ rest ]

strip_prefix-append : (p t : String) → strip_prefix p (p & t) ≡ some t
unfolding strip_prefix
strip_prefix-append String.[] t = ap some (append.nil t)
strip_prefix-append (String.◌∷◌ c p) t =
    rw (append.cons c p t) (ground (arith, strip_prefix-append p t))

-- A prefix that was put before a text is trimmed off it.
pub trim_prefix-append : (p t : String) → trim_prefix (p & t) p ≡ t
unfolding trim_prefix
trim_prefix-append p t = rw (trim_prefix, strip_prefix-append p t) refl
