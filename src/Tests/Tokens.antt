-- ===== src/Tests/Tokens.antt =====
-- Tokens for four sets of claims.
use cc_core_server.Common.{
  ℕ, ◌+◌, String, Bool, true, false, ◌&&◌, Option, none, some, List, [], ◌∷◌, All, GoError, plain,
  Result, ok, err, if◌then◌else◌, ◌≡◌, ◌∙◌, refl, ap, sym, not, eqb, arith, eq_iff,
}
use cc_core_server.Common.Int.{ℤ, pos, negsuc}
use cc_core_server.Common.Text.{◌==◌}
use cc_core_server.Common.SyncMap
use cc_core_server.Launch.{is_zero}
use cc_core_server.Server.{
  ClaimValue, text_claim, bool_claim, number_claim, other_claim, MapClaims, StandardClaims,
}
use cc_core_server.Server.Records.{stream_claims}
use cc_core_server.Tests.Db.{ok-injective}

abbrev is_same_int : ℤ → ℤ → Bool
is_same_int (pos m) (pos n) = eqb m n
is_same_int (pos m) (negsuc n) = false
is_same_int (negsuc m) (pos n) = false
is_same_int (negsuc m) (negsuc n) = eqb m n

is_same_int-eq : (m n : ℤ) → is_same_int m n ≡ true → m ≡ n
is_same_int-eq (pos m) (pos n) h = ground arith
is_same_int-eq (pos m) (negsuc n) h = cc
is_same_int-eq (negsuc m) (pos n) h = cc
is_same_int-eq (negsuc m) (negsuc n) h = ground arith

-- Two claims are the same, and two lists of claims are.
abbrev pub is_same_claim : ClaimValue → ClaimValue → Bool
is_same_claim (text_claim s) (text_claim t) = s == t
is_same_claim (bool_claim true) (bool_claim b) = b
is_same_claim (bool_claim false) (bool_claim b) = not b
is_same_claim (number_claim m) (number_claim n) = is_same_int m n
is_same_claim c d = false

abbrev pub are_same_claims : MapClaims → MapClaims → Bool
are_same_claims [] [] = true
are_same_claims [] (d ∷ ds) = false
are_same_claims (c ∷ cs) [] = false
are_same_claims (c ∷ cs) (d ∷ ds) =
    let rest = are_same_claims cs ds in (c.0 == d.0 && is_same_claim c.1 d.1) && rest

is_same_claim-eq : (c d : ClaimValue) → is_same_claim c d ≡ true → c ≡ d
is_same_claim-eq (text_claim s) (text_claim t) h = ground (arith, eq_iff s t)
is_same_claim-eq (text_claim s) (bool_claim b) h = cc
is_same_claim-eq (text_claim s) (number_claim n) h = cc
is_same_claim-eq (text_claim s) other_claim h = cc
is_same_claim-eq (bool_claim true) (bool_claim true) h = refl
is_same_claim-eq (bool_claim true) (bool_claim false) h = cc
is_same_claim-eq (bool_claim false) (bool_claim true) h = cc
is_same_claim-eq (bool_claim false) (bool_claim false) h = refl
is_same_claim-eq (bool_claim true) (text_claim t) h = cc
is_same_claim-eq (bool_claim true) (number_claim n) h = cc
is_same_claim-eq (bool_claim true) other_claim h = cc
is_same_claim-eq (bool_claim false) (text_claim t) h = cc
is_same_claim-eq (bool_claim false) (number_claim n) h = cc
is_same_claim-eq (bool_claim false) other_claim h = cc
is_same_claim-eq (number_claim m) (number_claim n) h = ap number_claim (is_same_int-eq m n h)
is_same_claim-eq (number_claim m) (text_claim t) h = cc
is_same_claim-eq (number_claim m) (bool_claim b) h = cc
is_same_claim-eq (number_claim m) other_claim h = cc
is_same_claim-eq other_claim d h = cc

pub are_same_claims-eq : (cs ds : MapClaims) → are_same_claims cs ds ≡ true → cs ≡ ds
are_same_claims-eq [] [] h = refl
are_same_claims-eq [] (d ∷ ds) h = cc
are_same_claims-eq (c ∷ cs) [] h = cc
are_same_claims-eq ((i, c) ∷ cs) ((j, d) ∷ ds) h =
    ground (arith, eq_iff i j, is_same_claim-eq c d, are_same_claims-eq cs ds)

abbrev pub host_claims : MapClaims
host_claims = stream_claims "s1" "h1" true

abbrev pub guest_claims : MapClaims
guest_claims = stream_claims "s1" "p1" false

abbrev text_if_given : String → String → MapClaims → MapClaims
text_if_given key v c = if v == "" then c else (key, text_claim v) ∷ c

abbrev number_if_given : String → ℤ → MapClaims → MapClaims
number_if_given key n c = if is_zero n then c else (key, number_claim n) ∷ c

abbrev pub sample_to_claims : StandardClaims → MapClaims
sample_to_claims c = text_if_given "aud" c.audience (
    number_if_given "exp" c.expires_at (
      number_if_given "iat" c.issued_at (
        text_if_given "iss" c.issuer
          (number_if_given "nbf" c.not_before (text_if_given "sub" c.subject [])))))

-- Nothing has expired but what expires before 1970.
abbrev current_if : Option ClaimValue → Bool
current_if (some (number_claim (negsuc n))) = false
current_if _ = true

abbrev pub sample_is_current : MapClaims → Bool
sample_is_current c = current_if (SyncMap.load "exp" c)

abbrev pub admin : StandardClaims
admin = record {
  audience = "";
  expires_at = pos 0;
  issued_at = pos 0;
  issuer = "";
  not_before = pos 0;
  subject = "administrator";
}

abbrev pub late_admin : StandardClaims
late_admin = record admin { expires_at = negsuc 62135596799 }

-- Keys, each with its public half 100 above it, and what they sign.
record Token : Type 0 where
  key : ℕ
  claims : MapClaims
  text : String

abbrev tokens : List Token
tokens =
    record { key = 7; claims = host_claims; text = "host-token" }
    ∷ record { key = 7; claims = guest_claims; text = "guest-token" }
    ∷ record { key = 9; claims = sample_to_claims admin; text = "server-token" }
    ∷ record { key = 9; claims = sample_to_claims late_admin; text = "late-token" }
    ∷ []

abbrev sign_from : List Token → ℕ → MapClaims → Result String
sign_from [] k c = err (plain "cannot sign")
sign_from (r ∷ rs) k c =
    let rest = sign_from rs k c in
    if eqb r.key k && are_same_claims r.claims c then ok r.text else rest

abbrev parse_from : List Token → ℕ → String → Result MapClaims
parse_from [] k t = err (plain "invalid token")
parse_from (r ∷ rs) k t =
    let rest = parse_from rs k t in
    if eqb (r.key + 100) k && r.text == t
    then if sample_is_current r.claims then ok r.claims else err (plain "Token is expired")
    else rest

abbrev pub sample_sign : ℕ → MapClaims → Result String
sample_sign k c = sign_from tokens k c

abbrev pub sample_parse : ℕ → String → Result MapClaims
sample_parse k t = parse_from tokens k t

abbrev answer_for : MapClaims → Result MapClaims
answer_for c = if sample_is_current c then ok c else err (plain "Token is expired")

abbrev IsAccepted : Token → Type 0
IsAccepted r = sample_parse (r.key + 100) r.text ≡ answer_for r.claims

tokens-IsAccepted : All IsAccepted tokens
unfolding SyncMap.load
tokens-IsAccepted = (refl, (refl, (refl, (refl, tt))))

sign_from-answer :
    (rs : List Token) (k : ℕ) (c : MapClaims) (t : String)
    → All IsAccepted rs
    → sign_from rs k c ≡ ok t
    → sample_parse (k + 100) t ≡ answer_for c
sign_from-answer [] k c t a h = cc
sign_from-answer (r ∷ rs) k c t (first, others) h =
    row (eqb r.key k && are_same_claims r.claims c) refl (sign_from-answer rs k c t others) h
  where
    row :
        (b : Bool)
        → (eqb r.key k && are_same_claims r.claims c) ≡ b
        → (sign_from rs k c ≡ ok t → sample_parse (k + 100) t ≡ answer_for c)
        → (if b then ok r.text else sign_from rs k c) ≡ ok t
        → sample_parse (k + 100) t ≡ answer_for c
    row true e rest h' =
        let key : r.key ≡ k = ground arith in
        let same : r.claims ≡ c = are_same_claims-eq r.claims c (ground arith) in
        ap (λ u. sample_parse (k + 100) u) (sym (ok-injective h'))
        ∙ ap (λ n. sample_parse (n + 100) r.text) (sym key)
        ∙ first
        ∙ ap answer_for same
    row false e rest h' = rest h'

pub sample_parse-sign :
    (k : ℕ) (c : MapClaims) (t : String)
    → sample_sign k c ≡ ok t
    → sample_is_current c ≡ true
    → sample_parse (k + 100) t ≡ ok c
sample_parse-sign k c t h now = sign_from-answer tokens k c t tokens-IsAccepted h ∙ rw now refl

pub sample_parse_stale :
    (k : ℕ) (c : MapClaims) (t : String)
    → sample_sign k c ≡ ok t
    → sample_is_current c ≡ false
    → (e : GoError) × (sample_parse (k + 100) t ≡ err e)
sample_parse_stale k c t h late =
    (plain "Token is expired", sign_from-answer tokens k c t tokens-IsAccepted h ∙ rw late refl)

pub sample_is_current_untimed :
    (c : MapClaims)
    → SyncMap.load "exp" c ≡ none
    → SyncMap.load "iat" c ≡ none
    → SyncMap.load "nbf" c ≡ none
    → sample_is_current c ≡ true
sample_is_current_untimed c h i j = ap current_if h

pub sample_is_current_negative :
    (c : MapClaims) (n : ℕ)
    → SyncMap.load "exp" c ≡ some (number_claim (negsuc n))
    → sample_is_current c ≡ false
sample_is_current_negative c n h = ap current_if h

pub sample_to_claims-subject :
    (c : StandardClaims)
    → (c.subject == "") ≡ false
    → SyncMap.load "sub" (sample_to_claims c) ≡ some (text_claim c.subject)
unfolding SyncMap.load
sample_to_claims-subject c h = ground arith

pub sample_to_claims-expires_at :
    (c : StandardClaims)
    → is_zero c.expires_at ≡ false
    → SyncMap.load "exp" (sample_to_claims c) ≡ some (number_claim c.expires_at)
unfolding SyncMap.load
sample_to_claims-expires_at c h = ground arith
