-- ===== src/Api/Requests.antt =====
-- What a request that is accepted says, and how it is answered.
use cc_core_server.Common.{
  ℕ, zero, suc, ◌^◌, ◌≤◌, ◌<◌, String, Bool, true, false, List, [], ◌∷◌, any, GoError, Result, ok,
  err, >>=-eq-ok, wrap_err, if◌then◌else◌, ◌≡◌, refl, arith, Bool-cases, inl, inr,
}
use mathlib.Core.Path.{subst}
use cc_core_server.Common.Int.{ℤ, pos, negsuc, ltb_ℤ}
use cc_core_server.Common.Text.{◌==◌}
use cc_core_server.Common.SyncMap
use cc_core_server.Common.Atoi.{atoi, IsInt, atoi-IsInt}
use cc_core_server.Storage.Laws.{wrap_err-eq-ok}
use cc_core_server.Launch.{is_zero, or_default}
use cc_core_server.Checks.{Validation, parsed, validate_request}
use cc_core_server.Api.{
  Values, first_of, StreamListRequest, unless_zero, int_param, build, field_checks,
  sort_fields_allowed, sort_orders_allowed, errors_or, validate, built, parse_url_request,
}

-- A request whose fields can be listed by.
pub record IsListRequest (req : StreamListRequest) : Type 0 where
  pub page : ℕ
  pub size : ℕ
  pub at_page : req.page ≡ pos page
  pub of_size : req.page_size ≡ pos size
  pub first_page : 1 ≤ page
  pub some_size : 1 ≤ size
  pub page_fits : page < 2 ^ 63
  pub size_fits : size < 2 ^ 63
  pub by_field : any (λ w. w == req.sort_by) sort_fields_allowed ≡ true
  pub in_order : any (λ w. w == req.sort_order) sort_orders_allowed ≡ true

-- A number that is an int, not 0 and not below 1.
abbrev pub AtLeastOne : ℤ → Type 0
AtLeastOne z = (n : ℕ) × (z ≡ pos n) × (1 ≤ n) × (n < 2 ^ 63)

at_least_one : (z : ℤ) → IsInt z → is_zero z ≡ false → ltb_ℤ z (pos 1) ≡ false → AtLeastOne z
at_least_one (pos zero) i e h = absurd (cc)
at_least_one (pos (suc n)) i e h = (suc n, refl, omega arith, i)
at_least_one (negsuc n) i e h = absurd (ground arith)

pos_zero : {z : ℤ} → ok (pos 0) ≡ ok z → pos 0 ≡ z
pos_zero h = cc

int_param-IsInt : (message s : String) (z : ℤ) → int_param message s ≡ ok z → IsInt z
int_param-IsInt message s z h = go (s == "") h
  where
    go : (b : Bool) → (if b then ok (pos 0) else wrap_err message (atoi s)) ≡ ok z → IsInt z
    go true h' = subst IsInt (pos_zero h') (omega arith)
    go false h' = atoi-IsInt s z (wrap_err-eq-ok message (atoi s) h')

unless_zero-IsInt :
    (fallback z : ℤ)
    → IsInt fallback
    → is_zero fallback ≡ false
    → IsInt z
    → IsInt (unless_zero fallback z) × (is_zero (unless_zero fallback z) ≡ false)
unless_zero-IsInt fallback z i e j = elim (Bool-cases (is_zero z)) [
  | inl h ↦ rw h (i, e)
  | inr h ↦ rw h (j, h)
]

or_default-nonempty :
    (s fallback : String) → (fallback == "") ≡ false → (or_default s fallback == "") ≡ false
or_default-nonempty s fallback h = ground arith

pub pos-injective : {m n : ℕ} → pos m ≡ pos n → m ≡ n
pos-injective h = cc

request_of : {a b : StreamListRequest} → ok a ≡ ok b → a ≡ b
request_of h = cc

parsed_of : {a b : StreamListRequest} → parsed a ≡ parsed b → a ≡ b
parsed_of h = cc

-- What `Build` guarantees.
record IsBuilt (req : StreamListRequest) : Type 0 where
  page_int : IsInt req.page × (is_zero req.page ≡ false)
  size_int : IsInt req.page_size × (is_zero req.page_size ≡ false)
  field_given : (req.sort_by == "") ≡ false
  order_given : (req.sort_order == "") ≡ false

build-IsBuilt : (values : Values) (req : StreamListRequest) → build values ≡ ok req → IsBuilt req
unfolding build
build-IsBuilt values req h =
    let (size, hs, h') =
      >>=-eq-ok
        (int_param "could not parse pageSize param" (first_of (SyncMap.load "pageSize" values))) _
        h in
    let (number, hn, h'') =
      >>=-eq-ok (int_param "could not parse page param" (first_of (SyncMap.load "page" values))) _
        h' in
    subst IsBuilt (request_of h'') (record {
      page_int =
          unless_zero-IsInt (pos 1) number (omega arith) refl (int_param-IsInt _ _ number hn);
      size_int = unless_zero-IsInt (pos 10) size (omega arith) refl (int_param-IsInt _ _ size hs);
      field_given = or_default-nonempty (first_of (SyncMap.load "sortBy" values)) "uuid" refl;
      order_given = or_default-nonempty (first_of (SyncMap.load "sortOrder" values)) "asc" refl;
    })

errors_or-nil : (es rest : List (String × GoError)) → errors_or es rest ≡ [] → rest ≡ []
errors_or-nil [] rest h = h
errors_or-nil (e ∷ es) rest h = absurd (cc)

validate-nil :
    (v : Validation) (req : StreamListRequest)
    → validate v req ≡ []
    → v.filter (field_checks v req) ≡ []
unfolding validate
validate-nil v req h = errors_or-nil _ _ (errors_or-nil _ _ h)

checked-IsListRequest :
    (v : Validation) (req : StreamListRequest)
    → IsBuilt req
    → v.filter (field_checks v req) ≡ []
    → IsListRequest req
checked-IsListRequest v req b h =
    let (by_field, (in_order, (size_min, (page_min, u)))) = v.filter-ok (field_checks v req) h in
    let (page, at_page, first_page, page_fits) =
      at_least_one req.page b.page_int.0 b.page_int.1
        (v.min-ok (pos 1) req.page page_min b.page_int.1) in
    let (size, of_size, some_size, size_fits) =
      at_least_one req.page_size b.size_int.0 b.size_int.1
        (v.min-ok (pos 1) req.page_size size_min b.size_int.1) in
    record {
      page = page;
      size = size;
      at_page = at_page;
      of_size = of_size;
      first_page = first_page;
      some_size = some_size;
      page_fits = page_fits;
      size_fits = size_fits;
      by_field = v.one_of-ok sort_fields_allowed req.sort_by by_field b.field_given;
      in_order = v.one_of-ok sort_orders_allowed req.sort_order in_order b.order_given;
    }

validate_request-parsed :
    (v : Validation) (req req' : StreamListRequest) (es : List (String × GoError))
    → validate_request req es ≡ parsed req'
    → (es ≡ []) × (req ≡ req')
unfolding validate_request
validate_request-parsed v req req' [] h = (refl, parsed_of h)
validate_request-parsed v req req' (e ∷ es) h = absurd (cc)

-- A query that is accepted asks for a page and a size that are ints of at least 1, by one of the
-- five fields and in one of the two orders.
pub parse_url_request-IsListRequest :
    (v : Validation) (values : Values) (req : StreamListRequest)
    → parse_url_request v values ≡ parsed req
    → IsListRequest req
unfolding parse_url_request built
parse_url_request-IsListRequest v values req h = go (build values) refl h
  where
    go :
        (o : Result StreamListRequest)
        → build values ≡ o
        → built v o ≡ parsed req
        → IsListRequest req
    go (err e) hb h' = absurd (cc)
    go (ok req') hb h' =
        let (no_errors, same) = validate_request-parsed v req' req (validate v req') h' in
        subst IsListRequest same (
          checked-IsListRequest v req' (build-IsBuilt values req' hb)
            (validate-nil v req' no_errors))
