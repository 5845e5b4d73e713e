-- ===== src/Server/Listing/Order.antt =====
-- The orders that the streams are sorted by, and what sorting keeps.
use mathlib.Core.Logic.{∥∥₁_elim}
use mathlib.Core.Path.{subst}
use mathlib.Core.Option.{some-injective}
use mathlib.Core.List.{Perm, Permᴰ}
use mathlib.Core.List.Perm
use native.Mathlib.Nat.{ℕ_set}
use cc_core_server.Common.{
  suc, String, List, ◌≡◌, refl, ap, sym, ◌∙◌, length, arith, ltb, if◌then◌else◌, true, false, Bool,
  Option, none, some, Bool-cases, inl, inr,
}
use cc_core_server.Common.Text.{◌==◌, text_lt, lex_lt_asymm, lex_le_trans, codes}
use cc_core_server.Service.{StreamInfo}
use cc_core_server.Server.Listing.{
  IsOrdering, IsSorted, SortSlice, directed, sort_fn, filter_streams,
}

length-permᴰ : {A : Type 0} {xs ys : List A} → Permᴰ xs ys → length xs ≡ length ys
length-permᴰ Permᴰ.nil = refl
length-permᴰ (Permᴰ.cons e p) = ap suc (length-permᴰ p)
length-permᴰ (Permᴰ.swap e d) = refl
length-permᴰ (Permᴰ.trans p q) = length-permᴰ p ∙ length-permᴰ q

pub length-perm : {A : Type 0} {xs ys : List A} → Perm xs ys → length xs ≡ length ys
length-perm p = ∥∥₁_elim p (ℕ_set _ _) length-permᴰ

text_lt-IsOrdering : IsOrdering text_lt
unfolding text_lt
text_lt-IsOrdering = record {
  asymm = λ a b. lex_lt_asymm (codes a) (codes b);
  le_trans = λ a b c. lex_le_trans (codes a) (codes b) (codes c);
}

ltb-IsOrdering : IsOrdering ltb
ltb-IsOrdering = record { asymm = λ a b h. ground arith; le_trans = λ a b c h k. ground arith }

-- An order on a key, in either direction.
directed-IsOrdering :
    {A K : Type 0} (lt : K → K → Bool) (key : A → K) (order : String)
    → IsOrdering lt
    → IsOrdering (directed (λ a b. lt (key a) (key b)) order)
directed-IsOrdering lt key order o = elim (Bool-cases (order == "asc")) [
  | inl up ↦ record {
    asymm = λ a b. rw up (o.asymm (key a) (key b));
    le_trans = λ a b c. rw up (o.le_trans (key a) (key b) (key c));
  }
  | inr down ↦ record {
    asymm = λ a b. rw down (o.asymm (key b) (key a));
    le_trans =
        λ a b c h k. rw down (o.le_trans (key c) (key b) (key a) (rw down at k) (rw down at h));
  }
]

pub filter_streams-perm :
    (sorting : SortSlice StreamInfo) (streams : List StreamInfo) (sort_by order : String)
    → Perm (filter_streams sorting streams sort_by order) streams
unfolding filter_streams
filter_streams-perm sorting streams sort_by order = go (sort_fn sort_by order)
  where
    go :
        (o : Option (StreamInfo → StreamInfo → Bool))
        → Perm (elim o [ none ↦ streams | some less ↦ sorting.sort less streams ]) streams
    go none = Perm.refl streams
    go (some less) = sorting.perm less streams

record Orders (o : Option (StreamInfo → StreamInfo → Bool)) : Type 0 where
  at : (less : StreamInfo → StreamInfo → Bool) → o ≡ some less → IsOrdering less

Orders-none : Orders none
Orders-none = record { at = λ less h. absurd (none-ne-some less h) }
  where
    none-ne-some : (less : StreamInfo → StreamInfo → Bool) → ¬ (none ≡ some less)
    none-ne-some less h = cc

Orders-some : {less : StreamInfo → StreamInfo → Bool} → IsOrdering less → Orders (some less)
Orders-some {less} o = record { at = λ l h. subst IsOrdering (some-injective less l h) o }

Orders-if :
    (b : Bool) {o p : Option (StreamInfo → StreamInfo → Bool)}
    → Orders o
    → Orders p
    → Orders (if b then o else p)
Orders-if true h k = h
Orders-if false h k = k

text_key :
    (key : StreamInfo → String) (order : String)
    → Orders (some (directed (λ a b. text_lt (key a) (key b)) order))
text_key key order = Orders-some (directed-IsOrdering text_lt key order text_lt-IsOrdering)

sort_fn-Orders : (sort_by order : String) → Orders (sort_fn sort_by order)
sort_fn-Orders sort_by order = Orders-if _ (text_key (λ a. a.uuid) order) (
    Orders-if _ (text_key (λ a. a.name) order) (
      Orders-if _ (text_key (λ a. a.launch_mode) order) (
        Orders-if _
          (Orders-some
            (directed-IsOrdering ltb (λ (a : StreamInfo). a.started_at) order ltb-IsOrdering))
          (Orders-if _ (text_key (λ a. a.status) order) Orders-none))))

filter_streams-sort_fn :
    (sorting : SortSlice StreamInfo) (streams : List StreamInfo) (sort_by order : String)
    (less : StreamInfo → StreamInfo → Bool)
    → sort_fn sort_by order ≡ some less
    → IsSorted less (filter_streams sorting streams sort_by order)
unfolding filter_streams
filter_streams-sort_fn sorting streams sort_by order less h =
    subst (λ o. IsSorted less (elim o [ none ↦ streams | some l ↦ sorting.sort l streams ])) (sym h)
      (sorting.sorted less streams ((sort_fn-Orders sort_by order).at less h))

-- What streams can be sorted by, and in which direction, with the words for them.
pub data SortKey : Type 0 where
  by_uuid by_name by_mode by_started by_status : SortKey

pub data Direction : Type 0 where
  ascending descending : Direction

abbrev pub field_of : SortKey → String
field_of by_uuid = "uuid"
field_of by_name = "name"
field_of by_mode = "mode"
field_of by_started = "started"
field_of by_status = "status"

abbrev pub order_of : Direction → String
order_of ascending = "asc"
order_of descending = "desc"

-- Texts by their bytes, times by the clock.
abbrev pub comes_before : SortKey → StreamInfo → StreamInfo → Bool
comes_before by_uuid a b = text_lt a.uuid b.uuid
comes_before by_name a b = text_lt a.name b.name
comes_before by_mode a b = text_lt a.launch_mode b.launch_mode
comes_before by_started a b = ltb a.started_at b.started_at
comes_before by_status a b = text_lt a.status b.status

abbrev pub turned : Direction → (StreamInfo → StreamInfo → Bool) → StreamInfo → StreamInfo → Bool
turned ascending lt a b = lt a b
turned descending lt a b = lt b a

sort_fn-known :
    (k : SortKey) (dir : Direction)
    → sort_fn (field_of k) (order_of dir) ≡ some (turned dir (comes_before k))
sort_fn-known by_uuid ascending = refl
sort_fn-known by_uuid descending = refl
sort_fn-known by_name ascending = refl
sort_fn-known by_name descending = refl
sort_fn-known by_mode ascending = refl
sort_fn-known by_mode descending = refl
sort_fn-known by_started ascending = refl
sort_fn-known by_started descending = refl
sort_fn-known by_status ascending = refl
sort_fn-known by_status descending = refl

-- Sorting by the word for a key and for a direction keeps the streams and puts them in order: none
-- comes before an earlier one by this key, upwards for asc and downwards for desc.
pub filter_streams-IsSorted :
    (sorting : SortSlice StreamInfo) (streams : List StreamInfo) (k : SortKey) (dir : Direction)
    → IsSorted
        (turned dir (comes_before k))
        (filter_streams sorting streams (field_of k) (order_of dir))
      × Perm (filter_streams sorting streams (field_of k) (order_of dir)) streams
filter_streams-IsSorted sorting streams k dir = (
  filter_streams-sort_fn sorting streams (field_of k) (order_of dir) (turned dir (comes_before k))
      (sort_fn-known k dir),
  filter_streams-perm sorting streams (field_of k) (order_of dir),
)
