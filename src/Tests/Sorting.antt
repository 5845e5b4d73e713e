-- ===== src/Tests/Sorting.antt =====
-- Insertion sort, which does what the listing asks of sort.Slice.
use mathlib.Core.List.{Perm}
use mathlib.Core.List.Perm
use cc_core_server.Common.{
  Bool, false, List, [], ◌∷◌, if◌then◌else◌, ◌≡◌, All, Bool-cases, inl, inr,
}
use cc_core_server.Server.Listing.{IsOrdering, IsSorted, SortSlice}

module _ {A : Type 0} (less : A → A → Bool) where
  abbrev pub insert : A → List A → List A
  insert a [] = a ∷ []
  insert a (b ∷ xs) = let rest = insert a xs in if less b a then b ∷ rest else a ∷ b ∷ xs

  abbrev pub insertion_sort : List A → List A
  insertion_sort [] = []
  insertion_sort (a ∷ xs) = insert a (insertion_sort xs)

  insert-perm : (a : A) (xs : List A) → Perm (insert a xs) (a ∷ xs)
  insert-perm a [] = Perm.refl (a ∷ [])
  insert-perm a (b ∷ xs) = elim (Bool-cases (less b a)) [
    | inl h ↦ rw h (Perm.trans (Perm.cons b (insert-perm a xs)) (Perm.swap a b xs))
    | inr h ↦ rw h (Perm.refl (a ∷ b ∷ xs))
  ]

  pub insertion_sort-perm : (xs : List A) → Perm (insertion_sort xs) xs
  insertion_sort-perm [] = Perm.refl []
  insertion_sort-perm (a ∷ xs) =
      Perm.trans (insert-perm a (insertion_sort xs)) (Perm.cons a (insertion_sort-perm xs))

  insert-All : (P : A → Type 0) (a : A) (xs : List A) → P a → All P xs → All P (insert a xs)
  insert-All P a [] h k = (h, tt)
  insert-All P a (b ∷ xs) h k = elim (Bool-cases (less b a)) [
    | inl e ↦ rw e (k.0, insert-All P a xs h k.1)
    | inr e ↦ rw e (h, k)
  ]

  le_All :
      IsOrdering less
      → (a b : A) (xs : List A) → less b a ≡ false
      → All (λ c. less c b ≡ false) xs
      → All (λ c. less c a ≡ false) xs
  le_All o a b [] h k = tt
  le_All o a b (c ∷ xs) h k = (o.le_trans a b c h k.0, le_All o a b xs h k.1)

  insert-IsSorted :
      IsOrdering less → (a : A) (xs : List A) → IsSorted less xs → IsSorted less (insert a xs)
  insert-IsSorted o a [] k = (tt, tt)
  insert-IsSorted o a (b ∷ xs) k = elim (Bool-cases (less b a)) [
    | inl e ↦
        rw e
          (insert-All (λ c. less c b ≡ false) a xs (o.asymm b a e) k.0, insert-IsSorted o a xs k.1)
    | inr e ↦ rw e ((e, le_All o a b xs e k.0), k)
  ]

  pub insertion_sort-IsSorted : IsOrdering less → (xs : List A) → IsSorted less (insertion_sort xs)
  insertion_sort-IsSorted o [] = tt
  insertion_sort-IsSorted o (a ∷ xs) =
      insert-IsSorted o a (insertion_sort xs) (insertion_sort-IsSorted o xs)

abbrev pub insertion : {A : Type 0} → SortSlice A
insertion = record {
  sort = insertion_sort;
  perm = insertion_sort-perm;
  sorted = λ less xs o. insertion_sort-IsSorted less o xs;
}
