-- ===== src/Server/Listing/Pages.antt =====
-- All pages, one after the other.
use cc_core_server.Common.{
  ℕ, zero, suc, ◌+◌, ◌*◌, List, [], ◌∷◌, ◌++◌, ◌≡◌, refl, ap, sym, ◌∙◌, take, drop, take_all, arith,
}

module _ {A : Type 0} where
  take-add : (a b : ℕ) (xs : List A) → take (a + b) xs ≡ take a xs ++ take b (drop a xs)
  take-add zero b xs = ap (λ k. take k xs) (omega arith)
  take-add (suc a) b [] =
      ap (λ k. take k ([])) {x = suc a + b} {y = suc (a + b)} (omega arith)
      ∙ sym (take_all b [] (omega arith))
  take-add (suc a) b (x ∷ xs) =
      ap (λ k. take k (x ∷ xs)) {x = suc a + b} {y = suc (a + b)} (omega arith)
      ∙ ap (λ r. x ∷ r) (take-add a b xs)

  -- The first k pages of n elements each.
  pub pages : ℕ → ℕ → List A → List A
  pages zero n xs = []
  pages (suc k) n xs = pages k n xs ++ take n (drop (k * n) xs)

  pub pages-zero : (n : ℕ) (xs : List A) → pages 0 n xs ≡ []
  unfolding pages
  pages-zero n xs = refl

  pub pages-suc :
      (k n : ℕ) (xs : List A) → pages (suc k) n xs ≡ pages k n xs ++ take n (drop (k * n) xs)
  unfolding pages
  pages-suc k n xs = refl

  pub pages-eq-take : (k n : ℕ) (xs : List A) → pages k n xs ≡ take (k * n) xs
  unfolding pages
  pages-eq-take zero n xs = ap (λ m. take m xs) {x = 0} {y = 0 * n} (omega arith)
  pages-eq-take (suc k) n xs = rw (pages-eq-take k n xs) (
      sym (take-add (k * n) n xs)
      ∙ ap (λ m. take m xs) {x = k * n + n} {y = suc k * n} (grind arith))
