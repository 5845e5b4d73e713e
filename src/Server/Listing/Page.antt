-- ===== src/Server/Listing/Page.antt =====
-- One page, as the list that it shows.
use cc_core_server.Common.{
  ℕ, zero, suc, ◌+◌, ◌-◌, ◌*◌, ◌^◌, ◌≤◌, ◌<◌, List, ◌≡◌, length, take, drop, take_all, drop_all,
  length-drop, returns, arith,
}
use cc_core_server.Common.Int.{pos, +ℤ-pos, -ℤ-pos, *ℤ-pos}
use cc_core_server.Server.Listing.{paginate, cut}

abbrev pub page_start : ℕ → ℕ → ℕ
page_start p n = (p - 1) * n

page_start-add : (p n : ℕ) → 1 ≤ p → page_start p n + n ≡ p * n
page_start-add zero n h = absurd (omega arith)
page_start-add (suc p) n h = grind arith

module _ {A : Type 0} (capacity : ℕ) (xs : List A) (room : length xs ≤ capacity) where
  -- The branches of the paging, at indices that did not wrap around.
  cut_lem :
      (start n : ℕ)
      → start + n < 2 ^ 63
      → cut capacity xs (pos start) (pos (start + n)) ≡ returns (take n (drop start xs))
  unfolding cut
  cut_lem start n h = ground (
    arith,
    length-drop start xs,
    take_all n (drop start xs),
    drop_all start xs,
    -ℤ-pos (start + n) start (omega arith) h,
  )

  pub paginate_lem :
      (p n : ℕ)
      → 1 ≤ p
      → p < 2 ^ 63
      → n < 2 ^ 63
      → p * n < 2 ^ 63
      → paginate capacity xs (pos p) (pos n) ≡ returns (take n (drop (page_start p n) xs))
  unfolding paginate
  paginate_lem p n h hp hn k =
      let e = page_start-add p n h in
      rw
        (
          -ℤ-pos p 1 h hp,
          *ℤ-pos (p - 1) n (omega arith) hn (omega (arith, e)),
          +ℤ-pos (page_start p n) n (omega (arith, e)),
        )
        (cut_lem (page_start p n) n (omega (arith, e)))
