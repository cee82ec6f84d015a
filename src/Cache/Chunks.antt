-- ===== src/Cache/Chunks.antt =====
-- `chunks` of src/utils/utils.ts keeps the items in order, and keeps to the size.
use marinade_tenderize_from.Prelude.{
  ℕ, zero, suc, ◌+◌, ◌-◌, ◌*◌, ◌≤◌, ◌≡◌, sym, ap, ◌∙◌, List, ◌++◌, arith, length, drop, flatten,
  All, take-drop, drop-drop, drop-nil, length-take_le,
}
use marinade_tenderize_from.Pool.Delegation.Shares.{le-ceil_div}
use marinade_tenderize_from.Cache.Multiple.{array_slice, chunks_from, chunks}

module _ {A : Type 0} (xs : List A) (size : ℕ) where
  -- A slice and what is behind it.
  slice_before :
      (index : ℕ)
      → array_slice xs (index * size) ((index + 1) * size) ++ drop ((index + 1) * size) xs
        ≡ drop (index * size) xs
  slice_before index =
      let width : (index + 1) * size - index * size ≡ size = omega arith in
      let further : (index + 1) * size ≡ index * size + size = omega arith in
      rw (width, further, ← (drop-drop size (index * size) xs))
        (take-drop size (drop (index * size) xs))

  chunks_from-flatten :
      (index rounds : ℕ)
      → length xs ≤ (index + rounds) * size
      → flatten (chunks_from xs size index rounds) ≡ drop (index * size) xs
  unfolding chunks_from
  chunks_from-flatten index zero h = sym (drop-nil (index * size) xs (omega (arith, h)))
  chunks_from-flatten index (suc rounds) h =
      ap (λ ys. array_slice xs (index * size) ((index + 1) * size) ++ ys)
        (chunks_from-flatten (index + 1) rounds (omega (arith, h)))
      ∙ slice_before index

  chunks_from-le :
      (index rounds : ℕ) → All (λ c. length c ≤ size) (chunks_from xs size index rounds)
  unfolding chunks_from
  chunks_from-le index zero = tt
  chunks_from-le index (suc rounds) =
      let width : (index + 1) * size - index * size ≡ size = omega arith in
      (rw width (length-take_le size (drop (index * size) xs)), chunks_from-le (index + 1) rounds)

  -- For a size that is not 0: the chunks hold the items, all and in order, and none is longer than
  -- the size.
  pub chunks-flatten :
      1 ≤ size → (flatten (chunks xs size) ≡ xs) × All (λ c. length c ≤ size) (chunks xs size)
  unfolding chunks
  chunks-flatten h =
      let enough = le-ceil_div (length xs) size h in
      let none_before : 0 * size ≡ 0 = omega arith in
      (
        chunks_from-flatten 0 _ (omega (arith, enough)) ∙ ap (λ n. drop n xs) none_before,
        chunks_from-le 0 _,
      )
