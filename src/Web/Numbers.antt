-- ===== src/Web/Numbers.antt =====
-- Numbers that the layouts of src/utils/layout.ts write and read again.
use marinade_tenderize_from.Prelude.{
  ℕ, zero, suc, ◌+◌, ◌-◌, ◌^◌, ◌≡◌, ◌<◌, ◌≤◌, refl, sym, ap, ◌∙◌, inl, inr, List, [], ◌++◌, arith,
  length, take, drop, replicate, All, All-append, length-append, length-take, length-drop,
  take-append, drop-append, drop-drop, Bool-cases, ◌==◌,
}
use marinade_tenderize_from.Effect.{Result, ok}
use marinade_tenderize_from.Buffer.{Buffer, ◌>>=◌, slice, copy, overwrite, of_le}
use marinade_tenderize_from.Buffer.Writes.{copy-filled, take_all}
use marinade_tenderize_from.Web.Layout.{
  Libraries, LibraryLaws, reversed, padded, uint64_encode, uint128_encode,
}
use marinade_tenderize_from.Web.RoundTrip.{padded_lem}
use marinade_tenderize_from.Web.Decode.{
  Decoders, DecoderLaws, value, joined, uint64_decode, uint128_decode,
}
use marinade_tenderize_from.Web.Hex.{IsByte, joined_lem}

All-zeros : (n : ℕ) → All IsByte (replicate n 0)
All-zeros zero = tt
All-zeros (suc n) = (omega arith, All-zeros n)

padded-IsByte :
    (size : ℕ) (bs : List ℕ) → length bs ≤ size → All IsByte bs → All IsByte (padded size bs)
unfolding padded
padded-IsByte size bs h bytes = elim (Bool-cases (length bs == size)) [
  | inl e ↦ rw e bytes
  | inr e ↦
      rw (e, copy-filled bs [] 0 size (size - length bs) refl (omega arith))
        (All-append IsByte bs _ bytes (All-zeros (size - length bs)))
]

-- `d'` is `d` but for the bytes from `p` on, which are `bs`.
abbrev pub IsPatched : List ℕ → ℕ → Buffer → Buffer → Type 0
IsPatched bs p d d' =
    (length d' ≡ length d)
    × (slice d' p (p + length bs) ≡ bs)
    × (take p d' ≡ take p d)
    × (drop (p + length bs) d' ≡ drop (p + length bs) d)

-- what stands in front of the bytes, and behind that
front_lem :
    (p : ℕ) (xs ys : List ℕ) → length xs ≡ p → (take p (xs ++ ys) ≡ xs) × (drop p (xs ++ ys) ≡ ys)
front_lem p xs ys e = rw (sym e) (take-append xs ys, drop-append xs ys)

copy-IsPatched :
    (bs : List ℕ) (d : Buffer) (p : ℕ) → p + length bs ≤ length d → IsPatched bs p d (copy bs d p).1
unfolding copy overwrite
copy-IsPatched bs d p h =
    let whole : take (length d - p) bs ≡ bs = take_all _ bs (omega (arith, h)) in
    let rest : List ℕ = drop (p + length bs) d in
    let front : length (take p d) ≡ p = length-take p d (omega (arith, h)) in
    let (before, behind) = front_lem p (take p d) (bs ++ rest) front in
    let width : p + length bs - p ≡ length bs = omega arith in
    rw whole (
      omega (
        arith,
        h,
        front,
        length-append (take p d) (bs ++ rest),
        length-append bs rest,
        length-drop (p + length bs) d,
      ),
      rw (behind, width) (take-append bs rest),
      before,
      sym (drop-drop (length bs) p _) ∙ (rw behind (drop-append bs rest)),
    )

module _ {l : Libraries} {K : Type 0} (laws : LibraryLaws l) (r : Decoders l K)
    (read : DecoderLaws r) where
  -- A number is written into these bytes, and read from there.
  abbrev pub IsNumberAt :
      ℕ → ℕ → ℕ → Buffer → Result Buffer → (Buffer → ℕ → Result l.BigNumber) → Type 0
  IsNumberAt size n p d encoded decode =
      (d' : Buffer) × (encoded ≡ ok d')
      × (length d' ≡ length d)
      × (take p d' ≡ take p d)
      × (drop (p + size) d' ≡ drop (p + size) d)
      × (m : l.BigNumber) × (decode d' p ≡ ok m)
      × (value l m ≡ n)

  number_lem :
      (size n p : ℕ) (d : Buffer)
      → 8 ≤ size
      → n < 2 ^ 53
      → p + size ≤ length d
      → IsNumberAt size n p d
          (l.blob_encode size (padded size (reversed (l.to_array (l.new_big_number n)))) d p)
          (λ d p. r.blob_decode size d p >>= λ bs. ok (r.big_number_of_hex (joined (reversed bs))))
  number_lem size n p d wide small inside =
      let raw : List ℕ = reversed (l.to_array (l.new_big_number n)) in
      let bs : List ℕ = padded size raw in
      let short : length raw ≤ size = omega (arith, laws.array-short n small) in
      let (long, same) = padded_lem size raw short in
      let (kept, written, before, behind) = copy-IsPatched bs d p (omega (arith, long, inside)) in
      let there : slice (copy bs d p).1 p (p + size) ≡ bs =
        ap (λ k. slice (copy bs d p).1 p (p + k)) (sym long) ∙ written in
      let (m, decoded, is_number) =
        joined_lem r read size p (copy bs d p).1
          (rw there (padded-IsByte size raw short (read.array-bytes n)))
          (omega (arith, kept, inside)) in
      (
        (copy bs d p).1,
        laws.blob_encode-copies size bs d p long inside,
        kept,
        before,
        ap (λ k. drop (p + k) (copy bs d p).1) (sym long) ∙ behind ∙ ap (λ k. drop (p + k) d) long,
        m,
        decoded,
        is_number ∙ ap of_le there ∙ same ∙ laws.array-value n small,
      )

  -- Where the libraries do as documented and the bytes are within the buffer, a number below 2 ^ 53
  -- that the layout of 64 bits, or the one of 128 bits, encodes is decoded from there, and no other
  -- byte changes.
  pub uint_round_trip :
      (n p : ℕ) (d d' : Buffer)
      → n < 2 ^ 53
      → p + 8 ≤ length d
      → p + 16 ≤ length d'
      → IsNumberAt 8 n p d (uint64_encode l (l.new_big_number n) d p) (uint64_decode l r)
        × IsNumberAt 16 n p d' (uint128_encode l (l.new_big_number n) d' p) (uint128_decode l r)
  unfolding uint64_encode uint128_encode uint64_decode uint128_decode
  uint_round_trip n p d d' small inside inside' = (
    number_lem 8 n p d (omega arith) small inside,
    number_lem 16 n p d' (omega arith) small inside',
  )
