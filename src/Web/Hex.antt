-- ===== src/Web/Hex.antt =====
-- The hexadecimal digits through which the decoders of src/utils/layout.ts read a number.
use marinade_tenderize_from.Prelude.{
  ℕ, ◌+◌, ◌*◌, ◌≡◌, ◌<◌, ◌≤◌, refl, sym, ◌∙◌, inl, inr, List, [], ◌∷◌, ◌++◌, arith, ltb, length,
  take, drop, All, All-append, All-left, All-right, take-drop, append_assoc, Bool-cases, tests,
  append-nil, ◌-◌,
}
use marinade_tenderize_from.Effect.{Result, ok}
use marinade_tenderize_from.Buffer.{Buffer, ◌>>=◌, slice, of_le}
use marinade_tenderize_from.Web.Layout.{Libraries, reversed}
use marinade_tenderize_from.Web.Decode.{
  Decoders, DecoderLaws, hex_digits, two_digits, joined, of_hex, value, uint64_decode,
}

abbrev pub IsByte : ℕ → Type 0
IsByte b = b < 256

abbrev IsDigit : ℕ → Type 0
IsDigit x = x < 16

two_digits_lem :
    (b acc : ℕ)
    → IsByte b
    → (of_hex acc (two_digits b) ≡ 256 * acc + b) × All IsDigit (two_digits b)
unfolding two_digits hex_digits of_hex
two_digits_lem b acc h = elim (Bool-cases (ltb b 16)) [
  | inl e ↦ rw e (omega arith, (omega arith, (omega (tests, e), tt)))
  | inr e ↦ rw e (omega arith, (omega arith, (omega arith, tt)))
]

of_hex-append : (xs ys : List ℕ) (acc : ℕ) → of_hex acc (xs ++ ys) ≡ of_hex (of_hex acc xs) ys
unfolding of_hex
of_hex-append [] ys acc = refl
of_hex-append (x ∷ xs) ys acc = of_hex-append xs ys _

joined-append : (bs cs : List ℕ) → joined (bs ++ cs) ≡ joined bs ++ joined cs
unfolding joined
joined-append [] cs = refl
joined-append (b ∷ bs) cs =
    rw (joined-append bs cs) (sym (append_assoc (two_digits b) (joined bs) (joined cs)))

joined-reversed :
    (bs : List ℕ)
    → All IsByte bs
    → (of_hex 0 (joined (reversed bs)) ≡ of_le bs) × All IsDigit (joined (reversed bs))
unfolding joined reversed of_hex of_le
joined-reversed [] h = (refl, tt)
joined-reversed (b ∷ bs) (h, hs) =
    let (same, digits) = joined-reversed bs hs in
    let (last, last_digits) = two_digits_lem b (of_le bs) h in
    rw
      (
        joined-append (reversed bs) (b ∷ []),
        append-nil (two_digits b),
        of_hex-append (joined (reversed bs)) (two_digits b) 0,
        same,
        last,
      )
      (omega arith, All-append IsDigit _ _ digits last_digits)

All-slice : (d : Buffer) (from to : ℕ) → All IsByte d → All IsByte (slice d from to)
All-slice d from to h = All-left IsByte _ (drop (to - from) (drop from d)) (
    rw (take-drop (to - from) (drop from d))
      (All-right IsByte (take from d) (drop from d) (rw (take-drop from d) h)))

-- What a field of bytes is decoded to.
module _ {l : Libraries} {K : Type 0} (r : Decoders l K) (laws : DecoderLaws r) where
  -- A number's field of `size` bytes has the number that its bytes stand for, lowest first.
  abbrev pub IsDecoded : ℕ → Buffer → ℕ → Result l.BigNumber → Type 0
  IsDecoded size d p decoded =
      (n : l.BigNumber) × (decoded ≡ ok n) × (value l n ≡ of_le (slice d p (p + size)))

  pub joined_lem :
      (size p : ℕ) (d : Buffer)
      → All IsByte (slice d p (p + size))
      → p + size ≤ length d
      → IsDecoded size d p
          (r.blob_decode size d p >>= λ bs. ok (r.big_number_of_hex (joined (reversed bs))))
  joined_lem size p d bytes inside =
      let (same, digits) = joined-reversed (slice d p (p + size)) bytes in
      rw (laws.blob_decode-slices size d p inside)
        (_, refl, laws.big_number_of_hex-value _ digits ∙ same)

  pub uint64_decode_lem :
      (d : Buffer) (p : ℕ)
      → All IsByte d
      → p + 8 ≤ length d
      → IsDecoded 8 d p (uint64_decode l r d p)
  unfolding uint64_decode
  uint64_decode_lem d p bytes inside = joined_lem 8 p d (All-slice d p (p + 8) bytes) inside
