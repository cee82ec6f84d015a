-- ===== src/Web/Layout.antt =====
-- The layouts of src/utils/layout.ts and src/models/lending/tenderize.ts. The libraries bn.js and
-- buffer-layout are parameters.
use marinade_tenderize_from.Prelude.{
  ℕ, ◌+◌, ◌^◌, ◌≡◌, ◌<◌, ◌≤◌, Bool, List, [], ◌∷◌, ◌++◌, ◌==◌, if◌then◌else◌, length,
}
use marinade_tenderize_from.Effect.{Result, ok}
use marinade_tenderize_from.Buffer.{Buffer, ◌>>=◌, alloc, copy, of_le, write_uint_le}

abbrev pub Encoder : Type 0
Encoder = Buffer → ℕ → Result Buffer

pub record Libraries : Type 1 where
  -- new BN(n), and toArray(), the most significant byte first
  pub BigNumber : Type 0
  pub new_big_number : ℕ → BigNumber
  pub to_array : BigNumber → List ℕ
  -- a field of one byte, a field of a number of bytes
  pub u8_encode : ℕ → Encoder
  pub blob_encode : ℕ → List ℕ → Encoder
  -- fields of those spans, one behind the other
  pub struct_encode : List (ℕ × Encoder) → Buffer → Result Buffer

-- array.reverse()
unfoldable pub reversed : List ℕ → List ℕ
reversed [] = []
reversed (b ∷ bs) = reversed bs ++ (b ∷ [])

-- The documented behaviour. A number is below 2 ^ 53, and then has no more than eight bytes.
pub record LibraryLaws (l : Libraries) : Type 0 where
  pub array-value : (n : ℕ) → n < 2 ^ 53 → of_le (reversed (l.to_array (l.new_big_number n))) ≡ n
  pub array-short : (n : ℕ) → n < 2 ^ 53 → length (reversed (l.to_array (l.new_big_number n))) ≤ 8
  pub u8_encode-writes :
      (b p : ℕ) (d d' : Buffer) (p' : ℕ)
      → write_uint_le 1 b p d ≡ ok (p', d')
      → l.u8_encode b d p ≡ ok d'
  pub blob_encode-copies :
      (size : ℕ) (bs : List ℕ) (d : Buffer) (p : ℕ)
      → length bs ≡ size
      → p + size ≤ length d
      → l.blob_encode size bs d p ≡ ok (copy bs d p).1
  pub struct_encode-fields :
      (s s' : ℕ) (e e' : Encoder) (d : Buffer)
      → l.struct_encode ((s, e) ∷ (s', e') ∷ []) d ≡ e d 0 >>= λ d'. e' d' s

-- `b` as it is, or at the front of zeros.
unfoldable pub padded : ℕ → List ℕ → List ℕ
padded size b = if length b == size then b else (copy b (alloc size) 0).1

unfoldable pub uint64_encode : (l : Libraries) → l.BigNumber → Encoder
unfolding reversed padded
uint64_encode l num buffer offset =
    l.blob_encode 8 (padded 8 (reversed (l.to_array num))) buffer offset

unfoldable pub uint128_encode : (l : Libraries) → l.BigNumber → Encoder
unfolding reversed padded
uint128_encode l num buffer offset =
    l.blob_encode 16 (padded 16 (reversed (l.to_array num))) buffer offset

-- The spans of TenderizeLayout, and their sum.
abbrev pub tenderize_layout : List ℕ
tenderize_layout = 1 ∷ 32 ∷ 2 ∷ 32 ∷ 32 ∷ 32 ∷ 32 ∷ 32 ∷ 32 ∷ 5 ∷ 8 ∷ 8 ∷ 8 ∷ 8 ∷ 8 ∷ []

abbrev pub span : List ℕ → ℕ
span [] = 0
span (s ∷ ss) = s + span ss

unfoldable pub is_tenderize : Buffer → Bool
is_tenderize contents = length contents == span tenderize_layout
