-- ===== src/Buffer.antt =====
-- Node's Buffer, as a list of bytes, in the operations that the client uses
-- (experiment/tenderize.ts): allocation, slices, little-endian reads and writes. An access that
-- reaches past the end, or a value that does not fit its width, is a RangeError.
pub mod Bytes
pub mod Writes
use marinade_tenderize_from.Prelude.{
  ℕ, ℤ, pos, negsuc, zero, suc, ◌+◌, ◌-◌, ◌^◌, ◌*◌, ◌%◌, ◌/◌, List, [], ◌∷◌, ◌++◌, ltb, leb, ◌&&◌,
  if◌then◌else◌, length, take, drop, replicate,
}
use marinade_tenderize_from.Effect.{Error, out_of_range, Result, ok, err}

abbrev pub Buffer : Type 0
Buffer = List ℕ

-- A chain of accesses.
infixl 5 ◌>>=◌
abbrev pub ◌>>=◌ {ℓ κ} : {A : Type ℓ} {B : Type κ} → Result A → (A → Result B) → Result B
ok a >>= f = f a
err e >>= f = err e

-- Buffer.alloc(n): zeros
abbrev pub alloc : ℕ → Buffer
alloc n = replicate n 0

-- buffer.slice(from, to), clamped to the buffer
abbrev pub slice : Buffer → ℕ → ℕ → Buffer
slice d from to = take (to - from) (drop from d)

-- The lowest `width` bytes of a value, lowest first, and the number that bytes stand for.
unfoldable pub le_bytes : ℕ → ℕ → List ℕ
le_bytes zero v = []
le_bytes (suc width) v = (v % 256) ∷ le_bytes width (v / 256)

unfoldable pub of_le : List ℕ → ℕ
of_le [] = 0
of_le (b ∷ bs) = b + 256 * of_le bs

-- `bs` over the bytes of `d` from `p` on
unfoldable pub overwrite : Buffer → ℕ → List ℕ → Buffer
overwrite d p bs = take p d ++ (bs ++ drop (p + length bs) d)

-- The writes of an unsigned value return the offset behind it, with the changed buffer.
unfoldable pub write_uint_le : ℕ → ℕ → ℕ → Buffer → Result (ℕ × Buffer)
write_uint_le width v p d =
    if ltb v (256 ^ width) && leb (p + width) (length d)
    then ok (p + width, overwrite d p (le_bytes width v))
    else err out_of_range

abbrev pub write_uint8 : ℕ → ℕ → Buffer → Result (ℕ × Buffer)
write_uint8 = write_uint_le 1

abbrev pub write_uint32_le : ℕ → ℕ → Buffer → Result (ℕ × Buffer)
write_uint32_le = write_uint_le 4

abbrev pub write_big_uint64_le : ℕ → ℕ → Buffer → Result (ℕ × Buffer)
write_big_uint64_le = write_uint_le 8

-- writeBigInt64LE: the two's complement of a negative value
unfoldable pub write_big_int64_le : ℤ → ℕ → Buffer → Result (ℕ × Buffer)
unfolding write_uint_le
write_big_int64_le (pos v) p d = if ltb v (2 ^ 63) then write_uint_le 8 v p d else err out_of_range
write_big_int64_le (negsuc v) p d =
    if ltb v (2 ^ 63) then write_uint_le 8 (2 ^ 64 - suc v) p d else err out_of_range

-- source.copy(target, p): as many bytes as fit, with their number
unfoldable pub copy : List ℕ → Buffer → ℕ → ℕ × Buffer
copy source d p = let bs = take (length d - p) source in (length bs, overwrite d p bs)

-- The reads of an unsigned value.
unfoldable pub read_uint_le : ℕ → Buffer → ℕ → Result ℕ
read_uint_le width d p =
    if leb (p + width) (length d) then ok (of_le (slice d p (p + width))) else err out_of_range

abbrev pub read_uint8 : Buffer → ℕ → Result ℕ
read_uint8 = read_uint_le 1

abbrev pub read_uint16_le : Buffer → ℕ → Result ℕ
read_uint16_le = read_uint_le 2

abbrev pub read_uint32_le : Buffer → ℕ → Result ℕ
read_uint32_le = read_uint_le 4

abbrev pub read_big_uint64_le : Buffer → ℕ → Result ℕ
read_big_uint64_le = read_uint_le 8
