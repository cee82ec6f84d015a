-- ===== src/Buffer/Writes.antt =====
-- What a write does to a buffer that is filled from the front: the bytes go where zeros stood.
use marinade_tenderize_from.Prelude.{
  ℕ, ℤ, pos, negsuc, zero, suc, ◌+◌, ◌-◌, ◌^◌, ◌<◌, ◌≤◌, ◌≡◌, refl, sym, ap, ◌∙◌, List, [], ◌∷◌,
  ◌++◌, arith, length, replicate, length-append, length-replicate, take-append, drop-append, take,
  drop, append_assoc, lt→ltb, le→leb,
}
use Prim.Native.Nat.add
use native.Mathlib.Nat.{zero-add}
use marinade_tenderize_from.Effect.{Result, ok, err}
use marinade_tenderize_from.Buffer.{
  Buffer, ◌>>=◌, le_bytes, overwrite, write_uint_le, write_big_int64_le, copy,
}
use marinade_tenderize_from.Buffer.Bytes.{length-le_bytes}

-- the bytes written so far, and `room` zeros behind them
abbrev pub filled : List ℕ → ℕ → Buffer
filled front room = front ++ replicate room 0

drop-append_add {ℓ} :
    {A : Type ℓ} (xs ys : List A) (n : ℕ) → drop (length xs + n) (xs ++ ys) ≡ drop n ys
drop-append_add [] ys n = rw zero-add
drop-append_add (x ∷ xs) ys n = rw (add.suc (length xs) n) (drop-append_add xs ys n)

pub replicate-add {ℓ} :
    {A : Type ℓ} (m n : ℕ) (a : A) → replicate (m + n) a ≡ replicate m a ++ replicate n a
replicate-add zero n a = rw zero-add
replicate-add (suc m) n a = rw (add.suc m n) (ap (λ l. a ∷ l) (replicate-add m n a))

overwrite-append :
    (front old rest bs : List ℕ)
    → length old ≡ length bs
    → overwrite (front ++ (old ++ rest)) (length front) bs ≡ front ++ (bs ++ rest)
unfolding overwrite
overwrite-append front old rest bs e = rw (
  take-append front (old ++ rest),
  drop-append_add front (old ++ rest) (length bs),
  ← e,
  drop-append old rest,
)

pub overwrite-filled :
    (front bs : List ℕ) (p size room : ℕ)
    → p ≡ length front
    → size ≡ length bs + room
    → overwrite (filled front size) p bs ≡ filled (front ++ bs) room
overwrite-filled front bs p size room at_end e =
    rw (at_end, e, replicate-add {A = ℕ} (length bs) room 0)
      (overwrite-append front (replicate (length bs) 0) (replicate room 0) bs (length-replicate _ _)
        ∙ sym (append_assoc front bs (replicate room 0)))

length-filled : (front : List ℕ) (room : ℕ) → length (filled front room) ≡ length front + room
length-filled front room =
    rw (length-append front (replicate room 0), length-replicate {A = ℕ} room 0)

-- The write of a value that fits its width and the room.
pub write_uint_le-filled :
    (width v p size room : ℕ) (front : List ℕ)
    → v < 256 ^ width
    → p ≡ length front
    → size ≡ width + room
    → write_uint_le width v p (filled front size)
      ≡ ok (length (front ++ le_bytes width v), filled (front ++ le_bytes width v) room)
unfolding write_uint_le
write_uint_le-filled width v p size room front fits at_end e =
    let bs = le_bytes width v in
    let same : length bs ≡ width = length-le_bytes width v in
    let stored : overwrite (filled front size) p bs ≡ filled (front ++ bs) room =
      overwrite-filled front bs p size room at_end (omega arith) in
    let next : p + width ≡ length (front ++ bs) = omega (arith, length-append {0} front bs) in
    let inside : p + width ≤ length (filled front size) = omega (arith, length-filled front size) in
    rw (lt→ltb _ _ fits, le→leb _ _ inside, stored, next)

-- The integers of 64 bits
abbrev pub IsInt64 : ℤ → Type 0
IsInt64 (pos n) = n < 2 ^ 63
IsInt64 (negsuc n) = suc n ≤ 2 ^ 63

-- What 64 bits of an integer are without a sign
abbrev pub wrapped : ℤ → ℕ
wrapped (pos n) = n
wrapped (negsuc n) = 2 ^ 64 - suc n

pub write_big_int64_le-filled :
    (v : ℤ) (p size room : ℕ) (front : List ℕ)
    → IsInt64 v
    → p ≡ length front
    → size ≡ 8 + room
    → write_big_int64_le v p (filled front size)
      ≡ ok (length (front ++ le_bytes 8 (wrapped v)), filled (front ++ le_bytes 8 (wrapped v)) room)
unfolding write_big_int64_le
write_big_int64_le-filled (pos n) p size room front fits at_end e =
    rw (lt→ltb _ _ fits) (write_uint_le-filled 8 n p size room front (omega arith) at_end e)
write_big_int64_le-filled (negsuc n) p size room front fits at_end e =
    let below : n < 2 ^ 63 = omega (arith, fits) in
    rw (lt→ltb _ _ below)
      (write_uint_le-filled 8 (2 ^ 64 - suc n) p size room front (omega arith) at_end e)

pub take_all : (n : ℕ) (bs : List ℕ) → length bs ≤ n → take n bs ≡ bs
take_all zero [] h = refl
take_all (suc n) [] h = refl
take_all zero (b ∷ bs) h = absurd (omega arith)
take_all (suc n) (b ∷ bs) h = ap (λ l. b ∷ l) (take_all n bs (omega arith))

-- A copy of bytes that fit.
pub copy-filled :
    (bs front : List ℕ) (p size room : ℕ)
    → p ≡ length front
    → size ≡ length bs + room
    → copy bs (filled front size) p ≡ (length bs, filled (front ++ bs) room)
unfolding copy
copy-filled bs front p size room at_end e =
    let whole : take (length (filled front size) - p) bs ≡ bs =
      take_all _ bs (omega (arith, length-filled front size)) in
    rw (whole, overwrite-filled front bs p size room at_end e)

-- A write that succeeds had a value that fits.
pub lt_of_write_uint_le :
    (width v p : ℕ) (d : Buffer) (r : ℕ × Buffer)
    → write_uint_le width v p d ≡ ok r
    → v < 256 ^ width
unfolding write_uint_le
lt_of_write_uint_le width v p d r h = ground arith

-- Where a chain gave a result, its first step did, and the rest made the result from it.
pub chain_gave :
    {A B : Type 0} {result : B} (first : Result A) (rest : A → Result B)
    → first >>= rest ≡ ok result
    → (value : A) × (first ≡ ok value) × (rest value ≡ ok result)
chain_gave (err e) rest h = cc
chain_gave (ok value) rest h = (value, refl, h)
