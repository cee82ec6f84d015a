-- ===== src/OnChain/Items.antt =====
-- What `unpack_vec` makes of a count and the structs that were written one after another.
use Prim.Native.Nat.add
use marinade_tenderize_from.Prelude.{
  ℕ, ◌+◌, ◌*◌, ◌^◌, ◌<◌, ◌≤◌, ◌≡◌, refl, ap, ◌∙◌, false, some, List, [], ◌∷◌, ◌++◌, map, arith,
  length, take, drop, flatten, All, length-append, take-append, drop-append, ltb, le→ltb, leb,
  lt→leb,
}
use marinade_tenderize_from.Buffer.{le_bytes, of_le}
use marinade_tenderize_from.Buffer.Bytes.{length-le_bytes, of_le-le_bytes}
use marinade_tenderize_from.OnChain.{items, unpack_vec, field_at}

-- Behind `n` bytes.
pub drop-front :
    (front rest : List ℕ) (n k : ℕ) → length front ≡ n → drop (n + k) (front ++ rest) ≡ drop k rest
drop-front [] rest n k e = rw (← e, add.zero k)
drop-front (b ∷ front) rest n k e =
    rw (← e, add.suc (length front) k) (drop-front front rest (length front) k refl)

pub take-front : (front rest : List ℕ) (n : ℕ) → length front ≡ n → take n (front ++ rest) ≡ front
take-front front rest n e = rw (← e) (take-append front rest)

drop-head : (front rest : List ℕ) (n : ℕ) → length front ≡ n → drop n (front ++ rest) ≡ rest
drop-head front rest n e = rw (← e) (drop-append front rest)

module _ {ℓ κ} {A : Type ℓ} {B : Type κ} (size : ℕ) (item : List ℕ → B) (enc : A → List ℕ)
    (view : A → B) where
  -- a struct that is read back, whatever follows it
  abbrev pub IsRead : A → Type κ
  IsRead a = (length (enc a) ≡ size) × ((rest : List ℕ) → item (enc a ++ rest) ≡ view a)

  pub items-flatten :
      (xs : List A)
      → All IsRead xs
      → items size item (length xs) (flatten (map enc xs)) ≡ map view xs
  unfolding items
  items-flatten [] h = refl
  items-flatten (x ∷ xs) ((e, r), h) =
      rw (r (flatten (map enc xs)), drop-head (enc x) (flatten (map enc xs)) size e)
        (ap (λ l. view x ∷ l) (items-flatten xs h))

  pub length-flatten :
      (xs : List A) → All IsRead xs → length (flatten (map enc xs)) ≡ length xs * size
  length-flatten [] h = omega arith
  length-flatten (x ∷ xs) ((e, r), h) =
      omega (arith, length-append {0} (enc x) (flatten (map enc xs)), length-flatten xs h)

  pub unpack_vec-flatten :
      (xs : List A)
      → 1 ≤ size
      → 1 ≤ length xs
      → length xs < 2 ^ 32
      → All IsRead xs
      → unpack_vec size item (le_bytes 4 (length xs) ++ flatten (map enc xs)) ≡ some (map view xs)
  unfolding unpack_vec
  unpack_vec-flatten [] sized some_there fits h = absurd (omega arith)
  unpack_vec-flatten (x ∷ others) sized some_there fits h =
      let xs : List A = x ∷ others in
      let counted : List ℕ = le_bytes 4 (length xs) in
      let body : List ℕ = flatten (map enc xs) in
      let front : length counted ≡ 4 = length-le_bytes 4 (length xs) in
      let whole : length (counted ++ body) ≡ 4 + length xs * size =
        omega (arith, length-append {0} counted body, length-flatten xs h) in
      let count : field_at 0 4 (counted ++ body) ≡ length xs =
        ap of_le (take-front counted body 4 front) ∙ of_le-le_bytes 4 (length xs) (omega arith) in
      let long : ltb (length (counted ++ body)) 4 ≡ false = le→ltb _ _ (omega arith) in
      let room : ltb (1 + length (counted ++ body)) (1 + 4 + length xs * size) ≡ false =
        le→ltb _ _ (omega arith) in
      let body_there : leb (length (counted ++ body)) 4 ≡ false = lt→leb _ _ (omega arith) in
      rw (long, count, room, body_there, drop-head counted body 4 front)
        (ap some (items-flatten xs h))
