-- ===== src/Prelude/Lists.antt =====
-- Lists over the native numbers.
use Prim.Native.Nat.{ℕ, zero, suc, ◌+◌, ◌-◌, ◌≤◌}
use Prim.Native.Nat.add
use native.Mathlib.Nat.{zero-add}
use mathlib.Core.Path.{◌≡◌, refl, ap}
use mathlib.Core.Logic.{◌⊎◌, inl, inr}
use mathlib.Core.Option.{Option, none, some}
use mathlib.Core.List.{List, [], ◌∷◌, ◌++◌, append_assoc}
use native.Mathlib.Omega.{arith}

module _ {ℓ} {A : Type ℓ} where
  abbrev pub length : List A → ℕ
  length [] = 0
  length (x ∷ xs) = suc (length xs)

  abbrev pub take : ℕ → List A → List A
  take zero xs = []
  take (suc n) [] = []
  take (suc n) (x ∷ xs) = x ∷ take n xs

  abbrev pub drop : ℕ → List A → List A
  drop zero xs = xs
  drop (suc n) [] = []
  drop (suc n) (x ∷ xs) = drop n xs

  abbrev pub replicate : ℕ → A → List A
  replicate zero a = []
  replicate (suc n) a = a ∷ replicate n a

  abbrev pub get_elem? : List A → ℕ → Option A
  get_elem? [] i = none
  get_elem? (x ∷ xs) zero = some x
  get_elem? (x ∷ xs) (suc i) = get_elem? xs i

  -- every item, some item
  abbrev pub All {κ} : (A → Type κ) → List A → Type κ
  All P [] = Unit {κ}
  All P (x ∷ xs) = P x × All P xs

  abbrev pub Any : (A → Type 0) → List A → Type 0
  Any P [] = ⊥
  Any P (x ∷ xs) = P x ⊎ Any P xs

  abbrev pub flatten : List (List A) → List A
  flatten [] = []
  flatten (xs ∷ xss) = xs ++ flatten xss

  pub length-append : (xs ys : List A) → length (xs ++ ys) ≡ length xs + length ys
  length-append [] ys = omega arith
  length-append (x ∷ xs) ys = omega (arith, length-append xs ys)

  pub length-replicate : (n : ℕ) (a : A) → length (replicate n a) ≡ n
  length-replicate zero a = refl
  length-replicate (suc n) a = omega (arith, length-replicate n a)

  pub take-append : (xs ys : List A) → take (length xs) (xs ++ ys) ≡ xs
  take-append [] ys = refl
  take-append (x ∷ xs) ys = λ i. x ∷ take-append xs ys i

  pub drop-append : (xs ys : List A) → drop (length xs) (xs ++ ys) ≡ ys
  drop-append [] ys = refl
  drop-append (x ∷ xs) ys = drop-append xs ys

  pub All-append {κ} : (P : A → Type κ) (xs ys : List A) → All P xs → All P ys → All P (xs ++ ys)
  All-append P [] ys hx hy = hy
  All-append P (x ∷ xs) ys (h, hx) hy = (h, All-append P xs ys hx hy)

  pub All-map {κ ι} :
      (P : A → Type κ) (Q : A → Type ι)
      → ((a : A) → P a → Q a)
      → (xs : List A) → All P xs
      → All Q xs
  All-map P Q f [] h = tt
  All-map P Q f (x ∷ xs) (h, hs) = (f x h, All-map P Q f xs hs)

  pub All-left {κ} : (P : A → Type κ) (xs ys : List A) → All P (xs ++ ys) → All P xs
  All-left P [] ys h = tt
  All-left P (x ∷ xs) ys (p, h) = (p, All-left P xs ys h)

  pub All-right {κ} : (P : A → Type κ) (xs ys : List A) → All P (xs ++ ys) → All P ys
  All-right P [] ys h = h
  All-right P (x ∷ xs) ys (p, h) = All-right P xs ys h

  pub Any-right : (P : A → Type 0) (xs ys : List A) → Any P ys → Any P (xs ++ ys)
  Any-right P [] ys h = h
  Any-right P (x ∷ xs) ys h = inr (Any-right P xs ys h)

  pub Any-left : (P : A → Type 0) (xs ys : List A) → Any P xs → Any P (xs ++ ys)
  Any-left P [] ys h = absurd h
  Any-left P (x ∷ xs) ys (inl h) = inl h
  Any-left P (x ∷ xs) ys (inr h) = inr (Any-left P xs ys h)

  pub flatten-append : (xss yss : List (List A)) → flatten (xss ++ yss) ≡ flatten xss ++ flatten yss
  flatten-append [] yss = refl
  flatten-append (xs ∷ xss) yss = rw (flatten-append xss yss) (rw append_assoc)

  pub take-drop : (n : ℕ) (xs : List A) → take n xs ++ drop n xs ≡ xs
  take-drop zero xs = refl
  take-drop (suc n) [] = refl
  take-drop (suc n) (x ∷ xs) = ap (λ ys. x ∷ ys) (take-drop n xs)

  pub drop-drop : (m n : ℕ) (xs : List A) → drop m (drop n xs) ≡ drop (n + m) xs
  drop-drop m zero xs = rw zero-add refl
  drop-drop zero (suc n) [] = rw (add.suc n 0) refl
  drop-drop (suc m) (suc n) [] = rw (add.suc n (suc m)) refl
  drop-drop m (suc n) (x ∷ xs) = rw (add.suc n m) (drop-drop m n xs)

  pub length-drop : (n : ℕ) (xs : List A) → length (drop n xs) ≡ length xs - n
  length-drop zero xs = omega arith
  length-drop (suc n) [] = omega arith
  length-drop (suc n) (x ∷ xs) = omega (arith, length-drop n xs)

  pub length-take : (n : ℕ) (xs : List A) → n ≤ length xs → length (take n xs) ≡ n
  length-take zero xs h = refl
  length-take (suc n) [] h = absurd (omega arith)
  length-take (suc n) (x ∷ xs) h = omega (arith, length-take n xs (omega arith))

  pub drop-nil : (n : ℕ) (xs : List A) → length xs ≤ n → drop n xs ≡ []
  drop-nil zero [] h = refl
  drop-nil zero (x ∷ xs) h = absurd (omega arith)
  drop-nil (suc n) [] h = refl
  drop-nil (suc n) (x ∷ xs) h = drop-nil n xs (omega arith)

  pub length-take_le : (n : ℕ) (xs : List A) → length (take n xs) ≤ n
  length-take_le zero xs = omega arith
  length-take_le (suc n) [] = omega arith
  length-take_le (suc n) (x ∷ xs) = omega (arith, length-take_le n xs)

-- A list of lists has the property item by item.
pub All-flatten {ℓ κ} :
    {A : Type ℓ} (P : A → Type κ) (xss : List (List A)) → All P (flatten xss) → All (All P) xss
All-flatten P [] h = tt
All-flatten P (xs ∷ xss) h =
    (All-left P xs (flatten xss) h, All-flatten P xss (All-right P xs (flatten xss) h))

module _ {ℓ} {A : Type ℓ} where
  -- The item at this place, and the others.
  abbrev pub taken : List A → ℕ → Option (A × List A)
  taken [] i = none
  taken (x ∷ xs) zero = some (x, xs)
  taken (x ∷ xs) (suc i) = elim (taken xs i) [
    | none ↦ none
    | some (found, rest) ↦ some (found, x ∷ rest)
  ]

  -- What all items have, the one that is taken and the others have.
  abbrev pub Parts {κ} : (A → Type κ) → Option (A × List A) → Type κ
  Parts P none = Unit
  Parts P (some (x, rest)) = P x × All P rest

  pub taken-Parts {κ} : (P : A → Type κ) (xs : List A) (i : ℕ) → All P xs → Parts P (taken xs i)
  taken-Parts P [] i h = tt
  taken-Parts P (x ∷ xs) zero h = h
  taken-Parts P (x ∷ xs) (suc i) (h, hs) = deeper (taken xs i) (taken-Parts P xs i hs)
    where
      deeper :
          (o : Option (A × List A))
          → Parts P o
          → Parts P (elim o [ none ↦ none | some (found, rest) ↦ some (found, x ∷ rest) ])
      deeper none p = tt
      deeper (some (y, rest)) (p, ps) = (p, (h, ps))

  abbrev pub Part : (A → Type 0) → Option (A × List A) → Type 0
  Part P none = Unit
  Part P (some (x, rest)) = P x ⊎ Any P rest

  pub taken-Part : (P : A → Type 0) (xs : List A) (i : ℕ) → Any P xs → Part P (taken xs i)
  taken-Part P [] i h = tt
  taken-Part P (x ∷ xs) zero h = h
  taken-Part P (x ∷ xs) (suc i) (inl h) = deeper (taken xs i)
    where
      deeper :
          (o : Option (A × List A))
          → Part P (elim o [ none ↦ none | some (found, rest) ↦ some (found, x ∷ rest) ])
      deeper none = tt
      deeper (some (y, rest)) = inr (inl h)
  taken-Part P (x ∷ xs) (suc i) (inr h) = deeper (taken xs i) (taken-Part P xs i h)
    where
      deeper :
          (o : Option (A × List A))
          → Part P o
          → Part P (elim o [ none ↦ none | some (found, rest) ↦ some (found, x ∷ rest) ])
      deeper none p = tt
      deeper (some (y, rest)) (inl p) = inl p
      deeper (some (y, rest)) (inr p) = inr (inr p)
