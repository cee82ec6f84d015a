-- ===== src/Balance/Sorting.antt =====
-- The order and the sum of the accounts of src/hooks/useUserBalance.ts.
use marinade_tenderize_from.Prelude.{
  ℕ, ◌+◌, ◌^◌, ◌<◌, ltb, lt→ltb, ◌≡◌, ◌≤◌, refl, Bool, true, false, Bool-cases, inl, inr, List, [],
  ◌∷◌, All, arith, leb, if◌then◌else◌, tests,
}
use marinade_tenderize_from.Actions.Accounts.{TokenAccount}
use marinade_tenderize_from.Balance.{bn_to_number, distance, insert, sort}
use marinade_tenderize_from.Effect.{ok}

-- The sum of a weight over the accounts: of 1 for their number, of the amount for their lamports.
unfoldable pub weigh : (TokenAccount → ℕ) → List TokenAccount → ℕ
weigh g [] = 0
weigh g (a ∷ others) = g a + weigh g others

-- No account has less than one behind it.
abbrev pub IsDescending : List TokenAccount → Type 0
IsDescending [] = Unit
IsDescending (a ∷ others) = All (λ b. b.info.amount ≤ a.info.amount) others × IsDescending others

abbrev pub IsBelow : ℕ → List TokenAccount → Type 0
IsBelow m others = All (λ b. b.info.amount ≤ m) others

IsBelow-trans : (m k : ℕ) (others : List TokenAccount) → m ≤ k → IsBelow m others → IsBelow k others
IsBelow-trans m k [] h b = tt
IsBelow-trans m k (a ∷ others) h (b, bs) = (omega (arith, h, b), IsBelow-trans m k others h bs)

pub if_all :
    (P : List TokenAccount → Type 0) (b : Bool) (xs ys : List TokenAccount)
    → (b ≡ true → P xs)
    → (b ≡ false → P ys)
    → P (if b then xs else ys)
if_all P true xs ys h k = h refl
if_all P false xs ys h k = k refl

-- The sorting of amounts that can be compared.
unfoldable pub inserted : TokenAccount → List TokenAccount → List TokenAccount
inserted a [] = a ∷ []
inserted a (b ∷ bs) =
    let rest = inserted a bs in if leb b.info.amount a.info.amount then a ∷ b ∷ bs else b ∷ rest

unfoldable pub sorted : List TokenAccount → List TokenAccount
unfolding inserted
sorted [] = []
sorted (a ∷ others) = inserted a (sorted others)

inserted-All :
    (P : TokenAccount → Type 0) (a : TokenAccount) (others : List TokenAccount)
    → P a
    → All P others
    → All P (inserted a others)
unfolding inserted
inserted-All P a [] h hs = (h, tt)
inserted-All P a (b ∷ bs) h (k, ks) =
    if_all (All P) (leb b.info.amount a.info.amount) (a ∷ b ∷ bs) (b ∷ inserted a bs)
      (λ e. (h, (k, ks))) (λ e. (k, inserted-All P a bs h ks))

inserted-IsDescending :
    (a : TokenAccount) (others : List TokenAccount)
    → IsDescending others
    → IsDescending (inserted a others)
unfolding inserted
inserted-IsDescending a [] d = (tt, tt)
inserted-IsDescending a (b ∷ bs) (h, d) =
    if_all IsDescending (leb b.info.amount a.info.amount) (a ∷ b ∷ bs) (b ∷ inserted a bs)
      (λ e. (
        (omega (tests, e), IsBelow-trans b.info.amount a.info.amount bs (omega (tests, e)) h),
        (h, d),
      ))
      (λ e. (
        inserted-All (λ c. c.info.amount ≤ b.info.amount) a bs (omega (tests, e)) h,
        inserted-IsDescending a bs d,
      ))

inserted-weigh :
    (g : TokenAccount → ℕ) (a : TokenAccount) (others : List TokenAccount)
    → weigh g (inserted a others) ≡ g a + weigh g others
unfolding inserted weigh
inserted-weigh g a [] = refl
inserted-weigh g a (b ∷ bs) =
    if_all (λ xs. weigh g xs ≡ g a + (g b + weigh g bs)) (leb b.info.amount a.info.amount)
      (a ∷ b ∷ bs) (b ∷ inserted a bs) (λ e. refl) (λ e. omega (arith, inserted-weigh g a bs))

pub sorted_lem :
    (P : TokenAccount → Type 0) (others : List TokenAccount)
    → All P others
    → IsDescending (sorted others) × All P (sorted others)
unfolding sorted
sorted_lem P [] h = (tt, tt)
sorted_lem P (a ∷ others) (h, hs) =
    let (d, all) = sorted_lem P others hs in
    (inserted-IsDescending a (sorted others) d, inserted-All P a (sorted others) h all)

pub sorted-weigh :
    (g : TokenAccount → ℕ) (others : List TokenAccount) → weigh g (sorted others) ≡ weigh g others
unfolding sorted weigh
sorted-weigh g [] = refl
sorted-weigh g (a ∷ others) =
    omega (arith, inserted-weigh g a (sorted others), sorted-weigh g others)

-- Every amount is a safe integer of JavaScript.
abbrev pub IsSafe : TokenAccount → Type 0
IsSafe a = a.info.amount < 2 ^ 53

insert-inserted :
    (a : TokenAccount) (others : List TokenAccount)
    → IsSafe a
    → All IsSafe others
    → insert a others ≡ ok (inserted a others)
unfolding insert inserted bn_to_number
insert-inserted a [] h hs = refl
insert-inserted a (b ∷ bs) h (k, ks) =
    let near : ltb (distance a.info.amount b.info.amount) (2 ^ 53) ≡ true =
      distance-ltb a.info.amount b.info.amount h k in
    elim (Bool-cases (leb b.info.amount a.info.amount)) [
      | inl e ↦ rw (insert, bn_to_number, near, e) refl
      | inr e ↦ rw (insert, bn_to_number, near, e, insert-inserted a bs h ks) refl
    ]
  where
    distance-ltb : (m n : ℕ) → m < 2 ^ 53 → n < 2 ^ 53 → ltb (distance m n) (2 ^ 53) ≡ true
    distance-ltb m n h k = lt→ltb _ _ (distance-lt m n h k)
      where
        distance-lt : (m n : ℕ) → m < 2 ^ 53 → n < 2 ^ 53 → distance m n < 2 ^ 53
        distance-lt m n h k = ground arith

pub sort-sorted :
    (others : List TokenAccount) → All IsSafe others → sort others ≡ ok (sorted others)
unfolding sort sorted
sort-sorted [] h = refl
sort-sorted (a ∷ others) (h, hs) =
    rw (sort-sorted others hs) (insert-inserted a (sorted others) h (sorted_lem IsSafe others hs).1)
