-- ===== src/Market/Reachable.antt =====
-- The steps of the subscriptions of src/contexts/market.tsx.
use marinade_tenderize_from.Prelude.{
  taken, ℕ, zero, suc, ◌+◌, ◌-◌, ◌≡◌, refl, sym, ap, ◌∙◌, true, inl, inr, Bool-cases, ==→eq, ==→ne,
  Option, none, some, List, [], ◌∷◌, arith, ◌==◌,
}
use marinade_tenderize_from.JsMap.{JsMap, get, set, get-set, get-set_ne}
use marinade_tenderize_from.Market.Subscriptions.{
  Sides, count_of, observe, unobserve, Markets, subscribe_to_market, unsubscribe, Step, subscribes,
  unsubscribes, Reach, start, next,
}
use marinade_tenderize_from.Market.Counts.{
  one_if, observed_by, entry_of, IsCounted, kept, IsKeptBy, get-cleanup, kept-entry_of,
  count_of-kept, set-IsKeptBy, entry_of-positive, kept-some,
}

-- One subscription more, or less, for the key.
bump-IsKeptBy :
    (m : JsMap ℕ) (f : ℕ → ℕ) (j : ℕ)
    → IsKeptBy m f
    → IsKeptBy (set m j (count_of m j + 1)) (λ k. one_if (j == k) + f k)
bump-IsKeptBy m f j h =
    let itself : j == j ≡ true = ground arith in
    set-IsKeptBy m f (λ k. one_if (j == k) + f k) j (count_of m j + 1) h
      (rw itself (omega (arith, count_of-kept m f j h))) (λ k e. rw e (omega arith))

drop-IsKeptBy :
    (m : JsMap ℕ) (f : ℕ → ℕ) (j : ℕ)
    → IsKeptBy m f
    → IsKeptBy (set m j (count_of m j - 1)) (λ k. f k - one_if (j == k))
drop-IsKeptBy m f j h =
    let itself : j == j ≡ true = ground arith in
    set-IsKeptBy m f (λ k. f k - one_if (j == k)) j (count_of m j - 1) h
      (rw itself (omega (arith, count_of-kept m f j h))) (λ k e. rw e (omega arith))

IsCounted-IsKeptBy :
    (s : Markets) → IsCounted s → IsKeptBy s.accounts_to_observe (observed_by s.subscriptions)
IsCounted-IsKeptBy s h k = ap kept (h k) ∙ kept-entry_of (observed_by s.subscriptions k)

-- No entry of 0 is made.
abbrev IsTidy : JsMap ℕ → Type 0
IsTidy m = (k : ℕ) → get m k ≡ kept (get m k)

kept-IsCounted :
    (s : Markets)
    → IsTidy s.accounts_to_observe
    → IsKeptBy s.accounts_to_observe (observed_by s.subscriptions)
    → IsCounted s
kept-IsCounted s t h k = t k ∙ h k

bump-IsTidy : (m : JsMap ℕ) (j : ℕ) → IsTidy m → IsTidy (set m j (count_of m j + 1))
bump-IsTidy m j t k = elim (Bool-cases (j == k)) [
  | inl e ↦
      let q : j ≡ k = ==→eq j k e in
      let here = get-set m j (count_of m j + 1) in
      let again = entry_of-positive (count_of m j + 1) (omega arith) in
      rw (← q) (here ∙ sym again ∙ sym (kept-some (count_of m j + 1)) ∙ ap kept (sym here))
  | inr e ↦
      let there = get-set_ne m j k (count_of m j + 1) (λ q. ==→ne j k e (sym q)) in
      there ∙ t k ∙ ap kept (sym there)
]

IsCounted-IsTidy : (s : Markets) → IsCounted s → IsTidy s.accounts_to_observe
IsCounted-IsTidy s h k =
    h k ∙ sym (kept-entry_of (observed_by s.subscriptions k)) ∙ ap kept (sym (h k))

subscribe_to_market-IsCounted :
    (o : Option Sides) (s : Markets) → IsCounted s → IsCounted (subscribe_to_market o s)
unfolding subscribe_to_market observe
subscribe_to_market-IsCounted none s h = h
subscribe_to_market-IsCounted (some m) s h =
    let a = s.accounts_to_observe in
    let with_bid = set a m.bids (count_of a m.bids + 1) in
    let f = observed_by s.subscriptions in
    let g : ℕ → ℕ = λ k. one_if (m.bids == k) + f k in
    let once = bump-IsKeptBy a f m.bids (IsCounted-IsKeptBy s h) in
    let twice = bump-IsKeptBy with_bid g m.asks once in
    let tidy = bump-IsTidy with_bid m.asks (bump-IsTidy a m.bids (IsCounted-IsTidy s h)) in
    λ k. tidy k ∙ twice k ∙ ap entry_of (omega arith)

-- What is observed by the subscription that is taken and by those that are left.
shared : Option (Sides × List Sides) → ℕ → ℕ → ℕ
shared none k n = n
shared (some (m, rest)) k n = one_if (m.bids == k) + one_if (m.asks == k) + observed_by rest k

taken-shared :
    (ms : List Sides) (i k : ℕ) → observed_by ms k ≡ shared (taken ms i) k (observed_by ms k)
unfolding shared
taken-shared [] i k = refl
taken-shared (x ∷ ms) zero k = refl
taken-shared (x ∷ ms) (suc i) k = deeper (taken ms i) (taken-shared ms i k)
  where
    deeper :
        (o : Option (Sides × List Sides))
        → observed_by ms k ≡ shared o k (observed_by ms k)
        → observed_by (x ∷ ms) k
          ≡ shared
              (elim o [ none ↦ none | some (m, rest) ↦ some (m, x ∷ rest) ])
              k
              (observed_by (x ∷ ms) k)
    deeper none h = refl
    deeper (some (m, rest)) h = omega (arith, h)

unsubscribe-IsCounted :
    (i : ℕ) (m : Sides) (rest : List Sides) (s : Markets)
    → taken s.subscriptions i ≡ some (m, rest)
    → IsCounted s
    → IsCounted (unsubscribe m rest s)
unfolding unsubscribe unobserve shared
unsubscribe-IsCounted i m rest s e h =
    let a = s.accounts_to_observe in
    let without_bid = set a m.bids (count_of a m.bids - 1) in
    let f = observed_by s.subscriptions in
    let g : ℕ → ℕ = λ k. f k - one_if (m.bids == k) in
    let once = drop-IsKeptBy a f m.bids (IsCounted-IsKeptBy s h) in
    let twice = drop-IsKeptBy without_bid g m.asks once in
    let left : (k : ℕ) → f k ≡ one_if (m.bids == k) + one_if (m.asks == k) + observed_by rest k =
      λ k. taken-shared s.subscriptions i k ∙ ap (λ o. shared o k (f k)) e in
    λ k.
      get-cleanup (set without_bid m.asks (count_of without_bid m.asks - 1)) k
      ∙ twice k
      ∙ ap entry_of (omega (arith, left k))

Step-IsCounted : {s s' : Markets} → Step s s' → IsCounted s → IsCounted s'
Step-IsCounted (subscribes o e) h = rw e (subscribe_to_market-IsCounted o _ h)
Step-IsCounted (unsubscribes i m rest t e) h = rw e (unsubscribe-IsCounted i m rest _ t h)

-- In every state that subscriptions and their ends in any order lead to, the map of the accounts to
-- observe has exactly the accounts that some open subscription observes, each with how often the
-- bids and asks of the open subscriptions name it.
pub Reach-IsCounted : {s : Markets} → Reach s → IsCounted s
Reach-IsCounted start = λ k. refl
Reach-IsCounted (next r t) = Step-IsCounted t (Reach-IsCounted r)
