-- ===== src/Market/Counts.antt =====
-- The counts of src/contexts/market.tsx are those of the open subscriptions.
use marinade_tenderize_from.Prelude.{
  ℕ, zero, suc, ◌+◌, ◌≤◌, ◌≡◌, ◌≢◌, refl, sym, ap, ◌∙◌, Bool, true, false, ◌⊎◌, inl, inr, Any,
  Option, none, some, List, [], ◌∷◌, arith, leb, ◌==◌, if◌then◌else◌, Bool-cases, ==→eq, ==→ne,
}
use marinade_tenderize_from.JsMap.{
  JsMap, get, set, delete, keys, get-set, get-set_ne, get-delete, get-delete_ne,
}
use marinade_tenderize_from.Market.Subscriptions.{Sides, count_of, cleanup_keys, cleanup, Markets}

abbrev pub one_if : Bool → ℕ
one_if true = 1
one_if false = 0

-- How often the open subscriptions observe an account.
abbrev pub observed_by : List Sides → ℕ → ℕ
observed_by [] k = 0
observed_by (m ∷ ms) k = one_if (m.bids == k) + one_if (m.asks == k) + observed_by ms k

-- An account is in the map just if it is observed, with how often.
abbrev pub entry_of : ℕ → Option ℕ
entry_of zero = none
entry_of (suc n) = some (suc n)

abbrev pub IsCounted : Markets → Type 0
IsCounted s = (k : ℕ) → get s.accounts_to_observe k ≡ entry_of (observed_by s.subscriptions k)

-- What the cleanup leaves of an entry: a count above 0.
abbrev pub kept : Option ℕ → Option ℕ
kept none = none
kept (some zero) = none
kept (some (suc n)) = some (suc n)

kept-again : (o : Option ℕ) → kept o ≡ kept (kept o)
kept-again none = refl
kept-again (some zero) = refl
kept-again (some (suc n)) = refl

-- One key of the cleanup.
abbrev pub swept : ℕ → JsMap ℕ → JsMap ℕ
swept key m = if leb (count_of m key) 0 then delete m key else m

get-swept : (m : JsMap ℕ) (key : ℕ) → get (swept key m) key ≡ kept (get m key)
unfolding count_of
get-swept m key = by_entry (get m key) refl
  where
    by_entry : (o : Option ℕ) → get m key ≡ o → get (swept key m) key ≡ kept o
    by_entry none e = rw (count_of, e) (get-delete m key)
    by_entry (some zero) e = rw (count_of, e) (get-delete m key)
    by_entry (some (suc n)) e =
        let positive : leb (suc n) 0 ≡ false = ground arith in rw (count_of, e, positive) e

get-swept_ne : (m : JsMap ℕ) (key k : ℕ) → k ≢ key → get (swept key m) k ≡ get m k
get-swept_ne m key k h = by_test (leb (count_of m key) 0)
  where
    by_test : (b : Bool) → get (if b then delete m key else m) k ≡ get m k
    by_test true = get-delete_ne m key k h
    by_test false = refl

keys-cases : (m : JsMap ℕ) (k : ℕ) → (get m k ≡ none) ⊎ Any (λ j. j ≡ k) (keys m)
keys-cases [] k = inl refl
keys-cases ((j, v) ∷ m) k = elim (Bool-cases (j == k)) [
  | inl e ↦ inr (inl (==→eq j k e))
  | inr e ↦ elim (keys-cases m k) [ inl h ↦ inl (rw e h) | inr h ↦ inr (inr h) ]
]

later :
    (j : ℕ) (ks : List ℕ) (m : JsMap ℕ) (k : ℕ)
    → j == k ≡ false
    → get (swept j m) k ≡ get m k
    → (get m k ≡ kept (get m k)) ⊎ Any (λ i. i ≡ k) (j ∷ ks)
    → (get (swept j m) k ≡ kept (get (swept j m) k)) ⊎ Any (λ i. i ≡ k) ks
later j ks m k e there (inl h) = inl (rw there h)
later j ks m k e there (inr (inl q)) = absurd (==→ne j k e q)
later j ks m k e there (inr (inr h)) = inr h

cleanup_keys-kept :
    (ks : List ℕ) (m : JsMap ℕ) (k : ℕ)
    → (get m k ≡ kept (get m k)) ⊎ Any (λ j. j ≡ k) ks
    → get (cleanup_keys ks m) k ≡ kept (get m k)
unfolding cleanup_keys
cleanup_keys-kept [] m k (inl h) = h
cleanup_keys-kept [] m k (inr h) = absurd h
cleanup_keys-kept (j ∷ ks) m k h = elim (Bool-cases (j == k)) [
  | inl e ↦
      let q : j ≡ k = ==→eq j k e in
      let here : get (swept j m) k ≡ kept (get m k) = rw (← q) (get-swept m j) in
      cleanup_keys-kept ks (swept j m) k (inl (rw here (kept-again (get m k))))
      ∙ ap kept here
      ∙ sym (kept-again (get m k))
  | inr e ↦
      let there = get-swept_ne m j k (λ q. ==→ne j k e (sym q)) in
      cleanup_keys-kept ks (swept j m) k (later j ks m k e there h) ∙ ap kept there
]

pub get-cleanup : (m : JsMap ℕ) (k : ℕ) → get (cleanup m) k ≡ kept (get m k)
unfolding cleanup
get-cleanup m k =
    cleanup_keys-kept (keys m) m k
      (elim (keys-cases m k) [ inl e ↦ inl (rw e refl) | inr h ↦ inr h ])

-- The counts above 0 are those of `f`.
abbrev pub IsKeptBy : JsMap ℕ → (ℕ → ℕ) → Type 0
IsKeptBy m f = (k : ℕ) → kept (get m k) ≡ entry_of (f k)

pub kept-entry_of : (n : ℕ) → kept (entry_of n) ≡ entry_of n
kept-entry_of zero = refl
kept-entry_of (suc n) = refl

pub entry_of-positive : (n : ℕ) → 1 ≤ n → entry_of n ≡ some n
entry_of-positive zero h = absurd (omega arith)
entry_of-positive (suc n) h = refl

pub kept-some : (n : ℕ) → kept (some n) ≡ entry_of n
kept-some zero = refl
kept-some (suc n) = refl

counted : (o : Option ℕ) (n : ℕ) → kept o ≡ entry_of n → elim o [ none ↦ 0 | some i ↦ i ] ≡ n
counted none zero h = refl
counted none (suc n) h = cc
counted (some zero) zero h = refl
counted (some zero) (suc n) h = cc
counted (some (suc i)) zero h = cc
counted (some (suc i)) (suc n) h = cc

pub count_of-kept : (m : JsMap ℕ) (f : ℕ → ℕ) (k : ℕ) → IsKeptBy m f → count_of m k ≡ f k
unfolding count_of
count_of-kept m f k h = counted (get m k) (f k) (h k)

-- The count of one key is changed.
pub set-IsKeptBy :
    (m : JsMap ℕ) (f g : ℕ → ℕ) (j n : ℕ)
    → IsKeptBy m f
    → n ≡ g j
    → ((k : ℕ) → j == k ≡ false → g k ≡ f k)
    → IsKeptBy (set m j n) g
set-IsKeptBy m f g j n h here there k = elim (Bool-cases (j == k)) [
  | inl e ↦
      let q : j ≡ k = ==→eq j k e in
      rw (← q) (ap kept (get-set m j n) ∙ kept-some n ∙ ap entry_of here)
  | inr e ↦
      ap kept (get-set_ne m j k n (λ q. ==→ne j k e (sym q))) ∙ h k ∙ ap entry_of (sym (there k e))
]
