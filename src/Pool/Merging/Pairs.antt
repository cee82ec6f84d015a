-- ===== src/Pool/Merging/Pairs.antt =====
-- The pairs that mergeAllStakes of experiment/tenderize.ts makes.
use marinade_tenderize_from.Prelude.{
  ℕ, zero, suc, ◌+◌, ◌-◌, ◌≤◌, ◌<◌, ◌≡◌, refl, true, false, Option, none, some, inl, inr, List, [],
  ◌∷◌, arith, length, get_elem?, All, Any, All-append, All-map,
}
use marinade_tenderize_from.Effect.Ensures.{
  Ensures, Ends, Ensures-pure, Ensures-bind, Ensures-attempt, Ensures-given,
}
use marinade_tenderize_from.Web3.{Web3, Transaction, StakeActivationData}
use marinade_tenderize_from.Pool.Types.{ValidatorInfo, StakePair}
use marinade_tenderize_from.Pool.Client.{Program, Session}
use marinade_tenderize_from.Pool.Client.Requests.{
  IsRequestError, Unsent, UnsentError, lift-keeps, stake_activation-Unsent,
  get_stake_for_validator-MayFail,
}
use marinade_tenderize_from.Pool.Merging.{
  is_active, merge_indices, pairs_down, pair_at, stake_pairs,
}

-- Indices that rise, from `low` on and below `high`.
abbrev pub IsRising : ℕ → ℕ → List ℕ → Type 0
IsRising low high [] = Unit
IsRising low high (x ∷ xs) = (low ≤ x) × (x < high) × IsRising (suc x) high xs

IsRising-lower :
    (low low' high : ℕ) (xs : List ℕ) → low' ≤ low → IsRising low high xs → IsRising low' high xs
IsRising-lower low low' high [] h r = tt
IsRising-lower low low' high (x ∷ xs) h (a, b, r) = (omega arith, b, r)

IsRising-get_elem? :
    (low high i y : ℕ) (xs : List ℕ)
    → IsRising low high xs
    → get_elem? xs i ≡ some y
    → (low ≤ y) × (y < high)
IsRising-get_elem? low high i y [] r e = cc
IsRising-get_elem? low high zero y (x ∷ xs) r e = ground arith
IsRising-get_elem? low high (suc i) y (x ∷ xs) r e =
    omega (arith, IsRising-get_elem? (suc x) high i y xs r.2 e)

module _ {K : Type 0} where
  -- Two stakes of one validator, the lower index first.
  abbrev pub IsMerge : K → ℕ → StakePair K → Type 0
  IsMerge validator count p =
      (p.validator ≡ validator) × (p.main_index < p.additional_index) × (p.additional_index < count)

  pair_at-IsMerge :
      (validator : K) (x count i : ℕ) (xs : List ℕ) (o : Option ℕ)
      → IsRising (suc x) count xs
      → get_elem? xs i ≡ o
      → All (IsMerge validator count) (pair_at validator (some x) o)
  pair_at-IsMerge validator x count i xs none r e = tt
  pair_at-IsMerge validator x count i xs (some y) r e =
      let bounds = IsRising-get_elem? (suc x) count i y xs r e in ((refl, bounds.0, bounds.1), tt)

  pairs_down-IsMerge :
      (validator : K) (count x : ℕ) (xs : List ℕ) (i : ℕ)
      → IsRising (suc x) count xs
      → All (IsMerge validator count) (pairs_down validator (x ∷ xs) i)
  unfolding pairs_down
  pairs_down-IsMerge validator count x xs zero r = tt
  pairs_down-IsMerge validator count x xs (suc i) r =
      All-append (IsMerge validator count) _ _
        (pair_at-IsMerge validator x count i xs (get_elem? xs i) r refl)
        (pairs_down-IsMerge validator count x xs i r)

  -- All pairs of a validator's rising indices.
  validator_pairs-IsMerge :
      (validator : K) (count : ℕ) (indices : List ℕ)
      → IsRising 0 count indices
      → All (IsMerge validator count) (pairs_down validator indices (length indices - 1))
  validator_pairs-IsMerge validator count [] r = unfold pairs_down in tt
  validator_pairs-IsMerge validator count (x ∷ xs) r =
      pairs_down-IsMerge validator count x xs (length (x ∷ xs) - 1) r.2

module _ (w : Web3) (prog : Program w) (log : List (Transaction w.PublicKey)) where
  pick_active-IsRising :
      (index high : ℕ) (rest : List ℕ) (data? : Option StakeActivationData)
      → index < high
      → IsRising (suc index) high rest
      → IsRising index high (elim data? [
        | none ↦ rest
        | some d ↦ elim (is_active d) [ true ↦ index ∷ rest | false ↦ rest ]
      ])
  pick_active-IsRising index high rest none h r =
      IsRising-lower (suc index) index high rest (omega arith) r
  pick_active-IsRising index high rest (some d) h r =
      elim (is_active d)
        as (λ b. IsRising index high (elim b [ true ↦ index ∷ rest | false ↦ rest ])) [
          | true ↦ (omega arith, h, r)
          | false ↦ IsRising-lower (suc index) index high rest (omega arith) r
        ]

  merge_indices-IsRising :
      (validator : w.PublicKey) (high index rounds : ℕ)
      → index + rounds ≤ high
      → Ensures
          (Unsent w log)
          (λ is s. (s.sent ≡ log) × IsRising index high is)
          (UnsentError w log)
          (merge_indices w prog validator index rounds)
  unfolding merge_indices
  merge_indices-IsRising validator high index zero h = Ensures-pure [] (λ s u. (u, tt))
  merge_indices-IsRising validator high index (suc rounds) h =
      Ensures-bind (λ a s. Unsent w log s) _ _
        (lift-keeps w log _ (get_stake_for_validator-MayFail w prog validator index))
        λ address.
          Ensures-bind (λ d s. Unsent w log s) _ _
            (Ensures-attempt _ (stake_activation-Unsent w log address))
            λ data?.
              Ensures-bind _ _ _
                (merge_indices-IsRising validator high (suc index) rounds (omega arith))
                λ rest.
                  Ensures-pure _
                    (λ s u. (u.0, pick_active-IsRising index high rest data? (omega arith) u.1))

  -- The pair is a merge of two stakes of a validator of the list.
  abbrev pub MergesIn : List (ValidatorInfo w.PublicKey) → StakePair w.PublicKey → Type 0
  MergesIn vs p = Any (λ v. IsMerge v.vote_pubkey v.stake_count p) vs

  stake_pairs-MergesIn :
      (vs : List (ValidatorInfo w.PublicKey))
      → Ensures
          (Unsent w log)
          (λ ps s. (s.sent ≡ log) × All (MergesIn vs) ps)
          (UnsentError w log)
          (stake_pairs w prog vs)
  unfolding stake_pairs
  stake_pairs-MergesIn [] = Ensures-pure [] (λ s u. (u, tt))
  stake_pairs-MergesIn (v ∷ vs) =
      Ensures-bind _ _ _
        (merge_indices-IsRising v.vote_pubkey v.stake_count 0 v.stake_count (omega arith))
        λ indices. Ensures-given (IsRising 0 v.stake_count indices) _ λ r.
          Ensures-bind _ _ _ (stake_pairs-MergesIn vs) λ rest. Ensures-pure _ (λ s u. (
            u.0,
            All-append (MergesIn (v ∷ vs)) _ rest
                (All-map (IsMerge v.vote_pubkey v.stake_count) (MergesIn (v ∷ vs)) (λ p m. inl m) _
                  (validator_pairs-IsMerge v.vote_pubkey v.stake_count indices r))
                (All-map (MergesIn vs) (MergesIn (v ∷ vs)) (λ p m. inr m) rest u.1),
          ))

-- In every session, whatever the network replies, each pair joins two different stakes that one of
-- the validators has, the lower index first; nothing is sent, and only a request fails.
pub stake_pairs-IsMerge :
    (w : Web3) (prog : Program w) (vs : List (ValidatorInfo w.PublicKey)) (s : Session w)
    → Ends
        (λ ps s'.
          (s'.sent ≡ s.sent) × All (λ p. Any (λ v. IsMerge v.vote_pubkey v.stake_count p) vs) ps)
        (λ e s'. (s'.sent ≡ s.sent) × IsRequestError e)
        (stake_pairs w prog vs s)
stake_pairs-IsMerge w prog vs s = (stake_pairs-MergesIn w prog s.sent vs).at s refl
