-- ===== src/Pool/Unstaking/Plan.antt =====
-- The plan of unstake of experiment/tenderize.ts.
use marinade_tenderize_from.Prelude.{
  ℕ, zero, suc, ◌+◌, ◌≤◌, ◌<◌, ◌≡◌, refl, sym, false, Option, none, some, ◌⊎◌, inl, inr, List, [],
  ◌∷◌, ◌++◌, map, arith, All, All-append, append-nil, ltb, Bool-cases, ◌&&◌,
}
use marinade_tenderize_from.Effect.Ensures.{
  Ensures, Ends, Ensures-pure, Ensures-bind, Ensures-attempt, Ensures-given, Ensures-mono,
  Ensures-elim, Ensures-errors,
}
use marinade_tenderize_from.Web3.{Web3, Transaction, StakeActivationData}
use marinade_tenderize_from.Pool.Types.{ValidatorInfo, Unstake}
use marinade_tenderize_from.Pool.Client.{Program, Session}
use marinade_tenderize_from.Pool.Client.Requests.{
  IsRequestError, Unsent, UnsentError, lift-keeps, stake_activation-Unsent, account_info-Unsent,
  get_stake_for_validator-MayFail,
}
use marinade_tenderize_from.Pool.Reading.Requests.{required-keeps}
use marinade_tenderize_from.Pool.Delegation.Free.{IsLastVacant, find_free-vacant}
use marinade_tenderize_from.Pool.Merging.Pairs.{IsRising}
use marinade_tenderize_from.Pool.Unstaking.{
  takes_whole, minus, can_stop, can_split, whole_stake, split_stake, stake_status, unstakes_from,
  plan_unstake,
}
use mathlib.Core.List.{map-append}

IsRising-snoc :
    (low index high : ℕ) (xs : List ℕ)
    → IsRising low index xs
    → low ≤ index
    → index < high
    → IsRising low high (xs ++ (index ∷ []))
IsRising-snoc low index high [] r l h = (l, h, tt)
IsRising-snoc low index high (x ∷ xs) (a, b, r) l h =
    (a, omega arith, IsRising-snoc (suc x) index high xs r b h)

IsRising-higher :
    (low high high' : ℕ) (xs : List ℕ) → high ≤ high' → IsRising low high xs → IsRising low high' xs
IsRising-higher low high high' [] h r = tt
IsRising-higher low high high' (x ∷ xs) h (a, b, r) =
    (a, omega arith, IsRising-higher (suc x) high high' xs h r)

module _ {K : Type 0} (validator : K) where
  -- A request to stop a whole stake.
  abbrev pub IsWhole : Unstake K → Type 0
  IsWhole u = (u.validator ≡ validator) × (u.split_index ≡ none) × (u.amount ≡ none)

  -- A request to split at most the amount that was asked for off a stake, into a free index.
  abbrev pub IsPart : ℕ → Option ℕ → Unstake K → Type 0
  IsPart free none u = ⊥
  IsPart free (some limit) u =
      (n : ℕ) × (u.validator ≡ validator)
      × (u.split_index ≡ some free)
      × (u.amount ≡ some n)
      × (n ≤ limit)

  -- Whole stakes, each once, and one part at most, which is the last.
  abbrev pub IsUnstakePlan : ℕ → ℕ → Option ℕ → List (Unstake K) → Type 0
  IsUnstakePlan free count limit out =
      (wholes : List (Unstake K)) × (part : List (Unstake K)) × (out ≡ wholes ++ part)
      × All IsWhole wholes
      × ((part ≡ []) ⊎ ((u : Unstake K) × (part ≡ u ∷ []) × IsPart free limit u))
      × IsRising 0 count (map (λ u. u.source_index) out)

  -- the amount left is at most the amount asked for
  abbrev pub IsWithin : Option ℕ → Option ℕ → Type 0
  IsWithin none none = Unit
  IsWithin (some n) (some limit) = n ≤ limit
  IsWithin _ _ = ⊥

  IsWithin-refl : (limit : Option ℕ) → IsWithin limit limit
  IsWithin-refl none = tt
  IsWithin-refl (some n) = omega arith

  IsWithin-minus : (n limit : Option ℕ) (m : ℕ) → IsWithin n limit → IsWithin (minus n m) limit
  IsWithin-minus none none m h = tt
  IsWithin-minus none (some limit) m h = h
  IsWithin-minus (some n) none m h = h
  IsWithin-minus (some n) (some limit) m h = omega arith

  whole_stake-cases :
      (index : ℕ) (d : StakeActivationData)
      → (whole_stake validator index d ≡ [])
        ⊎ ((u : Unstake K) × (whole_stake validator index d ≡ u ∷ [])
            × (u.source_index ≡ index)
            × IsWhole u)
  unfolding whole_stake
  whole_stake-cases index d = elim (Bool-cases (ltb 0 d.active_amount && can_stop d.state)) [
    | inl e ↦ rw e (inr (_, refl, refl, (refl, refl, refl)))
    | inr e ↦ rw e (inl refl)
  ]

  split_stake-cases :
      (free index : ℕ) (n limit : Option ℕ) (d : StakeActivationData)
      → IsWithin n limit
      → (amount : ℕ) → takes_whole n amount ≡ false
      → (split_stake validator free index n d ≡ [])
        ⊎ ((u : Unstake K) × (split_stake validator free index n d ≡ u ∷ [])
            × (u.source_index ≡ index)
            × IsPart free limit u)
  unfolding split_stake
  split_stake-cases free index none limit d w amount t = cc
  split_stake-cases free index (some n) none d w amount t = absurd w
  split_stake-cases free index (some n) (some limit) d w amount t =
      elim (Bool-cases (ltb 0 d.active_amount && can_split d.state)) [
        | inl e ↦ rw e (inr (_, refl, refl, (n, refl, refl, refl, w)))
        | inr e ↦ rw e (inl refl)
      ]

  -- What the loop has made so far: whole stakes below the index.
  abbrev pub IsSoFar : ℕ → List (Unstake K) → Type 0
  IsSoFar index out = All IsWhole out × IsRising 0 index (map (λ u. u.source_index) out)

  IsSoFar-whole :
      (index : ℕ) (out : List (Unstake K)) (d : StakeActivationData)
      → IsSoFar index out
      → IsSoFar (suc index) (out ++ whole_stake validator index d)
  IsSoFar-whole index out d (all, r) = elim (whole_stake-cases index d) [
    | inl e ↦ rw (e, append-nil) (all, IsRising-higher 0 index (suc index) _ (omega arith) r)
    | inr (u, e, i, h) ↦
        rw (e, map-append)
          (
            All-append IsWhole out (u ∷ []) all (h, tt),
            rw i (IsRising-snoc 0 index (suc index) _ r (omega arith) (omega arith)),
          )
  ]

  done-IsUnstakePlan :
      (free count index : ℕ) (limit : Option ℕ) (out : List (Unstake K))
      → index ≤ count
      → IsSoFar index out
      → IsUnstakePlan free count limit out
  done-IsUnstakePlan free count index limit out h (all, r) =
      (out, [], sym (append-nil out), all, inl refl, IsRising-higher 0 index count _ h r)

  split-IsUnstakePlan :
      (free count index : ℕ) (n limit : Option ℕ) (out : List (Unstake K)) (d : StakeActivationData)
      (amount : ℕ)
      → index < count
      → IsSoFar index out
      → IsWithin n limit
      → takes_whole n amount ≡ false
      → IsUnstakePlan free count limit (out ++ split_stake validator free index n d)
  split-IsUnstakePlan free count index n limit out d amount h (all, r) w t =
      elim (split_stake-cases free index n limit d w amount t) [
        | inl e ↦
            rw (e, append-nil)
              (done-IsUnstakePlan free count index limit out (omega arith) (all, r))
        | inr (u, e, i, p) ↦ rw e (
          out,
          u ∷ [],
          refl,
          all,
          inr (u, refl, p),
          rw (map-append, i) (IsRising-snoc 0 index count _ r (omega arith) h),
        )
      ]

module _ (w : Web3) (prog : Program w) (log : List (Transaction w.PublicKey)) where
  stake_status-keeps :
      (address : w.PublicKey)
      → Ensures
          (Unsent w log)
          (λ a s. Unsent w log s)
          (λ e s. Unsent w log s)
          (stake_status w prog address)
  unfolding stake_status
  stake_status-keeps address = Ensures-bind _ _ _ (stake_activation-Unsent w log address) λ d.
      Ensures-bind _ _ _
        (Ensures-errors (UnsentError w log) _ (λ e s h. h.0) (account_info-Unsent w log address))
        λ found.
          Ensures-bind _ _ _
            (Ensures-errors (UnsentError w log) _ (λ e s h. h.0) (required-keeps w prog log found))
            λ account. Ensures-pure _ (λ s h. h)

  unstakes_from-IsUnstakePlan :
      (validator : w.PublicKey) (free count : ℕ) (n limit : Option ℕ)
      (out : List (Unstake w.PublicKey)) (index rounds : ℕ)
      → index + rounds ≤ count
      → IsSoFar validator index out
      → IsWithin validator n limit
      → Ensures
          (Unsent w log)
          (λ us s. (s.sent ≡ log) × IsUnstakePlan validator free count limit us)
          (UnsentError w log)
          (unstakes_from w prog validator free n out index rounds)
  unfolding unstakes_from
  unstakes_from-IsUnstakePlan validator free count n limit out index zero h so_far within =
      Ensures-pure out
        (λ s u. (u, done-IsUnstakePlan validator free count index limit out (omega arith) so_far))
  unstakes_from-IsUnstakePlan validator free count n limit out index (suc rounds) h so_far within =
      Ensures-bind (λ a s. Unsent w log s) _ _
        (lift-keeps w log _ (get_stake_for_validator-MayFail w prog validator index))
        λ address.
          Ensures-bind (λ d s. Unsent w log s) _ _ (Ensures-attempt _ (stake_status-keeps address))
            (elim [
              | none ↦
                  unstakes_from-IsUnstakePlan validator free count n limit out (suc index) rounds
                    (omega arith)
                    (so_far.0, IsRising-higher 0 index (suc index) _ (omega arith) so_far.1) within
              | some (d, amount) ↦
                  Ensures-elim (takes_whole n amount) _ _
                    (λ e.
                      unstakes_from-IsUnstakePlan validator free count (minus n amount) limit _
                        (suc index) rounds (omega arith)
                        (IsSoFar-whole validator index out d so_far)
                        (IsWithin-minus validator n limit amount within))
                    (λ e. Ensures-pure _ (λ s u. (
                      u,
                      split-IsUnstakePlan validator free count index n limit out d amount
                          (omega arith) so_far within e,
                    )))
            ])

  plan_unstake-IsUnstakePlan :
      (v : ValidatorInfo w.PublicKey) (amount : Option ℕ)
      → Ensures
          (Unsent w log)
          (λ us s.
            (s.sent ≡ log)
            × (free : ℕ) × IsLastVacant w prog v.vote_pubkey v.stake_count v.stake_count free
            × IsUnstakePlan v.vote_pubkey free v.stake_count amount us)
          (UnsentError w log)
          (plan_unstake w prog v amount)
  unfolding plan_unstake
  plan_unstake-IsUnstakePlan v amount =
      Ensures-bind _ _ _ (find_free-vacant w prog v.vote_pubkey log v.stake_count) λ free.
        Ensures-given _ _ λ low.
          Ensures-mono (Unsent w log) _ _ (λ s h. h) (λ us s h. (h.0, free, low, h.1))
            (unstakes_from-IsUnstakePlan v.vote_pubkey free v.stake_count amount amount [] 0
              v.stake_count (omega arith) (tt, tt) (IsWithin-refl v.vote_pubkey amount))

-- In every session, whatever the network replies, the plan stops stakes of the validator, each once
-- and in order: whole ones, then at most one part, which is at most the amount asked for and goes
-- into the last one of the validator's indices that is free, or the next new one if all are taken: an
-- index is free if the network replied that there is no account at its address, or one whose owner
-- passes the comparison with the system program, and it is taken if the network replied with another
-- account. Without an amount there is no part. Nothing is sent, and only a request fails.
pub plan_unstake-shape :
    (w : Web3) (prog : Program w) (v : ValidatorInfo w.PublicKey) (amount : Option ℕ)
    (s : Session w)
    → Ends
        (λ us s'.
          (s'.sent ≡ s.sent)
          × (free : ℕ) × IsLastVacant w prog v.vote_pubkey v.stake_count v.stake_count free
          × IsUnstakePlan v.vote_pubkey free v.stake_count amount us)
        (λ e s'. (s'.sent ≡ s.sent) × IsRequestError e)
        (plan_unstake w prog v amount s)
plan_unstake-shape w prog v amount s = (plan_unstake-IsUnstakePlan w prog s.sent v amount).at s refl
