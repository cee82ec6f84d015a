-- ===== src/Pool/Delegation/Plan.antt =====
-- The plan of delegateReserveBatch (experiment/tenderize.ts): whatever the network replies, the
-- whole amount is shared out.
use marinade_tenderize_from.Prelude.{
  ℕ, zero, suc, ◌+◌, ◌≤◌, ◌<◌, ◌≡◌, refl, none, some, inl, inr, List, [], ◌∷◌, ◌++◌, arith, length,
  All, Any, All-append, ltb, leb, ltb→lt, ltb→le, leb→le, leb→lt, ◌==◌, ==→eq,
}
use marinade_tenderize_from.Effect.{no_validator_added, left, throw_if}
use marinade_tenderize_from.Effect.Ensures.{
  Ensures, Ends, Ensures-pure, Ensures-bind, Ensures-given, Ensures-elim, Ensures-attempt,
  Ensures-throw_if, Ensures-mono,
}
use marinade_tenderize_from.Web3.{Web3, Transaction}
use marinade_tenderize_from.Pool.Types.{
  ValidatorInfo, DepositReserveValidatorParam, min_stake_account_balance,
}
use marinade_tenderize_from.Pool.Client.{Program, Session}
use marinade_tenderize_from.Pool.Client.Requests.{
  IsRequestError, Unsent, UnsentError, lift-keeps, account_info-Unsent, stake_activation-Unsent,
  get_stake_for_validator-MayFail,
}
use marinade_tenderize_from.Pool.Delegation.{
  is_current_epoch, find_current_epoch, find_free, choose_stake, take_share, share_out,
  share_reserve, total_from, ceil_div,
}
use marinade_tenderize_from.Pool.Delegation.Shares.{shortage, le-shortage, take_share_lem}

module _ {K : Type 0} where
  -- the lamports of the instructions
  unfoldable pub amounts : List (DepositReserveValidatorParam K) → ℕ
  amounts [] = 0
  amounts (d ∷ ds) = d.amount + amounts ds

  pub amounts-append :
      (ds es : List (DepositReserveValidatorParam K)) → amounts (ds ++ es) ≡ amounts ds + amounts es
  unfolding amounts
  amounts-append [] es = omega arith
  amounts-append (d ∷ ds) es = omega (arith, amounts-append ds es)

  -- The instruction gives something to a validator of the list, into one of its stakes or the next
  -- new one, and raises it to less than the minimal balance above the target.
  abbrev pub Serves : ℕ → DepositReserveValidatorParam K → ValidatorInfo K → Type 0
  Serves target d v =
      (d.address ≡ v.vote_pubkey)
      × (1 ≤ d.amount)
      × (d.stake_index ≤ v.stake_count)
      × (v.balance < target)
      × (v.balance + d.amount < target + min_stake_account_balance)

  abbrev pub IsFair : ℕ → List (ValidatorInfo K) → DepositReserveValidatorParam K → Type 0
  IsFair target vs d = Any (Serves target d) vs

module _ (w : Web3) (prog : Program w) (log : List (Transaction w.PublicKey)) where
  -- A stake that is found is one of those that were asked for.
  find_current_epoch-lt :
      (validator : w.PublicKey) (bound index rounds : ℕ)
      → index + rounds ≤ bound
      → Ensures
          (Unsent w log)
          (λ found s. (s.sent ≡ log) × ((i : ℕ) → found ≡ some i → i < bound))
          (UnsentError w log)
          (find_current_epoch w prog validator index rounds)
  unfolding find_current_epoch
  find_current_epoch-lt validator bound index zero b = Ensures-pure none (λ s h. (h, λ i e. cc))
  find_current_epoch-lt validator bound index (suc rounds) b =
      let later = find_current_epoch-lt validator bound (suc index) rounds (omega arith) in
      Ensures-bind (λ a s. Unsent w log s) _ _
        (lift-keeps w log _ (get_stake_for_validator-MayFail w prog validator index))
        λ address.
          Ensures-bind (λ d s. Unsent w log s) _ _
            (Ensures-attempt _ (stake_activation-Unsent w log address))
            (elim [
              | none ↦ later
              | some d ↦
                  Ensures-elim (is_current_epoch d) _ _
                    (λ e. Ensures-pure (some index) (λ s h. (h, λ i p. ground arith))) (λ e. later)
            ])

  -- A free index is one of those that were asked for, or the one that was at hand.
  pub find_free-le :
      (validator : w.PublicKey) (bound found index rounds : ℕ)
      → found ≤ bound
      → index + rounds ≤ bound
      → Ensures
          (Unsent w log)
          (λ i s. (s.sent ≡ log) × (i ≤ bound))
          (UnsentError w log)
          (find_free w prog validator found index rounds)
  unfolding find_free
  find_free-le validator bound found index zero f b = Ensures-pure found (λ s h. (h, f))
  find_free-le validator bound found index (suc rounds) f b =
      Ensures-bind (λ a s. Unsent w log s) _ _
        (lift-keeps w log _ (get_stake_for_validator-MayFail w prog validator index))
        λ address.
          Ensures-bind (λ a s. Unsent w log s) _ _ (account_info-Unsent w log address)
            λ account.
              find_free-le validator bound _ (suc index) rounds (ground arith) (omega arith)

  pub choose_stake-le :
      (v : ValidatorInfo w.PublicKey)
      → Ensures
          (Unsent w log)
          (λ i s. (s.sent ≡ log) × (i ≤ v.stake_count))
          (UnsentError w log)
          (choose_stake w prog v)
  unfolding choose_stake
  choose_stake-le v =
      Ensures-bind (λ found s. (s.sent ≡ log) × ((i : ℕ) → found ≡ some i → i < v.stake_count)) _ _
        (find_current_epoch-lt v.vote_pubkey v.stake_count 0 v.stake_count (omega arith))
        (elim [
          | none ↦
              Ensures-mono (Unsent w log) (λ i s. (s.sent ≡ log) × (i ≤ v.stake_count)) _
                (λ s h. h.0) (λ i s h. h)
                (find_free-le v.vote_pubkey v.stake_count v.stake_count 0 v.stake_count
                  (omega arith) (omega arith))
          | some index ↦ Ensures-pure index (λ s h. (h.0, omega (arith, h.1 index refl)))
        ])

module _ (w : Web3) (prog : Program w) (log : List (Transaction w.PublicKey)) (target total : ℕ)
    (validators : List (ValidatorInfo w.PublicKey)) where
  -- All of the amount is shared out, each part fairly.
  abbrev pub Shared : List (DepositReserveValidatorParam w.PublicKey) → Type 0
  Shared out = (amounts out ≡ total) × All (IsFair target validators) out

  share_out-total :
      (amount_left : ℕ) (out : List (DepositReserveValidatorParam w.PublicKey))
      (vs : List (ValidatorInfo w.PublicKey))
      → ((d : DepositReserveValidatorParam w.PublicKey)
          → IsFair target vs d
          → IsFair target validators d)
      → amounts out + amount_left ≡ total
      → amount_left ≤ shortage target vs
      → All (IsFair target validators) out
      → Ensures
          (Unsent w log)
          (λ r s.
            (s.sent ≡ log) × (r.0 ≡ 0) × (amounts r.1 ≡ total) × All (IsFair target validators) r.1)
          (UnsentError w log)
          (share_out w prog target amount_left out vs)
  unfolding share_out
  share_out-total amount_left out [] embed sum room fair =
      Ensures-pure _ (λ s h. (h, omega arith, omega arith, fair))
  share_out-total amount_left out (v ∷ vs) embed sum room fair =
      Ensures-elim (ltb amount_left 1) _ _
        (λ e.
          Ensures-pure _
            (λ s h. (h, omega (arith, ltb→lt _ _ e), omega (arith, ltb→lt _ _ e), fair)))
        λ more.
          Ensures-elim (leb target v.balance) _ _
            (λ e.
              share_out-total amount_left out vs (λ d h. embed d (inr h)) sum
                (omega (arith, leb→le _ _ e)) fair)
            λ below.
              let share = take_share target v.balance amount_left in
              let law =
                take_share_lem target v.balance amount_left (shortage target vs)
                  (ltb→le amount_left 1 more) (leb→lt target v.balance below) room in
              Ensures-bind (λ i s. (s.sent ≡ log) × (i ≤ v.stake_count)) _ _
                (choose_stake-le w prog log v)
                λ index. Ensures-given (index ≤ v.stake_count) _ λ low.
                  let d : DepositReserveValidatorParam w.PublicKey = record {
                    address = v.vote_pubkey;
                    amount = share.0;
                    stake_index = index;
                  } in
                  let whole = amounts-append out (d ∷ []) in
                  let served = embed d (inl (refl, law.0, low, leb→lt _ _ below, law.2)) in
                  share_out-total share.1 (out ++ (d ∷ [])) vs (λ d h. embed d (inr h))
                    (unfold amounts in omega (arith, whole, law.1, sum)) law.3
                    (All-append (IsFair target validators) out (d ∷ []) fair (served, tt))

module _ (w : Web3) (prog : Program w) (log : List (Transaction w.PublicKey)) (total : ℕ)
    (validators : List (ValidatorInfo w.PublicKey)) where
  -- the balance that no validator is to be raised above by far
  abbrev pub target_amount : ℕ
  target_amount = ceil_div (total_from 0 validators + total) (length validators)

  left_over :
      (r : ℕ × List (DepositReserveValidatorParam w.PublicKey))
      → Ensures
          (λ s.
            (s.sent ≡ log)
            × (r.0 ≡ 0)
            × (amounts r.1 ≡ total)
            × All (IsFair target_amount validators) r.1)
          (λ u s. (s.sent ≡ log) × Shared w prog log target_amount total validators r.1)
          (UnsentError w log)
          (throw_if (ltb 0 r.0) (left r.0))
  left_over r =
      Ensures-throw_if (ltb 0 r.0) (left r.0) (λ e s h. absurd (omega (arith, ltb→lt 0 r.0 e, h.1)))
        (λ e s h. (h.0, (h.2, h.3)))

  pub share_reserve-Shares :
      1 ≤ length validators
      → Ensures
          (Unsent w log)
          (λ out s. (s.sent ≡ log) × Shared w prog log target_amount total validators out)
          (UnsentError w log)
          (share_reserve w prog total validators)
  unfolding share_reserve
  share_reserve-Shares some_validator =
      Ensures-bind (λ u s. Unsent w log s) _ _
        (Ensures-throw_if (length validators == 0) no_validator_added
          (λ e s h. absurd (omega (arith, ==→eq _ _ e))) (λ e s h. h))
        λ u.
          Ensures-bind _ _ _
            (share_out-total w prog log target_amount total validators total [] validators
              (λ d h. h) (unfold amounts in omega arith)
              (le-shortage total validators some_validator) tt)
            λ r. Ensures-bind _ _ _ (left_over r) λ u. Ensures-pure r.1 (λ s h. h)

-- With a validator at least, in every session, whatever the network replies: unless a request
-- fails, the instructions hold exactly the amount, and each gives something to a validator below
-- the target, into one of its stakes or the next new one, and raises it to less than the minimal
-- balance above the target. Nothing is left over, and nothing is sent.
pub share_reserve-total :
    (w : Web3) (prog : Program w) (total : ℕ) (validators : List (ValidatorInfo w.PublicKey))
    (s : Session w)
    → 1 ≤ length validators
    → Ends
        (λ out s'.
          (s'.sent ≡ s.sent)
          × (amounts out ≡ total)
          × All
              (IsFair (ceil_div (total_from 0 validators + total) (length validators)) validators)
              out)
        (λ e s'. (s'.sent ≡ s.sent) × IsRequestError e)
        (share_reserve w prog total validators s)
share_reserve-total w prog total validators s h =
    (Ensures-mono _ _ _ (λ s' u. u) (λ out s' u. (u.0, u.1.0, u.1.1))
        (share_reserve-Shares w prog s.sent total validators h)).at
      s refl
