-- ===== src/Pool/Delegation.antt =====
-- delegateReserveBatch of experiment/tenderize.ts: the reserve's lamports are shared out over the
-- validators, and sent in batches of four.
pub mod Shares
pub mod Plan
pub mod Free
pub mod Batch
use marinade_tenderize_from.Prelude.{
  ℕ, zero, suc, ◌+◌, ◌-◌, ◌/◌, min, Bool, true, false, Option, none, some, List, [], ◌∷◌, ◌++◌, map,
  ltb, leb, ◌==◌, ◌&&◌, if◌then◌else◌, length,
}
use marinade_tenderize_from.Effect.{
  M, pure, throw_if, lift, attempt, ◌>>=◌, ◌>>◌, too_low_delegation, no_validator_added, left,
}
use marinade_tenderize_from.Web3.{
  Web3, AccountInfo, StakeActivationData, StakeState, active, inactive, activating, deactivating,
}
use marinade_tenderize_from.Pool.Types.{
  ValidatorInfo, DepositReserveValidatorParam, min_stake_account_balance,
}
use marinade_tenderize_from.Pool.Client.{
  Program, Action, account_info, stake_activation, get_stake_for_validator,
}
use marinade_tenderize_from.Pool.Reading.{read_validators}
use marinade_tenderize_from.Pool.Sending.{delegate_reserve}

-- `stakeData.state == 'activating' && stakeData.active == 0`
unfoldable pub is_current_epoch : StakeActivationData → Bool
is_current_epoch d = elim d.state [ activating ↦ d.active_amount == 0 | _ ↦ false ]

-- `!stakeAccount || stakeAccount.owner == SystemProgram.programId`
unfoldable pub is_free : Option AccountInfo → Bool
is_free none = true
is_free (some account) = account.owner_is_system

-- The sum of the balances, from the left.
unfoldable pub total_from : {K : Type 0} → ℕ → List (ValidatorInfo K) → ℕ
total_from acc [] = acc
total_from acc (v ∷ vs) = total_from (acc + v.balance) vs

-- Math.ceil(total / count)
unfoldable pub ceil_div : ℕ → ℕ → ℕ
ceil_div total count = (total + (count - 1)) / count

-- What a validator below the target gets of `amount_left`, and what is left then: less than the
-- minimal balance of a stake account is added to the share.
unfoldable pub take_share : ℕ → ℕ → ℕ → ℕ × ℕ
take_share target balance amount_left =
    let amount = min (target - balance) amount_left in
    let rest = amount_left - amount in
    if ltb rest min_stake_account_balance then (amount + rest, 0) else (amount, rest)

module _ (w : Web3) (prog : Program w) where
  open w use {PublicKey}

  -- The first stake from `index` on, of `rounds` many, that was made in this epoch. A failing
  -- request counts as none.
  unfoldable pub find_current_epoch : PublicKey → ℕ → ℕ → Action w (Option ℕ)
  unfolding is_current_epoch
  find_current_epoch validator index zero = pure none
  find_current_epoch validator index (suc rounds) = do
    address ← lift (get_stake_for_validator w prog validator index)
    data? ← attempt (stake_activation w address)
    elim data? [
      | none ↦ find_current_epoch validator (suc index) rounds
      | some d ↦ elim (is_current_epoch d) [
        | true ↦ pure (some index)
        | false ↦ find_current_epoch validator (suc index) rounds
      ]
    ]

  -- `firstFreeIndex`: it is overwritten at each free index, so the last one remains.
  unfoldable pub find_free : PublicKey → ℕ → ℕ → ℕ → Action w ℕ
  unfolding is_free
  find_free validator found index zero = pure found
  find_free validator found index (suc rounds) = do
    address ← lift (get_stake_for_validator w prog validator index)
    account ← account_info w address
    find_free validator (if is_free account then index else found) (suc index) rounds

  unfoldable pub choose_stake : ValidatorInfo PublicKey → Action w ℕ
  unfolding find_current_epoch find_free
  choose_stake v = do
    current ← find_current_epoch v.vote_pubkey 0 v.stake_count
    elim current [
      | none ↦ find_free v.vote_pubkey v.stake_count 0 v.stake_count
      | some index ↦ pure index
    ]

  -- `for (const validator of validators)`: the amount that is left, and the instructions so far.
  unfoldable pub share_out :
      ℕ
      → ℕ
      → List (DepositReserveValidatorParam PublicKey)
      → List (ValidatorInfo PublicKey)
      → Action w (ℕ × List (DepositReserveValidatorParam PublicKey))
  share_out target amount_left out [] = pure (amount_left, out)
  share_out target amount_left out (v ∷ vs) = elim (ltb amount_left 1) [
    | true ↦ pure (amount_left, out)
    | false ↦ elim (leb target v.balance) [
      | true ↦ share_out target amount_left out vs
      | false ↦ do
        let share = take_share target v.balance amount_left
        index ← choose_stake v
        share_out target share.1
            (out
              ++ (record { address = v.vote_pubkey; amount = share.0; stake_index = index } ∷ []))
            vs
    ]
  ]

  -- The instructions for the validators that were read. An amount that is left over is an error.
  unfoldable pub share_reserve :
      ℕ → List (ValidatorInfo PublicKey) → Action w (List (DepositReserveValidatorParam PublicKey))
  share_reserve total_amount validators = do
    throw_if (length validators == 0) no_validator_added
    let target = ceil_div (total_from 0 validators + total_amount) (length validators)
    result ← share_out target total_amount [] validators
    throw_if (ltb 0 result.0) (left result.0)
    pure result.1

  unfoldable pub plan_delegation : ℕ → Action w (List (DepositReserveValidatorParam PublicKey))
  unfolding share_reserve
  plan_delegation total_amount = do
    throw_if (ltb total_amount min_stake_account_balance) too_low_delegation
    validators ← read_validators w prog
    share_reserve total_amount validators

  unfoldable pub send_delegations :
      List (List (DepositReserveValidatorParam PublicKey)) → Action w (Unit {0})
  send_delegations [] = pure tt
  send_delegations (c ∷ cs) = do delegate_reserve w prog c; send_delegations cs

  unfoldable pub delegate_reserve_batch : ℕ → Action w (Unit {0})
  unfolding plan_delegation send_delegations
  delegate_reserve_batch total_amount = do
    instructions ← plan_delegation total_amount
    send_delegations (w.chunk (DepositReserveValidatorParam PublicKey) instructions 4)
