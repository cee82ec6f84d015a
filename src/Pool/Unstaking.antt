-- ===== src/Pool/Unstaking.antt =====
-- unstake and unstakeAll of experiment/tenderize.ts: whole stakes of a validator while the amount
-- lasts, then a part of one.
pub mod Plan
use marinade_tenderize_from.Prelude.{
  ℕ, zero, suc, ◌-◌, Bool, true, false, Option, none, some, List, [], ◌∷◌, ◌++◌, ltb, leb, ◌&&◌,
  if◌then◌else◌,
}
use marinade_tenderize_from.Effect.{pure, lift, attempt, ◌>>=◌, ◌>>◌}
use marinade_tenderize_from.Web3.{Web3, StakeActivationData, StakeState, active, activating}
use marinade_tenderize_from.Pool.Types.{ValidatorInfo, Unstake}
use marinade_tenderize_from.Pool.Client.{
  Program, Action, account_info, stake_activation, get_stake_for_validator,
}
use marinade_tenderize_from.Pool.Reading.{required, read_validators}
use marinade_tenderize_from.Pool.Sending.{send_unstakes}
use marinade_tenderize_from.Pool.Delegation.{find_free}

-- `state == 'active' || state == 'activating'`, and `state == 'active'`
abbrev pub can_stop : StakeState → Bool
can_stop active = true
can_stop activating = true
can_stop _ = false

abbrev pub can_split : StakeState → Bool
can_split active = true
can_split _ = false

-- `amountLeft === undefined || amountLeft >= stakeAmount`
abbrev pub takes_whole : Option ℕ → ℕ → Bool
takes_whole none stake_amount = true
takes_whole (some n) stake_amount = leb stake_amount n

abbrev pub minus : Option ℕ → ℕ → Option ℕ
minus none stake_amount = none
minus (some n) stake_amount = some (n - stake_amount)

-- What one stake adds: its whole, or a part into the free index.
unfoldable pub whole_stake : {K : Type 0} → K → ℕ → StakeActivationData → List (Unstake K)
whole_stake validator index d =
    if ltb 0 d.active_amount && can_stop d.state
    then record { validator = validator; source_index = index; split_index = none; amount = none }
      ∷ []
    else []

unfoldable pub split_stake :
    {K : Type 0} → K → ℕ → ℕ → Option ℕ → StakeActivationData → List (Unstake K)
split_stake validator free index amount_left d =
    if ltb 0 d.active_amount && can_split d.state
    then record {
      validator = validator;
      source_index = index;
      split_index = some free;
      amount = amount_left;
    }
      ∷ []
    else []

module _ (w : Web3) (prog : Program w) where
  open w use {PublicKey}

  -- The activation and the lamports of a stake, both asked for under `try`.
  unfoldable pub stake_status : PublicKey → Action w (StakeActivationData × ℕ)
  unfolding required
  stake_status address = do
    d ← stake_activation w address
    found ← account_info w address
    account ← required found
    pure (d, account.lamports)

  -- The loop over the stakes from `index` on. What is left of the amount shrinks by each stake that
  -- it covers; the first one that it does not cover ends the loop.
  unfoldable pub unstakes_from :
      PublicKey
      → ℕ
      → Option ℕ
      → List (Unstake PublicKey)
      → ℕ
      → ℕ
      → Action w (List (Unstake PublicKey))
  unfolding stake_status whole_stake split_stake
  unstakes_from validator free amount_left out index zero = pure out
  unstakes_from validator free amount_left out index (suc rounds) = do
    address ← lift (get_stake_for_validator w prog validator index)
    status ← attempt (stake_status address)
    elim status [
      | none ↦ unstakes_from validator free amount_left out (suc index) rounds
      | some (d, stake_amount) ↦ elim (takes_whole amount_left stake_amount) [
        | true ↦
            unstakes_from validator free (minus amount_left stake_amount)
              (out ++ whole_stake validator index d) (suc index) rounds
        | false ↦ pure (out ++ split_stake validator free index amount_left d)
      ]
    ]

  unfoldable pub plan_unstake :
      ValidatorInfo PublicKey → Option ℕ → Action w (List (Unstake PublicKey))
  unfolding unstakes_from
  plan_unstake v amount = do
    free ← find_free w prog v.vote_pubkey v.stake_count 0 v.stake_count
    unstakes_from v.vote_pubkey free amount [] 0 v.stake_count

  unfoldable pub send_all_unstakes : List (List (Unstake PublicKey)) → Action w (Unit {0})
  send_all_unstakes [] = pure tt
  send_all_unstakes (c ∷ cs) = do send_unstakes w prog c; send_all_unstakes cs

  unfoldable pub unstake : ValidatorInfo PublicKey → Option ℕ → Action w (Unit {0})
  unfolding plan_unstake send_all_unstakes
  unstake v amount = do
    unstakes ← plan_unstake v amount
    send_all_unstakes (w.chunk (Unstake PublicKey) unstakes 4)

  unfoldable pub unstake_each : List (ValidatorInfo PublicKey) → Action w (Unit {0})
  unfolding unstake
  unstake_each [] = pure tt
  unstake_each (v ∷ vs) = do unstake v none; unstake_each vs

  unfoldable pub unstake_all : Action w (Unit {0})
  unfolding unstake_each
  unstake_all = do validators ← read_validators w prog; unstake_each validators
