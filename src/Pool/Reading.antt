-- ===== src/Pool/Reading.antt =====
-- The requests that read the pool's accounts (experiment/tenderize.ts): readState, readValidators
-- and readCreditors. The callback of readState, which no caller passes, is left out.
pub mod Requests
use marinade_tenderize_from.Prelude.{ℕ, Option, none, some, List, [], ◌∷◌}
use marinade_tenderize_from.Effect.{null_access, M, pure, throw, lift, ◌>>=◌}
use marinade_tenderize_from.Web3.{Web3, AccountInfo}
use marinade_tenderize_from.Pool.Types.{State, ValidatorInfo, Creditor}
use marinade_tenderize_from.Pool.Client.{Program, Action, account_info}
use marinade_tenderize_from.Pool.Accounts.{parse_state, parse_validators, parse_creditors}

-- `value!.field`: a TypeError where there is no value
unfoldable pub required : {S A : Type 0} → Option A → M S A
required none = throw null_access
required (some a) = pure a

module _ (w : Web3) (prog : Program w) where
  open w use {PublicKey}

  -- An account with no contents is as good as none.
  unfoldable pub state_of_contents : List ℕ → Action w (Option (State PublicKey))
  state_of_contents [] = pure none
  state_of_contents (b ∷ bs) = do state ← lift (parse_state w (b ∷ bs)); pure (some state)

  unfoldable pub state_of : Option AccountInfo → Action w (Option (State PublicKey))
  unfolding state_of_contents
  state_of none = pure none
  state_of (some account) = state_of_contents account.contents

  unfoldable pub read_state : Action w (Option (State PublicKey))
  unfolding state_of
  read_state = do account ← account_info w prog.stake_pool; state_of account

  unfoldable pub read_validators : Action w (List (ValidatorInfo PublicKey))
  unfolding required
  read_validators = do
    found ← account_info w prog.validator_stake_list_account
    account ← required found
    lift (parse_validators w account.contents)

  unfoldable pub read_creditors : Action w (List (Creditor PublicKey))
  unfolding required
  read_creditors = do
    found_state ← read_state
    state ← required found_state
    found ← account_info w state.credit_list
    account ← required found
    lift (parse_creditors w account.contents)
