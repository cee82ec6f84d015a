-- ===== src/Pool/Reading/Requests.antt =====
-- Reading the accounts hands no transaction to the network, and fails only as a request does.
use marinade_tenderize_from.Prelude.{ℕ, zero, suc, ◌+◌, Option, none, some, List, [], ◌∷◌, arith}
use marinade_tenderize_from.Effect.{null_access}
use marinade_tenderize_from.Effect.Ensures.{Ensures, Ensures-pure, Ensures-throw, Ensures-bind}
use marinade_tenderize_from.Buffer.{Buffer, read_uint_le}
use marinade_tenderize_from.Web3.{Web3, Transaction, AccountInfo}
use marinade_tenderize_from.Pool.Client.{Program}
use marinade_tenderize_from.Pool.Client.Requests.{
  MayFail, MayFail-bind, Unsent, UnsentError, lift-keeps, account_info-Unsent,
}
use marinade_tenderize_from.Pool.Accounts.{
  parse_state, parse_validator, parse_validators_from, parse_validators, parse_creditors_from,
  parse_creditors,
}
use marinade_tenderize_from.Pool.Reading.{
  required, state_of_contents, state_of, read_state, read_validators, read_creditors,
}

read_uint_le-MayFail : (width : ℕ) (d : Buffer) (p : ℕ) → MayFail (read_uint_le width d p)
unfolding read_uint_le
read_uint_le-MayFail width d p = ground arith

module _ (w : Web3) (d : Buffer) where
  parse_state-MayFail : MayFail (parse_state w d)
  unfolding parse_state
  parse_state-MayFail = MayFail-bind _ _ (read_uint_le-MayFail 1 d 0) λ a.
      MayFail-bind _ _ (read_uint_le-MayFail 8 d 232) λ b.
        MayFail-bind _ _ (read_uint_le-MayFail 8 d 240) λ c.
          MayFail-bind _ _ (read_uint_le-MayFail 8 d 248) λ e.
            MayFail-bind _ _ (read_uint_le-MayFail 8 d 256)
              λ f. MayFail-bind _ _ (read_uint_le-MayFail 8 d 264) λ g. tt

  parse_validators_from-MayFail : (i rounds : ℕ) → MayFail (parse_validators_from w d i rounds)
  unfolding parse_validators_from parse_validator
  parse_validators_from-MayFail i zero = tt
  parse_validators_from-MayFail i (suc rounds) =
      MayFail-bind _ _
        (MayFail-bind _ _ (read_uint_le-MayFail 8 d _) λ a.
          MayFail-bind _ _ (read_uint_le-MayFail 8 d _)
            λ b. MayFail-bind _ _ (read_uint_le-MayFail 4 d _) λ c. tt)
        λ v. MayFail-bind _ _ (parse_validators_from-MayFail (suc i) rounds) λ vs. tt

  parse_creditors_from-MayFail : (p rounds : ℕ) → MayFail (parse_creditors_from w d p rounds)
  unfolding parse_creditors_from
  parse_creditors_from-MayFail p zero = tt
  parse_creditors_from-MayFail p (suc rounds) =
      MayFail-bind _ _ (read_uint_le-MayFail 8 d _)
        λ a. MayFail-bind _ _ (parse_creditors_from-MayFail (p + 32 + 32 + 8) rounds) λ cs. tt

module _ (w : Web3) (prog : Program w) (log : List (Transaction w.PublicKey)) where
  pub required-keeps :
      {A : Type 0} (o : Option A)
      → Ensures (Unsent w log) (λ a s. Unsent w log s) (UnsentError w log) (required o)
  unfolding required
  required-keeps none = Ensures-throw null_access (λ s h. (h, tt))
  required-keeps (some a) = Ensures-pure a (λ s h. h)

  pub read_validators-keeps :
      Ensures (Unsent w log) (λ vs s. Unsent w log s) (UnsentError w log) (read_validators w prog)
  unfolding read_validators parse_validators
  read_validators-keeps =
      Ensures-bind _ _ _ (account_info-Unsent w log prog.validator_stake_list_account) λ found.
        Ensures-bind _ _ _ (required-keeps found) λ account. lift-keeps w log _ (
          MayFail-bind _ _ (read_uint_le-MayFail 2 account.contents 1)
            λ count. parse_validators_from-MayFail w account.contents 0 count)

  state_of_contents-keeps :
      (d : List ℕ)
      → Ensures
          (Unsent w log)
          (λ a s. Unsent w log s)
          (UnsentError w log)
          (state_of_contents w prog d)
  unfolding state_of_contents
  state_of_contents-keeps [] = Ensures-pure none (λ s h. h)
  state_of_contents-keeps (b ∷ bs) =
      Ensures-bind _ _ _ (lift-keeps w log _ (parse_state-MayFail w (b ∷ bs)))
        λ state. Ensures-pure (some state) (λ s h. h)

  state_of-keeps :
      (o : Option AccountInfo)
      → Ensures (Unsent w log) (λ a s. Unsent w log s) (UnsentError w log) (state_of w prog o)
  unfolding state_of
  state_of-keeps none = Ensures-pure none (λ s h. h)
  state_of-keeps (some account) = state_of_contents-keeps account.contents

  pub read_state-keeps :
      Ensures (Unsent w log) (λ vs s. Unsent w log s) (UnsentError w log) (read_state w prog)
  unfolding read_state
  read_state-keeps = Ensures-bind _ _ _ (account_info-Unsent w log prog.stake_pool) state_of-keeps

  pub read_creditors-keeps :
      Ensures (Unsent w log) (λ vs s. Unsent w log s) (UnsentError w log) (read_creditors w prog)
  unfolding read_creditors parse_creditors
  read_creditors-keeps = Ensures-bind _ _ _ read_state-keeps λ found_state.
      Ensures-bind _ _ _ (required-keeps found_state) λ state.
        Ensures-bind _ _ _ (account_info-Unsent w log state.credit_list) λ found.
          Ensures-bind _ _ _ (required-keeps found) λ account. lift-keeps w log _ (
            MayFail-bind _ _ (read_uint_le-MayFail 2 account.contents 1)
              λ count. parse_creditors_from-MayFail w account.contents 3 count)
