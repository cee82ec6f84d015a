-- ===== src/Pool/Sending.antt =====
-- The methods that send one transaction (experiment/tenderize.ts). Each builds its instruction, puts
-- it into a transaction with its signers, and waits for the confirmation.
pub mod Rule
use marinade_tenderize_from.Prelude.{
  ℕ, zero, suc, ◌+◌, ◌*◌, Bool, true, false, Option, List, [], ◌∷◌, ◌++◌, ltb, leb, ◌||◌, ◌&&◌,
  ◌==◌, if◌then◌else◌, length,
}
use marinade_tenderize_from.Effect.{Result, M, pure, lift, ◌>>=◌, ◌>>◌}
use marinade_tenderize_from.Web3.{
  Web3, TransactionInstruction, AccountMeta, Instruction, call, create_account,
}
use marinade_tenderize_from.Pool.Types.{
  CreateStakePoolParams, DepositParams, WithdrawParams, CreditParams, DepositReserveValidatorParam,
  StakePair, Unstake, ValidatorInfo, Creditor, writable, readonly,
}
use marinade_tenderize_from.Pool.Client.{
  Program, Action, get_reserve_address, get_withdraw_authority, rent_exemption, send_and_confirm,
}
use marinade_tenderize_from.Pool.Instructions.{
  create_stake_pool_instruction, add_validator_instruction, remove_validator_instruction,
  deposit_instruction, withdraw_instruction, credit_instruction, cancel_key, is_negative,
  update_pool_balance_instruction, instruction, opcode_payload,
}
use marinade_tenderize_from.Pool.Batches.{
  delegate_reserve_instruction, merge_stakes_instruction, unstake_instruction,
  update_list_balance_instruction,
}
use marinade_tenderize_from.Pool.Reading.{required, read_state, read_creditors}

-- The sizes of the three accounts of a pool.
abbrev pub stake_pool_length : ℕ
stake_pool_length = 1000 + 4 + 32 + 4 + 4 + 32 + 32 + 32 + 8 + 8 + 8 + 2 * 8

abbrev pub validator_stake_list_length : ℕ
validator_stake_list_length = 60000 + 4 + 4 + 1000 * (32 + 8 + 8)

abbrev pub credit_list_length : ℕ
credit_list_length = 5 + 10000 * (32 + 32 + 32)

module _ (w : Web3) (prog : Program w) where
  open w use {PublicKey, system_program, spl_token_program, sysvar_clock, sysvar_rent}

  -- A transaction of one instruction.
  unfoldable pub send :
      Result (TransactionInstruction PublicKey) → List PublicKey → Action w (Unit {0})
  send built signers = do
    ix ← lift built
    send_and_confirm w (record { instructions = call ix ∷ []; signers = signers })

  -- SystemProgram.createAccount, paid by the payer, for an account of this size
  unfoldable pub new_account : PublicKey → ℕ → Action w (Instruction PublicKey)
  new_account account size = do
    rent ← rent_exemption w size
    pure (
        create_account (record {
          from_pubkey = prog.payer_account;
          new_account_pubkey = account;
          lamports = rent;
          space = size;
          program_id = prog.program_account;
        }))

  unfoldable pub create_stake_pool : CreateStakePoolParams → Action w (Unit {0})
  unfolding new_account
  create_stake_pool params = do
    pool ← new_account prog.stake_pool stake_pool_length
    validators ← new_account prog.validator_stake_list_account validator_stake_list_length
    credits ← new_account prog.credit_list_account credit_list_length
    ix ← lift (create_stake_pool_instruction w prog params)
    send_and_confirm w (record {
      instructions = pool ∷ validators ∷ credits ∷ call ix ∷ [];
      signers =
          prog.payer_account ∷ prog.owner ∷ prog.stake_pool ∷ prog.validator_stake_list_account
          ∷ prog.credit_list_account ∷ [];
    })

  unfoldable pub add_validator : PublicKey → Action w (Unit {0})
  unfolding send
  add_validator validator =
      send (add_validator_instruction w prog validator) (prog.payer_account ∷ prog.owner ∷ [])

  unfoldable pub remove_validator : PublicKey → Action w (Unit {0})
  unfolding send
  remove_validator validator =
      send (remove_validator_instruction w prog validator) (prog.payer_account ∷ prog.owner ∷ [])

  unfoldable pub deposit : DepositParams PublicKey → Action w (Unit {0})
  unfolding send
  deposit params = send (deposit_instruction w prog params) (prog.payer_account ∷ [])

  unfoldable pub withdraw : WithdrawParams PublicKey → Action w (Unit {0})
  unfolding send
  withdraw params = send (withdraw_instruction w prog params) (prog.payer_account ∷ [])

  -- `signatures.push(params.cancelAuthority as Account)` for a negative amount
  unfoldable pub credit : CreditParams PublicKey → Action w (Unit {0})
  unfolding send
  credit params = do
    ix ← lift (credit_instruction w prog params)
    cancel ← lift (cancel_key params.amount params.cancel_authority)
    send_and_confirm w (record {
      instructions = call ix ∷ [];
      signers = prog.payer_account ∷ (if is_negative params.amount then cancel ∷ [] else []);
    })

  unfoldable pub delegate_reserve :
      List (DepositReserveValidatorParam PublicKey) → Action w (Unit {0})
  unfolding send
  delegate_reserve validators =
      send (delegate_reserve_instruction w prog validators) (prog.payer_account ∷ prog.owner ∷ [])

  -- No transaction for an empty batch.
  unfoldable pub merge_stakes : List (StakePair PublicKey) → Action w (Unit {0})
  unfolding send
  merge_stakes [] = pure tt
  merge_stakes (s ∷ ss) = send (merge_stakes_instruction w prog (s ∷ ss)) (prog.payer_account ∷ [])

  unfoldable pub send_unstakes : List (Unstake PublicKey) → Action w (Unit {0})
  unfolding send
  send_unstakes unstakes =
      send (unstake_instruction w prog unstakes) (prog.payer_account ∷ prog.owner ∷ [])

  unfoldable pub update_list_balance : List (ValidatorInfo PublicKey) → Action w (Unit {0})
  unfolding send
  update_list_balance validators =
      send (update_list_balance_instruction w prog validators) (prog.payer_account ∷ [])

  unfoldable pub update_pool_balance : Action w (Unit {0})
  unfolding send
  update_pool_balance = send (update_pool_balance_instruction w prog) (prog.payer_account ∷ [])

  -- The accounts of the first `max_count` creditors, of all of them for 0.
  unfoldable pub creditor_keys : ℕ → ℕ → List (Creditor PublicKey) → List (AccountMeta PublicKey)
  creditor_keys max_count i [] = []
  creditor_keys max_count i (c ∷ cs) =
      let rest = writable c.target ∷ creditor_keys max_count (suc i) cs in
      if leb max_count 0 || ltb i max_count then rest else []

  unfoldable pub pay_creditors_instruction : ℕ → Action w (TransactionInstruction PublicKey)
  unfolding creditor_keys opcode_payload
  pay_creditors_instruction max_count = do
    d ← lift (opcode_payload 15)
    found ← read_state w prog
    state ← required found
    creditors ← read_creditors w prog
    pure (
        instruction w prog
          (writable prog.stake_pool
            ∷ writable prog.credit_list_account
            ∷ readonly (get_withdraw_authority w prog)
            ∷ writable (get_reserve_address w prog)
            ∷ writable state.credit_reserve
            ∷ writable prog.pool_mint_token
            ∷ readonly sysvar_rent
            ∷ readonly sysvar_clock
            ∷ readonly system_program
            ∷ readonly spl_token_program
            ∷ creditor_keys max_count 0 creditors)
          d)

  unfoldable pub pay_creditors : ℕ → Action w (Unit {0})
  unfolding pay_creditors_instruction
  pay_creditors max_count = do
    ix ← pay_creditors_instruction max_count
    send_and_confirm w (record { instructions = call ix ∷ []; signers = prog.payer_account ∷ [] })
