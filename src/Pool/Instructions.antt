-- ===== src/Pool/Instructions.antt =====
-- The instructions with a payload of fixed size (experiment/tenderize.ts): the bytes that the
-- on-chain program reads, and the accounts that it is given.
use marinade_tenderize_from.Prelude.{ℕ, ℤ, pos, negsuc, suc, ◌+◌, Bool, true, false, List, [], ◌∷◌}
use marinade_tenderize_from.Effect.{Result, ok, err, bad_cast}
use marinade_tenderize_from.Buffer.{
  Buffer, ◌>>=◌, alloc, write_uint8, write_big_uint64_le, write_big_int64_le,
}
use marinade_tenderize_from.Web3.{Web3, AccountMeta, TransactionInstruction}
use marinade_tenderize_from.Pool.Types.{
  CreateStakePoolParams, DepositParams, WithdrawParams, CreditParams, CancelAuthority, key, account,
  signer, writable, readonly, signer_writable,
}
use marinade_tenderize_from.Pool.Client.{Program, get_reserve_address, get_withdraw_authority}

-- An opcode alone, and an opcode with a number of eight bytes.
unfoldable pub opcode_payload : ℕ → Result Buffer
opcode_payload opcode = do (p, d) ← write_uint8 opcode 0 (alloc 1); ok d

unfoldable pub amount_payload : ℕ → ℤ → Result Buffer
amount_payload opcode amount = do
  (p, d) ← write_uint8 opcode 0 (alloc (1 + 8))
  (p', d') ← write_big_int64_le amount p d
  ok d'

-- `cancelAuthority as PublicKey` for an amount that is not negative, `(cancelAuthority as
-- Account).publicKey` for a negative one. The other kind of value gives no key.
unfoldable pub cancel_key : {K : Type 0} → ℤ → CancelAuthority K → Result K
cancel_key (pos n) (key k) = ok k
cancel_key (pos n) (account k) = err bad_cast
cancel_key (negsuc n) (key k) = err bad_cast
cancel_key (negsuc n) (account k) = ok k

abbrev pub credit_opcode : ℤ → ℕ
credit_opcode (pos n) = 10
credit_opcode (negsuc n) = 11

-- Math.abs(amount), and amount < 0
abbrev pub magnitude : ℤ → ℕ
magnitude (pos n) = n
magnitude (negsuc n) = suc n

abbrev pub is_negative : ℤ → Bool
is_negative (pos n) = false
is_negative (negsuc n) = true

module _ (w : Web3) (prog : Program w) where
  open w use {
    PublicKey, system_program, stake_program, spl_token_program, sysvar_clock, sysvar_rent,
    sysvar_stake_history,
  }

  abbrev pub instruction : List (AccountMeta PublicKey) → Buffer → TransactionInstruction PublicKey
  instruction ks d = record { program_id = prog.program_account; keys = ks; payload = d }

  unfoldable pub create_stake_pool_instruction :
      CreateStakePoolParams → Result (TransactionInstruction PublicKey)
  create_stake_pool_instruction params = do
    (p, d) ← write_uint8 0 0 (alloc (1 + 8 + 8))
    (p', d') ← write_big_uint64_le params.fee_denominator p d
    (p'', d'') ← write_big_uint64_le params.fee_numerator p' d'
    ok (
        instruction
          (writable prog.stake_pool
            ∷ signer prog.owner
            ∷ writable prog.validator_stake_list_account
            ∷ writable prog.credit_list_account
            ∷ readonly prog.pool_mint_token
            ∷ readonly prog.owners_fee
            ∷ writable prog.credit_reserve
            ∷ readonly sysvar_clock
            ∷ readonly sysvar_rent
            ∷ readonly spl_token_program
            ∷ [])
          d'')

  unfoldable pub add_validator_instruction : PublicKey → Result (TransactionInstruction PublicKey)
  unfolding opcode_payload
  add_validator_instruction validator = do
    d ← opcode_payload 2
    ok (
        instruction
          (readonly prog.stake_pool
            ∷ signer prog.owner
            ∷ writable prog.validator_stake_list_account
            ∷ readonly validator
            ∷ readonly sysvar_clock
            ∷ [])
          d)

  unfoldable pub remove_validator_instruction :
      PublicKey → Result (TransactionInstruction PublicKey)
  unfolding opcode_payload
  remove_validator_instruction validator = do
    d ← opcode_payload 3
    ok (
        instruction
          (readonly prog.stake_pool
            ∷ signer prog.owner
            ∷ writable prog.validator_stake_list_account
            ∷ readonly validator
            ∷ readonly sysvar_clock
            ∷ [])
          d)

  unfoldable pub deposit_instruction :
      DepositParams PublicKey → Result (TransactionInstruction PublicKey)
  unfolding amount_payload
  deposit_instruction params = do
    d ← amount_payload 6 params.amount
    ok (
        instruction
          (writable prog.stake_pool
            ∷ readonly (get_withdraw_authority w prog)
            ∷ writable (get_reserve_address w prog)
            ∷ signer_writable params.user_source
            ∷ writable params.user_token
            ∷ writable prog.owners_fee
            ∷ writable prog.pool_mint_token
            ∷ readonly sysvar_rent
            ∷ readonly system_program
            ∷ readonly spl_token_program
            ∷ [])
          d)

  unfoldable pub withdraw_instruction :
      WithdrawParams PublicKey → Result (TransactionInstruction PublicKey)
  unfolding amount_payload
  withdraw_instruction params = do
    d ← amount_payload 7 params.amount
    ok (
        instruction
          (writable prog.stake_pool
            ∷ readonly (get_withdraw_authority w prog)
            ∷ writable (get_reserve_address w prog)
            ∷ writable params.user_token_source
            ∷ writable prog.pool_mint_token
            ∷ writable params.user_sol_target
            ∷ readonly sysvar_rent
            ∷ readonly system_program
            ∷ readonly spl_token_program
            ∷ [])
          d)

  unfoldable pub credit_instruction :
      CreditParams PublicKey → Result (TransactionInstruction PublicKey)
  unfolding amount_payload
  credit_instruction params = do
    d ← amount_payload (credit_opcode params.amount) (pos (magnitude params.amount))
    cancel ← cancel_key params.amount params.cancel_authority
    ok (
        instruction
          (writable prog.stake_pool
            ∷ writable prog.credit_list_account
            ∷ writable prog.credit_reserve
            ∷ readonly (get_withdraw_authority w prog)
            ∷ writable params.user_token_source
            ∷ readonly params.user_sol_target
            ∷ record { pubkey = cancel; is_signer = is_negative params.amount; is_writable = false }
            ∷ readonly spl_token_program
            ∷ [])
          d)

  unfoldable pub update_pool_balance_instruction : Result (TransactionInstruction PublicKey)
  unfolding opcode_payload
  update_pool_balance_instruction = do
    d ← opcode_payload 5
    ok (
        instruction
          (writable prog.stake_pool
            ∷ readonly prog.validator_stake_list_account
            ∷ readonly (get_reserve_address w prog)
            ∷ readonly sysvar_clock
            ∷ [])
          d)
