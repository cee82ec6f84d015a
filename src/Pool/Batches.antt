-- ===== src/Pool/Batches.antt =====
-- The instructions that carry a batch (experiment/tenderize.ts): delegateReserveInstruction,
-- mergeStakesInstruction, unstakeInstruction and updateListBalanceInstruction. Each loop over the
-- batch writes the payload from the offset `p` on and pushes the accounts.
use marinade_tenderize_from.Prelude.{
  ℕ, zero, suc, ◌+◌, ◌*◌, Option, none, some, List, [], ◌∷◌, ◌++◌, length,
}
use marinade_tenderize_from.Effect.{Result, ok}
use marinade_tenderize_from.Buffer.{
  Buffer, ◌>>=◌, alloc, copy, write_uint8, write_uint32_le, write_big_uint64_le,
}
use marinade_tenderize_from.Web3.{Web3, AccountMeta, TransactionInstruction}
use marinade_tenderize_from.Pool.Types.{
  DepositReserveValidatorParam, StakePair, Unstake, ValidatorInfo, signer, writable, readonly,
  signer_writable,
}
use marinade_tenderize_from.Pool.Client.{
  Program, get_reserve_address, get_deposit_authority, get_withdraw_authority,
  get_stake_for_validator,
}
use marinade_tenderize_from.Pool.Instructions.{instruction, opcode_payload}

-- `value || fallback` on numbers: 0 counts as absent.
unfoldable pub or_else : Option ℕ → ℕ → ℕ
or_else none fallback = fallback
or_else (some zero) fallback = fallback
or_else (some (suc n)) fallback = suc n

module _ (w : Web3) (prog : Program w) where
  open w use {
    PublicKey, to_buffer, system_program, stake_program, stake_config, sysvar_clock, sysvar_rent,
    sysvar_stake_history,
  }

  unfoldable pub delegate_entries :
      List (DepositReserveValidatorParam PublicKey)
      → ℕ
      → Buffer
      → List (AccountMeta PublicKey)
      → Result (Buffer × List (AccountMeta PublicKey))
  delegate_entries [] p d keys = ok (d, keys)
  delegate_entries (v ∷ vs) p d keys = do
    (p', d') ← write_big_uint64_le v.amount p d
    (p'', d'') ← write_uint32_le v.stake_index p' d'
    stake ← get_stake_for_validator w prog v.address v.stake_index
    delegate_entries vs p'' d'' (keys ++ (readonly v.address ∷ writable stake ∷ []))

  abbrev pub delegate_reserve_keys : List (AccountMeta PublicKey)
  delegate_reserve_keys =
      readonly prog.stake_pool
      ∷ signer prog.owner
      ∷ writable prog.validator_stake_list_account
      ∷ readonly (get_withdraw_authority w prog)
      ∷ readonly (get_deposit_authority w prog)
      ∷ writable (get_reserve_address w prog)
      ∷ readonly system_program
      ∷ readonly stake_program
      ∷ readonly sysvar_clock
      ∷ readonly sysvar_stake_history
      ∷ readonly stake_config
      ∷ readonly sysvar_rent
      ∷ []

  unfoldable pub delegate_reserve_instruction :
      List (DepositReserveValidatorParam PublicKey) → Result (TransactionInstruction PublicKey)
  delegate_reserve_instruction validators = do
    (p, d) ← write_uint8 12 0 (alloc (1 + 4 + (8 + 4) * length validators))
    (p', d') ← write_uint32_le (length validators) p d
    (d'', keys) ← delegate_entries validators p' d' delegate_reserve_keys
    ok (instruction w prog keys d'')

  unfoldable pub merge_entries :
      List (StakePair PublicKey)
      → ℕ
      → Buffer
      → List (AccountMeta PublicKey)
      → Result (Buffer × List (AccountMeta PublicKey))
  merge_entries [] p d keys = ok (d, keys)
  merge_entries (s ∷ ss) p d keys = do
    let copied = copy (to_buffer s.validator) d p
    (p', d') ← write_uint32_le s.main_index (p + copied.0) copied.1
    (p'', d'') ← write_uint32_le s.additional_index p' d'
    main_stake ← get_stake_for_validator w prog s.validator s.main_index
    additional_stake ← get_stake_for_validator w prog s.validator s.additional_index
    merge_entries ss p'' d'' (keys ++ (writable main_stake ∷ writable additional_stake ∷ []))

  abbrev pub merge_stakes_keys : List (AccountMeta PublicKey)
  merge_stakes_keys =
      writable prog.stake_pool
      ∷ writable prog.validator_stake_list_account
      ∷ readonly (get_deposit_authority w prog)
      ∷ readonly stake_program
      ∷ readonly sysvar_clock
      ∷ readonly sysvar_stake_history
      ∷ []

  unfoldable pub merge_stakes_instruction :
      List (StakePair PublicKey) → Result (TransactionInstruction PublicKey)
  merge_stakes_instruction pairs = do
    (p, d) ← write_uint8 13 0 (alloc (1 + 4 + (32 + 4 + 4) * length pairs))
    (p', d') ← write_uint32_le (length pairs) p d
    (d'', keys) ← merge_entries pairs p' d' merge_stakes_keys
    ok (instruction w prog keys d'')

  -- `if (unstake.splitIndex)`: a second account for a split index other than 0.
  unfoldable pub split_keys : PublicKey → Option ℕ → Result (List (AccountMeta PublicKey))
  split_keys validator none = ok []
  split_keys validator (some zero) = ok []
  split_keys validator (some (suc index)) = do
    split_stake ← get_stake_for_validator w prog validator (suc index)
    ok (writable split_stake ∷ [])

  unfoldable pub unstake_entries :
      List (Unstake PublicKey)
      → ℕ
      → Buffer
      → List (AccountMeta PublicKey)
      → Result (Buffer × List (AccountMeta PublicKey))
  unstake_entries [] p d keys = ok (d, keys)
  unstake_entries (u ∷ us) p d keys = do
    let copied = copy (to_buffer u.validator) d p
    (p', d') ← write_uint32_le u.source_index (p + copied.0) copied.1
    (p'', d'') ← write_uint32_le (or_else u.split_index u.source_index) p' d'
    (p''', d''') ← write_big_uint64_le (or_else u.amount 0) p'' d''
    source_stake ← get_stake_for_validator w prog u.validator u.source_index
    split ← split_keys u.validator u.split_index
    unstake_entries us p''' d''' (keys ++ (writable source_stake ∷ split))

  abbrev pub unstake_keys : List (AccountMeta PublicKey)
  unstake_keys =
      writable prog.stake_pool
      ∷ signer_writable prog.owner
      ∷ writable prog.validator_stake_list_account
      ∷ readonly (get_deposit_authority w prog)
      ∷ readonly system_program
      ∷ readonly stake_program
      ∷ readonly sysvar_rent
      ∷ readonly sysvar_clock
      ∷ readonly sysvar_stake_history
      ∷ []

  unfoldable pub unstake_instruction :
      List (Unstake PublicKey) → Result (TransactionInstruction PublicKey)
  unstake_instruction unstakes = do
    (p, d) ← write_uint8 14 0 (alloc (1 + 4 + (32 + 4 + 4 + 8) * length unstakes))
    (p', d') ← write_uint32_le (length unstakes) p d
    (d'', keys) ← unstake_entries unstakes p' d' unstake_keys
    ok (instruction w prog keys d'')

  -- The stakes `index`, `index + 1`, … of a validator, as many as `rounds`.
  unfoldable pub stake_keys : PublicKey → ℕ → ℕ → Result (List (AccountMeta PublicKey))
  stake_keys validator index zero = ok []
  stake_keys validator index (suc rounds) = do
    stake ← get_stake_for_validator w prog validator index
    rest ← stake_keys validator (suc index) rounds
    ok (writable stake ∷ rest)

  unfoldable pub validator_keys :
      List (ValidatorInfo PublicKey) → Result (List (AccountMeta PublicKey))
  unfolding stake_keys
  validator_keys [] = ok []
  validator_keys (v ∷ vs) = do
    stakes ← stake_keys v.vote_pubkey 0 v.stake_count
    rest ← validator_keys vs
    ok (readonly v.vote_pubkey ∷ (stakes ++ rest))

  abbrev pub update_list_balance_keys : List (AccountMeta PublicKey)
  update_list_balance_keys =
      readonly prog.stake_pool
      ∷ writable prog.validator_stake_list_account
      ∷ readonly (get_withdraw_authority w prog)
      ∷ writable (get_reserve_address w prog)
      ∷ readonly system_program
      ∷ readonly stake_program
      ∷ readonly sysvar_clock
      ∷ readonly sysvar_stake_history
      ∷ []

  unfoldable pub update_list_balance_instruction :
      List (ValidatorInfo PublicKey) → Result (TransactionInstruction PublicKey)
  update_list_balance_instruction validators = do
    d ← opcode_payload 4
    keys ← validator_keys validators
    ok (instruction w prog (update_list_balance_keys ++ keys) d)
