-- ===== src/Web/Builders.antt =====
-- depositInstruction, withdrawInstruction and creditInstruction of src/models/lending.
use marinade_tenderize_from.Prelude.{ℕ, ◌+◌, List, [], ◌∷◌}
use marinade_tenderize_from.Effect.{Result, ok}
use marinade_tenderize_from.Buffer.{Buffer, ◌>>=◌, alloc}
use marinade_tenderize_from.Web3.{AccountMeta, TransactionInstruction}
use marinade_tenderize_from.Pool.Types.{readonly, writable}
use marinade_tenderize_from.Web.Layout.{Libraries, uint64_encode}

-- The keys of src/utils/ids.ts and of the system.
pub record Ids (K : Type 0) : Type 0 where
  pub tenderize_program_id : K
  pub token_program_id : K
  pub tenderized_sol_mint_id : K
  pub stake_pool_id : K
  pub wrapped_sol_mint : K
  pub owner_fee_account : K
  pub reserve_address_pda : K
  pub withdraw_authority_pda : K
  pub temp_account_pda : K
  pub sysvar_rent : K
  pub system_program : K

pub record WebDepositParams (K : Type 0) : Type 0 where
  pub user_source : K
  pub amount : ℕ
  pub user_token : K

pub record WebWithdrawParams (K : Type 0) : Type 0 where
  pub user_token_source : K
  pub user_sol_target : K
  pub amount : ℕ

pub record WebCreditParams (K : Type 0) : Type 0 where
  pub user_token_source : K
  pub user_sol_target : K
  pub cancel_authority : K
  pub amount : ℕ

-- What the builders use of the pool's state.
pub record Tenderize (K : Type 0) : Type 0 where
  pub credit_list : K
  pub pool_mint : K
  pub credit_reserve : K

abbrev pub deposit_reserve_liquidity : ℕ
deposit_reserve_liquidity = 6

abbrev pub withdraw_reserve_liquidity : ℕ
withdraw_reserve_liquidity = 7

module _ (l : Libraries) where
  -- An opcode and an amount, in a layout of one byte and eight.
  unfoldable pub amount_data : ℕ → ℕ → Result Buffer
  unfolding uint64_encode
  amount_data opcode amount =
      l.struct_encode
        ((1, l.u8_encode opcode) ∷ (8, uint64_encode l (l.new_big_number amount)) ∷ [])
        (alloc (1 + 8))

  module _ {K : Type 0} (ids : Ids K) where
    abbrev pub web_instruction : List (AccountMeta K) → Buffer → TransactionInstruction K
    web_instruction ks d = record { program_id = ids.tenderize_program_id; keys = ks; payload = d }

    unfoldable pub web_deposit_instruction : WebDepositParams K → Result (TransactionInstruction K)
    unfolding amount_data
    web_deposit_instruction params = do
      data_bytes ← amount_data deposit_reserve_liquidity params.amount
      ok (
          web_instruction
            (writable ids.stake_pool_id
              ∷ readonly ids.withdraw_authority_pda
              ∷ writable ids.reserve_address_pda
              ∷ writable params.user_source
              ∷ writable params.user_token
              ∷ writable ids.owner_fee_account
              ∷ writable ids.tenderized_sol_mint_id
              ∷ readonly ids.sysvar_rent
              ∷ readonly ids.system_program
              ∷ readonly ids.token_program_id
              ∷ writable ids.temp_account_pda
              ∷ writable ids.wrapped_sol_mint
              ∷ [])
            data_bytes)

    unfoldable pub web_withdraw_instruction :
        WebWithdrawParams K → Tenderize K → Result (TransactionInstruction K)
    unfolding amount_data
    web_withdraw_instruction params tenderize = do
      data_bytes ← amount_data withdraw_reserve_liquidity params.amount
      ok (
          web_instruction
            (writable ids.stake_pool_id
              ∷ readonly ids.withdraw_authority_pda
              ∷ writable ids.reserve_address_pda
              ∷ writable params.user_token_source
              ∷ writable tenderize.pool_mint
              ∷ writable params.user_sol_target
              ∷ readonly ids.sysvar_rent
              ∷ readonly ids.system_program
              ∷ readonly ids.token_program_id
              ∷ [])
            data_bytes)

    unfoldable pub web_credit_instruction :
        WebCreditParams K → Tenderize K → Result (TransactionInstruction K)
    unfolding amount_data
    web_credit_instruction params tenderize = do
      data_bytes ← amount_data 10 params.amount
      ok (
          web_instruction
            (writable ids.stake_pool_id
              ∷ writable tenderize.credit_list
              ∷ writable tenderize.credit_reserve
              ∷ readonly ids.withdraw_authority_pda
              ∷ writable params.user_token_source
              ∷ writable params.user_sol_target
              ∷ readonly params.cancel_authority
              ∷ readonly ids.token_program_id
              ∷ [])
            data_bytes)
