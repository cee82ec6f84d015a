-- ===== src/Actions/Flows.antt =====
-- deposit, withdraw and credit of src/actions. Messages to the user are left out.
use marinade_tenderize_from.Prelude.{ℕ, ◌+◌, Bool, true, Option, none, some, ◌++◌, ltb}
use marinade_tenderize_from.Effect.{
  web, not_connected, not_enough_funds, throw, throw_if, lift, attempt, ◌>>=◌, ◌>>◌,
}
use marinade_tenderize_from.Web3.{AccountInfo}
use marinade_tenderize_from.Cache.Tokens.{Spl}
use marinade_tenderize_from.Web.Layout.{Libraries}
use marinade_tenderize_from.Web.Builders.{
  Ids, Tenderize, web_deposit_instruction, web_withdraw_instruction, web_credit_instruction,
}
use marinade_tenderize_from.Actions.Wallet.{
  call_program, WebNet, UserAction, request, push, generate, fresh_arrays, send_transaction,
}
use marinade_tenderize_from.Actions.Accounts.{
  TokenAccount, approve, ensure_spl_account, find_or_create_account_by_mint,
}

module _ (n : WebNet) (ids : Ids ℕ) (l : Libraries) (spl : Spl) where
  -- sendTransaction of `instructions.concat(cleanupInstructions)` with the signers of the action
  unfoldable pub send_arrays : ℕ → UserAction n ℕ
  unfolding send_transaction
  send_arrays payer s =
      send_transaction n (some payer) (s.instructions ++ s.cleanup_instructions) s.signers true s

  -- `!reserveInfo || reserveInfo.lamports < minReserveBalance + amountLamports`
  unfoldable pub is_short : Option AccountInfo → ℕ → Bool
  is_short none needed = true
  is_short (some reserve) needed = ltb reserve.lamports needed

  -- What withdraw and credit do with sendTransaction: an error is printed, not thrown.
  unfoldable pub send_quietly : ℕ → UserAction n (Option ℕ)
  unfolding send_arrays
  send_quietly payer = attempt (send_arrays payer)

  unfoldable pub prepare_deposit : TokenAccount → ℕ → ℕ → UserAction n (Unit {0})
  unfolding request fresh_arrays ensure_spl_account approve find_or_create_account_by_mint push
  prepare_deposit from amount payer = do
    fresh_arrays n
    account_rent_exempt ←
        request n (n.get_minimum_balance_for_rent_exemption spl.account_layout_span)
    from_account ← ensure_spl_account n ids spl from payer (amount + account_rent_exempt)
    authority ← approve n ids from_account payer amount true (some ids.withdraw_authority_pda)
    to_account ←
        find_or_create_account_by_mint n ids spl payer payer account_rent_exempt
          ids.tenderized_sol_mint_id none
    i ← lift (
        web_deposit_instruction l ids
          (record { user_source = from_account; amount = amount; user_token = to_account }))
    push n (call_program i)

  unfoldable pub deposit : TokenAccount → ℕ → Option ℕ → UserAction n ℕ
  unfolding prepare_deposit send_arrays
  deposit from amount none = throw (web not_connected)
  deposit from amount (some payer) = do prepare_deposit from amount payer; send_arrays payer

  unfoldable pub check_reserve : ℕ → UserAction n (Unit {0})
  unfolding request is_short
  check_reserve amount = do
    reserve ← request n (n.get_account_info ids.reserve_address_pda)
    for_nothing ← request n (n.get_minimum_balance_for_rent_exemption 0)
    for_account ← request n (n.get_minimum_balance_for_rent_exemption spl.account_layout_span)
    throw_if (is_short reserve (for_nothing + for_account + amount)) (web not_enough_funds)

  unfoldable pub prepare_withdraw : TokenAccount → ℕ → Tenderize ℕ → ℕ → UserAction n (Unit {0})
  unfolding fresh_arrays approve push
  prepare_withdraw from amount tenderize payer = do
    fresh_arrays n
    authority ← approve n ids from.pubkey payer amount true (some ids.withdraw_authority_pda)
    i ← lift (
        web_withdraw_instruction l ids
          (record { user_token_source = from.pubkey; user_sol_target = payer; amount = amount })
          tenderize)
    push n (call_program i)

  unfoldable pub withdraw : TokenAccount → ℕ → Option ℕ → Tenderize ℕ → UserAction n (Option ℕ)
  unfolding check_reserve prepare_withdraw send_quietly
  withdraw from amount none tenderize = throw (web not_connected)
  withdraw from amount (some payer) tenderize = do
    check_reserve amount
    prepare_withdraw from amount tenderize payer
    send_quietly payer

  unfoldable pub prepare_credit : TokenAccount → ℕ → Tenderize ℕ → ℕ → UserAction n (Unit {0})
  unfolding fresh_arrays approve generate push
  prepare_credit from amount tenderize payer = do
    fresh_arrays n
    authority ← approve n ids from.pubkey payer amount true (some ids.withdraw_authority_pda)
    cancel_authority ← generate n
    i ← lift (
        web_credit_instruction l ids
          (record {
            user_token_source = from.pubkey;
            user_sol_target = payer;
            cancel_authority = cancel_authority;
            amount = amount;
          })
          tenderize)
    push n (call_program i)

  unfoldable pub credit : TokenAccount → ℕ → Option ℕ → Tenderize ℕ → UserAction n (Option ℕ)
  unfolding prepare_credit send_quietly
  credit from amount none tenderize = throw (web not_connected)
  credit from amount (some payer) tenderize = do
    prepare_credit from amount tenderize payer
    send_quietly payer
