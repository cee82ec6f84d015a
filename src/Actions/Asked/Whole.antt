-- ===== src/Actions/Asked/Whole.antt =====
-- What deposit, withdraw and credit of src/actions ask the wallet to sign.
use marinade_tenderize_from.Prelude.{ℕ, ◌≡◌, refl, inl, some, List}
use marinade_tenderize_from.Effect.Ensures.{
  Ensures, Ends, Ensures-bind, Ensures-throw_if, Ensures-attempt, Ensures-errors,
}
use marinade_tenderize_from.Web3.{TransactionInstruction}
use marinade_tenderize_from.Cache.Tokens.{Spl}
use marinade_tenderize_from.Web.Layout.{Libraries}
use marinade_tenderize_from.Web.Builders.{Ids, Tenderize}
use marinade_tenderize_from.Actions.Wallet.{WebInstruction, WebTransaction, WebNet, WebSession}
use marinade_tenderize_from.Actions.Accounts.{TokenAccount}
use marinade_tenderize_from.Actions.Flows.{send_quietly, deposit, check_reserve, withdraw, credit}
use marinade_tenderize_from.Actions.Stage.{SignerLaws, Stage}
use marinade_tenderize_from.Actions.Asked.{
  IsCalled, IsAsked, Asks, AsksOrNot, AsksQuietly, Calm, request-Calm,
}
use marinade_tenderize_from.Actions.Asked.Calls.{
  IsDeposit, IsWithdrawal, IsCredit, send_arrays-Asks, prepare_deposit-Calls,
  prepare_withdraw-Calls, prepare_credit-Calls,
}

module _ (required : WebInstruction → List ℕ) (laws : SignerLaws required) (n : WebNet)
    (ids : Ids ℕ) (l : Libraries) (spl : Spl) (payer : ℕ) (before : List WebTransaction) where
  pub deposit-asking :
      (from : TokenAccount) (amount : ℕ)
      → Ensures
          (λ s. s.presented ≡ before)
          (λ a s.
            Asks
              (IsAsked required
                (IsDeposit ids l payer from amount)
                payer
                ids.withdraw_authority_pda
                amount)
              before
              s.presented)
          (λ e s.
            AsksOrNot
              (IsAsked required
                (IsDeposit ids l payer from amount)
                payer
                ids.withdraw_authority_pda
                amount)
              before
              s.presented)
          (deposit n ids l spl from amount (some payer))
  unfolding deposit
  deposit-asking from amount =
      Ensures-bind _ _ _
        (Ensures-errors _ _ (λ e s h. inl h)
          (prepare_deposit-Calls required laws n ids l spl payer before from amount))
        λ u.
          send_arrays-Asks required laws n ids l spl payer before
            (IsDeposit ids l payer from amount) amount

  send_quietly-Asks :
      (Makes : TransactionInstruction ℕ → ℕ → Type 0) (amount : ℕ)
      → Ensures
          (Stage required n payer before (IsCalled Makes ids.withdraw_authority_pda amount))
          (λ o s.
            AsksQuietly
              (IsAsked required Makes payer ids.withdraw_authority_pda amount)
              before
              o
              s.presented)
          (λ e s. s.presented ≡ before)
          (send_quietly n ids l spl payer)
  unfolding send_quietly
  send_quietly-Asks Makes amount =
      Ensures-attempt _ (send_arrays-Asks required laws n ids l spl payer before Makes amount)

  check_reserve-Calm :
      (amount : ℕ)
      → Calm n
          (λ txs. txs ≡ before)
          (λ txs. txs ≡ before)
          (λ txs h. h)
          (check_reserve n ids l spl amount)
  unfolding check_reserve
  check_reserve-Calm amount = Ensures-bind _ _ _ (request-Calm n _ _ (λ txs h. h) _) λ reserve.
      Ensures-bind _ _ _ (request-Calm n _ _ (λ txs h. h) _) λ for_nothing.
        Ensures-bind _ _ _ (request-Calm n _ _ (λ txs h. h) _)
          λ for_account. Ensures-throw_if _ _ (λ e s h. h) (λ e s h. h)

  pub withdraw-asking :
      (from : TokenAccount) (amount : ℕ) (tenderize : Tenderize ℕ)
      → Ensures
          (λ s. s.presented ≡ before)
          (λ o s.
            AsksQuietly
              (IsAsked required
                (IsWithdrawal ids l payer amount tenderize from.pubkey)
                payer
                ids.withdraw_authority_pda
                amount)
              before
              o
              s.presented)
          (λ e s. s.presented ≡ before)
          (withdraw n ids l spl from amount (some payer) tenderize)
  unfolding withdraw
  withdraw-asking from amount tenderize = Ensures-bind _ _ _ (check_reserve-Calm amount) λ u.
      Ensures-bind _ _ _
        (prepare_withdraw-Calls required laws n ids l spl payer before from amount tenderize)
        λ u. send_quietly-Asks _ amount

  pub credit-asking :
      (from : TokenAccount) (amount : ℕ) (tenderize : Tenderize ℕ)
      → Ensures
          (λ s. s.presented ≡ before)
          (λ o s.
            AsksQuietly
              (IsAsked required
                (IsCredit ids l payer amount tenderize from.pubkey)
                payer
                ids.withdraw_authority_pda
                amount)
              before
              o
              s.presented)
          (λ e s. s.presented ≡ before)
          (credit n ids l spl from amount (some payer) tenderize)
  unfolding credit
  credit-asking from amount tenderize =
      Ensures-bind _ _ _
        (prepare_credit-Calls required laws n ids l spl payer before from amount tenderize)
        λ u. send_quietly-Asks _ amount

module _ (required : WebInstruction → List ℕ) (laws : SignerLaws required) (n : WebNet)
    (ids : Ids ℕ) (l : Libraries) (spl : Spl) (payer : ℕ) where
  -- With what @solana/web3.js and @solana/spl-token document of signers: a deposit asks the wallet to
  -- sign one transaction, or throws and asks for that one or none. The transaction names every signer
  -- that its instructions require, each being the payer or an account that the application signs
  -- for. It has the pool's deposit of the amount from an account, the given one unless that stands
  -- for native lamports; just then the withdraw authority may take the amount from that account, and
  -- at the end nobody may take anything from it.
  pub deposit-Asks :
      (from : TokenAccount) (amount : ℕ) (s : WebSession n)
      → Ends
          (λ a s'.
            Asks
              (IsAsked required
                (IsDeposit ids l payer from amount)
                payer
                ids.withdraw_authority_pda
                amount)
              s.presented
              s'.presented)
          (λ e s'.
            AsksOrNot
              (IsAsked required
                (IsDeposit ids l payer from amount)
                payer
                ids.withdraw_authority_pda
                amount)
              s.presented
              s'.presented)
          (deposit n ids l spl from amount (some payer) s)
  deposit-Asks from amount s =
      (deposit-asking required laws n ids l spl payer s.presented from amount).at s refl

  -- With what @solana/web3.js and @solana/spl-token document of signers: a withdrawal that gives a
  -- signature back asked the wallet to sign one transaction; one that gives nothing back asked for
  -- that one or none, and one that throws for none. The transaction names every signer that its
  -- instructions require, each being the payer or an account that the application signs for. It has
  -- the pool's withdrawal of the amount from the given account to the wallet; just then the withdraw
  -- authority may take the amount from that account, and at the end nobody may.
  pub withdraw-Asks :
      (from : TokenAccount) (amount : ℕ) (tenderize : Tenderize ℕ) (s : WebSession n)
      → Ends
          (λ o s'.
            AsksQuietly
              (IsAsked required
                (IsWithdrawal ids l payer amount tenderize from.pubkey)
                payer
                ids.withdraw_authority_pda
                amount)
              s.presented
              o
              s'.presented)
          (λ e s'. s'.presented ≡ s.presented)
          (withdraw n ids l spl from amount (some payer) tenderize s)
  withdraw-Asks from amount tenderize s =
      (withdraw-asking required laws n ids l spl payer s.presented from amount tenderize).at s refl

  -- With what @solana/web3.js and @solana/spl-token document of signers: a credit that gives a
  -- signature back asked the wallet to sign one transaction; one that gives nothing back asked for
  -- that one or none, and one that throws for none. The transaction names every signer that its
  -- instructions require, each being the payer or an account that the application signs for. It has
  -- the pool's credit of the amount from the given account to the wallet, with some account that may
  -- cancel it; just then the withdraw authority may take the amount from the given account, and at
  -- the end nobody may.
  pub credit-Asks :
      (from : TokenAccount) (amount : ℕ) (tenderize : Tenderize ℕ) (s : WebSession n)
      → Ends
          (λ o s'.
            AsksQuietly
              (IsAsked required
                (IsCredit ids l payer amount tenderize from.pubkey)
                payer
                ids.withdraw_authority_pda
                amount)
              s.presented
              o
              s'.presented)
          (λ e s'. s'.presented ≡ s.presented)
          (credit n ids l spl from amount (some payer) tenderize s)
  credit-Asks from amount tenderize s =
      (credit-asking required laws n ids l spl payer s.presented from amount tenderize).at s refl
