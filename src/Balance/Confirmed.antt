-- ===== src/Balance/Confirmed.antt =====
-- What onWithdraw and onDeposit of src/components/WithdrawInput and src/components/DepositInput ask the
-- wallet to sign, for an account and an amount.
use marinade_tenderize_from.Prelude.{ℕ, ◌≡◌, refl, Bool, true, false, inr, Option, none, some, List}
use marinade_tenderize_from.Effect.Ensures.{
  Ensures, Ends, Ensures-bind, Ensures-pure, Ensures-attempt, Ensures-mono,
}
use marinade_tenderize_from.Web3.{AccountInfo}
use marinade_tenderize_from.Cache.Tokens.{Spl}
use marinade_tenderize_from.Web.Layout.{Libraries}
use marinade_tenderize_from.Web.Builders.{Ids, Tenderize}
use marinade_tenderize_from.Actions.Wallet.{WebInstruction, WebTransaction, WebNet, WebSession}
use marinade_tenderize_from.Actions.Accounts.{TokenAccount}
use marinade_tenderize_from.Actions.Stage.{SignerLaws}
use marinade_tenderize_from.Actions.Asked.{IsAsked, Asks, AsksOrNot, AsksQuietly}
use marinade_tenderize_from.Actions.Asked.Calls.{IsDeposit, IsWithdrawal, IsCredit}
use marinade_tenderize_from.Actions.Asked.Whole.{withdraw-asking, credit-asking, deposit-asking}
use marinade_tenderize_from.Balance.{
  is_reserve_depleted, has_ended, withdraw_or_credit, on_withdraw, on_deposit,
}

-- With the confirmation, a transaction of this kind was signed, or sending failed on the way; without
-- it, nothing was asked for.
abbrev pub IsConfirmed :
    (WebTransaction → Type 0) → Bool → List WebTransaction → List WebTransaction → Type 0
IsConfirmed P true before presented = AsksOrNot P before presented
IsConfirmed P false before presented = presented ≡ before

-- The same for a deposit, which throws where sending failed.
abbrev pub IsDeposited :
    (WebTransaction → Type 0) → Bool → List WebTransaction → List WebTransaction → Type 0
IsDeposited P true before presented = Asks P before presented
IsDeposited P false before presented = AsksOrNot P before presented

module _ (required : WebInstruction → List ℕ) (laws : SignerLaws required) (n : WebNet)
    (ids : Ids ℕ) (l : Libraries) (spl : Spl) (payer : ℕ) where
  -- A credit where the reserve is depleted, and else a withdrawal.
  abbrev pub IsSought : Bool → TokenAccount → ℕ → Tenderize ℕ → WebTransaction → Type 0
  IsSought true from amount tenderize tx =
      IsAsked required (IsCredit ids l payer amount tenderize from.pubkey) payer
        ids.withdraw_authority_pda amount tx
  IsSought false from amount tenderize tx =
      IsAsked required (IsWithdrawal ids l payer amount tenderize from.pubkey) payer
        ids.withdraw_authority_pda amount tx

  quiet :
      (P : WebTransaction → Type 0) (before : List WebTransaction) (o : Option ℕ)
      (after : List WebTransaction)
      → AsksQuietly P before o after
      → AsksOrNot P before after
  quiet P before none after h = h
  quiet P before (some txid) after h = inr h

  module _ (before : List WebTransaction) (from : TokenAccount) (amount : ℕ)
      (tenderize : Tenderize ℕ) where
    withdraw_or_credit-Asks :
        (is_depleted : Bool)
        → Ensures
            (λ s. s.presented ≡ before)
            (λ o s. AsksOrNot (IsSought is_depleted from amount tenderize) before s.presented)
            (λ e s. s.presented ≡ before)
            (withdraw_or_credit n ids l spl is_depleted from amount (some payer) (some tenderize))
    unfolding withdraw_or_credit
    withdraw_or_credit-Asks false =
        Ensures-mono (λ s. s.presented ≡ before) _ _ (λ s h. h)
          (λ o s h. quiet _ before o s.presented h)
          (withdraw-asking required laws n ids l spl payer before from amount tenderize)
    withdraw_or_credit-Asks true =
        Ensures-mono (λ s. s.presented ≡ before) _ _ (λ s h. h)
          (λ o s h. quiet _ before o s.presented h)
          (credit-asking required laws n ids l spl payer before from amount tenderize)

    pub on_withdraw-Asks :
        (reserve : Option AccountInfo) (minimum_balance : ℕ)
        → Ensures
            (λ s. s.presented ≡ before)
            (λ shown s.
              IsConfirmed
                (IsSought
                  (is_reserve_depleted reserve minimum_balance amount)
                  from
                  amount
                  tenderize)
                shown
                before
                s.presented)
            (λ e s. ⊥)
            (on_withdraw n ids l spl reserve minimum_balance from amount
              (some payer)
              (some tenderize))
    unfolding on_withdraw has_ended
    on_withdraw-Asks reserve minimum_balance =
        Ensures-bind
          (λ o s.
            IsConfirmed
              (IsSought (is_reserve_depleted reserve minimum_balance amount) from amount tenderize)
              (has_ended o) before s.presented)
          _ _
          (Ensures-attempt _
            (withdraw_or_credit-Asks (is_reserve_depleted reserve minimum_balance amount)))
          λ o. Ensures-pure (has_ended o) (λ s h. h)

  on_deposit-asking :
      (before : List WebTransaction) (from : TokenAccount) (amount : ℕ)
      → Ensures
          (λ s. s.presented ≡ before)
          (λ shown s.
            IsDeposited
              (IsAsked required
                (IsDeposit ids l payer from amount)
                payer
                ids.withdraw_authority_pda
                amount)
              shown
              before
              s.presented)
          (λ e s. ⊥)
          (on_deposit n ids l spl from amount (some payer))
  unfolding on_deposit has_ended
  on_deposit-asking before from amount =
      Ensures-bind
        (λ o s.
          IsDeposited
            (IsAsked required (IsDeposit ids l payer from amount) payer ids.withdraw_authority_pda
              amount)
            (has_ended o) before s.presented)
        _ _ (Ensures-attempt _ (deposit-asking required laws n ids l spl payer before from amount))
        λ o. Ensures-pure (has_ended o) (λ s h. h)

  -- With the same documented behaviour, a click in DepositInput never throws, and with the confirmation
  -- the wallet was asked to sign one transaction, the deposit of the amount.
  pub on_deposit-Asks :
      (from : TokenAccount) (amount : ℕ) (s : WebSession n)
      → Ends
          (λ shown s'.
            IsDeposited
              (IsAsked required
                (IsDeposit ids l payer from amount)
                payer
                ids.withdraw_authority_pda
                amount)
              shown
              s.presented
              s'.presented)
          (λ e s'. ⊥)
          (on_deposit n ids l spl from amount (some payer) s)
  on_deposit-Asks from amount s = (on_deposit-asking s.presented from amount).at s refl
