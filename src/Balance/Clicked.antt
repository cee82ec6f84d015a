-- ===== src/Balance/Clicked.antt =====
-- What a click in src/components/WithdrawInput and src/components/DepositInput asks the wallet to sign.
use marinade_tenderize_from.Prelude.{
  ℕ, ◌+◌, ◌*◌, ◌<◌, ◌⊎◌, false, ◌≡◌, ◌≤◌, Bool, true, Option, none, some, List,
}
use marinade_tenderize_from.Effect.Ensures.{Ends}
use marinade_tenderize_from.Web3.{AccountInfo}
use marinade_tenderize_from.Cache.Tokens.{Spl}
use marinade_tenderize_from.Web.Layout.{Libraries}
use marinade_tenderize_from.Web.Builders.{Ids, Tenderize}
use marinade_tenderize_from.Actions.Wallet.{WebInstruction, WebNet, WebSession, UserAction}
use marinade_tenderize_from.Actions.Accounts.{TokenAccount}
use marinade_tenderize_from.Actions.Stage.{SignerLaws}
use marinade_tenderize_from.Balance.Sorting.{weigh}
use marinade_tenderize_from.Balance.Sorted.{IsWantedOf, IsMost, only_wanted}
use marinade_tenderize_from.Balance.Confirmed.{IsConfirmed, IsSought}

module _ (required : WebInstruction → List ℕ) (laws : SignerLaws required) (n : WebNet)
    (ids : Ids ℕ) (l : Libraries) (spl : Spl) (payer : ℕ) where
  -- One of the user's accounts of the mint, and none of them has more.
  abbrev pub IsSource : List TokenAccount → TokenAccount → Type 0
  IsSource user_accounts from =
      IsWantedOf ids.tenderized_sol_mint_id none user_accounts from
      × IsMost ids.tenderized_sol_mint_id none from.info.amount user_accounts

  -- The balance in tenderSOL.
  abbrev pub total : List TokenAccount → ℕ
  total user_accounts =
      weigh (only_wanted ids.tenderized_sol_mint_id none (λ a. a.info.amount)) user_accounts

  -- The reserve has less than `least`, or has it.
  abbrev pub IsShort : Option AccountInfo → ℕ → Type 0
  IsShort none least = Unit
  IsShort (some reserve) least = reserve.lamports < least

  abbrev pub IsEnough : Option AccountInfo → ℕ → Type 0
  IsEnough none least = ⊥
  IsEnough (some reserve) least = least ≤ reserve.lamports

  -- The action never throws, and what it shows and asks for is the credit, or else the withdrawal.
  abbrev pub IsDone :
      Bool → TokenAccount → ℕ → Tenderize ℕ → WebSession n → UserAction n Bool → Type 0
  IsDone is_credit from amount tenderize s action =
      Ends
        (λ shown s'.
          IsConfirmed (IsSought required laws n ids l spl payer is_credit from amount tenderize)
            shown s.presented s'.presented)
        (λ e s'. ⊥) (action s)

  -- What a click asks for, with the account and the amount that it takes.
  abbrev pub IsClicked :
      List TokenAccount
      → ℕ
      → Option AccountInfo
      → ℕ
      → Tenderize ℕ
      → WebSession n
      → UserAction n Bool
      → Type 0
  IsClicked user_accounts pct reserve minimum_balance tenderize s action =
      (from : TokenAccount) × (amount : ℕ) × IsSource user_accounts from
      × (amount * 100 ≡ pct * total user_accounts)
      × ((IsShort reserve (minimum_balance + amount) × IsDone true from amount tenderize s action)
          ⊎ (IsEnough reserve (minimum_balance + amount)
              × IsDone false from amount tenderize s action))
