-- ===== src/Balance.antt =====
-- The balance of a user in one token, and what its inputs do: src/hooks/useUserBalance.ts,
-- src/components/WithdrawInput and src/components/DepositInput. The input by percent is taken, where the
-- amount is a whole number of lamports. What is drawn is left out.
pub mod Sorting
pub mod Sorted
pub mod Confirmed
pub mod Clicked
use marinade_tenderize_from.Prelude.{
  ℕ, ◌+◌, ◌-◌, ◌*◌, ◌/◌, ◌%◌, ◌^◌, Bool, true, false, Option, none, some, List, [], ◌∷◌, ltb, leb,
  ◌==◌, ◌&&◌, if◌then◌else◌, get_elem?,
}
use marinade_tenderize_from.Effect.{
  Result, ok, err, web, unsafe_number, null_access, pure, throw, attempt, ◌>>=◌,
}
use marinade_tenderize_from.Web3.{AccountInfo}
use marinade_tenderize_from.Pool.Accounts.{to_number}
use marinade_tenderize_from.Cache.Tokens.{Spl}
use marinade_tenderize_from.Web.Layout.{Libraries}
use marinade_tenderize_from.Web.Builders.{Ids, Tenderize}
use marinade_tenderize_from.Actions.Wallet.{WebNet, UserAction}
use marinade_tenderize_from.Actions.Accounts.{TokenAccount}
use marinade_tenderize_from.Actions.Flows.{deposit, withdraw, credit}

-- `mint === acc.info.mint.toBase58() && (!account || account.equals(acc.pubkey))`
unfoldable pub is_wanted : ℕ → Option ℕ → TokenAccount → Bool
is_wanted mint none a = mint == a.info.mint
is_wanted mint (some account) a = mint == a.info.mint && account == a.pubkey

unfoldable pub wanted : ℕ → Option ℕ → List TokenAccount → List TokenAccount
unfolding is_wanted
wanted mint account [] = []
wanted mint account (a ∷ others) =
    let rest = wanted mint account others in if is_wanted mint account a then a ∷ rest else rest

-- BN.toNumber() of @solana/spl-token's u64: an error from 2 ^ 53 on
unfoldable pub bn_to_number : ℕ → Result ℕ
bn_to_number n = if ltb n (2 ^ 53) then ok n else err (web unsafe_number)

abbrev pub distance : ℕ → ℕ → ℕ
distance a b = if leb a b then b - a else a - b

-- .sort((a, b) => b.info.amount.sub(a.info.amount).toNumber()), which keeps the order of equals. Which
-- pairs are compared is the engine's choice; where a comparison throws, the sum below throws as well.
unfoldable pub insert : TokenAccount → List TokenAccount → Result (List TokenAccount)
unfolding bn_to_number
insert a [] = ok (a ∷ [])
insert a (b ∷ bs) =
    let rest = insert a bs in
    elim (bn_to_number (distance a.info.amount b.info.amount)) [
      | err e ↦ err e
      | ok d ↦ elim (leb b.info.amount a.info.amount) [
        | true ↦ ok (a ∷ b ∷ bs)
        | false ↦ elim rest [ err e ↦ err e | ok others ↦ ok (b ∷ others) ]
      ]
    ]

unfoldable pub sort : List TokenAccount → Result (List TokenAccount)
unfolding insert
sort [] = ok []
sort (a ∷ others) = elim (sort others) [ err e ↦ err e | ok sorted ↦ insert a sorted ]

-- accounts of useUserBalance(mintAddress, account)
unfoldable pub use_user_balance : ℕ → Option ℕ → List TokenAccount → Result (List TokenAccount)
unfolding wanted sort
use_user_balance mint account user_accounts = sort (wanted mint account user_accounts)

-- accounts.reduce((res, item) => (res += item.info.amount.toNumber()), 0)
unfoldable pub reduce_from : ℕ → List TokenAccount → Result ℕ
unfolding bn_to_number
reduce_from res [] = ok res
reduce_from res (item ∷ items) = elim (bn_to_number item.info.amount) [
  | err e ↦ err e
  | ok n ↦ reduce_from (to_number (res + n)) items
]

unfoldable pub balance_lamports : List TokenAccount → Result ℕ
unfolding reduce_from
balance_lamports accounts = reduce_from 0 accounts

-- What the hook gives: both are computed, so an error of one is an error of the component.
unfoldable pub user_balance : ℕ → Option ℕ → List TokenAccount → Result (List TokenAccount × ℕ)
unfolding use_user_balance balance_lamports
user_balance mint account user_accounts = elim (use_user_balance mint account user_accounts) [
  | err e ↦ err e
  | ok accounts ↦ elim (balance_lamports accounts) [
    | err e ↦ err e
    | ok total ↦ ok (accounts, total)
  ]
]

-- (pct * total) / 100, `none` where it is a fraction, or the product is not exact
unfoldable pub percent : ℕ → ℕ → Option ℕ
percent pct total =
    if ltb (pct * total) (2 ^ 53) && pct * total % 100 == 0 then some (pct * total / 100) else none

-- (pct * (balanceLamports - minimumBalance * 2)) / 100, `none` also where it is negative
unfoldable pub deposit_amount : ℕ → ℕ → ℕ → Option ℕ
unfolding percent
deposit_amount pct balance minimum_balance =
    if leb (minimum_balance * 2) balance then percent pct (balance - minimum_balance * 2) else none

-- `!reserve || reserve.lamports < minimumBalance + amount`
unfoldable pub is_reserve_depleted : Option AccountInfo → ℕ → ℕ → Bool
is_reserve_depleted none minimum_balance amount = true
is_reserve_depleted (some reserve) minimum_balance amount =
    ltb reserve.lamports (minimum_balance + amount)

-- Whether the call came to its end.
unfoldable pub has_ended : {A : Type 0} → Option A → Bool
has_ended none = false
has_ended (some a) = true

module _ (n : WebNet) (ids : Ids ℕ) (l : Libraries) (spl : Spl) where
  -- The two calls of `onWithdraw`; `tenderize!.info` is read first.
  unfoldable pub withdraw_or_credit :
      Bool → TokenAccount → ℕ → Option ℕ → Option (Tenderize ℕ) → UserAction n (Option ℕ)
  withdraw_or_credit is_depleted from amount payer none = throw null_access
  withdraw_or_credit false from amount payer (some tenderize) =
      withdraw n ids l spl from amount payer tenderize
  withdraw_or_credit true from amount payer (some tenderize) =
      credit n ids l spl from amount payer tenderize

  -- The result is whether the confirmation is shown: an error is caught and printed.
  unfoldable pub on_withdraw :
      Option AccountInfo
      → ℕ
      → TokenAccount
      → ℕ
      → Option ℕ
      → Option (Tenderize ℕ)
      → UserAction n Bool
  unfolding withdraw_or_credit has_ended is_reserve_depleted
  on_withdraw reserve minimum_balance from amount payer tenderize = do
    ended ← attempt (
        withdraw_or_credit (is_reserve_depleted reserve minimum_balance amount) from amount payer
          tenderize)
    pure (has_ended ended)

  unfoldable pub on_deposit : TokenAccount → ℕ → Option ℕ → UserAction n Bool
  unfolding has_ended
  on_deposit from amount payer = do
    ended ← attempt (deposit n ids l spl from amount payer)
    pure (has_ended ended)

  -- The click on the button: it is disabled without an account. `none` also where the amount is a
  -- fraction.
  unfoldable pub on_click :
      Option TokenAccount
      → Option ℕ
      → (TokenAccount → ℕ → UserAction n Bool)
      → Option (UserAction n Bool)
  on_click (some from) (some amount) action = some (action from amount)
  on_click _ _ action = none

  -- What is shown has the button. An error of the hook is one of the component.
  unfoldable pub withdraw_input :
      List TokenAccount
      → ℕ
      → Option AccountInfo
      → ℕ
      → Option ℕ
      → Option (Tenderize ℕ)
      → Result (Option (UserAction n Bool))
  unfolding user_balance percent on_click on_withdraw
  withdraw_input user_accounts pct reserve minimum_balance payer tenderize =
      elim (user_balance ids.tenderized_sol_mint_id none user_accounts) [
        | err e ↦ err e
        | ok (accounts, total) ↦ ok (
            on_click (get_elem? accounts 0) (percent pct total)
              (λ from amount. on_withdraw reserve minimum_balance from amount payer tenderize))
      ]

  unfoldable pub deposit_input :
      List TokenAccount → ℕ → ℕ → Option ℕ → Result (Option (UserAction n Bool))
  unfolding user_balance deposit_amount on_click on_deposit
  deposit_input user_accounts pct minimum_balance payer =
      elim (user_balance ids.wrapped_sol_mint none user_accounts) [
        | err e ↦ err e
        | ok (accounts, total) ↦ ok (
            on_click (get_elem? accounts 0) (deposit_amount pct total minimum_balance)
              (λ from amount. on_deposit from amount payer))
      ]
