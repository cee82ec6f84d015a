-- ===== src/Balance/Sorted.antt =====
-- The accounts and the balance of src/hooks/useUserBalance.ts.
use marinade_tenderize_from.Prelude.{
  ℕ, ltb, ◌≡◌, ◌≤◌, ◌∙◌, refl, true, Any, le→ltb, sym, Option, List, [], ◌∷◌, All, arith,
  if◌then◌else◌,
}
use marinade_tenderize_from.Actions.Accounts.{TokenAccount}
use marinade_tenderize_from.Balance.{is_wanted}
use marinade_tenderize_from.Balance.Sorting.{weigh, IsBelow}

module _ (mint : ℕ) (account : Option ℕ) where
  -- One of the accounts, and wanted.
  abbrev pub IsWantedOf : List TokenAccount → TokenAccount → Type 0
  IsWantedOf others a = (is_wanted mint account a ≡ true) × Any (λ b. b ≡ a) others

  -- An account that is wanted has its weight, and another one none.
  abbrev pub only_wanted : (TokenAccount → ℕ) → TokenAccount → ℕ
  only_wanted g a = if is_wanted mint account a then g a else 0

  -- Counted where it has more than `m`.
  abbrev more : ℕ → TokenAccount → ℕ
  more m a = if ltb m a.info.amount then 1 else 0

  none_more :
      (m : ℕ) (accounts : List TokenAccount) → IsBelow m accounts → weigh (more m) accounts ≡ 0
  unfolding weigh
  none_more m [] h = refl
  none_more m (a ∷ accounts) (h, hs) =
      rw (le→ltb m a.info.amount h) (omega (arith, none_more m accounts hs))

  -- Of the wanted ones none has more than `m`.
  abbrev pub IsMost : ℕ → List TokenAccount → Type 0
  IsMost m others = All (λ a. is_wanted mint account a ≡ true → a.info.amount ≤ m) others

  wanted-IsMost :
      (m : ℕ) (others : List TokenAccount)
      → weigh (only_wanted (more m)) others ≡ 0
      → IsMost m others
  unfolding weigh
  wanted-IsMost m [] h = tt
  wanted-IsMost m (a ∷ others) h =
      ((λ e. at_most (none_here e)), wanted-IsMost m others (omega (arith, h)))
    where
      none_here : is_wanted mint account a ≡ true → more m a ≡ 0
      none_here e =
          let here : only_wanted (more m) a ≡ 0 = omega (arith, h) in
          let same : only_wanted (more m) a ≡ more m a = rw e refl in sym same ∙ here

      at_most : more m a ≡ 0 → a.info.amount ≤ m
      at_most e = ground arith

  pub weigh-IsMost :
      (m : ℕ) (accounts user_accounts : List TokenAccount)
      → ((g : TokenAccount → ℕ) → weigh g accounts ≡ weigh (only_wanted g) user_accounts)
      → IsBelow m accounts
      → IsMost m user_accounts
  weigh-IsMost m accounts user_accounts same below =
      wanted-IsMost m user_accounts (sym (same (more m)) ∙ none_more m accounts below)
