-- ===== src/Actions/Accounts.antt =====
-- src/actions/account.ts and approve of src/models/account.ts: they fill the arrays of an action.
use marinade_tenderize_from.Prelude.{
  ℕ, Bool, true, false, not, ◌&&◌, Option, none, some, List, [], ◌∷◌, ◌==◌, if◌then◌else◌,
}
use marinade_tenderize_from.Effect.{Result, ok, err, pure, lift, ◌>>=◌, ◌>>◌}
use marinade_tenderize_from.Market.Subscriptions.{contains}
use marinade_tenderize_from.Cache.Tokens.{Spl, TokenAccountInfo}
use marinade_tenderize_from.Cache.Store.{ParsedAccount, token_account_parser}
use marinade_tenderize_from.Cache.Methods.{by_parser}
use marinade_tenderize_from.Cache.Users.{get_each, token_of}
use marinade_tenderize_from.Web.Builders.{Ids}
use marinade_tenderize_from.Actions.Wallet.{
  create_account, init_account, close_account, approve_delegate, revoke_delegate, WebNet,
  UserAction, in_cache, push, push_cleanup, push_cleanup_if, push_signer, generate,
}

-- TokenAccount
pub record TokenAccount : Type 0 where
  pub pubkey : ℕ
  pub info : TokenAccountInfo

-- `excluded === undefined || !excluded.has(...)`
unfoldable pub allowed : Option (List ℕ) → ℕ → Bool
allowed none k = true
allowed (some excluded) k = not (contains excluded k)

-- The predicate of `.find`
unfoldable pub is_sought : ℕ → ℕ → Option (List ℕ) → Option ParsedAccount → Result Bool
unfolding allowed token_of
is_sought mint owner excluded none = ok false
is_sought mint owner excluded (some account) = elim (token_of account.info) [
  | err e ↦ err e
  | ok i ↦ ok (i.mint == mint && i.owner == owner && allowed excluded account.pubkey)
]

unfoldable pub find_sought :
    ℕ → ℕ → Option (List ℕ) → List (Option ParsedAccount) → Result (Option ParsedAccount)
unfolding is_sought
find_sought mint owner excluded [] = ok none
find_sought mint owner excluded (account ∷ accounts) =
    let rest = find_sought mint owner excluded accounts in
    elim (is_sought mint owner excluded account) [
      | err e ↦ err e
      | ok true ↦ ok account
      | ok false ↦ rest
    ]

module _ (n : WebNet) (ids : Ids ℕ) where
  -- createTempMemoryAccount, createUninitializedMint and createUninitializedAccount differ in the
  -- lamports, the space and the owner of the account.
  unfoldable pub create_signing_account : ℕ → ℕ → ℕ → ℕ → UserAction n ℕ
  unfolding generate push push_signer
  create_signing_account payer lamports space owner = do
    account ← generate n
    push n (
        create_account (record {
          from_pubkey = payer;
          new_account_pubkey = account;
          lamports = lamports;
          space = space;
          program_id = owner;
        }))
    push_signer n account
    pure account

  abbrev pub default_temp_mem_space : ℕ
  default_temp_mem_space = 65548

  unfoldable pub create_temp_memory_account : ℕ → ℕ → ℕ → UserAction n ℕ
  unfolding create_signing_account
  create_temp_memory_account payer owner space = create_signing_account payer 0 space owner

  -- approve: the account is a new one where no delegate is given
  unfoldable pub approve : ℕ → ℕ → ℕ → Bool → Option ℕ → UserAction n ℕ
  unfolding generate push push_cleanup_if
  approve account owner amount auto_revoke delegate = do
    transfer_authority ← generate n
    push n (
        approve_delegate account (elim delegate [ none ↦ transfer_authority | some d ↦ d ]) owner
          amount)
    push_cleanup_if n auto_revoke (revoke_delegate account owner)
    pure transfer_authority

  module _ (spl : Spl) where
    unfoldable pub create_uninitialized_mint : ℕ → ℕ → UserAction n ℕ
    unfolding create_signing_account
    create_uninitialized_mint payer amount =
        create_signing_account payer amount spl.mint_layout_span ids.token_program_id

    unfoldable pub create_uninitialized_account : ℕ → ℕ → UserAction n ℕ
    unfolding create_signing_account
    create_uninitialized_account payer amount =
        create_signing_account payer amount spl.account_layout_span ids.token_program_id

    unfoldable pub ensure_spl_account : TokenAccount → ℕ → ℕ → UserAction n ℕ
    unfolding create_uninitialized_account push push_cleanup
    ensure_spl_account to_check payer amount = elim to_check.info.is_native [
      | false ↦ pure to_check.pubkey
      | true ↦ do
        account ← create_uninitialized_account payer amount
        push n (init_account ids.wrapped_sol_mint account payer)
        push_cleanup n (close_account account payer payer)
        pure account
    ]

    unfoldable pub create_token_account : ℕ → ℕ → ℕ → ℕ → UserAction n ℕ
    unfolding create_uninitialized_account push
    create_token_account payer account_rent_exempt mint owner = do
      account ← create_uninitialized_account payer account_rent_exempt
      push n (init_account mint account owner)
      pure account

    unfoldable pub create_by_mint : ℕ → ℕ → ℕ → ℕ → UserAction n ℕ
    unfolding create_token_account push_cleanup_if
    create_by_mint payer owner account_rent_exempt mint = do
      to_account ← create_token_account payer account_rent_exempt mint owner
      push_cleanup_if n (mint == ids.wrapped_sol_mint) (close_account to_account payer payer)
      pure to_account

    -- `account && !isWrappedSol`
    unfoldable pub usable : ℕ → Option ParsedAccount → Option ParsedAccount
    usable mint account = if mint == ids.wrapped_sol_mint then none else account

    unfoldable pub found_or_created : ℕ → ℕ → ℕ → ℕ → Option ParsedAccount → UserAction n ℕ
    unfolding create_by_mint
    found_or_created payer owner account_rent_exempt mint (some account) = pure account.pubkey
    found_or_created payer owner account_rent_exempt mint none =
        create_by_mint payer owner account_rent_exempt mint

    unfoldable pub find_or_create_account_by_mint : ℕ → ℕ → ℕ → ℕ → Option (List ℕ) → UserAction n ℕ
    unfolding in_cache by_parser get_each find_sought usable found_or_created
    find_or_create_account_by_mint payer owner account_rent_exempt mint excluded = do
      addresses ← in_cache n (by_parser (token_account_parser spl))
      accounts ← in_cache n (get_each addresses)
      account ← lift (find_sought mint owner excluded accounts)
      found_or_created payer owner account_rent_exempt mint (usable mint account)
