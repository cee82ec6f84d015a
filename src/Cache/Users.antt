-- ===== src/Cache/Users.antt =====
-- The token accounts of a user: selectUserAccounts, precacheUserTokenAccounts and the listener of the
-- token program in AccountsProvider (src/contexts/accounts.tsx).
use marinade_tenderize_from.Prelude.{
  ℕ, Bool, true, false, Option, none, some, List, [], ◌∷◌, ◌++◌, length, ◌==◌, if◌then◌else◌,
}
use marinade_tenderize_from.Effect.{
  Result, ok, err, rejected, null_access, pure, throw, lift, ◌>>=◌,
}
use marinade_tenderize_from.Web3.{AccountInfo, Reply, fulfilled, refused}
use marinade_tenderize_from.Market.Subscriptions.{contains}
use marinade_tenderize_from.Cache.Tokens.{Spl, TokenAccountInfo, deserialize_account}
use marinade_tenderize_from.Cache.Store.{
  Store, Method, ParsedAccount, Info, token_info, parsed_mint, buffer_info, other_info,
  token_account_parser,
}
use marinade_tenderize_from.Cache.Methods.{by_parser, get_account, add}

-- cache.get of each address
unfoldable pub get_each : List ℕ → Method (List (Option ParsedAccount))
unfolding get_account
get_each [] = pure []
get_each (address ∷ addresses) = do
  account ← get_account address
  rest ← get_each addresses
  pure (account ∷ rest)

-- `a.info`, for its owner and mint. What other parsers make has none, which is a TypeError.
unfoldable pub token_of : Info → Result TokenAccountInfo
token_of (token_info i) = ok i
token_of (parsed_mint m) = err null_access
token_of (buffer_info bs) = err null_access
token_of (other_info bs) = err null_access

-- `.filter((a) => a && a.info.owner.toBase58() === address)`
unfoldable pub owned_of : ℕ → List (Option ParsedAccount) → Result (List ParsedAccount)
unfolding token_of
owned_of owner [] = ok []
owned_of owner (none ∷ accounts) = owned_of owner accounts
owned_of owner (some a ∷ accounts) =
    let others = owned_of owner accounts in
    elim (token_of a.info) [
      | err e ↦ err e
      | ok i ↦ elim others [
        | err e ↦ err e
        | ok rest ↦ ok (if i.owner == owner then a ∷ rest else rest)
      ]
    ]

-- PRECACHED_OWNERS.add: a Set, in insertion order
unfoldable pub add_owner : List ℕ → ℕ → List ℕ
unfolding contains
add_owner owners owner = if contains owners owner then owners else owners ++ (owner ∷ [])

module _ (spl : Spl) where
  unfoldable pub select_user_accounts : Option ℕ → Method (List ParsedAccount)
  unfolding by_parser get_each owned_of
  select_user_accounts none = pure []
  select_user_accounts (some public_key) = do
    addresses ← by_parser (token_account_parser spl)
    accounts ← get_each addresses
    lift (owned_of public_key accounts)

  unfoldable pub add_token_accounts : List (ℕ × AccountInfo) → Method (Unit {0})
  unfolding add
  add_token_accounts [] = pure tt
  add_token_accounts ((address, info) ∷ accounts) = do
    added ← add address info (some (token_account_parser spl))
    add_token_accounts accounts

  -- What the node answers is added; a refused request is thrown.
  unfoldable pub precached : Reply (List (ℕ × AccountInfo)) → Method (Unit {0})
  unfolding add_token_accounts
  precached refused = throw rejected
  precached (fulfilled accounts) = add_token_accounts accounts

  -- PRECACHED_OWNERS has the owner before the request is made, whatever comes of it.
  unfoldable pub precache_user_token_accounts :
      Option ℕ
      → Reply (List (ℕ × AccountInfo))
      → List ℕ
      → Store
      → List ℕ × (Result (Unit {0}) × Store)
  unfolding precached add_owner
  precache_user_token_accounts none reply owners s = (owners, (ok tt, s))
  precache_user_token_accounts (some owner) reply owners s =
      (add_owner owners owner, precached reply s)

  unfoldable pub add_if : Bool → ℕ → AccountInfo → Method (Unit {0})
  unfolding add
  add_if false address info = pure tt
  add_if true address info = do added ← add address info (some (token_account_parser spl)); pure tt

  -- The callback of onProgramAccountChange, for the owners whose accounts were cached
  unfoldable pub program_account_changed : List ℕ → ℕ → AccountInfo → Method (Unit {0})
  unfolding deserialize_account contains add_if
  program_account_changed precached_owners address info =
      elim (length info.contents == spl.account_layout_span) [
        | false ↦ pure tt
        | true ↦ do
          decoded ← lift (deserialize_account spl info.contents)
          add_if (contains precached_owners decoded.owner) address info
      ]
