-- ===== src/Examples/Owning.antt =====
-- The token accounts of a user in the cache of src/contexts/accounts.tsx: one account, of the owner 6.
use marinade_tenderize_from.Prelude.{◌≡◌, ◌≢◌, ◌⊎◌, refl, true, false, Any, none, some, [], ◌∷◌}
use marinade_tenderize_from.Effect.{ok, ◌>>=◌, pure, lift}
use marinade_tenderize_from.Web3.{AccountInfo, refused}
use marinade_tenderize_from.Cache.Tokens.{
  TokenAccountInfo, deserialize_account, token_account_info, unless_zero,
}
use marinade_tenderize_from.Cache.Store.{
  Store, ParsedAccount, token_info, token_account_parser, empty_store,
}
use marinade_tenderize_from.Cache.Methods.{gets, by_parser, get_account}
use marinade_tenderize_from.JsMap.{get}
use marinade_tenderize_from.Cache.Users.{
  get_each, token_of, owned_of, select_user_accounts, precache_user_token_accounts,
  program_account_changed,
}
use marinade_tenderize_from.Cache.Owned.{IsOwnedBy, IsCachedIn, select_user_accounts-exact}
use marinade_tenderize_from.Cache.Heard.{IsAmong, precached_owner-heard}
use marinade_tenderize_from.Examples.Cached.{byte_layouts}

abbrev one_byte : AccountInfo
one_byte = record { lamports = 40; owner_is_system = false; contents = 1 ∷ [] }

abbrev one_token : TokenAccountInfo
one_token = record {
  mint = 5;
  owner = 6;
  amount = 1;
  delegate = none;
  delegated_amount = 0;
  is_initialized = true;
  is_frozen = false;
  is_native = false;
  rent_exempt_reserve = none;
  close_authority = none;
}

abbrev token_seven : ParsedAccount
token_seven = record { pubkey = 7; account = one_byte; info = token_info one_token }

abbrev with_seven : Store
with_seven = record empty_store {
  generic_cache = (7, token_seven) ∷ [];
  key_to_account_parser = (7, token_account_parser byte_layouts) ∷ [];
}

select_user_accounts-exact_example :
    (with_seven ≡ with_seven)
    × ((a : ParsedAccount)
        → (Any (λ x. x ≡ a) (token_seven ∷ []) → IsOwnedBy 6 a × IsCachedIn with_seven a)
          × (IsOwnedBy 6 a → IsCachedIn with_seven a → Any (λ x. x ≡ a) (token_seven ∷ [])))
unfolding select_user_accounts by_parser gets get_each get_account owned_of token_of lift pure ◌>>=◌
select_user_accounts-exact_example =
    select_user_accounts-exact byte_layouts 6 with_seven with_seven (token_seven ∷ []) refl

-- The request for the accounts of the owner 6 was refused.
precached_owner-heard_example :
    (((one_token.owner ≡ 6) ⊎ IsAmong [] one_token.owner)
      × (get
            (program_account_changed byte_layouts
              (precache_user_token_accounts byte_layouts (some 6) refused [] with_seven).0
              8
              one_byte
              with_seven).1.generic_cache
            8
          ≡ some (record { pubkey = 8; account = one_byte; info = token_info one_token })))
    ⊎ ((one_token.owner ≢ 6)
        × (IsAmong [] one_token.owner → ⊥)
        × (program_account_changed byte_layouts
              (precache_user_token_accounts byte_layouts (some 6) refused [] with_seven).0
              8
              one_byte
              with_seven
            ≡ (ok tt, with_seven)))
unfolding deserialize_account token_account_info unless_zero
precached_owner-heard_example =
    precached_owner-heard byte_layouts 8 one_byte one_token 6 [] refused with_seven with_seven refl
      refl refl
