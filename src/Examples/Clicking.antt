-- ===== src/Examples/Clicking.antt =====
-- The balance of a user with two accounts in tenderSOL, and a click on half of it.
use marinade_tenderize_from.Prelude.{ℕ, Bool, true, false, none, some, List, [], ◌∷◌}
use marinade_tenderize_from.Actions.Wallet.{UserAction}
use marinade_tenderize_from.Actions.Accounts.{TokenAccount}
use marinade_tenderize_from.Balance.{on_withdraw}
use marinade_tenderize_from.Examples.Builders.{libraries, web_ids}
use marinade_tenderize_from.Examples.Cached.{byte_layouts, an_account}
use marinade_tenderize_from.Examples.Acting.{agreeing, native_lamports, the_pool}

abbrev tender_account : ℕ → ℕ → TokenAccount
tender_account key lamports = record {
  pubkey = key;
  info = record {
    mint = 3;
    owner = 30;
    amount = lamports;
    delegate = none;
    delegated_amount = 0;
    is_initialized = true;
    is_frozen = false;
    is_native = false;
    rent_exempt_reserve = none;
    close_authority = none;
  };
}

abbrev three_accounts : List TokenAccount
three_accounts = tender_account 41 500 ∷ native_lamports ∷ tender_account 42 700 ∷ []

-- Half of the balance is 600, taken from the account with 700.
abbrev click_on_half : UserAction agreeing Bool
click_on_half =
    on_withdraw agreeing web_ids libraries byte_layouts (some an_account) 3 (tender_account 42 700)
      600 (some 30) (some the_pool)
