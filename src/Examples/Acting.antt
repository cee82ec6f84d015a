-- ===== src/Examples/Acting.antt =====
-- A deposit, a withdrawal and a credit of src/actions, with a wallet and a node that say yes.
use marinade_tenderize_from.Prelude.{ℕ, ◌+◌, ◌≡◌, refl, true, false, none, some, List, [], ◌∷◌}
use marinade_tenderize_from.Effect.{ok}
use marinade_tenderize_from.Effect.Ensures.{Ends}
use marinade_tenderize_from.Web3.{fulfilled}
use marinade_tenderize_from.Cache.Store.{empty_store}
use marinade_tenderize_from.Web.Builders.{Tenderize}
use marinade_tenderize_from.Actions.Wallet.{
  WebInstruction, create_account, init_account, close_account, approve_delegate, revoke_delegate,
  call_program, WebNet, WebSession,
}
use marinade_tenderize_from.Actions.Accounts.{TokenAccount}
use marinade_tenderize_from.Actions.Flows.{deposit, withdraw, credit}
use marinade_tenderize_from.Actions.Stage.{SignerLaws, marked}
use marinade_tenderize_from.Actions.Asked.{IsAsked, Asks, AsksOrNot, AsksQuietly}
use marinade_tenderize_from.Actions.Asked.Calls.{IsDeposit, IsWithdrawal, IsCredit}
use marinade_tenderize_from.Actions.Asked.Whole.{deposit-Asks, withdraw-Asks, credit-Asks}
use marinade_tenderize_from.Examples.Builders.{libraries, web_ids}
use marinade_tenderize_from.Examples.Cached.{byte_layouts, an_account}

abbrev pub agreeing : WebNet
agreeing = record {
  Net = Unit {0};
  Signed = Unit {0};
  get_minimum_balance_for_rent_exemption = λ size net. (fulfilled 2, net);
  get_account_info = λ k net. (fulfilled (some an_account), net);
  get_recent_blockhash = λ net. (fulfilled 77, net);
  sign_transaction = λ tx net. (fulfilled tt, net);
  serialize = λ tx. ok [];
  send_raw_transaction = λ raw net. (fulfilled 5, net);
  confirm_transaction = λ txid net. (fulfilled false, net);
  get_parsed_confirmed_transaction = λ txid net. (fulfilled tt, net);
  meanwhile = λ net cache. cache;
  new_account = λ count. 100 + count;
}

abbrev pub must_sign : WebInstruction → List ℕ
must_sign (create_account c) = c.from_pubkey ∷ c.new_account_pubkey ∷ []
must_sign (init_account mint account owner) = []
must_sign (close_account account destination owner) = owner ∷ []
must_sign (approve_delegate account delegate owner amount) = owner ∷ []
must_sign (revoke_delegate account owner) = owner ∷ []
must_sign (call_program t) = marked t.keys

pub must_sign-SignerLaws : SignerLaws must_sign
must_sign-SignerLaws = record {
  creates = λ c. refl;
  inits = λ mint account owner. refl;
  closes = λ account destination owner. refl;
  approves = λ account delegate owner amount. refl;
  revokes = λ account owner. refl;
  calls = λ t. refl;
}

abbrev pub new_session : WebSession agreeing
new_session = record {
  net = tt;
  cache = empty_store;
  made = 0;
  instructions = [];
  cleanup_instructions = [];
  signers = [];
  presented = [];
}

-- The lamports of the wallet 30.
abbrev pub native_lamports : TokenAccount
native_lamports = record {
  pubkey = 30;
  info = record {
    mint = 5;
    owner = 30;
    amount = 900;
    delegate = none;
    delegated_amount = 0;
    is_initialized = true;
    is_frozen = false;
    is_native = true;
    rent_exempt_reserve = none;
    close_authority = none;
  };
}

abbrev pub the_pool : Tenderize ℕ
the_pool = record { credit_list = 12; pool_mint = 13; credit_reserve = 14 }

deposit-Asks_example :
    Ends
      (λ a s'.
        Asks
          (IsAsked must_sign (IsDeposit web_ids libraries 30 native_lamports 8) 30 8 8)
          []
          s'.presented)
      (λ e s'.
        AsksOrNot
          (IsAsked must_sign (IsDeposit web_ids libraries 30 native_lamports 8) 30 8 8)
          []
          s'.presented)
      (deposit agreeing web_ids libraries byte_layouts native_lamports 8 (some 30) new_session)
deposit-Asks_example =
    deposit-Asks must_sign must_sign-SignerLaws agreeing web_ids libraries byte_layouts 30
      native_lamports 8 new_session

withdraw-Asks_example :
    Ends
      (λ o s'.
        AsksQuietly
          (IsAsked must_sign (IsWithdrawal web_ids libraries 30 8 the_pool 30) 30 8 8)
          []
          o
          s'.presented)
      (λ e s'. s'.presented ≡ [])
      (withdraw agreeing web_ids libraries byte_layouts native_lamports 8
        (some 30)
        the_pool
        new_session)
withdraw-Asks_example =
    withdraw-Asks must_sign must_sign-SignerLaws agreeing web_ids libraries byte_layouts 30
      native_lamports 8 the_pool new_session

credit-Asks_example :
    Ends
      (λ o s'.
        AsksQuietly
          (IsAsked must_sign (IsCredit web_ids libraries 30 8 the_pool 30) 30 8 8)
          []
          o
          s'.presented)
      (λ e s'. s'.presented ≡ [])
      (credit agreeing web_ids libraries byte_layouts native_lamports 8
        (some 30)
        the_pool
        new_session)
credit-Asks_example =
    credit-Asks must_sign must_sign-SignerLaws agreeing web_ids libraries byte_layouts 30
      native_lamports 8 the_pool new_session
