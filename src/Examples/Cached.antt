-- ===== src/Examples/Cached.antt =====
-- The cache of src/contexts/accounts.tsx at a few addresses, with a stand-in for the layouts of
-- @solana/spl-token.
use marinade_tenderize_from.Prelude.{
  ℕ, ◌-◌, ◌≡◌, ◌==◌, if◌then◌else◌, refl, Option, none, some, List, [], ◌∷◌, length, map, false,
}
use marinade_tenderize_from.Effect.{ok, ◌>>=◌}
use marinade_tenderize_from.Web3.{AccountInfo, Reply, fulfilled, refused}
use marinade_tenderize_from.JsMap.{get, has}
use marinade_tenderize_from.Cache.Tokens.{Spl}
use marinade_tenderize_from.Cache.Store.{
  Store, ParsedAccount, buffer_info, account_outcome, generic_account_parser, for_account,
  empty_store,
}
use marinade_tenderize_from.Cache.Methods.{present, query, promised, clear, answered}
use marinade_tenderize_from.Cache.Steps.{after, adds, queries, Reach, start, next, calls, answers}
use marinade_tenderize_from.Cache.Sound.{IsSound}
use marinade_tenderize_from.Cache.Sound.Reachable.{Reach-IsSound}
use marinade_tenderize_from.Cache.Pending.{IsTracked, flight}
use marinade_tenderize_from.Cache.Pending.Reachable.{
  IsRejected, Reach-IsTracked, failed_query-sticks,
}
use marinade_tenderize_from.Cache.Emitter.{heard, on_cache, on_market, clear-unheard}
use marinade_tenderize_from.Cache.Fulfilled.{fulfilled_query-present}
use marinade_tenderize_from.Cache.Multiple.{RawAccount, RpcResponse, rpc_result}

-- A mint is one byte here, its supply; an account is its amount.
abbrev pub byte_layouts : Spl
byte_layouts = record {
  account_layout_span = 1;
  account_layout_decode = λ contents. ok (record {
    mint = 5;
    owner = 6;
    amount = length contents;
    delegate_option = 0;
    delegate = 0;
    delegated_amount = 0;
    state = 1;
    is_native_option = 0;
    is_native = 0;
    close_authority_option = 0;
    close_authority = 0;
  });
  mint_layout_span = 1;
  mint_layout_decode = λ contents. ok (record {
    mint_authority_option = 0;
    mint_authority = 0;
    supply = length contents;
    decimals = 9;
    is_initialized = 1;
    freeze_authority_option = 0;
    freeze_authority = 0;
  });
}

abbrev pub an_account : AccountInfo
an_account = record { lamports = 40; owner_is_system = false; contents = 1 ∷ 2 ∷ [] }

-- Account 7 is added, account 9 is asked for, and the network refuses that.
abbrev added : Store
added = after byte_layouts (adds 7 an_account (some generic_account_parser)) empty_store

abbrev asked_for : Store
asked_for = after byte_layouts (queries 9 none) added

abbrev refused_one : Store
refused_one = answered byte_layouts 0 (for_account 9 none) refused asked_for

refused_one-Reach : Reach byte_layouts refused_one
unfolding after ◌>>=◌
refused_one-Reach =
    next
      (next (next start (calls (adds 7 an_account (some generic_account_parser)) refl))
        (calls (queries 9 none) refl))
      (answers 0 (for_account 9 none) refused refl refl)

Reach-IsSound_example : IsSound refused_one
Reach-IsSound_example = Reach-IsSound byte_layouts refused_one-Reach

Reach-IsTracked_example : IsTracked (flight refused_one)
Reach-IsTracked_example = Reach-IsTracked byte_layouts refused_one-Reach

failed_query-sticks_example :
    IsRejected byte_layouts
      (get (answered byte_layouts 0 (for_account 9 none) refused asked_for).outcomes 0)
    × (query 9 none (answered byte_layouts 0 (for_account 9 none) refused asked_for)
        ≡ (ok (promised 0), answered byte_layouts 0 (for_account 9 none) refused asked_for))
unfolding after query ◌>>=◌
failed_query-sticks_example =
    failed_query-sticks byte_layouts 9 0 none none refused asked_for tt refl refl

clear-unheard_example :
    (has (clear added).1.generic_cache 7 ≡ false)
    × (has (clear added).1.mint_cache 7 ≡ false)
    × (has (clear added).1.transaction_cache 7 ≡ false)
    × ((clear added).1.key_to_account_parser ≡ added.key_to_account_parser)
    × ((clear added).1.pending_calls ≡ added.pending_calls)
    × (heard on_cache (clear added).1.events ≡ heard on_cache added.events)
    × (heard on_market (clear added).1.events ≡ heard on_market added.events)
clear-unheard_example = clear-unheard added 7

abbrev one_key : List ℕ
one_key = 7 ∷ []

-- A node that has the account 7 and no other; its text is decoded by a shift of each character.
abbrev a_raw_account : RawAccount
a_raw_account = record { lamports = 40; owner_is_system = false; encoded = 66 ∷ [] }

abbrev shifted : List ℕ → List ℕ
shifted text = map (λ c. c - 65) text

abbrev found_at : ℕ → Option RawAccount
found_at k = if k == 7 then some a_raw_account else none

abbrev node : List ℕ → Reply RpcResponse
node keys = fulfilled (rpc_result (some (map found_at keys)))

abbrev account_nine : ParsedAccount
account_nine = record { pubkey = 9; account = an_account; info = buffer_info (1 ∷ 2 ∷ []) }

abbrev asked_nine : Store
asked_nine = after byte_layouts (queries 9 (some generic_account_parser)) empty_store

abbrev answered_nine : Store
answered_nine =
    answered byte_layouts 0 (for_account 9 (some generic_account_parser))
      (fulfilled (some an_account)) asked_nine

fulfilled_query-present_example :
    (get answered_nine.outcomes 0 ≡ some (account_outcome (ok (some account_nine))))
    × (get answered_nine.requests 0 ≡ none)
    × (get answered_nine.pending_calls 9 ≡ none)
    × (query 9 none answered_nine ≡ (ok (present account_nine), answered_nine))
fulfilled_query-present_example =
    fulfilled_query-present byte_layouts 9 0 generic_account_parser none an_account account_nine
      asked_nine refl refl
