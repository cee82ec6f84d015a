-- ===== src/Cache/Fulfilled.antt =====
-- A query of the cache of src/contexts/accounts.tsx whose request finds an account.
use marinade_tenderize_from.Prelude.{
  ℕ, ◌≡◌, refl, false, Option, none, some, [], ◌∷◌, ◌++◌, not, length, ◌==◌,
}
use marinade_tenderize_from.Effect.{ok, pure, lift, ◌>>=◌}
use marinade_tenderize_from.Web3.{AccountInfo, fulfilled}
use marinade_tenderize_from.JsMap.{get, has, set, delete, get-set, get-delete}
use marinade_tenderize_from.Cache.Tokens.{Spl}
use marinade_tenderize_from.Cache.Store.{
  Store, ParsedAccount, AccountParser, for_account, account_outcome, cache_updated,
}
use marinade_tenderize_from.Cache.Methods.{
  gets, modify, raise, register_parser, find_parser, settle_pending, store_account, keep_parsed,
  add, query, present, account_arrived, answered,
}

module _ (spl : Spl) (address p : ℕ) (parser : AccountParser) (obj : AccountInfo)
    (account : ParsedAccount) where
  -- The state behind adding the account.
  abbrev behind : Store → Store
  behind s = record s {
    pending_calls = delete s.pending_calls address;
    generic_cache = set s.generic_cache address account;
    key_to_account_parser = set s.key_to_account_parser address parser;
    events = s.events ++ (cache_updated address (not (has s.generic_cache address)) parser ∷ []);
  }

  add_lem :
      (s : Store)
      → length obj.contents == 0 ≡ false
      → parser.parse address obj ≡ ok (some account)
      → add address obj (some parser) s ≡ (ok (some account), behind s)
  unfolding add find_parser register_parser settle_pending keep_parsed store_account modify gets
      raise lift pure ◌>>=◌
  add_lem s full parsed = rw (add, full, parsed) refl

  abbrev settled : Store → Store
  settled s = record (behind s) {
    requests = delete s.requests p;
    outcomes = set s.outcomes p (account_outcome (ok (some account)));
  }

  answered_lem :
      (s : Store)
      → length obj.contents == 0 ≡ false
      → parser.parse address obj ≡ ok (some account)
      → answered spl p (for_account address (some parser)) (fulfilled (some obj)) s ≡ settled s
  unfolding answered account_arrived
  answered_lem s full parsed =
      rw
        (
          answered,
          account_arrived,
          add_lem (record s { requests = delete s.requests p }) full parsed,
        )
        refl

-- Where the request of a query brings an account with data that the parser takes: its promise is
-- settled with what the parser made of it, nothing of the request is left, and a query
-- of the address right behind the answer has that account at once.
pub fulfilled_query-present :
    (spl : Spl) (address p : ℕ) (parser : AccountParser) (parser' : Option AccountParser)
    (obj : AccountInfo) (account : ParsedAccount) (s : Store)
    → length obj.contents == 0 ≡ false
    → parser.parse address obj ≡ ok (some account)
    → (get (answered spl p (for_account address (some parser)) (fulfilled (some obj)) s).outcomes p
        ≡ some (account_outcome (ok (some account))))
      × (get
            (answered spl p (for_account address (some parser)) (fulfilled (some obj)) s).requests
            p
          ≡ none)
      × (get
            (answered spl p
              (for_account address (some parser))
              (fulfilled (some obj))
              s).pending_calls
            address
          ≡ none)
      × (query address parser'
            (answered spl p (for_account address (some parser)) (fulfilled (some obj)) s)
          ≡ (
            ok (present account),
            answered spl p (for_account address (some parser)) (fulfilled (some obj)) s,
          ))
unfolding query gets pure ◌>>=◌
fulfilled_query-present spl address p parser parser' obj account s full parsed =
    rw (answered_lem spl address p parser obj account s full parsed) (
      get-set s.outcomes p _,
      get-delete s.requests p,
      get-delete s.pending_calls address,
      rw (get-set s.generic_cache address account) refl,
    )
