-- ===== src/Cache/Steps.antt =====
-- How the cache of src/contexts/accounts.tsx changes: by a call of one of its methods, or when the
-- network answers a request, in any order.
use marinade_tenderize_from.Prelude.{ℕ, ◌≡◌, Option, some, List}
use marinade_tenderize_from.Web3.{AccountInfo, Reply}
use marinade_tenderize_from.JsMap.{get}
use marinade_tenderize_from.Cache.Tokens.{Spl}
use marinade_tenderize_from.Cache.Store.{
  Store, AccountParser, Request, LocalTransaction, empty_store,
}
use marinade_tenderize_from.Cache.Methods.{
  query, add, delete_account, register_parser, query_mint, add_mint, add_transaction,
  add_bulk_transactions, clear, update_native, answered,
}

-- The calls that may change the state.
pub data Call : Type 0 where
  queries : ℕ → Option AccountParser → Call
  adds : ℕ → AccountInfo → Option AccountParser → Call
  deletes : ℕ → Call
  registers : ℕ → AccountParser → Call
  queries_mint : ℕ → Call
  adds_mint : ℕ → AccountInfo → Call
  adds_transaction : ℕ → Option LocalTransaction → Call
  adds_transactions : List LocalTransaction → Call
  clears : Call
  updates_native : ℕ → ℕ → Option AccountInfo → Call

module _ (spl : Spl) where
  -- The state behind a call; what it gives back or throws goes to the caller.
  unfoldable pub after : Call → Store → Store
  unfolding query add delete_account register_parser query_mint add_mint add_transaction
      add_bulk_transactions clear update_native
  after (queries address parser) s = (query address parser s).1
  after (adds address obj parser) s = (add address obj parser s).1
  after (deletes address) s = (delete_account address s).1
  after (registers address parser) s = (register_parser address parser s).1
  after (queries_mint address) s = (query_mint address s).1
  after (adds_mint address obj) s = (add_mint spl address obj s).1
  after (adds_transaction signature tx) s = (add_transaction signature tx s).1
  after (adds_transactions txs) s = (add_bulk_transactions txs s).1
  after clears s = (clear s).1
  after (updates_native wrapped_sol public_key account) s =
      (update_native spl wrapped_sol public_key account s).1

  pub data Step (s : Store) (s' : Store) : Type 0 where
    calls : (c : Call) → s' ≡ after c s → Step s s'
    answers :
        (promise : ℕ) (r : Request) (reply : Reply (Option AccountInfo))
        → get s.requests promise ≡ some r
        → s' ≡ answered spl promise r reply s
        → Step s s'

  -- What can come about from the empty cache.
  pub data Reach : Store → Type 0 where
    start : Reach empty_store
    next : {s s' : Store} → Reach s → Step s s' → Reach s'
