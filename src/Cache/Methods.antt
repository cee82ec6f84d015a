-- ===== src/Cache/Methods.antt =====
-- The methods of `cache`, and what happens when a request is answered (src/contexts/accounts.tsx).
use marinade_tenderize_from.Prelude.{
  ℕ, suc, Bool, true, false, not, Option, none, some, List, [], ◌∷◌, ◌++◌, length, ◌==◌,
  if◌then◌else◌,
}
use marinade_tenderize_from.Effect.{
  ok, err, rejected, web, account_not_found, no_deserializer, mint_not_found, pure, throw, lift,
  ◌>>=◌, ◌>>◌,
}
use marinade_tenderize_from.Web3.{AccountInfo, Reply, fulfilled, refused}
use marinade_tenderize_from.JsMap.{JsMap, get, has, set, delete}
use marinade_tenderize_from.Cache.Tokens.{MintInfo, Spl, deserialize_mint}
use marinade_tenderize_from.Cache.Store.{
  Store, Method, ParsedAccount, AccountParser, Event, cache_updated, cache_deleted, cache_cleared,
  Request, for_account, for_mint, account_outcome, mint_outcome, LocalTransaction,
  wrap_native_account, token_account_parser,
}

-- A change of the state that gives nothing back.
unfoldable pub modify : (Store → Store) → Method (Unit {0})
modify f s = (ok tt, f s)

unfoldable pub gets : {A : Type 0} → (Store → A) → Method A
gets f s = (ok (f s), s)

unfoldable pub raise : Event → Method (Unit {0})
unfolding modify
raise e = modify (λ s. record s { events = s.events ++ (e ∷ []) })

-- cache.registerParser
unfoldable pub register_parser : ℕ → AccountParser → Method (Unit {0})
unfolding modify
register_parser address parser =
    modify (λ s. record s { key_to_account_parser = set s.key_to_account_parser address parser })

-- `parser ? parser : keyToAccountParser.get(address)`
unfoldable pub find_parser : ℕ → Option AccountParser → Method AccountParser
find_parser address (some parser) s = (ok parser, s)
find_parser address none s = elim (get s.key_to_account_parser address) [
  | none ↦ (err (web no_deserializer), s)
  | some parser ↦ (ok parser, s)
]

unfoldable pub settle_pending : ℕ → Method (Unit {0})
unfolding modify
settle_pending address = modify (λ s. record s { pending_calls = delete s.pending_calls address })

-- `genericCache.set(address, account)` and the event that tells of it
unfoldable pub store_account : ℕ → AccountParser → ParsedAccount → Method (Unit {0})
unfolding modify gets raise
store_account address parser account = do
  known ← gets (λ s. has s.generic_cache address)
  modify (λ s. record s { generic_cache = set s.generic_cache address account })
  raise (cache_updated address (not known) parser)

-- What the parser made: nothing is kept of nothing.
unfoldable pub keep_parsed :
    ℕ → AccountParser → Option ParsedAccount → Method (Option ParsedAccount)
unfolding store_account
keep_parsed address parser none = pure none
keep_parsed address parser (some account) = do
  store_account address parser account
  pure (some account)

-- cache.add
unfoldable pub add : ℕ → AccountInfo → Option AccountParser → Method (Option ParsedAccount)
unfolding find_parser register_parser settle_pending keep_parsed
add address obj parser = elim (length obj.contents == 0) [
  | true ↦ pure none
  | false ↦ do
    deserialize ← find_parser address parser
    register_parser address deserialize
    settle_pending address
    parsed ← lift (deserialize.parse address obj)
    keep_parsed address deserialize parsed
]

-- What cache.query gives back: the account, or a promise.
pub data Answer (A : Type 0) : Type 0 where
  present : A → Answer A
  promised : ℕ → Answer A

-- A new request and its promise.
unfoldable pub ask : Request → Method ℕ
ask r s = (
  ok s.next_promise,
  record s { requests = set s.requests s.next_promise r; next_promise = suc s.next_promise },
)

-- cache.query
unfoldable pub query : ℕ → Option AccountParser → Method (Answer ParsedAccount)
unfolding gets modify ask
query address parser = do
  cached ← gets (λ s. get s.generic_cache address)
  elim cached [
    | some account ↦ pure (present account)
    | none ↦ do
      pending ← gets (λ s. get s.pending_calls address)
      elim pending [
        | some promise ↦ pure (promised promise)
        | none ↦ do
          promise ← ask (for_account address parser)
          modify (λ s. record s { pending_calls = set s.pending_calls address promise })
          pure (promised promise)
      ]
  ]

-- cache.get and cache.delete
unfoldable pub get_account : ℕ → Method (Option ParsedAccount)
unfolding gets
get_account address = gets (λ s. get s.generic_cache address)

unfoldable pub drop_account : ℕ → Method Bool
unfolding modify raise
drop_account address = do
  modify (λ s. record s { generic_cache = delete s.generic_cache address })
  raise (cache_deleted address)
  pure true

unfoldable pub delete_account : ℕ → Method Bool
unfolding gets drop_account
delete_account address = do
  found ← gets (λ s. has s.generic_cache address)
  elim found [ false ↦ pure false | true ↦ drop_account address ]

-- cache.byParser
unfoldable pub of_parser : ℕ → JsMap AccountParser → List ℕ
of_parser identity [] = []
of_parser identity ((address, p) ∷ m) =
    let rest = of_parser identity m in if p.identity == identity then address ∷ rest else rest

unfoldable pub by_parser : AccountParser → Method (List ℕ)
unfolding gets of_parser
by_parser parser = gets (λ s. of_parser parser.identity s.key_to_account_parser)

-- cache.queryMint
unfoldable pub query_mint : ℕ → Method (Answer MintInfo)
unfolding gets modify ask
query_mint address = do
  cached ← gets (λ s. get s.mint_cache address)
  elim cached [
    | some mint ↦ pure (present mint)
    | none ↦ do
      pending ← gets (λ s. get s.pending_mint_calls address)
      elim pending [
        | some promise ↦ pure (promised promise)
        | none ↦ do
          promise ← ask (for_mint address)
          modify (λ s. record s { pending_mint_calls = set s.pending_mint_calls address promise })
          pure (promised promise)
      ]
  ]

-- cache.getMint
unfoldable pub get_mint : ℕ → Method (Option MintInfo)
unfolding gets
get_mint address = gets (λ s. get s.mint_cache address)

-- cache.addTransaction, addBulkTransactions, getTransaction, getAllTransactions
unfoldable pub add_transaction : ℕ → Option LocalTransaction → Method (Option LocalTransaction)
unfolding modify
add_transaction signature tx = do
  modify (λ s. record s { transaction_cache = set s.transaction_cache signature tx })
  pure tx

unfoldable pub add_bulk_transactions : List LocalTransaction → Method (List LocalTransaction)
unfolding modify
add_bulk_transactions [] = pure []
add_bulk_transactions (tx ∷ txs) = do
  modify (λ s. record s { transaction_cache = set s.transaction_cache tx.signature (some tx) })
  rest ← add_bulk_transactions txs
  pure (tx ∷ rest)

-- `undefined` for a signature that is not there, `null` for one without a transaction
unfoldable pub get_transaction : ℕ → Method (Option (Option LocalTransaction))
unfolding gets
get_transaction signature = gets (λ s. get s.transaction_cache signature)

unfoldable pub get_all_transactions : Method (JsMap (Option LocalTransaction))
unfolding gets
get_all_transactions = gets (λ s. s.transaction_cache)

-- cache.clear: the calls on their way and the parsers stay.
unfoldable pub clear : Method (Unit {0})
unfolding modify raise
clear = do
  modify (λ s. record s { generic_cache = []; mint_cache = []; transaction_cache = [] })
  raise cache_cleared

module _ (spl : Spl) where
  -- cache.addMint
  unfoldable pub add_mint : ℕ → AccountInfo → Method MintInfo
  unfolding modify
  add_mint address obj = do
    mint ← lift (deserialize_mint spl obj.contents)
    modify (λ s. record s { mint_cache = set s.mint_cache address mint })
    pure mint

  -- updateCache of UseNativeAccount: the account is put in place, and told of as a known one.
  unfoldable pub store_native : ℕ → ParsedAccount → Method (Unit {0})
  unfolding modify raise
  store_native public_key wrapped = do
    modify (λ s. record s { generic_cache = set s.generic_cache public_key wrapped })
    raise (cache_updated public_key false (token_account_parser spl))

  unfoldable pub keep_native : ℕ → Option ParsedAccount → Method (Unit {0})
  unfolding register_parser store_native
  keep_native public_key none = pure tt
  keep_native public_key (some wrapped) = do
    register_parser public_key (token_account_parser spl)
    store_native public_key wrapped

  unfoldable pub update_native : ℕ → ℕ → Option AccountInfo → Method (Unit {0})
  unfolding keep_native
  update_native wrapped_sol_mint public_key account =
      keep_native public_key (wrap_native_account wrapped_sol_mint public_key account)

  -- The continuation of a request for an account: `.then((data) => ...)` of cache.query
  unfoldable pub account_arrived :
      ℕ → Option AccountParser → Reply (Option AccountInfo) → Method (Option ParsedAccount)
  unfolding add
  account_arrived address parser refused = throw rejected
  account_arrived address parser (fulfilled none) = throw (web account_not_found)
  account_arrived address parser (fulfilled (some obj)) = add address obj parser

  -- getMintInfo, and the continuation in cache.queryMint
  unfoldable pub mint_arrived : ℕ → Reply (Option AccountInfo) → Method MintInfo
  unfolding modify
  mint_arrived address refused = throw rejected
  mint_arrived address (fulfilled none) = throw (web mint_not_found)
  mint_arrived address (fulfilled (some obj)) = do
    mint ← lift (deserialize_mint spl obj.contents)
    modify (λ s. record s {
      pending_mint_calls = delete s.pending_mint_calls address;
      mint_cache = set s.mint_cache address mint;
    })
    pure mint

  -- The network answers a request: the promise is settled with what its continuation gives.
  unfoldable pub answered : ℕ → Request → Reply (Option AccountInfo) → Store → Store
  unfolding account_arrived mint_arrived
  answered promise (for_account address parser) reply s =
      let (r, s') =
        account_arrived address parser reply (record s { requests = delete s.requests promise }) in
      record s' { outcomes = set s'.outcomes promise (account_outcome r) }
  answered promise (for_mint address) reply s =
      let (r, s') =
        mint_arrived address reply (record s { requests = delete s.requests promise }) in
      record s' { outcomes = set s'.outcomes promise (mint_outcome r) }
