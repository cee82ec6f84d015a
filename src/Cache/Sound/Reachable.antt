-- ===== src/Cache/Sound/Reachable.antt =====
-- The cache of src/contexts/accounts.tsx is sound in every state that can come about.
use marinade_tenderize_from.Prelude.{ℕ, ◌≡◌, refl, true, false, Option, none, some, List, [], ◌∷◌}
use marinade_tenderize_from.Effect.{Result, ok, err, pure, ◌>>=◌}
use marinade_tenderize_from.Effect.Ensures.{
  Ensures, Ends, Ensures-pure, Ensures-throw, Ensures-bind, Ensures-elim,
}
use marinade_tenderize_from.Web3.{AccountInfo, Reply, fulfilled, refused}
use marinade_tenderize_from.Cache.Tokens.{Spl}
use marinade_tenderize_from.Cache.Store.{
  Store, Method, ParsedAccount, AccountParser, Request, for_account, for_mint, LocalTransaction,
  wrap_native_account, token_account_parser,
}
use marinade_tenderize_from.Cache.Methods.{
  modify, raise, register_parser, drop_account, delete_account, store_native, keep_native,
  add_transaction, add_bulk_transactions, clear, add_mint, update_native, account_arrived,
  mint_arrived, answered,
}
use marinade_tenderize_from.Cache.Steps.{
  Call, queries, adds, deletes, registers, queries_mint, adds_mint, adds_transaction,
  adds_transactions, clears, updates_native, after, Step, calls, answers, Reach, start, next,
}
use marinade_tenderize_from.Cache.Sound.{
  seen-append, IsSound, Keeps, Has, modify-Keeps, gets-Keeps, register_parser-Has, stored,
}
use marinade_tenderize_from.Cache.Sound.Calls.{
  lift-Keeps, add-Keeps, query-Keeps, query_mint-Keeps, removed,
}

drop_account-Keeps : (address : ℕ) → Keeps (drop_account address)
unfolding drop_account modify raise ◌>>=◌ pure
drop_account-Keeps address = record { at = removed address }

delete_account-Keeps : (address : ℕ) → Keeps (delete_account address)
unfolding delete_account
delete_account-Keeps address = Ensures-bind _ _ _ (gets-Keeps _) λ found.
    Ensures-elim found _ _ (λ e. drop_account-Keeps address) (λ e. Ensures-pure false (λ s h. h))

clear-Keeps : Keeps clear
unfolding clear modify raise ◌>>=◌
clear-Keeps = record {
  at = λ s h. record {
    registered = λ a c. elim (no_entry c) [ ];
    told = λ a. rw (seen-append a false s.events _) refl;
  };
}
  where
    no_entry : false ≡ true → ⊥
    no_entry e = cc

add_transaction-Keeps :
    (signature : ℕ) (tx : Option LocalTransaction) → Keeps (add_transaction signature tx)
unfolding add_transaction
add_transaction-Keeps signature tx =
    Ensures-bind _ _ _ (modify-Keeps _ (λ s. refl) (λ s. refl) (λ s. refl))
      λ u. Ensures-pure _ (λ s h. h)

add_bulk_transactions-Keeps : (txs : List LocalTransaction) → Keeps (add_bulk_transactions txs)
unfolding add_bulk_transactions
add_bulk_transactions-Keeps [] = Ensures-pure _ (λ s h. h)
add_bulk_transactions-Keeps (tx ∷ txs) =
    Ensures-bind _ _ _ (modify-Keeps _ (λ s. refl) (λ s. refl) (λ s. refl))
      λ u. Ensures-bind _ _ _ (add_bulk_transactions-Keeps txs) λ rest. Ensures-pure _ (λ s h. h)

register_parser-Keeps :
    (address : ℕ) (parser : AccountParser) → Keeps (register_parser address parser)
register_parser-Keeps address parser = record {
  at = λ s h.
      weaken (register_parser address parser s) ((register_parser-Has address parser).at s h);
}
  where
    weaken :
        (r : Result (Unit {0}) × Store)
        → Ends (λ u s. Has address s) (λ e s. IsSound s) r
        → Ends (λ u s. IsSound s) (λ e s. IsSound s) r
    weaken (ok u, s) h = h.0
    weaken (err e, s) h = h

-- The session behind a method that keeps the cache sound.
left-IsSound : {A : Type 0} (m : Method A) → Keeps m → (s : Store) → IsSound s → IsSound (m s).1
left-IsSound m k s h = behind (m s) (k.at s h)
  where
    behind :
        {A : Type 0} (r : Result A × Store)
        → Ends (λ a s. IsSound s) (λ e s. IsSound s) r
        → IsSound r.1
    behind (ok a, s) h = h
    behind (err e, s) h = h

module _ (spl : Spl) where
  add_mint-Keeps : (address : ℕ) (obj : AccountInfo) → Keeps (add_mint spl address obj)
  unfolding add_mint
  add_mint-Keeps address obj = Ensures-bind _ _ _ (lift-Keeps _) λ mint.
      Ensures-bind _ _ _ (modify-Keeps _ (λ s. refl) (λ s. refl) (λ s. refl))
        λ u. Ensures-pure _ (λ s h. h)

  store_native-Keeps :
      (public_key : ℕ) (wrapped : ParsedAccount)
      → Ensures
          (Has public_key)
          (λ u s. IsSound s)
          (λ e s. IsSound s)
          (store_native spl public_key wrapped)
  unfolding store_native modify raise ◌>>=◌
  store_native-Keeps public_key wrapped = record {
    at = λ s h. stored public_key false (token_account_parser spl) wrapped s h;
  }

  keep_native-Keeps :
      (public_key : ℕ) (o : Option ParsedAccount) → Keeps (keep_native spl public_key o)
  unfolding keep_native
  keep_native-Keeps public_key none = Ensures-pure tt (λ s h. h)
  keep_native-Keeps public_key (some wrapped) =
      Ensures-bind _ _ _ (register_parser-Has public_key (token_account_parser spl))
        λ u. store_native-Keeps public_key wrapped

  update_native-Keeps :
      (wrapped_sol public_key : ℕ) (account : Option AccountInfo)
      → Keeps (update_native spl wrapped_sol public_key account)
  unfolding update_native
  update_native-Keeps wrapped_sol public_key account =
      keep_native-Keeps public_key (wrap_native_account wrapped_sol public_key account)

  account_arrived-Keeps :
      (address : ℕ) (parser : Option AccountParser) (reply : Reply (Option AccountInfo))
      → Keeps (account_arrived spl address parser reply)
  unfolding account_arrived
  account_arrived-Keeps address parser refused = Ensures-throw _ (λ s h. h)
  account_arrived-Keeps address parser (fulfilled none) = Ensures-throw _ (λ s h. h)
  account_arrived-Keeps address parser (fulfilled (some obj)) = add-Keeps address obj parser

  mint_arrived-Keeps :
      (address : ℕ) (reply : Reply (Option AccountInfo)) → Keeps (mint_arrived spl address reply)
  unfolding mint_arrived
  mint_arrived-Keeps address refused = Ensures-throw _ (λ s h. h)
  mint_arrived-Keeps address (fulfilled none) = Ensures-throw _ (λ s h. h)
  mint_arrived-Keeps address (fulfilled (some obj)) = Ensures-bind _ _ _ (lift-Keeps _) λ mint.
      Ensures-bind _ _ _ (modify-Keeps _ (λ s. refl) (λ s. refl) (λ s. refl))
        λ u. Ensures-pure _ (λ s h. h)

  -- Taking a request off, and settling its promise, change nothing of it.
  answered-IsSound :
      (promise : ℕ) (r : Request) (reply : Reply (Option AccountInfo)) (s : Store)
      → IsSound s
      → IsSound (answered spl promise r reply s)
  unfolding answered
  answered-IsSound promise (for_account address parser) reply s h =
      let behind =
        left-IsSound _ (account_arrived-Keeps address parser reply) _
          (record { registered = h.registered; told = h.told }) in
      record { registered = behind.registered; told = behind.told }
  answered-IsSound promise (for_mint address) reply s h =
      let behind =
        left-IsSound _ (mint_arrived-Keeps address reply) _
          (record { registered = h.registered; told = h.told }) in
      record { registered = behind.registered; told = behind.told }

  after-IsSound : (c : Call) (s : Store) → IsSound s → IsSound (after spl c s)
  unfolding after
  after-IsSound (queries address parser) = left-IsSound _ (query-Keeps address parser)
  after-IsSound (adds address obj parser) = left-IsSound _ (add-Keeps address obj parser)
  after-IsSound (deletes address) = left-IsSound _ (delete_account-Keeps address)
  after-IsSound (registers address parser) = left-IsSound _ (register_parser-Keeps address parser)
  after-IsSound (queries_mint address) = left-IsSound _ (query_mint-Keeps address)
  after-IsSound (adds_mint address obj) = left-IsSound _ (add_mint-Keeps address obj)
  after-IsSound (adds_transaction signature tx) =
      left-IsSound _ (add_transaction-Keeps signature tx)
  after-IsSound (adds_transactions txs) = left-IsSound _ (add_bulk_transactions-Keeps txs)
  after-IsSound clears = left-IsSound _ clear-Keeps
  after-IsSound (updates_native wrapped_sol public_key account) =
      left-IsSound _ (update_native-Keeps wrapped_sol public_key account)

  Step-IsSound : {s s' : Store} → Step spl s s' → IsSound s → IsSound s'
  Step-IsSound (calls c e) h = rw e (after-IsSound c _ h)
  Step-IsSound (answers promise r reply i e) h = rw e (answered-IsSound promise r reply _ h)

  -- In every state that comes about by calls of the cache's methods and by answers of the network,
  -- in any order: each cached address has a registered parser, so that byParser can find it; and it
  -- is cached just if the events that were raised, heard in order, say so.
  pub Reach-IsSound : {s : Store} → Reach spl s → IsSound s
  Reach-IsSound start = record { registered = λ a e. e; told = λ a. refl }
  Reach-IsSound (next r st) = Step-IsSound st (Reach-IsSound r)
