-- ===== src/Cache/Pending/Reachable.antt =====
-- The pending calls of the cache of src/contexts/accounts.tsx in every state that can come about.
use marinade_tenderize_from.Prelude.{
  ℕ, ◌≡◌, ◌<◌, refl, ◌⊎◌, inl, inr, true, false, Option, none, some, List, [], ◌∷◌,
}
use marinade_tenderize_from.Effect.{
  Error, Result, ok, err, rejected, web, account_not_found, pure, throw, ◌>>=◌,
}
use marinade_tenderize_from.Effect.Ensures.{
  Ensures, Ends, Ensures-pure, Ensures-throw, Ensures-bind, Ensures-elim,
}
use marinade_tenderize_from.Web3.{AccountInfo, Reply, fulfilled, refused}
use marinade_tenderize_from.JsMap.{get, set, delete, get-set}
use marinade_tenderize_from.Cache.Tokens.{Spl, MintInfo}
use marinade_tenderize_from.Cache.Store.{
  Store, Method, ParsedAccount, AccountParser, Request, for_account, for_mint, Outcome,
  account_outcome, mint_outcome, LocalTransaction, wrap_native_account, token_account_parser,
}
use marinade_tenderize_from.Cache.Methods.{
  modify, gets, register_parser, add, query, drop_account, delete_account, query_mint,
  add_transaction, add_bulk_transactions, clear, add_mint, store_native, keep_native, update_native,
  account_arrived, mint_arrived, answered, promised,
}
use marinade_tenderize_from.Cache.Steps.{
  Call, queries, adds, deletes, registers, queries_mint, adds_mint, adds_transaction,
  adds_transactions, clears, updates_native, after, Step, calls, answers, Reach, start, next,
}
use marinade_tenderize_from.Cache.Pending.{Flight, flight, IsTracked, without, without-IsTracked}
use marinade_tenderize_from.Cache.Pending.Answers.{Settled-IsTracked, closed-IsTracked, asked}
use marinade_tenderize_from.Cache.Pending.Still.{
  Still, Settled, add-Settled, Tracks, Still-Tracks, ask-Tracks, query-Tracks, modify-Still,
  gets-Still, lift-Still, raise-Still, register_parser-Still,
}

register_parser-Tracks :
    (address : ℕ) (parser : AccountParser) → Tracks (register_parser address parser)
register_parser-Tracks address parser = Still-Tracks _ (λ f. register_parser-Still f address parser)

delete_account-Tracks : (address : ℕ) → Tracks (delete_account address)
unfolding delete_account drop_account
delete_account-Tracks address = Still-Tracks _ λ f. Ensures-bind _ _ _ (gets-Still f _) λ found.
    Ensures-elim found _ _
      (λ e.
        Ensures-bind _ _ _ (modify-Still f _ (λ s. refl))
          λ u. Ensures-bind _ _ _ (raise-Still f _) λ u. Ensures-pure true (λ s h. h))
      (λ e. Ensures-pure false (λ s h. h))

query_mint-Tracks : (address : ℕ) → Tracks (query_mint address)
unfolding query_mint
query_mint-Tracks address = Ensures-bind _ _ _ (Still-Tracks _ (λ f. gets-Still f _)) (elim [
  | some mint ↦ Ensures-pure _ (λ s h. h)
  | none ↦ Ensures-bind _ _ _ (Still-Tracks _ (λ f. gets-Still f _)) (elim [
    | some promise ↦ Ensures-pure _ (λ s h. h)
    | none ↦ Ensures-bind _ _ _ (ask-Tracks (for_mint address)) λ promise.
        Ensures-bind (λ u s. IsTracked (flight s)) _ _ (kept promise) λ u. Ensures-pure _ (λ s h. h)
  ])
])
  where
    kept :
        (promise : ℕ)
        → Ensures
            (λ s.
              IsTracked (flight s)
              × (promise < s.next_promise)
              × (get s.requests promise ≡ some (for_mint address)))
            (λ u s. IsTracked (flight s))
            (λ e s. IsTracked (flight s))
            (modify
              (λ s. record s { pending_mint_calls = set s.pending_mint_calls address promise }))
    kept promise = record { at = λ s h. unfold modify in h.0 }

add_transaction-Tracks :
    (signature : ℕ) (tx : Option LocalTransaction) → Tracks (add_transaction signature tx)
unfolding add_transaction
add_transaction-Tracks signature tx =
    Still-Tracks _
      λ f. Ensures-bind _ _ _ (modify-Still f _ (λ s. refl)) λ u. Ensures-pure _ (λ s h. h)

add_bulk_transactions-Still :
    (f : Flight) (txs : List LocalTransaction) → Still f (add_bulk_transactions txs)
unfolding add_bulk_transactions
add_bulk_transactions-Still f [] = Ensures-pure _ (λ s h. h)
add_bulk_transactions-Still f (tx ∷ txs) =
    Ensures-bind _ _ _ (modify-Still f _ (λ s. refl))
      λ u. Ensures-bind _ _ _ (add_bulk_transactions-Still f txs) λ rest. Ensures-pure _ (λ s h. h)

clear-Tracks : Tracks clear
unfolding clear
clear-Tracks =
    Still-Tracks _ λ f. Ensures-bind _ _ _ (modify-Still f _ (λ s. refl)) λ u. raise-Still f _

-- Adding an account takes its address off the pending ones at most.
add-Tracks :
    (address : ℕ) (obj : AccountInfo) (parser : Option AccountParser)
    → Tracks (add address obj parser)
add-Tracks address obj parser = record {
  at = λ s t.
      behind (flight s) t (add address obj parser s)
        ((add-Settled (flight s) address obj parser).at s refl);
}
  where
    either : (f g : Flight) → IsTracked f → (g ≡ f) ⊎ (g ≡ without address f) → IsTracked g
    either f g t (inl e) = rw e t
    either f g t (inr e) = rw e (without-IsTracked address f t)

    behind :
        (f : Flight)
        → IsTracked f
        → (r : Result (Option ParsedAccount) × Store)
        → Ends (Settled f address) (λ e s. (flight s ≡ f) ⊎ (flight s ≡ without address f)) r
        → Ends (λ a s. IsTracked (flight s)) (λ e s. IsTracked (flight s)) r
    behind f t (ok none, s) h = either f (flight s) t h
    behind f t (ok (some account), s) h = either f (flight s) t (inr h)
    behind f t (err x, s) h = either f (flight s) t h

left-IsTracked :
    {A : Type 0} (m : Method A)
    → Tracks m
    → (s : Store) → IsTracked (flight s)
    → IsTracked (flight (m s).1)
left-IsTracked m k s h = behind (m s) (k.at s h)
  where
    behind :
        {A : Type 0} (r : Result A × Store)
        → Ends (λ a s. IsTracked (flight s)) (λ e s. IsTracked (flight s)) r
        → IsTracked (flight r.1)
    behind (ok a, s) h = h
    behind (err e, s) h = h

minted :
    (f : Flight) (h : IsTracked f) (p address : ℕ)
    → get f.requests p ≡ some (for_mint address)
    → (r : Result MintInfo) (g : Flight) → g ≡ record f { requests = delete f.requests p }
    → IsTracked (record g { outcomes = set g.outcomes p (mint_outcome r) })
minted f h p address e r g q = rw q (
    closed-IsTracked p (for_mint address) (mint_outcome r) f h e
      (λ a w. absurd (asked p (for_mint address) a f h e w)))

module _ (spl : Spl) where
  add_mint-Tracks : (address : ℕ) (obj : AccountInfo) → Tracks (add_mint spl address obj)
  unfolding add_mint
  add_mint-Tracks address obj = Still-Tracks _ λ f.
      Ensures-bind _ _ _ (lift-Still f _)
        λ mint. Ensures-bind _ _ _ (modify-Still f _ (λ s. refl)) λ u. Ensures-pure _ (λ s h. h)

  keep_native-Still :
      (f : Flight) (public_key : ℕ) (o : Option ParsedAccount)
      → Still f (keep_native spl public_key o)
  unfolding keep_native store_native
  keep_native-Still f public_key none = Ensures-pure tt (λ s h. h)
  keep_native-Still f public_key (some wrapped) =
      Ensures-bind _ _ _ (register_parser-Still f public_key (token_account_parser spl))
        λ u. Ensures-bind _ _ _ (modify-Still f _ (λ s. refl)) λ u. raise-Still f _

  update_native-Tracks :
      (wrapped_sol public_key : ℕ) (account : Option AccountInfo)
      → Tracks (update_native spl wrapped_sol public_key account)
  unfolding update_native
  update_native-Tracks wrapped_sol public_key account =
      Still-Tracks _
        λ f. keep_native-Still f public_key (wrap_native_account wrapped_sol public_key account)

  mint_arrived-Still :
      (f : Flight) (address : ℕ) (reply : Reply (Option AccountInfo))
      → Still f (mint_arrived spl address reply)
  unfolding mint_arrived
  mint_arrived-Still f address refused = Ensures-throw _ (λ s h. h)
  mint_arrived-Still f address (fulfilled none) = Ensures-throw _ (λ s h. h)
  mint_arrived-Still f address (fulfilled (some obj)) =
      Ensures-bind _ _ _ (lift-Still f _)
        λ mint. Ensures-bind _ _ _ (modify-Still f _ (λ s. refl)) λ u. Ensures-pure _ (λ s h. h)

  account_arrived-Settled :
      (f : Flight) (address : ℕ) (parser : Option AccountParser)
      (reply : Reply (Option AccountInfo))
      → Ensures
          (λ s. flight s ≡ f)
          (Settled f address)
          (λ e s. (flight s ≡ f) ⊎ (flight s ≡ without address f))
          (account_arrived spl address parser reply)
  unfolding account_arrived
  account_arrived-Settled f address parser refused = Ensures-throw _ (λ s h. inl h)
  account_arrived-Settled f address parser (fulfilled none) = Ensures-throw _ (λ s h. inl h)
  account_arrived-Settled f address parser (fulfilled (some obj)) = add-Settled f address obj parser

  answered-IsTracked :
      (p : ℕ) (r : Request) (reply : Reply (Option AccountInfo)) (s : Store)
      → get s.requests p ≡ some r
      → IsTracked (flight s)
      → IsTracked (flight (answered spl p r reply s))
  unfolding answered
  answered-IsTracked p (for_account address parser) reply s e h =
      Settled-IsTracked (flight s) h p address parser e _ (
        (account_arrived-Settled _ address parser reply).at
          (record s { requests = delete s.requests p }) refl)
  answered-IsTracked p (for_mint address) reply s e h =
      mint_settled _
        ((mint_arrived-Still _ address reply).at (record s { requests = delete s.requests p }) refl)
    where
      mint_settled :
          (r : Result MintInfo × Store)
          → Ends
              (λ a s'. flight s' ≡ flight (record s { requests = delete s.requests p }))
              (λ x s'. flight s' ≡ flight (record s { requests = delete s.requests p }))
              r
          → IsTracked (flight (record r.1 { outcomes = set r.1.outcomes p (mint_outcome r.0) }))
      mint_settled (ok mint, s') q = minted (flight s) h p address e (ok mint) (flight s') q
      mint_settled (err x, s') q = minted (flight s) h p address e (err x) (flight s') q

  after-IsTracked :
      (c : Call) (s : Store) → IsTracked (flight s) → IsTracked (flight (after spl c s))
  unfolding after
  after-IsTracked (queries address parser) = left-IsTracked _ (query-Tracks address parser)
  after-IsTracked (adds address obj parser) = left-IsTracked _ (add-Tracks address obj parser)
  after-IsTracked (deletes address) = left-IsTracked _ (delete_account-Tracks address)
  after-IsTracked (registers address parser) =
      left-IsTracked _ (register_parser-Tracks address parser)
  after-IsTracked (queries_mint address) = left-IsTracked _ (query_mint-Tracks address)
  after-IsTracked (adds_mint address obj) = left-IsTracked _ (add_mint-Tracks address obj)
  after-IsTracked (adds_transaction signature tx) =
      left-IsTracked _ (add_transaction-Tracks signature tx)
  after-IsTracked (adds_transactions txs) =
      left-IsTracked _ (Still-Tracks _ (λ f. add_bulk_transactions-Still f txs))
  after-IsTracked clears = left-IsTracked _ clear-Tracks
  after-IsTracked (updates_native wrapped_sol public_key account) =
      left-IsTracked _ (update_native-Tracks wrapped_sol public_key account)

  Step-IsTracked : {s s' : Store} → Step spl s s' → IsTracked (flight s) → IsTracked (flight s')
  Step-IsTracked (calls c e) h = rw e (after-IsTracked c _ h)
  Step-IsTracked (answers p r reply i e) h = rw e (answered-IsTracked p r reply _ i h)

  -- In every state that comes about by calls of the cache's methods and by answers of the network,
  -- in any order: a pending call is on its way for its own address, or its promise was settled
  -- without an account; no request on its way is settled, and no promise is before it is made.
  pub Reach-IsTracked : {s : Store} → Reach spl s → IsTracked (flight s)
  Reach-IsTracked start = record {
    tracked = λ a p e. absurd (no_entry e);
    unsettled = λ p r e. absurd (nothing_asked e);
    unmade = λ p b. refl;
  }
    where
      no_entry : {p : ℕ} → none ≡ some p → ⊥
      no_entry e = cc

      nothing_asked : {r : Request} → none ≡ some r → ⊥
      nothing_asked e = cc
  Reach-IsTracked (next r st) = Step-IsTracked st (Reach-IsTracked r)

  -- No account comes with the reply.
  abbrev pub IsWithout : Reply (Option AccountInfo) → Type 0
  IsWithout (fulfilled (some obj)) = ⊥
  IsWithout _ = Unit

  -- Settled with an error.
  abbrev pub IsRejected : Option Outcome → Type 0
  IsRejected o = (e : Error) × (o ≡ some (account_outcome (err e)))

  -- Where the request of a pending call is refused, or finds no account, and the address is not
  -- cached: its promise is settled with an error, and a query of the address right behind the answer
  -- gives that promise, with nothing asked again.
  pub failed_query-sticks :
      (address p : ℕ) (parser parser' : Option AccountParser) (reply : Reply (Option AccountInfo))
      (s : Store)
      → IsWithout reply
      → get s.pending_calls address ≡ some p
      → get s.generic_cache address ≡ none
      → IsRejected (get (answered spl p (for_account address parser) reply s).outcomes p)
        × (query address parser' (answered spl p (for_account address parser) reply s)
            ≡ (ok (promised p), answered spl p (for_account address parser) reply s))
  unfolding answered account_arrived query gets pure throw ◌>>=◌
  failed_query-sticks address p parser parser' refused s w pending cached =
      ((rejected, get-set s.outcomes p (account_outcome (err rejected))), rw (cached, pending) refl)
  failed_query-sticks address p parser parser' (fulfilled none) s w pending cached = (
    (web account_not_found, get-set s.outcomes p (account_outcome (err (web account_not_found)))),
    rw (cached, pending) refl,
  )
  failed_query-sticks address p parser parser' (fulfilled (some obj)) s w pending cached = absurd w
