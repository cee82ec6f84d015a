-- ===== src/Cache/Sound.antt =====
-- The cache of src/contexts/accounts.tsx keeps an account only with a parser, and tells of each
-- change.
pub mod Calls
pub mod Reachable
use marinade_tenderize_from.Prelude.{
  ℕ, suc, ◌≡◌, refl, sym, ap, ◌∙◌, Bool, true, false, not, ◌&&◌, ◌||◌, inl, inr, Option, none, some,
  List, [], ◌∷◌, ◌++◌, arith, length, ◌==◌, Bool-cases,
}
use marinade_tenderize_from.Effect.{Error, Result, ok, err, M, pure, throw, lift, ◌>>=◌, ◌>>◌}
use marinade_tenderize_from.Effect.Ensures.{
  Ensures, Ends, Ensures-pure, Ensures-throw, Ensures-lift, Ensures-bind, Ensures-elim,
  Ensures-mono,
}
use marinade_tenderize_from.Web3.{AccountInfo, Reply, fulfilled, refused}
use marinade_tenderize_from.JsMap.{JsMap, get, has, set, delete, has-set, has-delete, has-delete_ne}
use marinade_tenderize_from.Cache.Tokens.{Spl}
use marinade_tenderize_from.Cache.Store.{
  Store, Method, ParsedAccount, AccountParser, Event, cache_updated, cache_deleted, market_updated,
  cache_cleared, Request, for_account, for_mint, LocalTransaction, wrap_native_account, empty_store,
  token_account_parser,
}
use marinade_tenderize_from.Cache.Methods.{
  modify, gets, raise, register_parser, find_parser, settle_pending, store_account, keep_parsed,
  add, ask, query, delete_account, query_mint, add_transaction, add_bulk_transactions, clear,
  add_mint, update_native, account_arrived, mint_arrived, answered,
}
use marinade_tenderize_from.Cache.Steps.{
  Call, queries, adds, deletes, registers, queries_mint, adds_mint, adds_transaction,
  adds_transactions, clears, updates_native, after, Step, calls, answers, Reach, start, next,
}

-- Whether a listener that hears all events takes an address for cached, from what it took before.
abbrev pub seen : ℕ → Bool → List Event → Bool
seen a b [] = b
seen a b (cache_updated k is_new parser ∷ es) = seen a (k == a || b) es
seen a b (cache_deleted k ∷ es) = seen a (not (k == a) && b) es
seen a b (market_updated ids ∷ es) = seen a b es
seen a b (cache_cleared ∷ es) = seen a false es

pub seen-append :
    (a : ℕ) (b : Bool) (es fs : List Event) → seen a b (es ++ fs) ≡ seen a (seen a b es) fs
seen-append a b [] fs = refl
seen-append a b (cache_updated k is_new parser ∷ es) fs = seen-append a (k == a || b) es fs
seen-append a b (cache_deleted k ∷ es) fs = seen-append a (not (k == a) && b) es fs
seen-append a b (market_updated ids ∷ es) fs = seen-append a b es fs
seen-append a b (cache_cleared ∷ es) fs = seen-append a false es fs

-- Each cached address has a parser, and is what the events tell.
abbrev pub IsRegistered : Store → Type 0
IsRegistered s = (a : ℕ) → has s.generic_cache a ≡ true → has s.key_to_account_parser a ≡ true

abbrev pub IsTold : Store → Type 0
IsTold s = (a : ℕ) → has s.generic_cache a ≡ seen a false s.events

pub record IsSound (s : Store) : Type 0 where
  pub registered : IsRegistered s
  pub told : IsTold s

abbrev pub Keeps : {A : Type 0} → Method A → Type 0
Keeps m = Ensures IsSound (λ a s. IsSound s) (λ e s. IsSound s) m

-- A method that leaves the accounts, the parsers and the events alone.
pub modify-Keeps :
    (f : Store → Store)
    → ((s : Store) → (f s).generic_cache ≡ s.generic_cache)
    → ((s : Store) → (f s).key_to_account_parser ≡ s.key_to_account_parser)
    → ((s : Store) → (f s).events ≡ s.events)
    → Keeps (modify f)
unfolding modify
modify-Keeps f g k e = record {
  at = λ s h. record {
    registered = λ a. rw (g s, k s) (h.registered a);
    told = λ a. rw (g s, e s) (h.told a);
  };
}

pub gets-Keeps : {A : Type 0} (f : Store → A) → Keeps (gets f)
unfolding gets
gets-Keeps f = record { at = λ s h. h }

-- The parser of an address is there.
abbrev pub Has : ℕ → Store → Type 0
Has address s = IsSound s × (has s.key_to_account_parser address ≡ true)

pub register_parser-Has :
    (address : ℕ) (parser : AccountParser)
    → Ensures IsSound (λ u s. Has address s) (λ e s. IsSound s) (register_parser address parser)
unfolding register_parser modify
register_parser-Has address parser = record {
  at = λ s h. (
    record {
      registered = λ a c.
          rw (has-set s.key_to_account_parser address a parser)
            (let known = h.registered a c in ground (arith, known));
      told = h.told;
    },
    rw (has-set s.key_to_account_parser address address parser) (ground arith),
  );
}

-- Storing an account and telling of it.
pub stored :
    (address : ℕ) (known : Bool) (parser : AccountParser) (account : ParsedAccount) (s : Store)
    → Has address s
    → IsSound (record s {
      generic_cache = set s.generic_cache address account;
      events = s.events ++ (cache_updated address known parser ∷ []);
    })
stored address known parser account s h = record {
  registered = λ a c. elim (Bool-cases (address == a)) [
    | inl e ↦ let same : address ≡ a = ground (arith, e) in rw (← same) h.1
    | inr e ↦ h.0.registered a (
        let there : has (set s.generic_cache address account) a ≡ true = c in
        let moved = has-set s.generic_cache address a account in ground (arith, there, moved, e))
  ];
  told = λ a.
      rw (has-set s.generic_cache address a account, seen-append a false s.events _, h.0.told a)
        refl;
}

pub store_account-Keeps :
    (address : ℕ) (parser : AccountParser) (account : ParsedAccount)
    → Ensures
        (Has address)
        (λ u s. IsSound s)
        (λ e s. IsSound s)
        (store_account address parser account)
unfolding store_account gets modify raise ◌>>=◌
store_account-Keeps address parser account = record {
  at = λ s h. stored address _ parser account s h;
}
