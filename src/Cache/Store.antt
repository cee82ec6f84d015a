-- ===== src/Cache/Store.antt =====
-- The state behind the cache of src/contexts/accounts.tsx: its maps, the requests on their way, and
-- the events that were raised (src/utils/eventEmitter.ts).
use marinade_tenderize_from.Prelude.{ℕ, Bool, Option, none, some, List, []}
use marinade_tenderize_from.Effect.{Result, ok, M}
use marinade_tenderize_from.Buffer.{◌>>=◌}
use marinade_tenderize_from.Web3.{AccountInfo}
use marinade_tenderize_from.JsMap.{JsMap}
use marinade_tenderize_from.Cache.Tokens.{
  TokenAccountInfo, MintInfo, Spl, deserialize_account, deserialize_mint, native_info,
}

-- `info: any`; what a parser of another file makes is not looked into.
pub data Info : Type 0 where
  token_info : TokenAccountInfo → Info
  parsed_mint : MintInfo → Info
  buffer_info : List ℕ → Info
  other_info : List ℕ → Info

pub record ParsedAccount : Type 0 where
  pub pubkey : ℕ
  pub account : AccountInfo
  pub info : Info

-- A function, with a number that tells it from the others. It may throw, and give nothing.
pub record AccountParser : Type 0 where
  pub identity : ℕ
  pub parse : ℕ → AccountInfo → Result (Option ParsedAccount)

module _ (spl : Spl) where
  abbrev pub token_account_parser : AccountParser
  token_account_parser = record {
    identity = 0;
    parse = λ pubkey info. do
      decoded ← deserialize_account spl info.contents
      ok (some (record { pubkey = pubkey; account = info; info = token_info decoded }));
  }

  abbrev pub mint_parser : AccountParser
  mint_parser = record {
    identity = 1;
    parse = λ pubkey info. do
      decoded ← deserialize_mint spl info.contents
      ok (some (record { pubkey = pubkey; account = info; info = parsed_mint decoded }));
  }

abbrev pub generic_account_parser : AccountParser
generic_account_parser = record {
  identity = 2;
  parse = λ pubkey info.
      ok (some (record { pubkey = pubkey; account = info; info = buffer_info info.contents }));
}

unfoldable pub wrap_native_account : ℕ → ℕ → Option AccountInfo → Option ParsedAccount
unfolding native_info
wrap_native_account wrapped_sol_mint pubkey none = none
wrap_native_account wrapped_sol_mint pubkey (some account) = some (record {
  pubkey = pubkey;
  account = account;
  info = token_info (native_info wrapped_sol_mint pubkey account);
})

-- The arguments of the events, and their types.
pub data Event : Type 0 where
  cache_updated : ℕ → Bool → AccountParser → Event
  cache_deleted : ℕ → Event
  market_updated : List ℕ → Event
  cache_cleared : Event

-- A request of the cache that the network has not answered.
pub data Request : Type 0 where
  for_account : ℕ → Option AccountParser → Request
  for_mint : ℕ → Request

-- What a promise was settled with: an account or nothing, a mint, or an error.
pub data Outcome : Type 0 where
  account_outcome : Result (Option ParsedAccount) → Outcome
  mint_outcome : Result MintInfo → Outcome

-- A transaction by its signature; its type and what the chain confirmed are not looked into.
pub record LocalTransaction : Type 0 where
  pub transaction_type : ℕ
  pub signature : ℕ
  pub confirmed : Option (List ℕ)

-- Promises are numbered as they are made.
pub record Store : Type 0 where
  pub pending_calls : JsMap ℕ
  pub generic_cache : JsMap ParsedAccount
  pub pending_mint_calls : JsMap ℕ
  pub mint_cache : JsMap MintInfo
  pub transaction_cache : JsMap (Option LocalTransaction)
  pub key_to_account_parser : JsMap AccountParser
  pub events : List Event
  pub requests : JsMap Request
  pub outcomes : JsMap Outcome
  pub next_promise : ℕ

abbrev pub Method : Type 0 → Type 0
Method A = M Store A

abbrev pub empty_store : Store
empty_store = record {
  pending_calls = [];
  generic_cache = [];
  pending_mint_calls = [];
  mint_cache = [];
  transaction_cache = [];
  key_to_account_parser = [];
  events = [];
  requests = [];
  outcomes = [];
  next_promise = 0;
}
