-- ===== src/Cache/Multiple.antt =====
-- Many accounts at once: `chunks` of src/utils/utils.ts, getMultipleAccounts of
-- src/contexts/accounts.tsx, refreshAccounts of src/contexts/market.tsx.
use marinade_tenderize_from.Prelude.{
  ℕ, zero, suc, ◌+◌, ◌-◌, ◌*◌, Bool, true, false, Option, none, some, List, [], ◌∷◌, ◌++◌, length,
  map, take, drop, ◌==◌,
}
use marinade_tenderize_from.Effect.{
  Result, ok, err, rejected, web, accounts_failed, pure, lift, ◌>>=◌,
}
use marinade_tenderize_from.Web3.{AccountInfo, Reply, fulfilled, refused}
use marinade_tenderize_from.Pool.Delegation.{ceil_div}
use marinade_tenderize_from.Cache.Store.{Method, ParsedAccount}
use marinade_tenderize_from.Cache.Methods.{add}

module _ {A : Type 0} where
  -- array.slice(from, to)
  abbrev pub array_slice : List A → ℕ → ℕ → List A
  array_slice xs from to = take (to - from) (drop from xs)

  -- The chunks from `index` on, of `rounds` many.
  unfoldable pub chunks_from : List A → ℕ → ℕ → ℕ → List (List A)
  chunks_from xs size index zero = []
  chunks_from xs size index (suc rounds) =
      array_slice xs (index * size) ((index + 1) * size) ∷ chunks_from xs size (index + 1) rounds

  -- A size of 0 is a RangeError in the source; it is called with 99.
  unfoldable pub chunks : List A → ℕ → List (List A)
  unfolding chunks_from ceil_div
  chunks xs size = chunks_from xs size 0 (ceil_div (length xs) size)

  -- `.filter((_) => _)` of what may be undefined
  unfoldable pub defined : List (Option A) → List A
  defined [] = []
  defined (none ∷ os) = defined os
  defined (some a ∷ os) = a ∷ defined os

-- An account as the node sends it: `data[0]` is a text, the contents in base 64.
pub record RawAccount : Type 0 where
  pub lamports : ℕ
  pub owner_is_system : Bool
  pub encoded : List ℕ

-- `unsafeRes`: an error, or a result that has a value or not.
pub data RpcResponse : Type 0 where
  rpc_error : RpcResponse
  rpc_result : Option (List (Option RawAccount)) → RpcResponse

-- `array.map((item, index) => ... keys[index] ...)`
unfoldable pub keyed : List ℕ → List AccountInfo → List (ℕ × AccountInfo)
keyed keys [] = []
keyed [] (a ∷ items) = []
keyed (k ∷ ks) (a ∷ items) = (k, a) ∷ keyed ks items

unfoldable pub add_each : List (ℕ × AccountInfo) → Method (List (Option ParsedAccount))
unfolding add
add_each [] = pure []
add_each ((address, item) ∷ items) = do
  account ← add address item none
  rest ← add_each items
  pure (account ∷ rest)

-- Buffer.from(text, 'base64'), and connection._rpcRequest('getMultipleAccounts', ...) at the time of
-- the call
module _ (from_base64 : List ℕ → List ℕ) (rpc : List ℕ → Reply RpcResponse) where
  unfoldable pub core_result : Reply RpcResponse → Result (List (Option RawAccount))
  core_result refused = err rejected
  core_result (fulfilled rpc_error) = err (web accounts_failed)
  core_result (fulfilled (rpc_result none)) = err (web accounts_failed)
  core_result (fulfilled (rpc_result (some array))) = ok array

  unfoldable pub get_multiple_accounts_core : List ℕ → Result (List (Option RawAccount))
  unfolding core_result
  get_multiple_accounts_core keys = core_result (rpc keys)

  -- `{ ...rest, data: Buffer.from(data[0], 'base64') }`
  unfoldable pub account_of : Option RawAccount → Option AccountInfo
  account_of none = none
  account_of (some acc) = some (record {
    lamports = acc.lamports;
    owner_is_system = acc.owner_is_system;
    contents = from_base64 acc.encoded;
  })

  -- Promise.all over the chunks, then `.flat()`: the accounts that are there.
  unfoldable pub all_accounts : List (List ℕ) → Result (List AccountInfo)
  unfolding get_multiple_accounts_core account_of defined
  all_accounts [] = ok []
  all_accounts (c ∷ cs) = elim (get_multiple_accounts_core c) [
    | err e ↦ err e
    | ok array ↦ elim (all_accounts cs) [
      | err e ↦ err e
      | ok rest ↦ ok (defined (map account_of array) ++ rest)
    ]
  ]

  unfoldable pub get_multiple_accounts : List ℕ → Result (List ℕ × List AccountInfo)
  unfolding chunks all_accounts
  get_multiple_accounts keys = elim (all_accounts (chunks keys 99)) [
    | err e ↦ err e
    | ok array ↦ ok (keys, array)
  ]

  unfoldable pub refresh_accounts : List ℕ → Method (List (Option ParsedAccount))
  unfolding get_multiple_accounts keyed add_each
  refresh_accounts keys = elim (length keys == 0) [
    | true ↦ pure []
    | false ↦ do found ← lift (get_multiple_accounts keys); add_each (keyed found.0 found.1)
  ]
