-- ===== src/Cache/Aligned.antt =====
-- getMultipleAccounts of src/contexts/accounts.tsx, and what refreshAccounts of
-- src/contexts/market.tsx makes of it: which account goes to which address.
use marinade_tenderize_from.Prelude.{ℕ, ◌≡◌, Option, some, List, map}
use marinade_tenderize_from.Cache.Store.{Store}
use marinade_tenderize_from.Web3.{AccountInfo, Reply, fulfilled}
use marinade_tenderize_from.Cache.Multiple.{RawAccount, RpcResponse, rpc_result, account_of}

-- The node answers with what it has for each key, in order.
abbrev pub Answers : (List ℕ → Reply RpcResponse) → (ℕ → Option RawAccount) → Type 0
Answers rpc lookup = (ks : List ℕ) → rpc ks ≡ fulfilled (rpc_result (some (map lookup ks)))

-- The node has an account for the key.
abbrev pub IsPresent : (ℕ → Option RawAccount) → ℕ → Type 0
IsPresent lookup k = (raw : RawAccount) × (lookup k ≡ some raw)

module _ (from_base64 : List ℕ → List ℕ) (rpc : List ℕ → Reply RpcResponse)
    (lookup : ℕ → Option RawAccount) where
  -- It is what the node has for the key, with its data decoded.
  abbrev pub IsDecoded : ℕ → AccountInfo → Type 0
  IsDecoded k a =
      (raw : RawAccount) × (lookup k ≡ some raw)
      × (a.lamports ≡ raw.lamports)
      × (a.owner_is_system ≡ raw.owner_is_system)
      × (a.contents ≡ from_base64 raw.encoded)

  abbrev found_of : ℕ → Option AccountInfo
  found_of k = account_of from_base64 rpc (lookup k)
