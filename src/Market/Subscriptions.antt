-- ===== src/Market/Subscriptions.antt =====
-- subscribeToMarket and the function that it returns, precacheMarkets (src/contexts/market.tsx). A
-- count that falls to 0 or below is deleted in the same call, so the counts are natural numbers.
use marinade_tenderize_from.Prelude.{
  taken, ℕ, ◌+◌, ◌-◌, ◌≡◌, Bool, false, ◌||◌, Option, none, some, List, [], ◌∷◌, ◌++◌, length, leb,
  ◌==◌, if◌then◌else◌,
}
use marinade_tenderize_from.JsMap.{JsMap, get, set, delete, keys}

-- The bids and asks of a market that is cached.
pub record Sides : Type 0 where
  pub bids : ℕ
  pub asks : ℕ

-- accountsToObserve.get(key) || 0
unfoldable pub count_of : JsMap ℕ → ℕ → ℕ
count_of m key = elim (get m key) [ none ↦ 0 | some n ↦ n ]

-- The keys whose count is 0 are deleted, one after the other.
unfoldable pub cleanup_keys : List ℕ → JsMap ℕ → JsMap ℕ
unfolding count_of
cleanup_keys [] m = m
cleanup_keys (key ∷ ks) m = cleanup_keys ks (if leb (count_of m key) 0 then delete m key else m)

unfoldable pub cleanup : JsMap ℕ → JsMap ℕ
unfolding cleanup_keys
cleanup m = cleanup_keys (keys m) m

unfoldable pub observe : Sides → JsMap ℕ → JsMap ℕ
unfolding count_of
observe m accounts =
    let with_bid = set accounts m.bids (count_of accounts m.bids + 1) in
    set with_bid m.asks (count_of with_bid m.asks + 1)

unfoldable pub unobserve : Sides → JsMap ℕ → JsMap ℕ
unfolding count_of cleanup
unobserve m accounts =
    let without_bid = set accounts m.bids (count_of accounts m.bids - 1) in
    cleanup (set without_bid m.asks (count_of without_bid m.asks - 1))

-- The accounts, and what the functions that subscribeToMarket returned are to undo: each one that
-- was not called yet.
pub record Markets : Type 0 where
  pub accounts_to_observe : JsMap ℕ
  pub subscriptions : List Sides

-- `() => {}` where the market is not cached
unfoldable pub subscribe_to_market : Option Sides → Markets → Markets
unfolding observe
subscribe_to_market none s = s
subscribe_to_market (some m) s = record {
  accounts_to_observe = observe m s.accounts_to_observe;
  subscriptions = m ∷ s.subscriptions;
}

-- The function of a subscription is called.
unfoldable pub unsubscribe : Sides → List Sides → Markets → Markets
unfolding unobserve
unsubscribe m rest s = record {
  accounts_to_observe = unobserve m s.accounts_to_observe;
  subscriptions = rest;
}

-- [...new Set(items)]
unfoldable pub contains : List ℕ → ℕ → Bool
contains [] k = false
contains (x ∷ xs) k = x == k || contains xs k

unfoldable pub distinct_from : List ℕ → List ℕ → List ℕ
unfolding contains
distinct_from kept [] = kept
distinct_from kept (x ∷ xs) =
    let old = distinct_from kept xs in
    let new = distinct_from (kept ++ (x ∷ [])) xs in if contains kept x then old else new

-- precacheMarkets: the mints are replaced only by more of them.
unfoldable pub precache_markets : List ℕ → List ℕ → List ℕ
unfolding distinct_from
precache_markets market_mints mints =
    let new_mints = distinct_from [] (market_mints ++ mints) in
    if length market_mints == length new_mints then market_mints else new_mints

pub data Step (s : Markets) (s' : Markets) : Type 0 where
  subscribes : (m : Option Sides) → s' ≡ subscribe_to_market m s → Step s s'
  unsubscribes :
      (i : ℕ) (m : Sides) (rest : List Sides)
      → taken s.subscriptions i ≡ some (m, rest)
      → s' ≡ unsubscribe m rest s
      → Step s s'

pub data Reach : Markets → Type 0 where
  start : Reach (record { accounts_to_observe = []; subscriptions = [] })
  next : {s s' : Markets} → Reach s → Step s s' → Reach s'
