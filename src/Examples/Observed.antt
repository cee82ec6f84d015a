-- ===== src/Examples/Observed.antt =====
-- The subscriptions of src/contexts/market.tsx: two of one market, the first of which ends.
use marinade_tenderize_from.Prelude.{refl, some, [], ◌∷◌}
use marinade_tenderize_from.Market.Subscriptions.{
  Sides, Markets, subscribe_to_market, unsubscribe, subscribes, unsubscribes, start, next,
}
use marinade_tenderize_from.Market.Counts.{IsCounted}
use marinade_tenderize_from.Market.Reachable.{Reach-IsCounted}

abbrev a_market : Sides
a_market = record { bids = 3; asks = 4 }

abbrev unwatched : Markets
unwatched = record { accounts_to_observe = []; subscriptions = [] }

abbrev watched_twice : Markets
watched_twice = subscribe_to_market (some a_market) (subscribe_to_market (some a_market) unwatched)

abbrev watched_once : Markets
watched_once = unsubscribe a_market (a_market ∷ []) watched_twice

Reach-IsCounted_example : IsCounted watched_once
unfolding subscribe_to_market unsubscribe
Reach-IsCounted_example = Reach-IsCounted (
    next (next (next start (subscribes (some a_market) refl)) (subscribes (some a_market) refl))
      (unsubscribes 0 a_market (a_market ∷ []) refl refl))
