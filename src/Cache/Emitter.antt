-- ===== src/Cache/Emitter.antt =====
-- Who hears of an event: src/utils/eventEmitter.ts. Listeners are called by the type of the event.
use marinade_tenderize_from.Prelude.{
  ℕ, ◌≡◌, refl, Bool, true, false, List, [], ◌∷◌, ◌++◌, append-nil, if◌then◌else◌,
}
use marinade_tenderize_from.Effect.{◌>>=◌}
use marinade_tenderize_from.JsMap.{has}
use marinade_tenderize_from.Cache.Store.{
  Store, Event, cache_updated, cache_deleted, market_updated, cache_cleared,
}
use marinade_tenderize_from.Cache.Methods.{modify, raise, clear}

-- The strings "CacheUpdate", "MarketUpdate" and "CacheDelete".
pub data EventType : Type 0 where
  cache_update market_update cache_delete : EventType

abbrev pub event_type : Event → EventType
event_type (cache_updated id is_new parser) = cache_update
event_type (cache_deleted id) = cache_update
event_type (market_updated ids) = market_update
event_type cache_cleared = cache_delete

-- onCache and onMarket: whether their callbacks are called for an event of this type
abbrev pub on_cache : EventType → Bool
on_cache cache_update = true
on_cache _ = false

abbrev pub on_market : EventType → Bool
on_market market_update = true
on_market _ = false

-- The events that the callbacks of a subscription are called with, in order.
unfoldable pub heard : (EventType → Bool) → List Event → List Event
heard subscribed [] = []
heard subscribed (e ∷ es) =
    let rest = heard subscribed es in if subscribed (event_type e) then e ∷ rest else rest

with_head :
    (b : Bool) (e : Event) (es fs : List Event)
    → (if b then e ∷ (es ++ fs) else (es ++ fs)) ≡ (if b then e ∷ es else es) ++ fs
with_head true e es fs = refl
with_head false e es fs = refl

heard-append :
    (subscribed : EventType → Bool) (es fs : List Event)
    → heard subscribed (es ++ fs) ≡ heard subscribed es ++ heard subscribed fs
unfolding heard
heard-append subscribed [] fs = refl
heard-append subscribed (e ∷ es) fs =
    rw (heard-append subscribed es fs)
      (with_head (subscribed (event_type e)) e (heard subscribed es) (heard subscribed fs))

-- Clearing the cache leaves no account, no mint and no transaction in it, keeps the parsers and
-- the pending calls, and calls neither the callbacks of onCache nor those of onMarket.
pub clear-unheard :
    (s : Store) (a : ℕ)
    → (has (clear s).1.generic_cache a ≡ false)
      × (has (clear s).1.mint_cache a ≡ false)
      × (has (clear s).1.transaction_cache a ≡ false)
      × ((clear s).1.key_to_account_parser ≡ s.key_to_account_parser)
      × ((clear s).1.pending_calls ≡ s.pending_calls)
      × (heard on_cache (clear s).1.events ≡ heard on_cache s.events)
      × (heard on_market (clear s).1.events ≡ heard on_market s.events)
unfolding clear modify raise ◌>>=◌ heard
clear-unheard s a = (
  refl,
  refl,
  refl,
  refl,
  refl,
  rw (heard-append on_cache s.events (cache_cleared ∷ []), append-nil) refl,
  rw (heard-append on_market s.events (cache_cleared ∷ []), append-nil) refl,
)
