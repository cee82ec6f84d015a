-- ===== src/Market.antt =====
-- The accounts that the markets observe: subscribeToMarket and precacheMarkets of
-- src/contexts/market.tsx.
pub mod Subscriptions
pub mod Counts
pub mod Reachable
