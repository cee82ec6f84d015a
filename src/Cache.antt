-- ===== src/Cache.antt =====
-- The cache of accounts: src/contexts/accounts.tsx, with src/utils/eventEmitter.ts. A public key is
-- its address, and an address is a number.
pub mod Tokens
pub mod Store
pub mod Methods
pub mod Steps
pub mod Sound
pub mod Pending
pub mod Emitter
pub mod Multiple
pub mod Chunks
pub mod Aligned
pub mod Users
pub mod Owned
pub mod Heard
pub mod Fulfilled
