-- ===== src/Ledger.antt =====
-- The Ledger wallet: src/wallet-adapters/ledger/core.ts. A payload goes to the device in commands of
-- 255 bytes at most. The device, and the bytes of a transaction's message, are parameters.
pub mod Bits
pub mod Path
pub mod Device
pub mod Delivery
pub mod Adapter
