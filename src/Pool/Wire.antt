-- ===== src/Pool/Wire.antt =====
-- The bytes and the accounts of the batch instructions, without the buffer, and what the on-chain
-- program makes of them.
pub mod Address
pub mod Delegate
pub mod Merge
pub mod Unstaking
pub mod Amounts
