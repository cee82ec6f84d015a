-- ===== src/Pool.antt =====
-- The client of the stake pool, class TenderizeProgram of experiment/tenderize.ts.
pub mod Types
pub mod Client
pub mod Instructions
pub mod Batches
pub mod Accounts
pub mod Sending
pub mod Delegation
pub mod Merging
pub mod Unstaking
pub mod Paying
pub mod Signed
pub mod Reading
pub mod Wire
