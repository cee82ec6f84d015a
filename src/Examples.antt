-- ===== src/Examples.antt =====
-- The client of experiment/tenderize.ts run on a small network, with the theorems at these inputs.
mod Network
mod Wire
mod Runs
mod Device
mod Builders
mod Cached
mod Observed
mod Acting
mod Owning
mod Commands
mod Decoding
mod Wallets
mod Clicking
