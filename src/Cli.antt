-- ===== src/Cli.antt =====
-- The command line of the pool: `run` of experiment/cli.ts.
pub mod Steps
pub mod Deposits
pub mod Signed
