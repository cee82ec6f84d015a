-- ===== src/Actions.antt =====
-- What a user does with the web application: src/actions, approve of src/models/account.ts,
-- sendTransaction of src/contexts/connection.tsx.
pub mod Wallet
pub mod Accounts
pub mod Flows
pub mod Stage
pub mod Prepared
pub mod Asked
