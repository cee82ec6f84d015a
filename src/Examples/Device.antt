-- ===== src/Examples/Device.antt =====
-- A Ledger device that accepts every command, for src/wallet-adapters/ledger/core.ts.
use marinade_tenderize_from.Prelude.{ℕ, List, [], ◌∷◌}
use marinade_tenderize_from.Web3.{Reply, fulfilled}
use marinade_tenderize_from.Ledger.Device.{Command, Session}

-- the reply of two bytes, 0x9000
abbrev accept : Command → Unit {0} → Reply (List ℕ) × Unit {0}
accept c d = (fulfilled (144 ∷ 0 ∷ []), d)

abbrev plugged_in : Session (Unit {0}) accept
plugged_in = record { device = tt; sent = [] }
