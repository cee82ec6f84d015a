-- ===== src/Ledger/Bits.antt =====
-- The bitwise operations of src/wallet-adapters/ledger/core.ts.
use marinade_tenderize_from.Prelude.{ℕ, ◌+◌, ◌/◌, ◌%◌, ◌==◌, if◌then◌else◌}

-- `n | bit`, for a power of two
unfoldable pub with_bit : ℕ → ℕ → ℕ
with_bit bit n = if (n / bit) % 2 == 1 then n else n + bit
