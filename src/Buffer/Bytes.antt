-- ===== src/Buffer/Bytes.antt =====
-- The little-endian digits of a number.
use marinade_tenderize_from.Prelude.{ℕ, zero, suc, ◌/◌, ◌^◌, ◌<◌, ◌≡◌, refl, arith, length}
use marinade_tenderize_from.Buffer.{le_bytes, of_le}
use native.Mathlib.Nat.{pow-suc}

pub length-le_bytes : (width v : ℕ) → length (le_bytes width v) ≡ width
unfolding le_bytes
length-le_bytes zero v = refl
length-le_bytes (suc width) v = omega (arith, length-le_bytes width (v / 256))

high_digit : (width v : ℕ) → v < 256 ^ suc width → v / 256 < 256 ^ width
high_digit width v h = omega (arith, pow-suc 256 width)

-- Reading the bytes of a value that fits gives the value back.
pub of_le-le_bytes : (width v : ℕ) → v < 256 ^ width → of_le (le_bytes width v) ≡ v
unfolding le_bytes of_le
of_le-le_bytes zero v h = omega arith
of_le-le_bytes (suc width) v h =
    omega (arith, of_le-le_bytes width (v / 256) (high_digit width v h))
