-- ===== src/Ledger/Path.antt =====
-- getSolanaDerivationPath of src/wallet-adapters/ledger/core.ts.
use marinade_tenderize_from.Prelude.{
  ℕ, zero, suc, ◌+◌, ◌*◌, ◌/◌, ◌%◌, ◌^◌, Option, none, some, List, [], ◌∷◌, ◌++◌, ltb, leb, ◌&&◌,
  if◌then◌else◌, length,
}
use marinade_tenderize_from.Effect.{Result, ok, err, out_of_range}
use marinade_tenderize_from.Buffer.{Buffer, ◌>>=◌, alloc, overwrite, write_uint8}
use marinade_tenderize_from.Ledger.Bits.{with_bit}

abbrev pub bip32_hardened_bit : ℕ
bip32_hardened_bit = 2 ^ 31

-- The bitwise `or` takes its operands as numbers of 32 bits.
unfoldable pub harden : ℕ → ℕ
unfolding with_bit
harden n = with_bit bip32_hardened_bit (n % 2 ^ 32)

-- The lowest `width` bytes of a value, highest first.
unfoldable pub be_bytes : ℕ → ℕ → List ℕ
be_bytes zero v = []
be_bytes (suc width) v = be_bytes width (v / 256) ++ ((v % 256) ∷ [])

-- buffer.writeUInt32BE
unfoldable pub write_uint32_be : ℕ → ℕ → Buffer → Result (ℕ × Buffer)
write_uint32_be v p d =
    if ltb v (2 ^ 32) && leb (p + 4) (length d)
    then ok (p + 4, overwrite d p (be_bytes 4 v))
    else err out_of_range

-- How many parts the path has: a change without an account is left out.
unfoldable pub path_length : Option ℕ → Option ℕ → ℕ
path_length none change = 2
path_length (some a) none = 3
path_length (some a) (some c) = 4

-- The parts behind the first two.
unfoldable pub write_rest : Option ℕ → Option ℕ → ℕ → Buffer → Result (ℕ × Buffer)
unfolding write_uint32_be harden
write_rest none change p d = ok (p, d)
write_rest (some a) none p d = write_uint32_be (harden a) p d
write_rest (some a) (some c) p d = do
  (p', d') ← write_uint32_be (harden a) p d
  write_uint32_be (harden c) p' d'

unfoldable pub get_solana_derivation_path : Option ℕ → Option ℕ → Result Buffer
unfolding write_uint32_be path_length write_rest harden
get_solana_derivation_path account change = do
  let parts = path_length account change
  (p, d) ← write_uint8 parts 0 (alloc (1 + parts * 4))
  (p', d') ← write_uint32_be (harden 44) p d
  (p'', d'') ← write_uint32_be (harden 501) p' d'
  result ← write_rest account change p'' d''
  ok result.1
