-- ===== src/Pool/Wire/Address.antt =====
-- The derived address of a stake account, for an index that is a uint32.
use marinade_tenderize_from.Prelude.{ℕ, ◌^◌, ◌<◌, ◌≡◌, refl, [], ◌∷◌}
use marinade_tenderize_from.Effect.{ok}
use marinade_tenderize_from.Buffer.{le_bytes}
use marinade_tenderize_from.Buffer.Writes.{write_uint_le-filled}
use marinade_tenderize_from.Web3.{Web3}
use marinade_tenderize_from.Pool.Client.{Program, get_stake_for_validator}
use mathlib.Core.List.{append-nil}

module _ (w : Web3) (prog : Program w) (validator : w.PublicKey) (index : ℕ) where
  abbrev pub stake_address : w.PublicKey
  stake_address =
      w.find_program_address
        (w.to_buffer validator ∷ w.to_buffer prog.stake_pool ∷ le_bytes 4 index ∷ [])
        prog.program_account

  pub get_stake_for_validator_lem :
      index < 2 ^ 32 → get_stake_for_validator w prog validator index ≡ ok stake_address
  unfolding get_stake_for_validator
  get_stake_for_validator_lem fits =
      rw (write_uint_le-filled 4 index 0 4 0 [] fits refl refl, append-nil)
