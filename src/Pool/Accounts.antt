-- ===== src/Pool/Accounts.antt =====
-- The contents of the accounts that the client reads (experiment/tenderize.ts): parseState, the
-- loops of readValidators and readCreditors, and the conversion Number(...) of a bigint.
use marinade_tenderize_from.Prelude.{
  ℕ, zero, suc, ◌+◌, ◌*◌, ◌/◌, ◌%◌, ◌^◌, List, [], ◌∷◌, ltb, ◌==◌, if◌then◌else◌,
}
use marinade_tenderize_from.Effect.{Result, ok}
use marinade_tenderize_from.Buffer.{
  Buffer, ◌>>=◌, slice, read_uint8, read_uint16_le, read_uint32_le, read_big_uint64_le,
}
use marinade_tenderize_from.Web3.{Web3}
use marinade_tenderize_from.Pool.Types.{State, ValidatorInfo, Creditor}

-- The multiple of `unit` that is nearest to `n`; of two, the even one.
unfoldable pub round_half_even : ℕ → ℕ → ℕ
round_half_even n unit =
    let q = n / unit in
    let r = n % unit in
    if ltb (2 * r) unit
    then q * unit
    else if ltb unit (2 * r)
    then (q + 1) * unit
    else if q % 2 == 0
    then q * unit
    else (q + 1) * unit

-- A double has 53 significant bits: the unit doubles until that many are enough.
unfoldable pub round_from : ℕ → ℕ → ℕ → ℕ
round_from zero unit n = round_half_even n unit
round_from (suc fuel) unit n =
    let wider = round_from fuel (unit * 2) n in
    if ltb n (2 ^ 53 * unit) then round_half_even n unit else wider

-- Number(n) for a uint64, which needs 11 doublings at most.
unfoldable pub to_number : ℕ → ℕ
unfolding round_from round_half_even
to_number n = round_from 11 1 n

module _ (w : Web3) where
  open w use {PublicKey, new_public_key}

  -- The bytes 33 and 34, two bump seeds, and 227 to 231, padding, are skipped.
  unfoldable pub parse_state : Buffer → Result (State PublicKey)
  parse_state d = do
    version ← read_uint8 d 0
    stake_total ← read_big_uint64_le d 232
    pool_total ← read_big_uint64_le d 240
    last_epoch_update ← read_big_uint64_le d 248
    fee_denominator ← read_big_uint64_le d 256
    fee_numerator ← read_big_uint64_le d 264
    ok (record {
      version = version;
      owner = new_public_key (slice d 1 33);
      validator_stake_list = new_public_key (slice d 35 67);
      credit_list = new_public_key (slice d 67 99);
      pool_mint = new_public_key (slice d 99 131);
      owner_fee_account = new_public_key (slice d 131 163);
      credit_reserve = new_public_key (slice d 163 195);
      token_program = new_public_key (slice d 195 227);
      stake_total = stake_total;
      pool_total = pool_total;
      last_epoch_update = last_epoch_update;
      fee_denominator = fee_denominator;
      fee_numerator = fee_numerator;
    })

  unfoldable pub parse_validator : Buffer → ℕ → Result (ValidatorInfo PublicKey)
  parse_validator d i = do
    let at = 3 + (32 + 8 + 8 + 8) * i
    balance ← read_big_uint64_le d (at + 32)
    last_update_epoch ← read_big_uint64_le d (at + 32 + 8)
    stake_count ← read_uint32_le d (at + 32 + 8 + 8)
    ok (record {
      vote_pubkey = new_public_key (slice d at (at + 32));
      balance = to_number balance;
      last_update_epoch = to_number last_update_epoch;
      stake_count = stake_count;
    })

  -- The rest of `for (let i = 0; i < count; ++i)`.
  unfoldable pub parse_validators_from : Buffer → ℕ → ℕ → Result (List (ValidatorInfo PublicKey))
  parse_validators_from d i zero = ok []
  parse_validators_from d i (suc rounds) = do
    v ← parse_validator d i
    vs ← parse_validators_from d (suc i) rounds
    ok (v ∷ vs)

  unfoldable pub parse_validators : Buffer → Result (List (ValidatorInfo PublicKey))
  unfolding parse_validators_from parse_validator
  parse_validators d = do count ← read_uint16_le d 1; parse_validators_from d 0 count

  unfoldable pub parse_creditors_from : Buffer → ℕ → ℕ → Result (List (Creditor PublicKey))
  parse_creditors_from d p zero = ok []
  parse_creditors_from d p (suc rounds) = do
    amount ← read_big_uint64_le d (p + 32 + 32)
    rest ← parse_creditors_from d (p + 32 + 32 + 8) rounds
    ok (
        record {
          target = new_public_key (slice d p (p + 32));
          cancel_authority = new_public_key (slice d (p + 32) (p + 32 + 32));
          amount = to_number amount;
        }
        ∷ rest)

  unfoldable pub parse_creditors : Buffer → Result (List (Creditor PublicKey))
  unfolding parse_creditors_from
  parse_creditors d = do count ← read_uint16_le d 1; parse_creditors_from d 3 count
