-- ===== src/Pool/Wire/Amounts.antt =====
-- The instructions with an amount (experiment/tenderize.ts) on the wire: deposit, withdraw, credit
-- and uncredit, and the creation of the pool.
use marinade_tenderize_from.Prelude.{
  ℕ, ℤ, pos, negsuc, suc, ◌%◌, ◌^◌, ◌≤◌, ◌<◌, ◌≡◌, refl, some, List, [], ◌∷◌, ◌++◌, arith, le→ltb,
}
use marinade_tenderize_from.Effect.{Result, ok, err, out_of_range}
use marinade_tenderize_from.Buffer.{le_bytes, of_le, write_big_int64_le}
use marinade_tenderize_from.Buffer.Writes.{
  IsInt64, wrapped, write_uint_le-filled, write_big_int64_le-filled,
}
use marinade_tenderize_from.Web3.{Web3, TransactionInstruction}
use marinade_tenderize_from.OnChain.{
  StakePoolInstruction, initialize, deposit, withdraw, credit, uncredit, unpack_u64,
  unpack_initialize, deserialize,
}
use marinade_tenderize_from.Pool.Types.{
  CreateStakePoolParams, DepositParams, WithdrawParams, CreditParams, CancelAuthority, key, account,
}
use marinade_tenderize_from.Pool.Client.{Program}
use marinade_tenderize_from.Pool.Instructions.{
  amount_payload, magnitude, credit_opcode, cancel_key, create_stake_pool_instruction,
  deposit_instruction, withdraw_instruction, credit_instruction,
}

amount_payload_lem :
    (opcode : ℕ) (amount : ℤ)
    → opcode < 256
    → IsInt64 amount
    → amount_payload opcode amount ≡ ok (opcode ∷ le_bytes 8 (wrapped amount))
unfolding amount_payload le_bytes
amount_payload_lem opcode amount o a =
    let byte : opcode % 256 ≡ opcode = omega arith in
    rw (
      write_uint_le-filled 1 opcode 0 9 8 [] o refl refl,
      write_big_int64_le-filled amount 1 8 0 (le_bytes 1 opcode) a refl refl,
      byte,
    )

-- The integers that 64 bits do not hold
abbrev pub IsBeyond : ℤ → Type 0
IsBeyond (pos n) = 2 ^ 63 ≤ n
IsBeyond (negsuc n) = 2 ^ 63 < suc n

-- An amount that is no int64 is a RangeError.
amount_payload-error :
    (opcode : ℕ) (amount : ℤ)
    → opcode < 256
    → IsBeyond amount
    → amount_payload opcode amount ≡ err out_of_range
unfolding amount_payload write_big_int64_le
amount_payload-error opcode (pos n) o a =
    rw (write_uint_le-filled 1 opcode 0 9 8 [] o refl refl, le→ltb n (2 ^ 63) a)
amount_payload-error opcode (negsuc n) o a =
    let beyond : 2 ^ 63 ≤ n = omega (arith, a) in
    rw (write_uint_le-filled 1 opcode 0 9 8 [] o refl refl, le→ltb n (2 ^ 63) beyond)

wrapped-lt : (amount : ℤ) → IsInt64 amount → wrapped amount < 2 ^ 64
wrapped-lt (pos n) h = omega (arith, h)
wrapped-lt (negsuc n) h = omega (arith, h)

unpack_u64_lem : (v : ℕ) → v < 2 ^ 64 → unpack_u64 (le_bytes 8 v) ≡ some v
unfolding unpack_u64 le_bytes of_le
unpack_u64_lem v h = ground arith

-- What the on-chain program is to read from a credit: a negative amount takes back.
abbrev pub credit_view : ℤ → StakePoolInstruction
credit_view (pos n) = credit n
credit_view (negsuc n) = uncredit (suc n)

-- The cancel authority is a key for a credit, and an account, which can sign, for taking back.
abbrev pub FitsAuthority : {K : Type 0} → ℤ → CancelAuthority K → Type 0
FitsAuthority (pos n) (key k) = Unit
FitsAuthority (negsuc n) (account k) = Unit
FitsAuthority _ _ = ⊥

module _ (w : Web3) (prog : Program w) where
  -- The instruction is built, and read on chain as `i`.
  abbrev pub IsReadAs : Result (TransactionInstruction w.PublicKey) → StakePoolInstruction → Type 0
  IsReadAs built i =
      (ix : TransactionInstruction w.PublicKey) × (built ≡ ok ix)
      × (deserialize ix.payload ≡ some i)

  -- A deposit of an integer of 64 bits with a sign is built, and read on chain as a deposit of that
  -- amount if it is not negative, and of 2 ^ 64 less its magnitude if it is.
  pub deposit_round_trip :
      (params : DepositParams w.PublicKey)
      → IsInt64 params.amount
      → IsReadAs (deposit_instruction w prog params) (deposit (wrapped params.amount))
  unfolding deposit_instruction deserialize
  deposit_round_trip params h =
      rw (amount_payload_lem 6 params.amount (omega arith) h)
        (_, refl, rw (unpack_u64_lem (wrapped params.amount) (wrapped-lt params.amount h)))

  -- A withdrawal of an integer of 64 bits with a sign is built, and read on chain as a withdrawal of that
  -- amount if it is not negative, and of 2 ^ 64 less its magnitude if it is.
  pub withdraw_round_trip :
      (params : WithdrawParams w.PublicKey)
      → IsInt64 params.amount
      → IsReadAs (withdraw_instruction w prog params) (withdraw (wrapped params.amount))
  unfolding withdraw_instruction deserialize
  withdraw_round_trip params h =
      rw (amount_payload_lem 7 params.amount (omega arith) h)
        (_, refl, rw (unpack_u64_lem (wrapped params.amount) (wrapped-lt params.amount h)))

  authority_key :
      (a : ℤ) (c : CancelAuthority w.PublicKey)
      → FitsAuthority a c
      → (k : w.PublicKey) × (cancel_key a c ≡ ok k)
  unfolding cancel_key
  authority_key (pos n) (key k) h = (k, refl)
  authority_key (pos n) (account k) h = absurd h
  authority_key (negsuc n) (key k) h = absurd h
  authority_key (negsuc n) (account k) h = (k, refl)

  credit_read :
      (a : ℤ)
      → magnitude a < 2 ^ 63
      → deserialize (credit_opcode a ∷ le_bytes 8 (magnitude a)) ≡ some (credit_view a)
  unfolding deserialize
  credit_read (pos n) h = rw (unpack_u64_lem n (omega arith))
  credit_read (negsuc n) h = rw (unpack_u64_lem (suc n) (omega arith))

  opcode-lt : (a : ℤ) → credit_opcode a < 256
  opcode-lt (pos n) = omega arith
  opcode-lt (negsuc n) = omega arith

  -- A credit of a magnitude below 2 ^ 63 is built, if the cancel authority is of the kind that its sign
  -- asks for: read on chain, an amount that is not negative is a credit of it, and a negative one takes back
  -- its magnitude.
  pub credit_round_trip :
      (params : CreditParams w.PublicKey)
      → magnitude params.amount < 2 ^ 63
      → FitsAuthority params.amount params.cancel_authority
      → IsReadAs (credit_instruction w prog params) (credit_view params.amount)
  unfolding credit_instruction
  credit_round_trip params h f =
      let a = params.amount in
      let (k, cancel) = authority_key a params.cancel_authority f in
      rw (amount_payload_lem (credit_opcode a) (pos (magnitude a)) (opcode-lt a) h, cancel)
        (_, refl, credit_read a h)

  -- A deposit or a withdrawal that 64 bits with a sign do not hold, of 2 ^ 63 or more or below
  -- -(2 ^ 63), and a credit of a magnitude of 2 ^ 63 or more, are RangeErrors: nothing is built.
  pub amounts_out_of_range :
      (d : DepositParams w.PublicKey) (t : WithdrawParams w.PublicKey)
      (c : CreditParams w.PublicKey)
      → IsBeyond d.amount
      → IsBeyond t.amount
      → 2 ^ 63 ≤ magnitude c.amount
      → (deposit_instruction w prog d ≡ err out_of_range)
        × (withdraw_instruction w prog t ≡ err out_of_range)
        × (credit_instruction w prog c ≡ err out_of_range)
  unfolding deposit_instruction withdraw_instruction credit_instruction
  amounts_out_of_range d t c hd ht hc = (
    rw (amount_payload-error 6 d.amount (omega arith) hd),
    rw (amount_payload-error 7 t.amount (omega arith) ht),
    rw (
        amount_payload-error (credit_opcode c.amount) (pos (magnitude c.amount))
          (opcode-lt c.amount) hc),
  )

  unpack_initialize_lem :
      (den num : ℕ)
      → den < 2 ^ 64
      → num < 2 ^ 64
      → unpack_initialize (le_bytes 8 den ++ le_bytes 8 num) ≡ some (initialize den num)
  unfolding unpack_initialize le_bytes of_le
  unpack_initialize_lem den num d n = ground arith

  -- The creation of a pool with a fee of two uint64 is read on chain as its initialisation with that
  -- fee.
  pub create_stake_pool_round_trip :
      (params : CreateStakePoolParams)
      → params.fee_denominator < 2 ^ 64
      → params.fee_numerator < 2 ^ 64
      → IsReadAs
          (create_stake_pool_instruction w prog params)
          (initialize params.fee_denominator params.fee_numerator)
  unfolding create_stake_pool_instruction deserialize le_bytes
  create_stake_pool_round_trip params d n =
      let den : List ℕ = le_bytes 8 params.fee_denominator in
      rw
        (
          write_uint_le-filled 1 0 0 17 16 [] (omega arith) refl refl,
          write_uint_le-filled 8 params.fee_denominator 1 16 8 (0 ∷ []) d refl refl,
          write_uint_le-filled 8 params.fee_numerator 9 8 0 (0 ∷ den) n refl refl,
        )
        (_, refl, unpack_initialize_lem params.fee_denominator params.fee_numerator d n)
