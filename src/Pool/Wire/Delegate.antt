-- ===== src/Pool/Wire/Delegate.antt =====
-- delegateReserveInstruction of experiment/tenderize.ts on the wire.
use marinade_tenderize_from.Prelude.{
  ℕ, ◌+◌, ◌*◌, ◌^◌, ◌<◌, ◌≤◌, ◌≡◌, refl, some, List, [], ◌∷◌, ◌++◌, map, arith, length, flatten,
  All, All-map, append_assoc, append-nil,
}
use marinade_tenderize_from.Effect.{ok}
use marinade_tenderize_from.Buffer.{le_bytes, of_le}
use marinade_tenderize_from.Buffer.Writes.{filled, write_uint_le-filled}
use marinade_tenderize_from.Web3.{Web3, AccountMeta, TransactionInstruction}
use marinade_tenderize_from.OnChain.{
  DelegateReserveInstruction, delegate_reserve, delegate_item, deserialize,
}
use marinade_tenderize_from.OnChain.Items.{unpack_vec-flatten, IsRead}
use marinade_tenderize_from.Pool.Types.{DepositReserveValidatorParam, readonly, writable}
use marinade_tenderize_from.Pool.Client.{Program}
use marinade_tenderize_from.Pool.Instructions.{instruction}
use marinade_tenderize_from.Pool.Batches.{
  delegate_entries, delegate_reserve_keys, delegate_reserve_instruction,
}
use marinade_tenderize_from.Pool.Wire.Address.{stake_address, get_stake_for_validator_lem}

module _ {K : Type 0} where
  -- the numbers fit their fields
  abbrev pub Fits : DepositReserveValidatorParam K → Type 0
  Fits v = (v.amount < 2 ^ 64) × (v.stake_index < 2 ^ 32)

  abbrev pub delegate_bytes : DepositReserveValidatorParam K → List ℕ
  delegate_bytes v = le_bytes 8 v.amount ++ le_bytes 4 v.stake_index

  -- what the on-chain program is to read
  abbrev pub delegate_view : DepositReserveValidatorParam K → DelegateReserveInstruction
  delegate_view v = record { amount = v.amount; stake_index = v.stake_index }

  delegate_bytes-IsRead :
      (v : DepositReserveValidatorParam K)
      → Fits v
      → IsRead 12 delegate_item delegate_bytes delegate_view v
  unfolding le_bytes of_le
  delegate_bytes-IsRead v (a, i) = (refl, λ rest. ground arith)

module _ (w : Web3) (prog : Program w) where
  abbrev pub delegate_metas :
      DepositReserveValidatorParam w.PublicKey → List (AccountMeta w.PublicKey)
  delegate_metas v =
      readonly v.address ∷ writable (stake_address w prog v.address v.stake_index) ∷ []

  delegate_entries-filled :
      (vs : List (DepositReserveValidatorParam w.PublicKey)) (front : List ℕ) (p size : ℕ)
      (keys : List (AccountMeta w.PublicKey))
      → p ≡ length front
      → size ≡ length vs * 12
      → All Fits vs
      → delegate_entries w prog vs p (filled front size) keys
        ≡ ok (front ++ flatten (map delegate_bytes vs), keys ++ flatten (map delegate_metas vs))
  unfolding delegate_entries
  delegate_entries-filled [] front p size keys at_end e h = rw e (simp append-nil)
  delegate_entries-filled (v ∷ vs) front p size keys at_end e ((a, i), h) =
      let amount : List ℕ = le_bytes 8 v.amount in
      let index : List ℕ = le_bytes 4 v.stake_index in
      let body : List ℕ = flatten (map delegate_bytes vs) in
      let ks : List (AccountMeta w.PublicKey) = keys ++ delegate_metas v in
      rw
        (
          write_uint_le-filled 8 v.amount p size (4 + length vs * 12) front a at_end (omega arith),
          write_uint_le-filled 4 v.stake_index _ _ (length vs * 12) (front ++ amount) i refl refl,
          get_stake_for_validator_lem w prog v.address v.stake_index i,
          delegate_entries-filled vs (front ++ amount ++ index) _ _ ks refl refl h,
        )
        (simp append_assoc)

  -- For a batch that fits its fields the instruction has the documented payload and accounts.
  pub delegate_reserve_instruction_lem :
      (vs : List (DepositReserveValidatorParam w.PublicKey))
      → length vs < 2 ^ 32
      → All Fits vs
      → delegate_reserve_instruction w prog vs
        ≡ ok (
            instruction w prog
              (delegate_reserve_keys w prog ++ flatten (map delegate_metas vs))
              (12 ∷ (le_bytes 4 (length vs) ++ flatten (map delegate_bytes vs))))
  unfolding delegate_reserve_instruction le_bytes
  delegate_reserve_instruction_lem vs fits h = rw (
    write_uint_le-filled 1 12 0 (1 + 4 + (8 + 4) * length vs) (4 + length vs * 12) [] (omega arith)
        refl (omega arith),
    write_uint_le-filled 4 (length vs) _ _ (length vs * 12) (12 ∷ []) fits refl refl,
    delegate_entries-filled vs (12 ∷ le_bytes 4 (length vs)) _ _ (delegate_reserve_keys w prog) refl
        refl h,
  )

  -- A batch of one or more delegations that fits its fields is built, and the on-chain program reads from it
  -- each amount and stake index, in order, beside a vote account and its stake for each.
  pub delegate_reserve_round_trip :
      (vs : List (DepositReserveValidatorParam w.PublicKey))
      → 1 ≤ length vs
      → length vs < 2 ^ 32
      → All Fits vs
      → (ix : TransactionInstruction w.PublicKey) × (delegate_reserve_instruction w prog vs ≡ ok ix)
        × (deserialize ix.payload ≡ some (delegate_reserve (map delegate_view vs)))
        × (ix.keys ≡ delegate_reserve_keys w prog ++ flatten (map delegate_metas vs))
  unfolding deserialize
  delegate_reserve_round_trip vs some_there fits h =
      let read =
        unpack_vec-flatten 12 delegate_item delegate_bytes delegate_view vs (omega arith) some_there
          fits
          (All-map Fits (IsRead 12 delegate_item delegate_bytes delegate_view) delegate_bytes-IsRead
            vs h) in
      (_, delegate_reserve_instruction_lem vs fits h, rw read, refl)
