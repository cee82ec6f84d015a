-- ===== src/Pool/Wire/Merge.antt =====
-- mergeStakesInstruction of experiment/tenderize.ts on the wire.
use marinade_tenderize_from.Prelude.{
  ℕ, ◌+◌, ◌*◌, ◌^◌, ◌<◌, ◌≤◌, ◌≡◌, refl, some, List, [], ◌∷◌, ◌++◌, map, arith, length, flatten,
  All, All-map, length-append, append_assoc, append-nil,
}
use marinade_tenderize_from.Effect.{ok}
use marinade_tenderize_from.Buffer.{le_bytes, of_le}
use marinade_tenderize_from.Buffer.Writes.{filled, write_uint_le-filled, copy-filled}
use marinade_tenderize_from.Web3.{Web3, KeyLaws, AccountMeta, TransactionInstruction}
use marinade_tenderize_from.OnChain.{MergeStakesInstruction, merge_stakes, merge_item, deserialize}
use marinade_tenderize_from.OnChain.Items.{unpack_vec-flatten, IsRead, take-front, drop-front}
use marinade_tenderize_from.Pool.Types.{StakePair, writable}
use marinade_tenderize_from.Pool.Client.{Program}
use marinade_tenderize_from.Pool.Instructions.{instruction}
use marinade_tenderize_from.Pool.Batches.{
  merge_entries, merge_stakes_keys, merge_stakes_instruction,
}
use marinade_tenderize_from.Pool.Wire.Address.{stake_address, get_stake_for_validator_lem}

module _ (w : Web3) (laws : KeyLaws w) (prog : Program w) where
  open w use {to_buffer}
  open laws use {length-to_buffer}

  -- the numbers fit their fields
  abbrev pub Fits : StakePair w.PublicKey → Type 0
  Fits s = (s.main_index < 2 ^ 32) × (s.additional_index < 2 ^ 32)

  abbrev pub merge_bytes : StakePair w.PublicKey → List ℕ
  merge_bytes s =
      to_buffer s.validator ++ (le_bytes 4 s.main_index ++ le_bytes 4 s.additional_index)

  -- what the on-chain program is to read
  abbrev pub merge_view : StakePair w.PublicKey → MergeStakesInstruction
  merge_view s = record {
    validator_address = to_buffer s.validator;
    main_index = s.main_index;
    additional_index = s.additional_index;
  }

  merge_bytes-IsRead :
      (s : StakePair w.PublicKey) → Fits s → IsRead 40 merge_item merge_bytes merge_view s
  unfolding le_bytes of_le
  merge_bytes-IsRead s (m, a) =
      let key : List ℕ = to_buffer s.validator in
      let tail : List ℕ = le_bytes 4 s.main_index ++ le_bytes 4 s.additional_index in
      let e : length key ≡ 32 = length-to_buffer s.validator in
      (
        omega (arith, length-append {0} key tail),
        λ rest.
            rw
              (
                append_assoc key tail rest,
                take-front key (tail ++ rest) 32 e,
                drop-front key (tail ++ rest) 32 0 e,
                drop-front key (tail ++ rest) 32 4 e,
              )
              (ground arith),
      )

  abbrev pub merge_metas : StakePair w.PublicKey → List (AccountMeta w.PublicKey)
  merge_metas s =
      writable (stake_address w prog s.validator s.main_index)
      ∷ writable (stake_address w prog s.validator s.additional_index)
      ∷ []

  merge_entries-filled :
      (ss : List (StakePair w.PublicKey)) (front : List ℕ) (p size : ℕ)
      (keys : List (AccountMeta w.PublicKey))
      → p ≡ length front
      → size ≡ length ss * 40
      → All Fits ss
      → merge_entries w prog ss p (filled front size) keys
        ≡ ok (front ++ flatten (map merge_bytes ss), keys ++ flatten (map merge_metas ss))
  unfolding merge_entries
  merge_entries-filled [] front p size keys at_end e h = rw e (simp append-nil)
  merge_entries-filled (s ∷ ss) front p size keys at_end e ((m, a), h) =
      let key : List ℕ = to_buffer s.validator in
      let main : List ℕ = le_bytes 4 s.main_index in
      let additional : List ℕ = le_bytes 4 s.additional_index in
      let ks : List (AccountMeta w.PublicKey) = keys ++ merge_metas s in
      let room : size ≡ length key + (8 + length ss * 40) =
        omega (arith, length-to_buffer s.validator) in
      let next : p + length key ≡ length (front ++ key) =
        omega (arith, length-append {0} front key) in
      rw
        (
          copy-filled key front p size (8 + length ss * 40) at_end room,
          write_uint_le-filled 4 s.main_index _ (8 + length ss * 40) (4 + length ss * 40)
              (front ++ key) m next (omega arith),
          write_uint_le-filled 4 s.additional_index _ _ (length ss * 40) (front ++ key ++ main) a
              refl refl,
          get_stake_for_validator_lem w prog s.validator s.main_index m,
          get_stake_for_validator_lem w prog s.validator s.additional_index a,
          merge_entries-filled ss (front ++ key ++ main ++ additional) _ _ ks refl refl h,
        )
        (simp append_assoc)

  merge_stakes_instruction_lem :
      (ss : List (StakePair w.PublicKey))
      → length ss < 2 ^ 32
      → All Fits ss
      → merge_stakes_instruction w prog ss
        ≡ ok (
            instruction w prog
              (merge_stakes_keys w prog ++ flatten (map merge_metas ss))
              (13 ∷ (le_bytes 4 (length ss) ++ flatten (map merge_bytes ss))))
  unfolding merge_stakes_instruction le_bytes
  merge_stakes_instruction_lem ss fits h = rw (
    write_uint_le-filled 1 13 0 (1 + 4 + (32 + 4 + 4) * length ss) (4 + length ss * 40) []
        (omega arith) refl (omega arith),
    write_uint_le-filled 4 (length ss) _ _ (length ss * 40) (13 ∷ []) fits refl refl,
    merge_entries-filled ss (13 ∷ le_bytes 4 (length ss)) _ _ (merge_stakes_keys w prog) refl refl
        h,
  )

  -- A batch of one or more merges whose indices are uint32 is built, and the on-chain program reads from it the
  -- validator and the two stake indices of each pair, in order, beside the two stakes of each.
  pub merge_stakes_round_trip :
      (ss : List (StakePair w.PublicKey))
      → 1 ≤ length ss
      → length ss < 2 ^ 32
      → All Fits ss
      → (ix : TransactionInstruction w.PublicKey) × (merge_stakes_instruction w prog ss ≡ ok ix)
        × (deserialize ix.payload ≡ some (merge_stakes (map merge_view ss)))
        × (ix.keys ≡ merge_stakes_keys w prog ++ flatten (map merge_metas ss))
  unfolding deserialize
  merge_stakes_round_trip ss some_there fits h =
      let read =
        unpack_vec-flatten 40 merge_item merge_bytes merge_view ss (omega arith) some_there fits
          (All-map Fits (IsRead 40 merge_item merge_bytes merge_view) merge_bytes-IsRead ss h) in
      (_, merge_stakes_instruction_lem ss fits h, rw read, refl)
