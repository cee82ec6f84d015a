-- ===== src/Pool/Wire/Unstaking.antt =====
-- unstakeInstruction of experiment/tenderize.ts on the wire.
use marinade_tenderize_from.Prelude.{
  ℕ, zero, suc, ◌≢◌, Option, none, ◌+◌, ◌*◌, ◌^◌, ◌<◌, ◌≤◌, ◌≡◌, refl, some, List, [], ◌∷◌, ◌++◌,
  map, arith, length, flatten, All, All-map, length-append, append_assoc, append-nil,
}
use marinade_tenderize_from.Effect.{ok}
use marinade_tenderize_from.Buffer.{le_bytes, of_le}
use marinade_tenderize_from.Buffer.Writes.{filled, write_uint_le-filled, copy-filled}
use marinade_tenderize_from.Web3.{Web3, KeyLaws, AccountMeta, TransactionInstruction}
use marinade_tenderize_from.OnChain.{UnstakeInstruction, unstake, unstake_item, deserialize}
use marinade_tenderize_from.OnChain.Items.{unpack_vec-flatten, IsRead, take-front, drop-front}
use marinade_tenderize_from.Pool.Types.{Unstake, writable}
use marinade_tenderize_from.Pool.Client.{Program}
use marinade_tenderize_from.Pool.Instructions.{instruction}
use marinade_tenderize_from.Pool.Batches.{
  or_else, split_keys, unstake_entries, unstake_keys, unstake_instruction,
}
use marinade_tenderize_from.Pool.Wire.Address.{stake_address, get_stake_for_validator_lem}

-- The split index that the program is meant to read: the source index asks for a full unstake.
abbrev pub intended_split : Option ℕ → ℕ → ℕ
intended_split none source = source
intended_split (some index) source = index

-- No amount is 0, as `|| 0` assumes.
abbrev pub amount_or_zero : Option ℕ → ℕ
amount_or_zero none = 0
amount_or_zero (some n) = n

or_else-amount : (o : Option ℕ) → or_else o 0 ≡ amount_or_zero o
unfolding or_else
or_else-amount none = refl
or_else-amount (some zero) = refl
or_else-amount (some (suc n)) = refl

or_else-split :
    (o : Option ℕ) (source : ℕ) → o ≢ some 0 → or_else o source ≡ intended_split o source
unfolding or_else
or_else-split none source h = refl
or_else-split (some zero) source h = absurd (h refl)
or_else-split (some (suc n)) source h = refl

module _ (w : Web3) (laws : KeyLaws w) (prog : Program w) where
  open w use {to_buffer}
  open laws use {length-to_buffer}

  -- The numbers fit their fields, and no stake is split into the stake 0.
  abbrev pub Fits : Unstake w.PublicKey → Type 0
  Fits u =
      (u.source_index < 2 ^ 32)
      × (intended_split u.split_index 0 < 2 ^ 32)
      × (amount_or_zero u.amount < 2 ^ 64)
      × (u.split_index ≢ some 0)

  -- The bytes, for the split index that is written.
  abbrev pub unstake_bytes : Unstake w.PublicKey → List ℕ
  unstake_bytes u =
      to_buffer u.validator
      ++ (le_bytes 4 u.source_index
          ++ (le_bytes 4 (or_else u.split_index u.source_index) ++ le_bytes 8 (or_else u.amount 0)))

  -- what the on-chain program is to read
  abbrev pub unstake_view : Unstake w.PublicKey → UnstakeInstruction
  unstake_view u = record {
    validator_address = to_buffer u.validator;
    source_index = u.source_index;
    split_index = intended_split u.split_index u.source_index;
    amount = amount_or_zero u.amount;
  }

  -- the source, and the split target if there is one
  abbrev pub unstake_metas : Unstake w.PublicKey → List (AccountMeta w.PublicKey)
  unstake_metas u =
      writable (stake_address w prog u.validator u.source_index) ∷ elim u.split_index [
        | none ↦ []
        | some index ↦ writable (stake_address w prog u.validator index) ∷ []
      ]

  split_bound :
      (o : Option ℕ) (source : ℕ)
      → intended_split o 0 < 2 ^ 32
      → source < 2 ^ 32
      → intended_split o source < 2 ^ 32
  split_bound none source h s = s
  split_bound (some index) source h s = h

  split_keys_lem :
      (validator : w.PublicKey) (o : Option ℕ)
      → o ≢ some 0
      → intended_split o 0 < 2 ^ 32
      → split_keys w prog validator o
        ≡ ok (elim o [
          | none ↦ []
          | some index ↦ writable (stake_address w prog validator index) ∷ []
        ])
  unfolding split_keys
  split_keys_lem validator none h fits = refl
  split_keys_lem validator (some zero) h fits = absurd (h refl)
  split_keys_lem validator (some (suc n)) h fits =
      rw (get_stake_for_validator_lem w prog validator (suc n) fits)

  unstake_bytes-IsRead :
      (u : Unstake w.PublicKey) → Fits u → IsRead 48 unstake_item unstake_bytes unstake_view u
  unfolding le_bytes of_le
  unstake_bytes-IsRead u (s, i, a, ne) =
      let key : List ℕ = to_buffer u.validator in
      let split : ℕ = or_else u.split_index u.source_index in
      let amount : ℕ = or_else u.amount 0 in
      let tail : List ℕ = le_bytes 4 u.source_index ++ (le_bytes 4 split ++ le_bytes 8 amount) in
      let e : length key ≡ 32 = length-to_buffer u.validator in
      let same : split ≡ intended_split u.split_index u.source_index =
        or_else-split u.split_index u.source_index ne in
      let same' : amount ≡ amount_or_zero u.amount = or_else-amount u.amount in
      let bound : intended_split u.split_index u.source_index < 2 ^ 32 =
        split_bound u.split_index u.source_index i s in
      (
        omega (arith, length-append {0} key tail),
        λ rest.
            rw
              (
                append_assoc key tail rest,
                take-front key (tail ++ rest) 32 e,
                drop-front key (tail ++ rest) 32 0 e,
                drop-front key (tail ++ rest) 32 4 e,
                drop-front key (tail ++ rest) 32 8 e,
              )
              (ground arith),
      )

  unstake_entries-filled :
      (us : List (Unstake w.PublicKey)) (front : List ℕ) (p size : ℕ)
      (keys : List (AccountMeta w.PublicKey))
      → p ≡ length front
      → size ≡ length us * 48
      → All Fits us
      → unstake_entries w prog us p (filled front size) keys
        ≡ ok (front ++ flatten (map unstake_bytes us), keys ++ flatten (map unstake_metas us))
  unfolding unstake_entries
  unstake_entries-filled [] front p size keys at_end e h = rw e (simp append-nil)
  unstake_entries-filled (u ∷ us) front p size keys at_end e ((s, i, a, ne), h) =
      let key : List ℕ = to_buffer u.validator in
      let source : List ℕ = le_bytes 4 u.source_index in
      let index : ℕ = or_else u.split_index u.source_index in
      let amount : ℕ = or_else u.amount 0 in
      let ks : List (AccountMeta w.PublicKey) = keys ++ unstake_metas u in
      let room : size ≡ length key + (16 + length us * 48) =
        omega (arith, length-to_buffer u.validator) in
      let next : p + length key ≡ length (front ++ key) =
        omega (arith, length-append {0} front key) in
      let fits_index : index < 2 ^ 32 =
        rw (or_else-split u.split_index u.source_index ne)
          (split_bound u.split_index u.source_index i s) in
      let fits_amount : amount < 2 ^ 64 = rw (or_else-amount u.amount) a in
      rw
        (
          copy-filled key front p size (16 + length us * 48) at_end room,
          write_uint_le-filled 4 u.source_index _ (16 + length us * 48) (12 + length us * 48)
              (front ++ key) s next (omega arith),
          write_uint_le-filled 4 index _ (12 + length us * 48) (8 + length us * 48)
              (front ++ key ++ source) fits_index refl (omega arith),
          write_uint_le-filled 8 amount _ (8 + length us * 48) (length us * 48)
              (front ++ key ++ source ++ le_bytes 4 index) fits_amount refl refl,
          get_stake_for_validator_lem w prog u.validator u.source_index s,
          split_keys_lem u.validator u.split_index ne i,
          unstake_entries-filled us
              (front ++ key ++ source ++ le_bytes 4 index ++ le_bytes 8 amount) _ _ ks refl refl h,
        )
        (simp append_assoc)

  unstake_instruction_lem :
      (us : List (Unstake w.PublicKey))
      → length us < 2 ^ 32
      → All Fits us
      → unstake_instruction w prog us
        ≡ ok (
            instruction w prog
              (unstake_keys w prog ++ flatten (map unstake_metas us))
              (14 ∷ (le_bytes 4 (length us) ++ flatten (map unstake_bytes us))))
  unfolding unstake_instruction le_bytes
  unstake_instruction_lem us fits h = rw (
    write_uint_le-filled 1 14 0 (1 + 4 + (32 + 4 + 4 + 8) * length us) (4 + length us * 48) []
        (omega arith) refl (omega arith),
    write_uint_le-filled 4 (length us) _ _ (length us * 48) (14 ∷ []) fits refl refl,
    unstake_entries-filled us (14 ∷ le_bytes 4 (length us)) _ _ (unstake_keys w prog) refl refl h,
  )

  -- A batch of one or more unstakes whose numbers fit, with no split into the stake 0, is built; the on-chain
  -- program reads from it each validator, source, split target (the source itself for a full
  -- unstake) and amount, in order, beside the source's account and the target's, if there is one.
  pub unstake_round_trip :
      (us : List (Unstake w.PublicKey))
      → 1 ≤ length us
      → length us < 2 ^ 32
      → All Fits us
      → (ix : TransactionInstruction w.PublicKey) × (unstake_instruction w prog us ≡ ok ix)
        × (deserialize ix.payload ≡ some (unstake (map unstake_view us)))
        × (ix.keys ≡ unstake_keys w prog ++ flatten (map unstake_metas us))
  unfolding deserialize
  unstake_round_trip us some_there fits h =
      let read =
        unpack_vec-flatten 48 unstake_item unstake_bytes unstake_view us (omega arith) some_there
          fits
          (All-map Fits (IsRead 48 unstake_item unstake_bytes unstake_view) unstake_bytes-IsRead us
            h) in
      (_, unstake_instruction_lem us fits h, rw read, refl)
