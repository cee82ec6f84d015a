-- ===== src/Pool/Signed/Keys.antt =====
-- The accounts that the instructions of the client mark as signers (experiment/tenderize.ts): the
-- owner at most, and the source of a deposit.
use marinade_tenderize_from.Prelude.{
  ℕ, zero, suc, ◌+◌, ◌≡◌, refl, sym, inl, inr, Option, none, some, List, [], ◌∷◌, All, All-append,
  ◌*◌, length,
}
use marinade_tenderize_from.Effect.{Result}
use marinade_tenderize_from.Buffer.{
  Buffer, alloc, copy, write_uint8, write_big_uint64_le, write_uint32_le,
}
use marinade_tenderize_from.Web3.{Web3, AccountMeta, TransactionInstruction}
use marinade_tenderize_from.Pool.Types.{
  CreateStakePoolParams, DepositParams, DepositReserveValidatorParam, StakePair, Unstake,
  ValidatorInfo, readonly, writable,
}
use marinade_tenderize_from.Pool.Client.{Program, get_stake_for_validator}
use marinade_tenderize_from.Pool.Instructions.{
  create_stake_pool_instruction, add_validator_instruction, remove_validator_instruction,
  deposit_instruction, update_pool_balance_instruction, instruction,
}
use marinade_tenderize_from.Pool.Batches.{
  or_else, delegate_entries, delegate_reserve_keys, delegate_reserve_instruction, merge_entries,
  merge_stakes_keys, merge_stakes_instruction, unstake_keys, split_keys, unstake_entries,
  unstake_instruction, stake_keys, validator_keys, update_list_balance_instruction,
}
use marinade_tenderize_from.Pool.Signed.{IsCoveredKey, Yields, Yields-ok, Yields-bind, Yields-then}

module _ (w : Web3) (prog : Program w) where
  -- For the signers of most methods: the payer, and the payer and the owner.
  abbrev pub payer : List w.PublicKey
  payer = prog.payer_account ∷ []

  abbrev pub payer_and_owner : List w.PublicKey
  payer_and_owner = prog.payer_account ∷ prog.owner ∷ []

  abbrev Covers : List w.PublicKey → Result (TransactionInstruction w.PublicKey) → Type 0
  Covers signers r = Yields (λ t. All (IsCoveredKey signers) t.keys) r

  pub add_validator-Covers :
      (v : w.PublicKey) → Covers payer_and_owner (add_validator_instruction w prog v)
  unfolding add_validator_instruction
  add_validator-Covers v =
      Yields-then _ _ λ d. Yields-ok _ (tt, (inr (inl refl), (tt, (tt, (tt, tt)))))

  pub remove_validator-Covers :
      (v : w.PublicKey) → Covers payer_and_owner (remove_validator_instruction w prog v)
  unfolding remove_validator_instruction
  remove_validator-Covers v =
      Yields-then _ _ λ d. Yields-ok _ (tt, (inr (inl refl), (tt, (tt, (tt, tt)))))

  -- A deposit of the payer.
  pub deposit-Covers :
      (p : DepositParams w.PublicKey)
      → p.user_source ≡ prog.payer_account
      → Covers payer (deposit_instruction w prog p)
  unfolding deposit_instruction
  deposit-Covers p e =
      Yields-then _ _
        λ d. Yields-ok _ (tt, (tt, (tt, (inl (sym e), (tt, (tt, (tt, (tt, (tt, (tt, tt))))))))))

  pub update_pool_balance-Covers : Covers payer (update_pool_balance_instruction w prog)
  unfolding update_pool_balance_instruction
  update_pool_balance-Covers = Yields-then _ _ λ d. Yields-ok _ (tt, (tt, (tt, (tt, tt))))

  module _ (signers : List w.PublicKey) where
    abbrev CoversKeys : List (AccountMeta w.PublicKey) → Type 0
    CoversKeys keys = All (IsCoveredKey signers) keys

    delegate_entries-Covers :
        (vs : List (DepositReserveValidatorParam w.PublicKey)) (p : ℕ) (d : Buffer)
        (keys : List (AccountMeta w.PublicKey))
        → CoversKeys keys
        → Yields (λ r. CoversKeys r.1) (delegate_entries w prog vs p d keys)
    unfolding delegate_entries
    delegate_entries-Covers [] p d keys h = Yields-ok _ h
    delegate_entries-Covers (v ∷ vs) p d keys h =
        Yields-then {A = ℕ × Buffer} (write_big_uint64_le v.amount p d) _ λ a.
          Yields-then {A = ℕ × Buffer} (write_uint32_le v.stake_index a.0 a.1) _ λ b.
            Yields-then (get_stake_for_validator w prog v.address v.stake_index) _ λ stake.
              delegate_entries-Covers vs _ _ _
                (All-append _ keys (readonly v.address ∷ writable stake ∷ []) h (tt, (tt, tt)))

    merge_entries-Covers :
        (ss : List (StakePair w.PublicKey)) (p : ℕ) (d : Buffer)
        (keys : List (AccountMeta w.PublicKey))
        → CoversKeys keys
        → Yields (λ r. CoversKeys r.1) (merge_entries w prog ss p d keys)
    unfolding merge_entries
    merge_entries-Covers [] p d keys h = Yields-ok _ h
    merge_entries-Covers (s ∷ ss) p d keys h =
        let copied = copy (w.to_buffer s.validator) d p in
        Yields-then {A = ℕ × Buffer} (write_uint32_le s.main_index (p + copied.0) copied.1) _ λ a.
          Yields-then {A = ℕ × Buffer} (write_uint32_le s.additional_index a.0 a.1) _ λ b.
            Yields-then (get_stake_for_validator w prog s.validator s.main_index) _ λ main.
              Yields-then (get_stake_for_validator w prog s.validator s.additional_index) _
                λ additional.
                  merge_entries-Covers ss _ _ _
                    (All-append _ keys (writable main ∷ writable additional ∷ []) h (tt, (tt, tt)))

    split_keys-Covers : (v : w.PublicKey) (o : Option ℕ) → Yields CoversKeys (split_keys w prog v o)
    unfolding split_keys
    split_keys-Covers v none = Yields-ok _ tt
    split_keys-Covers v (some zero) = Yields-ok _ tt
    split_keys-Covers v (some (suc n)) = Yields-then _ _ λ stake. Yields-ok _ (tt, tt)

    unstake_entries-Covers :
        (us : List (Unstake w.PublicKey)) (p : ℕ) (d : Buffer)
        (keys : List (AccountMeta w.PublicKey))
        → CoversKeys keys
        → Yields (λ r. CoversKeys r.1) (unstake_entries w prog us p d keys)
    unfolding unstake_entries
    unstake_entries-Covers [] p d keys h = Yields-ok _ h
    unstake_entries-Covers (u ∷ us) p d keys h =
        let copied = copy (w.to_buffer u.validator) d p in
        Yields-then {A = ℕ × Buffer} (write_uint32_le u.source_index (p + copied.0) copied.1) _ λ a.
          Yields-then {A = ℕ × Buffer}
            (write_uint32_le (or_else u.split_index u.source_index) a.0 a.1) _
            λ b.
              Yields-then {A = ℕ × Buffer} (write_big_uint64_le (or_else u.amount 0) b.0 b.1) _ λ c.
                Yields-then (get_stake_for_validator w prog u.validator u.source_index) _ λ source.
                  Yields-bind _ _ (split_keys-Covers u.validator u.split_index) λ split covered.
                    unstake_entries-Covers us _ _ _
                      (All-append _ keys (writable source ∷ split) h (tt, covered))

    stake_keys-Covers :
        (v : w.PublicKey) (index rounds : ℕ) → Yields CoversKeys (stake_keys w prog v index rounds)
    unfolding stake_keys
    stake_keys-Covers v index zero = Yields-ok _ tt
    stake_keys-Covers v index (suc rounds) = Yields-then _ _ λ stake.
        Yields-bind _ _ (stake_keys-Covers v (suc index) rounds)
          λ rest covered. Yields-ok _ (tt, covered)

    validator_keys-Covers :
        (vs : List (ValidatorInfo w.PublicKey)) → Yields CoversKeys (validator_keys w prog vs)
    unfolding validator_keys
    validator_keys-Covers [] = Yields-ok _ tt
    validator_keys-Covers (v ∷ vs) =
        Yields-bind _ _ (stake_keys-Covers v.vote_pubkey 0 v.stake_count) λ stakes covered.
          Yields-bind _ _ (validator_keys-Covers vs)
            λ rest covered'. Yields-ok _ (tt, All-append _ stakes rest covered covered')

  pub delegate_reserve-Covers :
      (vs : List (DepositReserveValidatorParam w.PublicKey))
      → Covers payer_and_owner (delegate_reserve_instruction w prog vs)
  unfolding delegate_reserve_instruction
  delegate_reserve-Covers vs =
      Yields-then {A = ℕ × Buffer} (write_uint8 12 0 (alloc (1 + 4 + (8 + 4) * length vs))) _ λ a.
        Yields-then {A = ℕ × Buffer} (write_uint32_le (length vs) a.0 a.1) _ λ b.
          Yields-bind _ _
            (delegate_entries-Covers payer_and_owner vs _ _ (delegate_reserve_keys w prog) (
              tt,
              (inr (inl refl), (tt, (tt, (tt, (tt, (tt, (tt, (tt, (tt, (tt, (tt, tt))))))))))),
            ))
            λ r covered. Yields-ok (instruction w prog r.1 r.0) covered

  pub merge_stakes-Covers :
      (ss : List (StakePair w.PublicKey)) → Covers payer (merge_stakes_instruction w prog ss)
  unfolding merge_stakes_instruction
  merge_stakes-Covers ss =
      Yields-then {A = ℕ × Buffer} (write_uint8 13 0 (alloc (1 + 4 + (32 + 4 + 4) * length ss))) _
        λ a. Yields-then {A = ℕ × Buffer} (write_uint32_le (length ss) a.0 a.1) _ λ b.
          Yields-bind _ _
            (merge_entries-Covers payer ss _ _ (merge_stakes_keys w prog)
              (tt, (tt, (tt, (tt, (tt, (tt, tt)))))))
            λ r covered. Yields-ok (instruction w prog r.1 r.0) covered

  pub unstake-Covers :
      (us : List (Unstake w.PublicKey)) → Covers payer_and_owner (unstake_instruction w prog us)
  unfolding unstake_instruction
  unstake-Covers us =
      Yields-then {A = ℕ × Buffer} (write_uint8 14 0 (alloc (1 + 4 + (32 + 4 + 4 + 8) * length us)))
        _
        λ a. Yields-then {A = ℕ × Buffer} (write_uint32_le (length us) a.0 a.1) _ λ b.
          Yields-bind _ _
            (unstake_entries-Covers payer_and_owner us _ _ (unstake_keys w prog)
              (tt, (inr (inl refl), (tt, (tt, (tt, (tt, (tt, (tt, (tt, tt))))))))))
            λ r covered. Yields-ok (instruction w prog r.1 r.0) covered

  pub update_list_balance-Covers :
      (vs : List (ValidatorInfo w.PublicKey))
      → Covers payer (update_list_balance_instruction w prog vs)
  unfolding update_list_balance_instruction
  update_list_balance-Covers vs = Yields-then _ _ λ d.
      Yields-bind _ _ (validator_keys-Covers payer vs)
        λ keys covered. Yields-ok _ (tt, (tt, (tt, (tt, (tt, (tt, (tt, (tt, covered))))))))

  pub create_stake_pool-Covers :
      (p : CreateStakePoolParams) (others : List w.PublicKey)
      → Covers (prog.payer_account ∷ prog.owner ∷ others) (create_stake_pool_instruction w prog p)
  unfolding create_stake_pool_instruction
  create_stake_pool-Covers p others =
      Yields-then {A = ℕ × Buffer} (write_uint8 0 0 (alloc (1 + 8 + 8))) _ λ a.
        Yields-then {A = ℕ × Buffer} (write_big_uint64_le p.fee_denominator a.0 a.1) _ λ b.
          Yields-then {A = ℕ × Buffer} (write_big_uint64_le p.fee_numerator b.0 b.1) _ λ c.
            Yields-ok _ (tt, (inr (inl refl), (tt, (tt, (tt, (tt, (tt, (tt, (tt, (tt, tt))))))))))
