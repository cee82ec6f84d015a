-- ===== src/Pool/Signed/Methods.antt =====
-- The methods of the client (experiment/tenderize.ts) by who signs what they send.
use marinade_tenderize_from.Prelude.{ℕ, ◌≡◌, refl, inl, inr, Option, none, List, [], ◌∷◌, Any}
use marinade_tenderize_from.Effect.Ensures.{Ensures, Ensures-bind, Ensures-pure, Ensures-given}
use marinade_tenderize_from.Web3.{Web3}
use marinade_tenderize_from.Pool.Types.{
  CreateStakePoolParams, DepositParams, DepositReserveValidatorParam, StakePair, Unstake,
  ValidatorInfo,
}
use marinade_tenderize_from.Pool.Client.{Program, Action}
use marinade_tenderize_from.Pool.Reading.{read_state, read_validators, read_creditors, required}
use marinade_tenderize_from.Pool.Reading.Requests.{
  read_state-keeps, read_validators-keeps, read_creditors-keeps, required-keeps,
}
use marinade_tenderize_from.Pool.Sending.{
  new_account, create_stake_pool, add_validator, remove_validator, deposit, delegate_reserve,
  merge_stakes, send_unstakes, update_list_balance, update_pool_balance,
}
use marinade_tenderize_from.Pool.Delegation.{send_delegations, delegate_reserve_batch}
use marinade_tenderize_from.Pool.Delegation.Batch.{plan_delegation-total}
use marinade_tenderize_from.Pool.Merging.{send_merges, merge_listed, merge_all_stakes}
use marinade_tenderize_from.Pool.Merging.Pairs.{stake_pairs-IsMerge}
use marinade_tenderize_from.Pool.Unstaking.{send_all_unstakes, unstake, unstake_each, unstake_all}
use marinade_tenderize_from.Pool.Unstaking.Plan.{plan_unstake-shape}
use marinade_tenderize_from.Pool.Paying.{update_lists, update_pool}
use marinade_tenderize_from.Pool.Signed.{
  IsCovered, AllSigned, Signs, pure-Signs, rent_exemption-Signs, quiet-Signs, Unsent-Signs,
  send_and_confirm-Signs, lift-Yields, send-Signs,
}
use marinade_tenderize_from.Pool.Signed.Keys.{
  add_validator-Covers, remove_validator-Covers, deposit-Covers, update_pool_balance-Covers,
  delegate_reserve-Covers, merge_stakes-Covers, unstake-Covers, update_list_balance-Covers,
  create_stake_pool-Covers,
}

module _ (w : Web3) (prog : Program w) where
  abbrev Sgn : {A : Type 0} → Action w A → Type 0
  Sgn m = Signs w prog.payer_account m

  pub read_state-Signs : Sgn (read_state w prog)
  read_state-Signs = Unsent-Signs w prog.payer_account _ (λ log. read_state-keeps w prog log)

  pub read_validators-Signs : Sgn (read_validators w prog)
  read_validators-Signs =
      Unsent-Signs w prog.payer_account _ (λ log. read_validators-keeps w prog log)

  pub read_creditors-Signs : Sgn (read_creditors w prog)
  read_creditors-Signs =
      Unsent-Signs w prog.payer_account _ (λ log. read_creditors-keeps w prog log)

  pub required-Signs : {A : Type 0} (o : Option A) → Sgn (required o)
  required-Signs o = Unsent-Signs w prog.payer_account _ (λ log. required-keeps w prog log o)

  new_account-Covers :
      (account : w.PublicKey) (size : ℕ) (signers : List w.PublicKey)
      → Any (λ j. j ≡ account) signers
      → Ensures
          (AllSigned w prog.payer_account)
          (λ ix s. AllSigned w prog.payer_account s × IsCovered (prog.payer_account ∷ signers) ix)
          (λ e s. AllSigned w prog.payer_account s)
          (new_account w prog account size)
  unfolding new_account
  new_account-Covers account size signers h =
      Ensures-bind _ _ _ (rent_exemption-Signs w prog.payer_account size)
        λ rent. Ensures-pure _ (λ s signed. (signed, (inl refl, inr h)))

  -- Who signs beside the payer when a pool is made: the owner and the three accounts.
  abbrev pool_signers : List w.PublicKey
  pool_signers =
      prog.owner ∷ prog.stake_pool ∷ prog.validator_stake_list_account ∷ prog.credit_list_account
      ∷ []

  pub create_stake_pool-Signs : (p : CreateStakePoolParams) → Sgn (create_stake_pool w prog p)
  unfolding create_stake_pool
  create_stake_pool-Signs p =
      Ensures-bind _ _ _ (new_account-Covers prog.stake_pool _ pool_signers (inr (inl refl)))
        λ pool. Ensures-given _ _ λ pool_covered.
          Ensures-bind _ _ _
            (new_account-Covers prog.validator_stake_list_account _ pool_signers
              (inr (inr (inl refl))))
            λ validators. Ensures-given _ _ λ validators_covered.
              Ensures-bind _ _ _
                (new_account-Covers prog.credit_list_account _ pool_signers
                  (inr (inr (inr (inl refl)))))
                λ credits. Ensures-given _ _ λ credits_covered.
                  Ensures-bind _ _ _
                    (lift-Yields w prog _ _ (
                      create_stake_pool-Covers w prog p (
                        prog.stake_pool ∷ prog.validator_stake_list_account
                        ∷ prog.credit_list_account ∷ [])))
                    λ ix. Ensures-given _ _ λ covered.
                      send_and_confirm-Signs w prog.payer_account _ (
                        (_, refl),
                        (pool_covered, (validators_covered, (credits_covered, (covered, tt)))),
                      )

  pub add_validator-Signs : (v : w.PublicKey) → Sgn (add_validator w prog v)
  unfolding add_validator
  add_validator-Signs v = send-Signs w prog _ _ (add_validator-Covers w prog v)

  pub remove_validator-Signs : (v : w.PublicKey) → Sgn (remove_validator w prog v)
  unfolding remove_validator
  remove_validator-Signs v = send-Signs w prog _ _ (remove_validator-Covers w prog v)

  pub deposit-Signs :
      (p : DepositParams w.PublicKey) → p.user_source ≡ prog.payer_account → Sgn (deposit w prog p)
  unfolding deposit
  deposit-Signs p e = send-Signs w prog _ _ (deposit-Covers w prog p e)

  delegate_reserve-Signs :
      (vs : List (DepositReserveValidatorParam w.PublicKey)) → Sgn (delegate_reserve w prog vs)
  unfolding delegate_reserve
  delegate_reserve-Signs vs = send-Signs w prog _ _ (delegate_reserve-Covers w prog vs)

  send_delegations-Signs :
      (cs : List (List (DepositReserveValidatorParam w.PublicKey)))
      → Sgn (send_delegations w prog cs)
  unfolding send_delegations
  send_delegations-Signs [] = pure-Signs w prog.payer_account tt
  send_delegations-Signs (c ∷ cs) =
      Ensures-bind _ _ _ (delegate_reserve-Signs c) λ u. send_delegations-Signs cs

  pub delegate_reserve_batch-Signs : (total : ℕ) → Sgn (delegate_reserve_batch w prog total)
  unfolding delegate_reserve_batch
  delegate_reserve_batch-Signs total =
      Ensures-bind _ _ _
        (quiet-Signs w prog.payer_account _ _ _ (plan_delegation-total w prog total)
          (λ s out s' p. p.0) (λ s e s' p. p.0))
        λ out. send_delegations-Signs _

  merge_stakes-Signs : (ss : List (StakePair w.PublicKey)) → Sgn (merge_stakes w prog ss)
  unfolding merge_stakes
  merge_stakes-Signs [] = pure-Signs w prog.payer_account tt
  merge_stakes-Signs (s ∷ ss) = send-Signs w prog _ _ (merge_stakes-Covers w prog (s ∷ ss))

  send_merges-Signs : (cs : List (List (StakePair w.PublicKey))) → Sgn (send_merges w prog cs)
  unfolding send_merges
  send_merges-Signs [] = pure-Signs w prog.payer_account tt
  send_merges-Signs (c ∷ cs) = Ensures-bind _ _ _ (merge_stakes-Signs c) λ u. send_merges-Signs cs

  merge_listed-Signs : (vs : List (ValidatorInfo w.PublicKey)) → Sgn (merge_listed w prog vs)
  unfolding merge_listed
  merge_listed-Signs [] = pure-Signs w prog.payer_account tt
  merge_listed-Signs (v ∷ vs) =
      Ensures-bind _ _ _
        (quiet-Signs w prog.payer_account _ _ _ (stake_pairs-IsMerge w prog (v ∷ vs))
          (λ s ps s' p. p.0) (λ s e s' p. p.0))
        λ pairs. send_merges-Signs _

  pub merge_all_stakes-Signs : Sgn (merge_all_stakes w prog)
  unfolding merge_all_stakes
  merge_all_stakes-Signs = Ensures-bind _ _ _ read_validators-Signs merge_listed-Signs

  send_all_unstakes-Signs :
      (cs : List (List (Unstake w.PublicKey))) → Sgn (send_all_unstakes w prog cs)
  unfolding send_all_unstakes send_unstakes
  send_all_unstakes-Signs [] = pure-Signs w prog.payer_account tt
  send_all_unstakes-Signs (c ∷ cs) =
      Ensures-bind _ _ _ (send-Signs w prog _ _ (unstake-Covers w prog c))
        λ u. send_all_unstakes-Signs cs

  pub unstake-Signs :
      (v : ValidatorInfo w.PublicKey) (amount : Option ℕ) → Sgn (unstake w prog v amount)
  unfolding unstake
  unstake-Signs v amount =
      Ensures-bind _ _ _
        (quiet-Signs w prog.payer_account _ _ _ (plan_unstake-shape w prog v amount)
          (λ s us s' p. p.0) (λ s e s' p. p.0))
        λ us. send_all_unstakes-Signs _

  unstake_each-Signs : (vs : List (ValidatorInfo w.PublicKey)) → Sgn (unstake_each w prog vs)
  unfolding unstake_each
  unstake_each-Signs [] = pure-Signs w prog.payer_account tt
  unstake_each-Signs (v ∷ vs) = Ensures-bind _ _ _ (unstake-Signs v none) λ u. unstake_each-Signs vs

  pub unstake_all-Signs : Sgn (unstake_all w prog)
  unfolding unstake_all
  unstake_all-Signs = Ensures-bind _ _ _ read_validators-Signs unstake_each-Signs

  update_list_balance-Signs :
      (vs : List (ValidatorInfo w.PublicKey)) → Sgn (update_list_balance w prog vs)
  unfolding update_list_balance
  update_list_balance-Signs vs = send-Signs w prog _ _ (update_list_balance-Covers w prog vs)

  update_lists-Signs : (vs : List (ValidatorInfo w.PublicKey)) → Sgn (update_lists w prog vs)
  unfolding update_lists
  update_lists-Signs [] = pure-Signs w prog.payer_account tt
  update_lists-Signs (v ∷ vs) =
      Ensures-bind _ _ _ (update_list_balance-Signs (v ∷ [])) λ u. update_lists-Signs vs

  update_pool_balance-Signs : Sgn (update_pool_balance w prog)
  unfolding update_pool_balance
  update_pool_balance-Signs = send-Signs w prog _ _ (update_pool_balance-Covers w prog)

  pub update_pool-Signs : Sgn (update_pool w prog)
  unfolding update_pool
  update_pool-Signs =
      Ensures-bind _ _ _ read_validators-Signs
        λ vs. Ensures-bind _ _ _ (update_lists-Signs vs) λ u. update_pool_balance-Signs
