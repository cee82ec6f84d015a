-- ===== src/Examples/Wire.antt =====
-- Instructions of the client (experiment/tenderize.ts) on the wire, at concrete inputs.
use marinade_tenderize_from.Prelude.{
  ℕ, ℤ, pos, negsuc, ◌^◌, ◌≡◌, ◌≢◌, Option, none, some, List, [], ◌∷◌, ◌++◌, map, flatten, arith,
}
use marinade_tenderize_from.Effect.{ok, err, out_of_range}
use marinade_tenderize_from.Web3.{TransactionInstruction}
use marinade_tenderize_from.OnChain.{
  delegate_reserve, merge_stakes, unstake, initialize, deposit, withdraw, deserialize,
}
use marinade_tenderize_from.Pool.Types.{
  DepositReserveValidatorParam, StakePair, Unstake, CreateStakePoolParams, DepositParams,
  WithdrawParams, CreditParams, account,
}
use marinade_tenderize_from.Pool.Instructions.{
  create_stake_pool_instruction, deposit_instruction, withdraw_instruction, credit_instruction,
}
use marinade_tenderize_from.Pool.Batches.{
  delegate_reserve_keys, delegate_reserve_instruction, merge_stakes_keys, merge_stakes_instruction,
  unstake_keys, unstake_instruction,
}
use marinade_tenderize_from.Pool.Wire.Delegate.{
  delegate_view, delegate_metas, delegate_reserve_round_trip,
}
use marinade_tenderize_from.Pool.Wire.Merge.{merge_view, merge_metas, merge_stakes_round_trip}
use marinade_tenderize_from.Pool.Wire.Unstaking.{unstake_view, unstake_metas, unstake_round_trip}
use marinade_tenderize_from.Pool.Wire.Amounts.{
  IsReadAs, credit_view, deposit_round_trip, withdraw_round_trip, credit_round_trip,
  amounts_out_of_range, create_stake_pool_round_trip,
}
use marinade_tenderize_from.Examples.Network.{Key, key, calm_network, calm_key_laws, client}

abbrev two_delegations : List (DepositReserveValidatorParam Key)
two_delegations =
    record { address = key 21; amount = 5000000000; stake_index = 2 }
    ∷ record { address = key 22; amount = 300; stake_index = 0 }
    ∷ []

delegate_reserve_round_trip_example :
    (ix : TransactionInstruction Key) × (delegate_reserve_instruction calm_network client
        two_delegations
      ≡ ok ix)
    × (deserialize ix.payload ≡ some (delegate_reserve (map delegate_view two_delegations)))
    × (ix.keys
        ≡ delegate_reserve_keys calm_network client
          ++ flatten (map (delegate_metas calm_network client) two_delegations))
delegate_reserve_round_trip_example =
    delegate_reserve_round_trip calm_network client two_delegations (omega arith) (omega arith)
      ((omega arith, omega arith), ((omega arith, omega arith), tt))

abbrev two_pairs : List (StakePair Key)
two_pairs =
    record { validator = key 21; main_index = 0; additional_index = 2 }
    ∷ record { validator = key 21; main_index = 0; additional_index = 1 }
    ∷ []

merge_stakes_round_trip_example :
    (ix : TransactionInstruction Key) × (merge_stakes_instruction calm_network client two_pairs
      ≡ ok ix)
    × (deserialize ix.payload
        ≡ some (merge_stakes (map (merge_view calm_network calm_key_laws client) two_pairs)))
    × (ix.keys
        ≡ merge_stakes_keys calm_network client
          ++ flatten (map (merge_metas calm_network calm_key_laws client) two_pairs))
merge_stakes_round_trip_example =
    merge_stakes_round_trip calm_network calm_key_laws client two_pairs (omega arith) (omega arith)
      ((omega arith, omega arith), ((omega arith, omega arith), tt))

abbrev two_unstakes : List (Unstake Key)
two_unstakes =
    record { validator = key 21; source_index = 0; split_index = none; amount = none }
    ∷ record { validator = key 21; source_index = 1; split_index = some 2; amount = some 700 }
    ∷ []

abbrev NotToZero : Option ℕ → Type 0
NotToZero o = o ≢ some 0

whole_fits : NotToZero none
whole_fits e = cc

split_fits : NotToZero (some 2)
split_fits e =
    let two : ℕ = 2 in let none_of : ℕ = 0 in let h : two ≡ none_of = cc in omega (arith, h)

unstake_round_trip_example :
    (ix : TransactionInstruction Key) × (unstake_instruction calm_network client two_unstakes
      ≡ ok ix)
    × (deserialize ix.payload
        ≡ some (unstake (map (unstake_view calm_network calm_key_laws client) two_unstakes)))
    × (ix.keys
        ≡ unstake_keys calm_network client
          ++ flatten (map (unstake_metas calm_network calm_key_laws client) two_unstakes))
unstake_round_trip_example =
    unstake_round_trip calm_network calm_key_laws client two_unstakes (omega arith) (omega arith) (
      (omega arith, omega arith, omega arith, whole_fits),
      ((omega arith, omega arith, omega arith, split_fits), tt),
    )

abbrev deposit_of : ℤ → DepositParams Key
deposit_of n = record { user_source = key 11; amount = n; user_token = key 41 }

abbrev withdrawal_of : ℤ → WithdrawParams Key
withdrawal_of n = record { user_token_source = key 41; amount = n; user_sol_target = key 11 }

-- takes back n + 1
abbrev uncredit_of_amount : ℕ → CreditParams Key
uncredit_of_amount n = record {
  user_token_source = key 41;
  amount = negsuc n;
  user_sol_target = key 11;
  cancel_authority = account (key 11);
}

deposit_round_trip_example :
    IsReadAs calm_network client
      (deposit_instruction calm_network client (deposit_of (negsuc 999)))
      (deposit 18446744073709550616)
deposit_round_trip_example =
    deposit_round_trip calm_network client (deposit_of (negsuc 999)) (omega arith)

withdraw_round_trip_example :
    IsReadAs calm_network client
      (withdraw_instruction calm_network client (withdrawal_of (pos 1000)))
      (withdraw 1000)
withdraw_round_trip_example =
    withdraw_round_trip calm_network client (withdrawal_of (pos 1000)) (omega arith)

credit_round_trip_example :
    IsReadAs calm_network client
      (credit_instruction calm_network client (uncredit_of_amount 99))
      (credit_view (negsuc 99))
credit_round_trip_example =
    credit_round_trip calm_network client (uncredit_of_amount 99) (omega arith) tt

amounts_out_of_range_example :
    (deposit_instruction calm_network client (deposit_of (negsuc (2 ^ 63))) ≡ err out_of_range)
    × (withdraw_instruction calm_network client (withdrawal_of (pos (2 ^ 63))) ≡ err out_of_range)
    × (credit_instruction calm_network client (uncredit_of_amount (2 ^ 63)) ≡ err out_of_range)
amounts_out_of_range_example =
    amounts_out_of_range calm_network client (deposit_of (negsuc (2 ^ 63)))
      (withdrawal_of (pos (2 ^ 63))) (uncredit_of_amount (2 ^ 63)) (omega arith) (omega arith)
      (omega arith)

abbrev three_percent : CreateStakePoolParams
three_percent = record { fee_denominator = 100; fee_numerator = 3 }

create_stake_pool_round_trip_example :
    IsReadAs calm_network client
      (create_stake_pool_instruction calm_network client three_percent)
      (initialize 100 3)
create_stake_pool_round_trip_example =
    create_stake_pool_round_trip calm_network client three_percent (omega arith) (omega arith)
