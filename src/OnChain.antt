-- ===== src/OnChain.antt =====
-- How the on-chain program reads an instruction's payload: StakePoolInstruction::deserialize of
-- program/src/instruction.rs. A public key is its 32 bytes; a reader's error, and its panic at an index
-- out of bounds, are not told apart: neither gives an instruction.
pub mod Items
use marinade_tenderize_from.Prelude.{
  ℕ, zero, suc, ◌+◌, ◌*◌, Option, none, some, List, [], ◌∷◌, leb, ltb, ◌==◌, if◌then◌else◌, length,
  take, drop,
}
use marinade_tenderize_from.Buffer.{of_le}

pub record DelegateReserveInstruction : Type 0 where
  pub amount : ℕ
  pub stake_index : ℕ

pub record MergeStakesInstruction : Type 0 where
  pub validator_address : List ℕ
  pub main_index : ℕ
  pub additional_index : ℕ

-- A split index that equals the source index asks for a full unstake.
pub record UnstakeInstruction : Type 0 where
  pub validator_address : List ℕ
  pub source_index : ℕ
  pub split_index : ℕ
  pub amount : ℕ

pub data StakePoolInstruction : Type 0 where
  initialize : ℕ → ℕ → StakePoolInstruction
  add_validator remove_validator update_list_balance update_pool_balance : StakePoolInstruction
  deposit withdraw credit uncredit : ℕ → StakePoolInstruction
  set_staking_authority set_owner pay_creditors : StakePoolInstruction
  delegate_reserve : List DelegateReserveInstruction → StakePoolInstruction
  merge_stakes : List MergeStakesInstruction → StakePoolInstruction
  unstake : List UnstakeInstruction → StakePoolInstruction

-- The number of `width` bytes at an offset.
abbrev pub field_at : ℕ → ℕ → List ℕ → ℕ
field_at from width bs = of_le (take width (drop from bs))

-- `unpack` of a number behind the opcode
unfoldable pub unpack_u64 : List ℕ → Option ℕ
unpack_u64 bs = if leb 8 (length bs) then some (field_at 0 8 bs) else none

abbrev pub delegate_item : List ℕ → DelegateReserveInstruction
delegate_item bs = record { amount = field_at 0 8 bs; stake_index = field_at 8 4 bs }

abbrev pub merge_item : List ℕ → MergeStakesInstruction
merge_item bs = record {
  validator_address = take 32 bs;
  main_index = field_at 32 4 bs;
  additional_index = field_at 36 4 bs;
}

abbrev pub unstake_item : List ℕ → UnstakeInstruction
unstake_item bs = record {
  validator_address = take 32 bs;
  source_index = field_at 32 4 bs;
  split_index = field_at 36 4 bs;
  amount = field_at 40 8 bs;
}

-- `count` packed structs of `size` bytes each.
unfoldable pub items {ℓ} : {A : Type ℓ} → ℕ → (List ℕ → A) → ℕ → List ℕ → List A
items size item zero bs = []
items size item (suc count) bs = item bs ∷ items size item count (drop size bs)

-- A count of four bytes, and the structs, if the input is long enough for them. The first struct is
-- looked up (`&input[1 + 4]`) even where the count is 0, and has to be there.
unfoldable pub unpack_vec {ℓ} : {A : Type ℓ} → ℕ → (List ℕ → A) → List ℕ → Option (List A)
unpack_vec size item bs =
    if ltb (length bs) 4
    then none
    else if ltb (1 + length bs) (1 + 4 + field_at 0 4 bs * size)
    then none
    else if leb (length bs) 4
    then none
    else some (items size item (field_at 0 4 bs) (drop 4 bs))

abbrev pub mapped {ℓ κ} : {A : Type ℓ} {B : Type κ} → (A → B) → Option A → Option B
mapped f none = none
mapped f (some a) = some (f a)

unfoldable pub unpack_initialize : List ℕ → Option StakePoolInstruction
unpack_initialize bs =
    if leb 16 (length bs) then some (initialize (field_at 0 8 bs) (field_at 8 8 bs)) else none

unfoldable pub deserialize_as : ℕ → List ℕ → Option StakePoolInstruction
deserialize_as tag bs =
    if tag == 0
    then unpack_initialize bs
    else if tag == 2
    then some add_validator
    else if tag == 3
    then some remove_validator
    else if tag == 4
    then some update_list_balance
    else if tag == 5
    then some update_pool_balance
    else if tag == 6
    then mapped deposit (unpack_u64 bs)
    else if tag == 7
    then mapped withdraw (unpack_u64 bs)
    else if tag == 8
    then some set_staking_authority
    else if tag == 9
    then some set_owner
    else if tag == 10
    then mapped credit (unpack_u64 bs)
    else if tag == 11
    then mapped uncredit (unpack_u64 bs)
    else if tag == 12
    then mapped delegate_reserve (unpack_vec 12 delegate_item bs)
    else if tag == 13
    then mapped merge_stakes (unpack_vec 40 merge_item bs)
    else if tag == 14
    then mapped unstake (unpack_vec 48 unstake_item bs)
    else if tag == 15
    then some pay_creditors
    else none

unfoldable pub deserialize : List ℕ → Option StakePoolInstruction
unfolding deserialize_as
deserialize [] = none
deserialize (tag ∷ bs) = deserialize_as tag bs
