-- ===== src/Pool/Types.antt =====
-- The data of experiment/tenderize.ts: what the methods take and return, and the client's fields.
use marinade_tenderize_from.Prelude.{ℕ, ℤ, true, false, Option}
use marinade_tenderize_from.Web3.{AccountMeta}

abbrev pub min_stake_account_balance : ℕ
min_stake_account_balance = 1000000000

pub record ValidatorInfo (K : Type 0) : Type 0 where
  pub vote_pubkey : K
  pub balance : ℕ
  pub last_update_epoch : ℕ
  pub stake_count : ℕ

pub record DepositReserveValidatorParam (K : Type 0) : Type 0 where
  pub address : K
  pub amount : ℕ
  pub stake_index : ℕ

pub record StakePair (K : Type 0) : Type 0 where
  pub validator : K
  pub main_index : ℕ
  pub additional_index : ℕ

-- `none` is `undefined`
pub record Unstake (K : Type 0) : Type 0 where
  pub validator : K
  pub source_index : ℕ
  pub split_index : Option ℕ
  pub amount : Option ℕ

pub record CreateStakePoolParams : Type 0 where
  pub fee_denominator : ℕ
  pub fee_numerator : ℕ

pub record DepositParams (K : Type 0) : Type 0 where
  pub user_source : K
  pub amount : ℤ
  pub user_token : K

pub record WithdrawParams (K : Type 0) : Type 0 where
  pub user_token_source : K
  pub amount : ℤ
  pub user_sol_target : K

-- PublicKey | Account
pub data CancelAuthority (K : Type 0) : Type 0 where
  key : K → CancelAuthority K
  account : K → CancelAuthority K

pub record CreditParams (K : Type 0) : Type 0 where
  pub user_token_source : K
  pub amount : ℤ
  pub user_sol_target : K
  pub cancel_authority : CancelAuthority K

-- The state account of the pool. Numbers that the source keeps as bigint are exact.
pub record State (K : Type 0) : Type 0 where
  pub version : ℕ
  pub owner : K
  pub validator_stake_list : K
  pub credit_list : K
  pub pool_mint : K
  pub owner_fee_account : K
  pub credit_reserve : K
  pub token_program : K
  pub stake_total : ℕ
  pub pool_total : ℕ
  pub last_epoch_update : ℕ
  pub fee_denominator : ℕ
  pub fee_numerator : ℕ

pub record Creditor (K : Type 0) : Type 0 where
  pub target : K
  pub cancel_authority : K
  pub amount : ℕ

-- The fields of the class but the connection. An Account is its public key: the secret key serves
-- to sign, and a transaction lists who signs it.
pub record TenderizeProgram (K : Type 0) : Type 0 where
  pub payer_account : K
  pub program_account : K
  pub stake_pool : K
  pub owner : K
  pub validator_stake_list_account : K
  pub credit_list_account : K
  pub pool_mint_token : K
  pub owners_fee : K
  pub credit_reserve : K

module _ {K : Type 0} where
  abbrev pub signer_writable : K → AccountMeta K
  signer_writable k = record { pubkey = k; is_signer = true; is_writable = true }

  abbrev pub signer : K → AccountMeta K
  signer k = record { pubkey = k; is_signer = true; is_writable = false }

  abbrev pub writable : K → AccountMeta K
  writable k = record { pubkey = k; is_signer = false; is_writable = true }

  abbrev pub readonly : K → AccountMeta K
  readonly k = record { pubkey = k; is_signer = false; is_writable = false }
