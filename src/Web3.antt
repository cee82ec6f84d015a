-- ===== src/Web3.antt =====
-- What the client takes from @solana/web3.js, @solana/spl-token and lodash: parameters of the
-- model. `Net` is the network as it stands when a request is made; each request may change it, so
-- whatever others do between two requests is part of the reply.
use marinade_tenderize_from.Prelude.{ℕ, ◌≡◌, ◌≤◌, Bool, Option, List, length, All, flatten}

pub record AccountMeta (K : Type 0) : Type 0 where
  pub pubkey : K
  pub is_signer : Bool
  pub is_writable : Bool

pub record TransactionInstruction (K : Type 0) : Type 0 where
  pub program_id : K
  pub keys : List (AccountMeta K)
  pub payload : List ℕ

-- SystemProgram.createAccount
pub record CreateAccount (K : Type 0) : Type 0 where
  pub from_pubkey : K
  pub new_account_pubkey : K
  pub lamports : ℕ
  pub space : ℕ
  pub program_id : K

pub data Instruction (K : Type 0) : Type 0 where
  create_account : CreateAccount K → Instruction K
  call : TransactionInstruction K → Instruction K

-- The instructions, and the accounts that sign; the first one pays.
pub record Transaction (K : Type 0) : Type 0 where
  pub instructions : List (Instruction K)
  pub signers : List K

-- `owner_is_system` is the value of `owner == SystemProgram.programId`, which compares objects.
pub record AccountInfo : Type 0 where
  pub lamports : ℕ
  pub owner_is_system : Bool
  pub contents : List ℕ

pub data StakeState : Type 0 where
  active inactive activating deactivating : StakeState

pub record StakeActivationData : Type 0 where
  pub state : StakeState
  pub active_amount : ℕ
  pub inactive_amount : ℕ

-- A promise that is fulfilled with a value, or rejected.
pub data Reply (A : Type 0) : Type 0 where
  fulfilled : A → Reply A
  refused : Reply A

pub record Web3 : Type 1 where
  pub PublicKey : Type 0
  -- new PublicKey(bytes) and toBuffer()
  pub new_public_key : List ℕ → PublicKey
  pub to_buffer : PublicKey → List ℕ
  pub find_program_address : List (List ℕ) → PublicKey → PublicKey
  pub system_program : PublicKey
  pub stake_program : PublicKey
  pub spl_token_program : PublicKey
  pub stake_config : PublicKey
  pub sysvar_clock : PublicKey
  pub sysvar_rent : PublicKey
  pub sysvar_stake_history : PublicKey
  pub Net : Type 0
  pub get_account_info : PublicKey → Net → Reply (Option AccountInfo) × Net
  pub get_stake_activation : PublicKey → Net → Reply StakeActivationData × Net
  pub get_minimum_balance_for_rent_exemption : ℕ → Net → Reply ℕ × Net
  pub send_and_confirm_transaction : Transaction PublicKey → Net → Reply (Unit {0}) × Net
  -- lodash: _.chunk(list, size)
  pub chunk : (A : Type 0) → List A → ℕ → List (List A)

-- A key is 32 bytes, and is rebuilt from them.
pub record KeyLaws (w : Web3) : Type 0 where
  pub length-to_buffer : (k : w.PublicKey) → length (w.to_buffer k) ≡ 32
  pub new_public_key-to_buffer : (k : w.PublicKey) → w.new_public_key (w.to_buffer k) ≡ k

-- Chunks hold the items in order, `size` at most in each.
pub record ChunkLaws (w : Web3) : Type 1 where
  pub flatten-chunk :
      (A : Type 0) (xs : List A) (size : ℕ) → 1 ≤ size → flatten (w.chunk A xs size) ≡ xs
  pub chunk-le_size :
      (A : Type 0) (xs : List A) (size : ℕ)
      → 1 ≤ size
      → All (λ c. length c ≤ size) (w.chunk A xs size)
