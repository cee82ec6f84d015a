-- ===== src/Examples/Network.antt =====
-- A concrete network to run the client on: keys are numbers of 32 bytes, every account answers the
-- same at all times, and every transaction is accepted.
use marinade_tenderize_from.Prelude.{
  ℕ, ◌+◌, ◌%◌, ◌^◌, ◌<◌, ◌≤◌, ◌≡◌, refl, ap, false, Option, some, List, [], ◌∷◌, arith, length,
  flatten, All, replicate, ◌==◌, if◌then◌else◌,
}
use mathlib.Core.HLevel.{Σ_prop_path}
use native.Mathlib.Bridge.{le_prop}
use marinade_tenderize_from.Buffer.{le_bytes, of_le}
use marinade_tenderize_from.Buffer.Bytes.{length-le_bytes, of_le-le_bytes}
use marinade_tenderize_from.Web3.{
  Web3, KeyLaws, ChunkLaws, AccountInfo, StakeActivationData, active, fulfilled,
}
use marinade_tenderize_from.Pool.Types.{TenderizeProgram}
use marinade_tenderize_from.Pool.Client.{Session}

abbrev pub Key : Type 0
Key = (n : ℕ) × (n < 256 ^ 32)

pub key_bound : (n : ℕ) → n % 256 ^ 32 < 256 ^ 32
key_bound n = omega arith

abbrev pub key : ℕ → Key
key n = (n % 256 ^ 32, key_bound n)

-- Chunks of one item each: in order, and not above any size.
unfoldable pub singles : {A : Type 0} → List A → List (List A)
singles [] = []
singles (x ∷ xs) = (x ∷ []) ∷ singles xs

singles-flatten : {A : Type 0} (xs : List A) → flatten (singles xs) ≡ xs
unfolding singles
singles-flatten [] = refl
singles-flatten (x ∷ xs) = ap (λ l. x ∷ l) (singles-flatten xs)

singles-le :
    {A : Type 0} (xs : List A) (size : ℕ) → 1 ≤ size → All (λ c. length c ≤ size) (singles xs)
unfolding singles
singles-le [] size h = tt
singles-le (x ∷ xs) size h = (omega arith, singles-le xs size h)

-- The pool's accounts: 1 the state, 2 the validators, 3 the creditors.
abbrev pub state_parts : List (List ℕ)
state_parts =
    (1 ∷ [])
    ∷ le_bytes 32 7
    ∷ replicate 2 0
    ∷ le_bytes 32 2
    ∷ le_bytes 32 3
    ∷ le_bytes 32 4
    ∷ le_bytes 32 5
    ∷ le_bytes 32 6
    ∷ le_bytes 32 8
    ∷ replicate 5 0
    ∷ le_bytes 8 100
    ∷ le_bytes 8 90
    ∷ le_bytes 8 3
    ∷ le_bytes 8 100
    ∷ le_bytes 8 3
    ∷ []

abbrev pub state_contents : List ℕ
state_contents = flatten state_parts

-- two validators, one with two stakes
abbrev pub validator_contents : List ℕ
validator_contents = flatten (
    (1 ∷ [])
    ∷ le_bytes 2 2
    ∷ le_bytes 32 21
    ∷ le_bytes 8 5000000000
    ∷ le_bytes 8 3
    ∷ le_bytes 8 2
    ∷ le_bytes 32 22
    ∷ le_bytes 8 1000000000
    ∷ le_bytes 8 3
    ∷ le_bytes 8 0
    ∷ [])

-- one creditor
abbrev pub creditor_contents : List ℕ
creditor_contents =
    flatten ((1 ∷ []) ∷ le_bytes 2 1 ∷ le_bytes 32 31 ∷ le_bytes 32 32 ∷ le_bytes 8 70 ∷ [])

unfoldable pub answer : ℕ → Option AccountInfo
unfolding le_bytes
answer n =
    if n == 1
    then some (record { lamports = 1; owner_is_system = false; contents = state_contents })
    else if n == 2
    then some (record { lamports = 1; owner_is_system = false; contents = validator_contents })
    else if n == 3
    then some (record { lamports = 1; owner_is_system = false; contents = creditor_contents })
    else some (record { lamports = 2000000000; owner_is_system = false; contents = [] })

abbrev pub all_active : StakeActivationData
all_active = record { state = active; active_amount = 2000000000; inactive_amount = 0 }

abbrev pub calm_network : Web3
calm_network = record {
  PublicKey = Key;
  new_public_key = λ bs. key (of_le bs);
  to_buffer = λ k. le_bytes 32 k.0;
  find_program_address = λ seeds k. key (of_le (flatten seeds) + k.0);
  system_program = key 101;
  stake_program = key 102;
  spl_token_program = key 103;
  stake_config = key 104;
  sysvar_clock = key 105;
  sysvar_rent = key 106;
  sysvar_stake_history = key 107;
  Net = Unit {0};
  get_account_info = λ k n. (fulfilled (answer k.0), n);
  get_stake_activation = λ k n. (fulfilled all_active, n);
  get_minimum_balance_for_rent_exemption = λ size n. (fulfilled (size + 128), n);
  send_and_confirm_transaction = λ t n. (fulfilled tt, n);
  chunk = λ A xs size. singles xs;
}

key_path : (k : Key) → key (of_le (le_bytes 32 k.0)) ≡ k
key_path k =
    Σ_prop_path (λ n. le_prop)
      (let same = of_le-le_bytes 32 k.0 k.1 in rw same (omega (arith, k.1)))

pub calm_key_laws : KeyLaws calm_network
calm_key_laws = record {
  length-to_buffer = λ k. length-le_bytes 32 k.0;
  new_public_key-to_buffer = key_path;
}

pub calm_chunk_laws : ChunkLaws calm_network
calm_chunk_laws = record {
  flatten-chunk = λ A xs size h. singles-flatten xs;
  chunk-le_size = λ A xs size h. singles-le xs size h;
}

abbrev pub client : TenderizeProgram Key
client = record {
  payer_account = key 11;
  program_account = key 12;
  stake_pool = key 1;
  owner = key 7;
  validator_stake_list_account = key 2;
  credit_list_account = key 3;
  pool_mint_token = key 4;
  owners_fee = key 5;
  credit_reserve = key 6;
}

abbrev pub start : Session calm_network
start = record { net = tt; sent = [] }
