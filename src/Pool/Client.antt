-- ===== src/Pool/Client.antt =====
-- What the methods of TenderizeProgram share: the derived addresses, and the requests to the
-- connection (experiment/tenderize.ts).
pub mod Requests
use marinade_tenderize_from.Prelude.{ℕ, Option, List, [], ◌∷◌, ◌++◌}
use marinade_tenderize_from.Effect.{Result, ok, err, rejected, M}
use marinade_tenderize_from.Buffer.{◌>>=◌, alloc, write_uint32_le}
use marinade_tenderize_from.Web3.{
  Web3, Reply, fulfilled, refused, Transaction, AccountInfo, StakeActivationData,
}
use marinade_tenderize_from.Pool.Types.{TenderizeProgram}

-- The bytes of 'reserve', 'deposit' and 'withdraw'.
abbrev pub reserve_seed : List ℕ
reserve_seed = b'r' ∷ b'e' ∷ b's' ∷ b'e' ∷ b'r' ∷ b'v' ∷ b'e' ∷ []

abbrev pub deposit_seed : List ℕ
deposit_seed = b'd' ∷ b'e' ∷ b'p' ∷ b'o' ∷ b's' ∷ b'i' ∷ b't' ∷ []

abbrev pub withdraw_seed : List ℕ
withdraw_seed = b'w' ∷ b'i' ∷ b't' ∷ b'h' ∷ b'd' ∷ b'r' ∷ b'a' ∷ b'w' ∷ []

-- `await` of a request.
unfoldable pub settled : {A : Type 0} → Reply A → Result A
settled (fulfilled a) = ok a
settled refused = err rejected

module _ (w : Web3) where
  open w use {
    PublicKey, to_buffer, find_program_address, Net, get_account_info, get_stake_activation,
    send_and_confirm_transaction,
  }

  abbrev pub Program : Type 0
  Program = TenderizeProgram PublicKey

  unfoldable pub get_reserve_address : Program → PublicKey
  get_reserve_address p =
      find_program_address (to_buffer p.stake_pool ∷ reserve_seed ∷ []) p.program_account

  unfoldable pub get_deposit_authority : Program → PublicKey
  get_deposit_authority p =
      find_program_address (to_buffer p.stake_pool ∷ deposit_seed ∷ []) p.program_account

  unfoldable pub get_withdraw_authority : Program → PublicKey
  get_withdraw_authority p =
      find_program_address (to_buffer p.stake_pool ∷ withdraw_seed ∷ []) p.program_account

  -- A RangeError for an index that is no uint32.
  unfoldable pub get_stake_for_validator : Program → PublicKey → ℕ → Result PublicKey
  get_stake_for_validator p validator index = do
    (q, index_buffer) ← write_uint32_le index 0 (alloc 4)
    ok (
        find_program_address (to_buffer validator ∷ to_buffer p.stake_pool ∷ index_buffer ∷ [])
          p.program_account)

  -- The network, and the transactions that were handed to it, the last one last.
  pub record Session : Type 0 where
    pub net : Net
    pub sent : List (Transaction PublicKey)

  abbrev pub Action : Type 0 → Type 0
  Action A = M Session A

  unfoldable pub account_info : PublicKey → Action (Option AccountInfo)
  unfolding settled
  account_info k s = let (r, n) = get_account_info k s.net in (settled r, record s { net = n })

  unfoldable pub stake_activation : PublicKey → Action StakeActivationData
  unfolding settled
  stake_activation k s =
      let (r, n) = get_stake_activation k s.net in (settled r, record s { net = n })

  unfoldable pub rent_exemption : ℕ → Action ℕ
  unfolding settled
  rent_exemption size s =
      let (r, n) = w.get_minimum_balance_for_rent_exemption size s.net in
      (settled r, record s { net = n })

  unfoldable pub send_and_confirm : Transaction PublicKey → Action (Unit {0})
  unfolding settled
  send_and_confirm t s =
      let (r, n) = send_and_confirm_transaction t s.net in
      (settled r, record { net = n; sent = s.sent ++ (t ∷ []) })
