-- ===== src/Cli/Steps.antt =====
-- `run` of experiment/cli.ts, from the state that it reads to the command that it carries out. The
-- options are read, the amounts of SOL are whole numbers, and what is printed is left out.
use marinade_tenderize_from.Prelude.{
  ℕ, pos, zero, suc, ◌+◌, ◌-◌, ◌*◌, Bool, true, false, Option, none, some, List, [], ◌∷◌, ltb, ◌==◌,
  if◌then◌else◌,
}
use marinade_tenderize_from.Effect.{
  web, invalid_validator, not_enough_funds, pure, throw, throw_if, lift, attempt, ◌>>=◌, ◌>>◌,
}
use marinade_tenderize_from.Web3.{Web3, Reply, AccountInfo}
use marinade_tenderize_from.Pool.Types.{State, ValidatorInfo}
use marinade_tenderize_from.Pool.Client.{
  Program, Action, settled, get_reserve_address, get_stake_for_validator, account_info,
  stake_activation, rent_exemption,
}
use marinade_tenderize_from.Pool.Reading.{required, read_state, read_validators, read_creditors}
use marinade_tenderize_from.Pool.Sending.{
  create_stake_pool, add_validator, remove_validator, deposit,
}
use marinade_tenderize_from.Pool.Delegation.{delegate_reserve_batch}
use marinade_tenderize_from.Pool.Merging.{merge_all_stakes}
use marinade_tenderize_from.Pool.Unstaking.{unstake, unstake_all}
use marinade_tenderize_from.Pool.Paying.{pay_all_creditors, update_pool}

abbrev pub lamports_per_sol : ℕ
lamports_per_sol = 1000000000

-- The commands, with the arguments that they have; a vote that is no key is left out.
pub data Command (K : Type 0) : Type 0 where
  show : Command K
  vadd vrem : (votes : List K) → Command K
  del : (amount : Option ℕ) → Command K
  update : Command K
  unstake_one : (vote : K) (amount : Option ℕ) → Command K
  unstake_every : Command K

pub record Args (K : Type 0) : Type 0 where
  pub fee_denominator : ℕ
  pub fee_numerator : ℕ
  pub min_reserve : ℕ
  pub command : Command K

-- The calls of spl-token by a shell.
pub data ShellCommand : Type 0 where
  create_token authorize_mint create_owners_fee create_credit_reserve : ShellCommand

-- What `run` uses beside the client: the shell, two requests, `equals` of a key, and
-- Math.round(0.9 * n).
pub record Host (w : Web3) : Type 0 where
  pub exec_shell_command : ShellCommand → w.Net → Reply (Unit {0}) × w.Net
  pub get_epoch_info : w.Net → Reply ℕ × w.Net
  pub get_vote_accounts : w.Net → Reply (List w.PublicKey) × w.Net
  pub equals : w.PublicKey → w.PublicKey → Bool
  pub round_nine_tenths : ℕ → ℕ

module _ (w : Web3) (prog : Program w) (host : Host w) where
  open w use {PublicKey, Net}

  unfoldable pub ask : {A : Type 0} → (Net → Reply A × Net) → Action w A
  unfolding settled
  ask f s = let (r, n) = f s.net in (settled r, record s { net = n })

  -- A pool is made where there is none.
  unfoldable pub create_pool : Args PublicKey → Action w (Option (State PublicKey))
  unfolding ask
  create_pool args = do
    ask (host.exec_shell_command create_token)
    ask (host.exec_shell_command authorize_mint)
    ask (host.exec_shell_command create_owners_fee)
    ask (host.exec_shell_command create_credit_reserve)
    create_stake_pool w prog
        (record { fee_denominator = args.fee_denominator; fee_numerator = args.fee_numerator })
    read_state w prog

  unfoldable pub update_state : Action w (Option (State PublicKey))
  update_state = do merge_all_stakes w prog; update_pool w prog; read_state w prog

  -- Whether the pool was updated, and its state then
  unfoldable pub update_old : State PublicKey → Action w (Bool × Option (State PublicKey))
  unfolding ask update_state
  update_old state = do
    epoch ← ask host.get_epoch_info
    elim (ltb state.last_epoch_update epoch) [
      | false ↦ pure (false, some state)
      | true ↦ do state' ← update_state; pure (true, state')
    ]

  unfoldable pub bring_up_from :
      Args PublicKey → Option (State PublicKey) → Action w (Bool × Option (State PublicKey))
  unfolding create_pool update_old
  bring_up_from args none = do state' ← create_pool args; pure (false, state')
  bring_up_from args (some state) = elim (state.version == 0) [
    | true ↦ do state' ← create_pool args; pure (false, state')
    | false ↦ update_old state
  ]

  unfoldable pub bring_up : Args PublicKey → Action w (Bool × Option (State PublicKey))
  unfolding bring_up_from
  bring_up args = do state ← read_state w prog; bring_up_from args state

  -- `account ? account.lamports : 0`
  unfoldable pub lamports_of : Option AccountInfo → ℕ
  lamports_of none = 0
  lamports_of (some account) = account.lamports

  unfoldable pub max_of : ℕ → ℕ → ℕ
  max_of a b = if ltb a b then b else a

  -- What the reserve lacks, `none` where it is enough
  unfoldable pub lacking : Option AccountInfo → ℕ → Option ℕ
  lacking none min_reserve = some min_reserve
  lacking (some reserve) min_reserve =
      if ltb reserve.lamports min_reserve then some (min_reserve - reserve.lamports) else none

  unfoldable pub deposit_lacking : Option ℕ → Action w (Unit {0})
  unfolding lamports_of
  deposit_lacking none = pure tt
  deposit_lacking (some amount) = do
    payer ← account_info w prog.payer_account
    throw_if (ltb (lamports_of payer) amount) (web not_enough_funds)
    deposit w prog (record {
      user_source = prog.payer_account;
      amount = pos amount;
      user_token = prog.owners_fee;
    })

  unfoldable pub top_up : Args PublicKey → Action w (Unit {0})
  unfolding max_of lacking deposit_lacking
  top_up args = do
    reserve ← account_info w (get_reserve_address w prog)
    for_nothing ← rent_exemption w 0
    for_credits ← rent_exemption w 10000
    deposit_lacking
        (lacking reserve (max_of (lamports_per_sol * args.min_reserve) (for_nothing + for_credits)))

  -- `reserve!.lamports`, `state!.stakeTotal`; then the stakes of the validators and the creditors are
  -- read to be printed. A failing request for a stake is passed over.
  unfoldable pub look_at : PublicKey → Action w (Unit {0})
  look_at stake = do account ← account_info w stake; activation ← stake_activation w stake; pure tt

  unfoldable pub show_stakes : PublicKey → ℕ → ℕ → Action w (Unit {0})
  unfolding look_at
  show_stakes validator index zero = pure tt
  show_stakes validator index (suc rounds) = do
    stake ← lift (get_stake_for_validator w prog validator index)
    looked ← attempt (look_at stake)
    show_stakes validator (suc index) rounds

  unfoldable pub show_validators : List (ValidatorInfo PublicKey) → Action w (Unit {0})
  unfolding show_stakes
  show_validators [] = pure tt
  show_validators (v ∷ vs) = do show_stakes v.vote_pubkey 0 v.stake_count; show_validators vs

  unfoldable pub show_pool : Option AccountInfo → Option (State PublicKey) → Action w AccountInfo
  unfolding show_validators
  show_pool reserve state = do
    account ← required reserve
    shown ← required state
    validators ← read_validators w prog
    show_validators validators
    creditors ← read_creditors w prog
    pure account

  -- `currentValidators.find((c) => c.votePubkey.equals(v))`
  unfoldable pub find_validator :
      PublicKey → List (ValidatorInfo PublicKey) → Option (ValidatorInfo PublicKey)
  find_validator vote [] = none
  find_validator vote (v ∷ vs) =
      let rest = find_validator vote vs in if host.equals v.vote_pubkey vote then some v else rest

  unfoldable pub is_absent : {A : Type 0} → Option A → Bool
  is_absent none = true
  is_absent (some a) = false

  unfoldable pub new_validators : List (ValidatorInfo PublicKey) → List PublicKey → List PublicKey
  unfolding find_validator is_absent
  new_validators current [] = []
  new_validators current (v ∷ vs) =
      let rest = new_validators current vs in
      if is_absent (find_validator v current) then v ∷ rest else rest

  unfoldable pub unstaked : List (ValidatorInfo PublicKey) → List PublicKey
  unstaked [] = []
  unstaked (v ∷ vs) =
      let rest = unstaked vs in if v.stake_count == 0 then v.vote_pubkey ∷ rest else rest

  -- The validators that are meant where no votes are given
  unfoldable pub to_add : List PublicKey → Action w (List PublicKey)
  unfolding ask new_validators
  to_add [] = do
    current ← read_validators w prog
    votes ← ask host.get_vote_accounts
    pure (new_validators current votes)
  to_add (v ∷ vs) = pure (v ∷ vs)

  unfoldable pub to_remove : List PublicKey → Action w (List PublicKey)
  unfolding unstaked
  to_remove [] = do current ← read_validators w prog; pure (unstaked current)
  to_remove (v ∷ vs) = pure (v ∷ vs)

  unfoldable pub add_each : List PublicKey → Action w (Unit {0})
  add_each [] = pure tt
  add_each (v ∷ vs) = do add_validator w prog v; add_each vs

  unfoldable pub remove_each : List PublicKey → Action w (Unit {0})
  remove_each [] = pure tt
  remove_each (v ∷ vs) = do remove_validator w prog v; remove_each vs

  -- The amount of `del` is in SOL; without one, or for 0, it is 0.9 of the reserve.
  unfoldable pub del_amount : Option ℕ → AccountInfo → ℕ
  del_amount none reserve = host.round_nine_tenths reserve.lamports
  del_amount (some zero) reserve = host.round_nine_tenths reserve.lamports
  del_amount (some (suc n)) reserve = suc n * lamports_per_sol

  unfoldable pub unstake_found : Option (ValidatorInfo PublicKey) → Option ℕ → Action w (Unit {0})
  unstake_found none amount = throw (web invalid_validator)
  unstake_found (some v) amount = unstake w prog v amount

  unfoldable pub update_unless : Bool → Action w (Unit {0})
  unfolding update_state
  update_unless true = pure tt
  update_unless false = do state ← update_state; pure tt

  unfoldable pub process_command : Command PublicKey → Bool → AccountInfo → Action w (Unit {0})
  unfolding to_add add_each to_remove remove_each del_amount update_unless find_validator
      unstake_found
  process_command show was_updated reserve = pure tt
  process_command (vadd votes) was_updated reserve = do
    validators ← to_add votes
    add_each validators
  process_command (vrem votes) was_updated reserve = do
    validators ← to_remove votes
    remove_each validators
  process_command (del amount) was_updated reserve =
      delegate_reserve_batch w prog (del_amount amount reserve)
  process_command update was_updated reserve = update_unless was_updated
  process_command (unstake_one vote amount) was_updated reserve = do
    validators ← read_validators w prog
    unstake_found (find_validator vote validators) amount
  process_command unstake_every was_updated reserve = unstake_all w prog

  unfoldable pub run : Args PublicKey → Action w (Unit {0})
  unfolding bring_up top_up show_pool process_command
  run args = do
    (was_updated, state) ← bring_up args
    top_up args
    paid ← pay_all_creditors w prog
    reserve ← account_info w (get_reserve_address w prog)
    account ← show_pool reserve state
    process_command args.command was_updated account
