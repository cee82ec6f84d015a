-- ===== src/Actions/Wallet.antt =====
-- sendTransaction of src/contexts/connection.tsx, and the state that an action of the user works on.
use marinade_tenderize_from.Prelude.{
  ℕ, ◌+◌, Bool, true, false, Option, none, some, List, [], ◌∷◌, ◌++◌,
}
use marinade_tenderize_from.Effect.{
  Result, ok, web, not_connected, transaction_failed, M, pure, throw, lift, ◌>>=◌, ◌>>◌,
}
use marinade_tenderize_from.Web3.{AccountInfo, CreateAccount, TransactionInstruction, Reply}
use marinade_tenderize_from.Pool.Client.{settled}
use marinade_tenderize_from.Cache.Store.{Store, Method}

-- An instruction, by the function of a library that makes it: createAccount of SystemProgram, the
-- ones of Token in @solana/spl-token without further signers, and what the builders make.
pub data WebInstruction : Type 0 where
  create_account : CreateAccount ℕ → WebInstruction
  init_account : (mint account owner : ℕ) → WebInstruction
  close_account : (account destination owner : ℕ) → WebInstruction
  approve_delegate : (account delegate owner amount : ℕ) → WebInstruction
  revoke_delegate : (account owner : ℕ) → WebInstruction
  call_program : TransactionInstruction ℕ → WebInstruction

-- `signers` has the payer first; `signed_by` are those whose keys the application has.
pub record WebTransaction : Type 0 where
  pub instructions : List WebInstruction
  pub recent_blockhash : ℕ
  pub signers : List ℕ
  pub signed_by : List ℕ

-- The connection, the wallet and the source of new key pairs: parameters. `Net` is as in Web3.
pub record WebNet : Type 1 where
  pub Net : Type 0
  pub Signed : Type 0
  pub get_minimum_balance_for_rent_exemption : ℕ → Net → Reply ℕ × Net
  pub get_account_info : ℕ → Net → Reply (Option AccountInfo) × Net
  pub get_recent_blockhash : Net → Reply ℕ × Net
  -- wallet.signTransaction, transaction.serialize, connection.sendRawTransaction
  pub sign_transaction : WebTransaction → Net → Reply Signed × Net
  pub serialize : Signed → Result (List ℕ)
  pub send_raw_transaction : List ℕ → Net → Reply ℕ × Net
  -- whether the status has an error
  pub confirm_transaction : ℕ → Net → Reply Bool × Net
  pub get_parsed_confirmed_transaction : ℕ → Net → Reply (Unit {0}) × Net
  -- what else becomes of the cache while a request is awaited
  pub meanwhile : Net → Store → Store
  -- new Account(): the address of each new key pair
  pub new_account : ℕ → ℕ

module _ (n : WebNet) where
  -- The network, the cache, how many key pairs were made, the arrays of the action, and the
  -- transactions that the wallet was asked to sign.
  pub record WebSession : Type 0 where
    pub net : n.Net
    pub cache : Store
    pub made : ℕ
    pub instructions : List WebInstruction
    pub cleanup_instructions : List WebInstruction
    pub signers : List ℕ
    pub presented : List WebTransaction

  abbrev pub UserAction : Type 0 → Type 0
  UserAction A = M WebSession A

  unfoldable pub request : {A : Type 0} → (n.Net → Reply A × n.Net) → UserAction A
  unfolding settled
  request f s =
      let (r, n') = f s.net in (settled r, record s { net = n'; cache = n.meanwhile n' s.cache })

  unfoldable pub in_cache : {A : Type 0} → Method A → UserAction A
  in_cache m s = let (r, c) = m s.cache in (r, record s { cache = c })

  -- instructions.push, cleanupInstructions.push
  unfoldable pub push : WebInstruction → UserAction (Unit {0})
  push i s = (ok tt, record s { instructions = s.instructions ++ (i ∷ []) })

  unfoldable pub push_cleanup : WebInstruction → UserAction (Unit {0})
  push_cleanup i s = (ok tt, record s { cleanup_instructions = s.cleanup_instructions ++ (i ∷ []) })

  unfoldable pub push_cleanup_if : Bool → WebInstruction → UserAction (Unit {0})
  unfolding push_cleanup
  push_cleanup_if true i = push_cleanup i
  push_cleanup_if false i = pure tt

  unfoldable pub push_signer : ℕ → UserAction (Unit {0})
  push_signer k s = (ok tt, record s { signers = s.signers ++ (k ∷ []) })

  -- new Account()
  unfoldable pub generate : UserAction ℕ
  generate s = (ok (n.new_account s.made), record s { made = s.made + 1 })

  -- The three arrays of an action, empty.
  unfoldable pub fresh_arrays : UserAction (Unit {0})
  fresh_arrays s = (ok tt, record s { instructions = []; cleanup_instructions = []; signers = [] })

  -- getErrorForTransaction; what it finds is only printed.
  unfoldable pub get_error_for_transaction : ℕ → UserAction (Unit {0})
  unfolding request
  get_error_for_transaction txid = do
    confirmed ← request (n.confirm_transaction txid)
    request (n.get_parsed_confirmed_transaction txid)

  unfoldable pub confirm : ℕ → UserAction (Unit {0})
  unfolding request get_error_for_transaction
  confirm txid = do
    failed ← request (n.confirm_transaction txid)
    elim failed [
      | false ↦ pure tt
      | true ↦ do get_error_for_transaction txid; throw (web transaction_failed)
    ]

  unfoldable pub confirm_if : Bool → ℕ → UserAction (Unit {0})
  unfolding confirm
  confirm_if true txid = confirm txid
  confirm_if false txid = pure tt

  -- wallet.signTransaction
  unfoldable pub sign : WebTransaction → UserAction n.Signed
  unfolding request
  sign tx s = request (n.sign_transaction tx) (record s { presented = s.presented ++ (tx ∷ []) })

  unfoldable pub send_signed : ℕ → List WebInstruction → List ℕ → Bool → UserAction ℕ
  unfolding request sign confirm_if
  send_signed payer instructions signers await_confirmation = do
    blockhash ← request n.get_recent_blockhash
    signed ← sign (record {
      instructions = instructions;
      recent_blockhash = blockhash;
      signers = payer ∷ signers;
      signed_by = signers;
    })
    raw ← lift (n.serialize signed)
    txid ← request (n.send_raw_transaction raw)
    confirm_if await_confirmation txid
    pure txid

  -- sendTransaction, for the public key of the wallet, if it has one
  unfoldable pub send_transaction : Option ℕ → List WebInstruction → List ℕ → Bool → UserAction ℕ
  unfolding send_signed
  send_transaction none instructions signers await_confirmation = throw (web not_connected)
  send_transaction (some payer) instructions signers await_confirmation =
      send_signed payer instructions signers await_confirmation
