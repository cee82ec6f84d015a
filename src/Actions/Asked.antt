-- ===== src/Actions/Asked.antt =====
-- What an action of src/actions asks the wallet to sign.
pub mod Calls
pub mod Whole
use marinade_tenderize_from.Prelude.{
  ℕ, ◌+◌, ◌≡◌, refl, sym, ap, ◌∙◌, Bool, true, false, ◌⊎◌, inl, inr, All, All-append, Option, none,
  some, List, [], ◌∷◌, ◌++◌,
}
use marinade_tenderize_from.Effect.{
  Error, Result, ok, err, M, pure, throw, throw_if, lift, attempt, ◌>>=◌, ◌>>◌, web, not_connected,
  not_enough_funds,
}
use marinade_tenderize_from.Effect.Ensures.{
  Ensures, Ends, Ensures-bind, Ensures-elim, Ensures-throw_if, Ensures-attempt, Ensures-pure,
  Ensures-throw,
}
use marinade_tenderize_from.Buffer.{Buffer}
use marinade_tenderize_from.Web3.{AccountMeta, TransactionInstruction, Reply, fulfilled, refused}
use marinade_tenderize_from.Pool.Client.{settled}
use marinade_tenderize_from.Cache.Tokens.{Spl}
use marinade_tenderize_from.Web.Layout.{Libraries}
use marinade_tenderize_from.Web.Builders.{
  Ids, Tenderize, amount_data, web_deposit_instruction, web_withdraw_instruction,
  web_credit_instruction,
}
use marinade_tenderize_from.Actions.Wallet.{
  WebInstruction, call_program, WebTransaction, WebNet, WebSession, UserAction, request, push,
  generate, fresh_arrays, sign, send_signed, send_transaction, confirm, confirm_if,
  get_error_for_transaction,
}
use marinade_tenderize_from.Actions.Accounts.{
  TokenAccount, approve, ensure_spl_account, find_or_create_account_by_mint,
}
use marinade_tenderize_from.Actions.Flows.{
  send_arrays, is_short, send_quietly, prepare_deposit, deposit, check_reserve, prepare_withdraw,
  withdraw, prepare_credit, credit,
}
use marinade_tenderize_from.Actions.Stage.{
  SignerLaws, marked, allowance, IsLent, IsLent-IsOpen, IsOpen, NeedsOnly, Stage, Stays, pure-Stays,
  lift-Stays, request-Stays, in_cache-Stays, generate-Stays,
}
use marinade_tenderize_from.Actions.Prepared.{
  approve-Stays, ensure_spl_account-Stays, find_or_create_account_by_mint-Stays,
}

-- Beside an open property, the instruction that calls the pool is the last of the instructions.
abbrev pub IsCalled :
    (TransactionInstruction ℕ → ℕ → Type 0)
    → ℕ
    → ℕ
    → List WebInstruction
    → List WebInstruction
    → Type 0
IsCalled Makes delegate amount is cs =
    (t : TransactionInstruction ℕ) × (account : ℕ) × (setup : List WebInstruction) × Makes t account
    × (is ≡ setup ++ (call_program t ∷ []))
    × IsLent account delegate amount setup cs

-- The transaction names every signer that its instructions require: the payer, whose wallet is
-- asked, or one whose key the application has. It calls the pool once with the instruction, while
-- the delegate may take just the amount from the account, and nobody may take anything of it then.
abbrev pub IsAsked :
    (WebInstruction → List ℕ)
    → (TransactionInstruction ℕ → ℕ → Type 0)
    → ℕ
    → ℕ
    → ℕ
    → WebTransaction
    → Type 0
IsAsked required Makes payer delegate amount tx =
    (tx.signers ≡ payer ∷ tx.signed_by)
    × All (NeedsOnly required payer tx.signed_by) tx.instructions
    × ((t : TransactionInstruction ℕ) × (account : ℕ) × (setup cleanup : List WebInstruction)
        × Makes t account
        × (tx.instructions ≡ setup ++ (call_program t ∷ cleanup))
        × IsLent account delegate amount setup cleanup)

-- The wallet was asked for one more transaction, which is of this kind.
abbrev pub Asks : (WebTransaction → Type 0) → List WebTransaction → List WebTransaction → Type 0
Asks P before presented = (tx : WebTransaction) × (presented ≡ before ++ (tx ∷ [])) × P tx

abbrev pub AsksOrNot :
    (WebTransaction → Type 0) → List WebTransaction → List WebTransaction → Type 0
AsksOrNot P before presented = (presented ≡ before) ⊎ Asks P before presented

-- For an action that gives nothing back where its transaction may not have gone through.
abbrev pub AsksQuietly :
    (WebTransaction → Type 0) → List WebTransaction → Option ℕ → List WebTransaction → Type 0
AsksQuietly P before (some txid) presented = Asks P before presented
AsksQuietly P before none presented = AsksOrNot P before presented

module _ (n : WebNet) (Q X : List WebTransaction → Type 0)
    (imp : (txs : List WebTransaction) → Q txs → X txs) where
  -- What asks the wallet for nothing.
  abbrev pub Calm : {A : Type 0} → UserAction n A → Type 0
  Calm m = Ensures (λ s. Q s.presented) (λ a s. Q s.presented) (λ e s. X s.presented) m

  pub request-Calm : {A : Type 0} (f : n.Net → Reply A × n.Net) → Calm (request n f)
  unfolding request settled
  request-Calm {A = A} f = record { at = λ s h. by_reply s h (f s.net) }
    where
      by_reply :
          (s : WebSession n)
          → Q s.presented
          → (r : Reply A × n.Net)
          → Ends
              (λ a s. Q s.presented)
              (λ e s. X s.presented)
              (settled r.0, record s { net = r.1; cache = n.meanwhile r.1 s.cache })
      by_reply s h (fulfilled a, n') = h
      by_reply s h (refused, n') = imp s.presented h

  confirm_if-Calm : (b : Bool) (txid : ℕ) → Calm (confirm_if n b txid)
  unfolding confirm_if confirm get_error_for_transaction
  confirm_if-Calm false txid = Ensures-pure tt (λ s h. h)
  confirm_if-Calm true txid = Ensures-bind _ _ _ (request-Calm _) λ failed.
      Ensures-elim failed _ _
        (λ e.
          Ensures-bind (λ u s. Q s.presented) _ _
            (Ensures-bind _ _ _ (request-Calm _) λ confirmed. request-Calm _)
            λ u. Ensures-throw _ (λ s h. imp s.presented h))
        (λ e. Ensures-pure tt (λ s h. h))

  lift-Calm : {A : Type 0} (r : Result A) → Calm (lift r)
  unfolding lift
  lift-Calm (ok a) = record { at = λ s h. h }
  lift-Calm (err e) = record { at = λ s h. imp s.presented h }

module _ (n : WebNet) (payer : ℕ) (before : List WebTransaction) (P : WebTransaction → Type 0) where
  sign-Asks :
      (tx : WebTransaction)
      → P tx
      → Ensures
          (λ s. s.presented ≡ before)
          (λ a s. Asks P before s.presented)
          (λ e s. AsksOrNot P before s.presented)
          (sign n tx)
  unfolding sign
  sign-Asks tx p = record {
    at = λ s h.
        (request-Calm n (Asks P before) (AsksOrNot P before) (λ txs q. inr q)
            (n.sign_transaction tx)).at
          (record s { presented = s.presented ++ (tx ∷ []) })
          (tx, ap (λ txs. txs ++ (tx ∷ [])) h, p);
  }

  pub send_signed-Asks :
      (instructions : List WebInstruction) (signers : List ℕ) (b : Bool)
      → ((blockhash : ℕ)
          → P (record {
            instructions = instructions;
            recent_blockhash = blockhash;
            signers = payer ∷ signers;
            signed_by = signers;
          }))
      → Ensures
          (λ s. s.presented ≡ before)
          (λ a s. Asks P before s.presented)
          (λ e s. AsksOrNot P before s.presented)
          (send_signed n payer instructions signers b)
  unfolding send_signed
  send_signed-Asks instructions signers b p =
      Ensures-bind _ _ _
        (request-Calm n (λ txs. txs ≡ before) (AsksOrNot P before) (λ txs e. inl e) _)
        λ blockhash. Ensures-bind _ _ _ (sign-Asks _ (p blockhash)) λ signed.
          Ensures-bind _ _ _ (lift-Calm n (Asks P before) (AsksOrNot P before) (λ txs q. inr q) _)
            λ raw.
              Ensures-bind _ _ _
                (request-Calm n (Asks P before) (AsksOrNot P before) (λ txs q. inr q) _)
                λ txid.
                  Ensures-bind _ _ _
                    (confirm_if-Calm n (Asks P before) (AsksOrNot P before) (λ txs q. inr q) b txid)
                    λ u. Ensures-pure txid (λ s h. h)
