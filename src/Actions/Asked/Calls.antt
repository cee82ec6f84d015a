-- ===== src/Actions/Asked/Calls.antt =====
-- The arrays that deposit, withdraw and credit of src/actions fill, and their transaction.
use marinade_tenderize_from.Prelude.{
  ℕ, ◌≡◌, refl, ap, ◌∙◌, true, false, All-append, append_assoc, none, List, [], ◌∷◌, ◌++◌,
}
use marinade_tenderize_from.Effect.{Result, ok, err, lift, ◌>>=◌}
use marinade_tenderize_from.Effect.Ensures.{Ensures, Ensures-bind, Ensures-given}
use marinade_tenderize_from.Buffer.{Buffer}
use marinade_tenderize_from.Web3.{TransactionInstruction}
use marinade_tenderize_from.Cache.Tokens.{Spl}
use marinade_tenderize_from.Web.Layout.{Libraries}
use marinade_tenderize_from.Web.Builders.{
  Ids, Tenderize, web_deposit_instruction, web_withdraw_instruction, web_credit_instruction,
}
use marinade_tenderize_from.Actions.Wallet.{
  WebInstruction, call_program, WebTransaction, WebNet, WebSession, push, fresh_arrays,
  send_transaction,
}
use marinade_tenderize_from.Actions.Accounts.{TokenAccount}
use marinade_tenderize_from.Actions.Flows.{
  send_arrays, prepare_deposit, prepare_withdraw, prepare_credit,
}
use marinade_tenderize_from.Actions.Stage.{
  SignerLaws, marked, IsLent, IsLent-IsOpen, IsOpen, Stage, Stays, request-Stays, generate-Stays,
}
use marinade_tenderize_from.Actions.Prepared.{
  approve-Stays, ensure_spl_account-Stays, find_or_create_account_by_mint-Stays,
}
use marinade_tenderize_from.Actions.Prepared.{push-Stays, IsPayers}
use marinade_tenderize_from.Actions.Asked.{IsCalled, IsAsked, Asks, AsksOrNot, send_signed-Asks}

module _ (ids : Ids ℕ) (l : Libraries) (payer : ℕ) where
  -- What the builders are given.
  abbrev pub IsDeposit : TokenAccount → ℕ → TransactionInstruction ℕ → ℕ → Type 0
  IsDeposit from amount t account =
      (from.info.is_native ≡ false → account ≡ from.pubkey)
      × (to_account : ℕ) × (web_deposit_instruction l ids
            (record { user_source = account; amount = amount; user_token = to_account })
          ≡ ok t)

  abbrev pub IsWithdrawal : ℕ → Tenderize ℕ → ℕ → TransactionInstruction ℕ → ℕ → Type 0
  IsWithdrawal amount tenderize source t account =
      (account ≡ source)
      × (web_withdraw_instruction l ids
            (record { user_token_source = account; user_sol_target = payer; amount = amount })
            tenderize
          ≡ ok t)

  abbrev pub IsCredit : ℕ → Tenderize ℕ → ℕ → TransactionInstruction ℕ → ℕ → Type 0
  IsCredit amount tenderize source t account =
      (account ≡ source)
      × (cancel_authority : ℕ) × (web_credit_instruction l ids
            (record {
              user_token_source = account;
              user_sol_target = payer;
              cancel_authority = cancel_authority;
              amount = amount;
            })
            tenderize
          ≡ ok t)

-- What the builders make marks no signer.
built-marked :
    (r : Result Buffer) (f : Buffer → TransactionInstruction ℕ) (t : TransactionInstruction ℕ)
    → ((d : Buffer) → marked (f d).keys ≡ [])
    → marinade_tenderize_from.Buffer.◌>>=◌ r (λ d. ok (f d)) ≡ ok t
    → marked t.keys ≡ []
built-marked (ok d) f t h e = let same : f d ≡ t = cc in rw (← same) (h d)
built-marked (err x) f t h e = cc

module _ (required : WebInstruction → List ℕ) (laws : SignerLaws required) (n : WebNet)
    (ids : Ids ℕ) (l : Libraries) (spl : Spl) (payer : ℕ) (before : List WebTransaction) where
  abbrev Nothing : List WebInstruction → List WebInstruction → Type 0
  Nothing is cs = Unit

  lift-known :
      (R : List WebInstruction → List WebInstruction → Type 0) {A : Type 0} (r : Result A)
      → Ensures
          (Stage required n payer before R)
          (λ a s. Stage required n payer before R s × (r ≡ ok a))
          (λ e s. s.presented ≡ before)
          (lift r)
  unfolding lift
  lift-known R (ok a) = record { at = λ s h. (h, refl) }
  lift-known R (err e) = record { at = λ s h. h.0 }

  fresh_arrays-Stage :
      Ensures
        (λ s. s.presented ≡ before)
        (λ u s. Stage required n payer before Nothing s)
        (λ e s. s.presented ≡ before)
        (fresh_arrays n)
  unfolding fresh_arrays
  fresh_arrays-Stage = record { at = λ s h. (h, tt, tt, tt) }

  -- The call of the pool is pushed while the account is lent.
  call-Stays :
      (Makes : TransactionInstruction ℕ → ℕ → Type 0) (account amount : ℕ)
      (r : Result (TransactionInstruction ℕ))
      → ((t : TransactionInstruction ℕ) → r ≡ ok t → (marked t.keys ≡ []) × Makes t account)
      → Stays required n payer before
          (IsLent account ids.withdraw_authority_pda amount)
          (IsCalled Makes ids.withdraw_authority_pda amount)
          (lift r >>= λ i. push n (call_program i))
  call-Stays Makes account amount r h = Ensures-bind _ _ _ (lift-known _ r) λ i.
      Ensures-given (r ≡ ok i) _ λ e.
        push-Stays required laws n payer before _ _ (call_program i) (calls_payer i (h i e).0)
          (λ is cs lent. (i, account, is, (h i e).1, refl, lent))
    where
      calls_payer :
          (i : TransactionInstruction ℕ)
          → marked i.keys ≡ []
          → IsPayers required laws n payer before (call_program i)
      calls_payer i e ks = rw (laws.calls i, e) tt

  pub send_arrays-Asks :
      (Makes : TransactionInstruction ℕ → ℕ → Type 0) (amount : ℕ)
      → Ensures
          (Stage required n payer before (IsCalled Makes ids.withdraw_authority_pda amount))
          (λ a s.
            Asks
              (IsAsked required Makes payer ids.withdraw_authority_pda amount)
              before
              s.presented)
          (λ e s.
            AsksOrNot
              (IsAsked required Makes payer ids.withdraw_authority_pda amount)
              before
              s.presented)
          (send_arrays n ids l spl payer)
  unfolding send_arrays send_transaction
  send_arrays-Asks Makes amount = record {
    at = λ s h.
        (send_signed-Asks n payer before _ (s.instructions ++ s.cleanup_instructions) s.signers true
            (λ blockhash. asked s blockhash h)).at
          s h.0;
  }
    where
      asked :
          (s : WebSession n) (blockhash : ℕ)
          → Stage required n payer before (IsCalled Makes ids.withdraw_authority_pda amount) s
          → IsAsked required Makes payer ids.withdraw_authority_pda amount (record {
            instructions = s.instructions ++ s.cleanup_instructions;
            recent_blockhash = blockhash;
            signers = payer ∷ s.signers;
            signed_by = s.signers;
          })
      asked s blockhash (e, h, h', (t, account, setup, makes, q, lent)) = (
        refl,
        All-append _ s.instructions s.cleanup_instructions h h',
        (
          t,
          account,
          setup,
          s.cleanup_instructions,
          makes,
          ap (λ is. is ++ s.cleanup_instructions) q
              ∙ append_assoc setup (call_program t ∷ []) s.cleanup_instructions,
          lent,
        ),
      )

  Nothing-IsOpen : IsOpen Nothing
  Nothing-IsOpen = record { pushed = λ is cs i q h. tt; pushed_cleanup = λ is cs i q h. tt }

  pub prepare_deposit-Calls :
      (from : TokenAccount) (amount : ℕ)
      → Ensures
          (λ s. s.presented ≡ before)
          (λ u s.
            Stage required n payer before
              (IsCalled (IsDeposit ids l payer from amount) ids.withdraw_authority_pda amount)
              s)
          (λ e s. s.presented ≡ before)
          (prepare_deposit n ids l spl from amount payer)
  unfolding prepare_deposit web_deposit_instruction
  prepare_deposit-Calls from amount = Ensures-bind _ _ _ fresh_arrays-Stage λ u.
      Ensures-bind _ _ _ (request-Stays required n payer before Nothing _) λ rent.
        Ensures-bind _ _ _
          (ensure_spl_account-Stays required laws n payer before ids spl Nothing Nothing-IsOpen from
            _)
          λ account. Ensures-given (from.info.is_native ≡ false → account ≡ from.pubkey) _ λ itself.
            Ensures-bind _ _ _
              (approve-Stays required laws n payer before ids Nothing account amount _)
              λ authority.
                Ensures-bind _ _ _
                  (find_or_create_account_by_mint-Stays required laws n payer before ids spl _
                    (IsLent-IsOpen account _ amount) payer rent _ none)
                  λ to_account.
                    call-Stays (IsDeposit ids l payer from amount) account amount _
                      λ t e. (built-marked _ _ t (λ d. refl) e, (itself, to_account, e))

  pub prepare_withdraw-Calls :
      (from : TokenAccount) (amount : ℕ) (tenderize : Tenderize ℕ)
      → Ensures
          (λ s. s.presented ≡ before)
          (λ u s.
            Stage required n payer before
              (IsCalled
                (IsWithdrawal ids l payer amount tenderize from.pubkey)
                ids.withdraw_authority_pda
                amount)
              s)
          (λ e s. s.presented ≡ before)
          (prepare_withdraw n ids l spl from amount tenderize payer)
  unfolding prepare_withdraw web_withdraw_instruction
  prepare_withdraw-Calls from amount tenderize = Ensures-bind _ _ _ fresh_arrays-Stage λ u.
      Ensures-bind _ _ _
        (approve-Stays required laws n payer before ids Nothing from.pubkey amount _)
        λ authority.
          call-Stays (IsWithdrawal ids l payer amount tenderize from.pubkey) from.pubkey amount _
            λ t e. (built-marked _ _ t (λ d. refl) e, (refl, e))

  pub prepare_credit-Calls :
      (from : TokenAccount) (amount : ℕ) (tenderize : Tenderize ℕ)
      → Ensures
          (λ s. s.presented ≡ before)
          (λ u s.
            Stage required n payer before
              (IsCalled
                (IsCredit ids l payer amount tenderize from.pubkey)
                ids.withdraw_authority_pda
                amount)
              s)
          (λ e s. s.presented ≡ before)
          (prepare_credit n ids l spl from amount tenderize payer)
  unfolding prepare_credit web_credit_instruction
  prepare_credit-Calls from amount tenderize = Ensures-bind _ _ _ fresh_arrays-Stage λ u.
      Ensures-bind _ _ _
        (approve-Stays required laws n payer before ids Nothing from.pubkey amount _)
        λ authority.
          Ensures-bind _ _ _ (generate-Stays required n payer before _) λ cancel_authority.
            call-Stays (IsCredit ids l payer amount tenderize from.pubkey) from.pubkey amount _
              λ t e. (built-marked _ _ t (λ d. refl) e, (refl, cancel_authority, e))
