-- ===== src/Actions/Stage.antt =====
-- What holds of the arrays of an action (src/actions) while they are filled.
use marinade_tenderize_from.Prelude.{
  ℕ, ◌≡◌, refl, ◌∙◌, ◌⊎◌, Any, All, Option, none, some, List, [], ◌∷◌, ◌++◌, ◌==◌, if◌then◌else◌,
}
use marinade_tenderize_from.Effect.{Result, ok, err, pure, lift}
use marinade_tenderize_from.Effect.Ensures.{Ensures, Ends}
use marinade_tenderize_from.Web3.{
  AccountMeta, TransactionInstruction, CreateAccount, Reply, fulfilled, refused,
}
use marinade_tenderize_from.Pool.Client.{settled}
use marinade_tenderize_from.Cache.Store.{Method, Store}
use marinade_tenderize_from.Actions.Wallet.{
  WebInstruction, create_account, init_account, close_account, approve_delegate, revoke_delegate,
  call_program, WebTransaction, WebNet, WebSession, UserAction, request, in_cache, generate,
}

-- The accounts that an instruction of a builder marks as signers.
abbrev pub marked : List (AccountMeta ℕ) → List ℕ
marked [] = []
marked (k ∷ ks) = let rest = marked ks in if k.is_signer then k.pubkey ∷ rest else rest

-- Who has to sign: what @solana/web3.js and @solana/spl-token document.
pub record SignerLaws (required : WebInstruction → List ℕ) : Type 0 where
  pub creates :
      (c : CreateAccount ℕ)
      → required (create_account c) ≡ c.from_pubkey ∷ c.new_account_pubkey ∷ []
  pub inits : (mint account owner : ℕ) → required (init_account mint account owner) ≡ []
  pub closes :
      (account destination owner : ℕ)
      → required (close_account account destination owner) ≡ owner ∷ []
  pub approves :
      (account delegate owner amount : ℕ)
      → required (approve_delegate account delegate owner amount) ≡ owner ∷ []
  pub revokes : (account owner : ℕ) → required (revoke_delegate account owner) ≡ owner ∷ []
  pub calls : (t : TransactionInstruction ℕ) → required (call_program t) ≡ marked t.keys

-- What a token account lets a delegate take, after instructions: approving sets it, revoking takes
-- it away.
abbrev pub allowance : ℕ → Option (ℕ × ℕ) → List WebInstruction → Option (ℕ × ℕ)
allowance a o [] = o
allowance a o (approve_delegate account delegate owner amount ∷ is) =
    allowance a (if account == a then some (delegate, amount) else o) is
allowance a o (revoke_delegate account owner ∷ is) =
    allowance a (if account == a then none else o) is
allowance a o (create_account c ∷ is) = allowance a o is
allowance a o (init_account mint account owner ∷ is) = allowance a o is
allowance a o (close_account account destination owner ∷ is) = allowance a o is
allowance a o (call_program t ∷ is) = allowance a o is

pub allowance-append :
    (a : ℕ) (is js : List WebInstruction) (o : Option (ℕ × ℕ))
    → allowance a o (is ++ js) ≡ allowance a (allowance a o is) js
allowance-append a [] js o = refl
allowance-append a (approve_delegate account delegate owner amount ∷ is) js o =
    allowance-append a is js _
allowance-append a (revoke_delegate account owner ∷ is) js o = allowance-append a is js _
allowance-append a (create_account c ∷ is) js o = allowance-append a is js o
allowance-append a (init_account mint account owner ∷ is) js o = allowance-append a is js o
allowance-append a (close_account account destination owner ∷ is) js o = allowance-append a is js o
allowance-append a (call_program t ∷ is) js o = allowance-append a is js o

-- Instructions that change no allowance.
abbrev pub IsSetup : WebInstruction → Type 0
IsSetup (approve_delegate account delegate owner amount) = ⊥
IsSetup (revoke_delegate account owner) = ⊥
IsSetup _ = Unit

pub allowance-IsSetup :
    (a : ℕ) (o : Option (ℕ × ℕ)) (is : List WebInstruction) (i : WebInstruction)
    → IsSetup i
    → allowance a o (is ++ (i ∷ [])) ≡ allowance a o is
allowance-IsSetup a o is (create_account c) h = allowance-append a is _ o
allowance-IsSetup a o is (init_account mint account owner) h = allowance-append a is _ o
allowance-IsSetup a o is (close_account account destination owner) h = allowance-append a is _ o
allowance-IsSetup a o is (call_program t) h = allowance-append a is _ o
allowance-IsSetup a o is (approve_delegate account delegate owner amount) h = absurd h
allowance-IsSetup a o is (revoke_delegate account owner) h = absurd h

-- A property of the two arrays of instructions that setting up keeps.
pub record IsOpen (R : List WebInstruction → List WebInstruction → Type 0) : Type 0 where
  pub pushed :
      (is cs : List WebInstruction) (i : WebInstruction)
      → IsSetup i
      → R is cs
      → R (is ++ (i ∷ [])) cs
  pub pushed_cleanup :
      (is cs : List WebInstruction) (i : WebInstruction)
      → IsSetup i
      → R is cs
      → R is (cs ++ (i ∷ []))

-- The account lets this delegate take this amount when the instructions are through, and nobody
-- anything when the cleanup is.
abbrev pub IsLent : ℕ → ℕ → ℕ → List WebInstruction → List WebInstruction → Type 0
IsLent account delegate amount is cs =
    (allowance account none is ≡ some (delegate, amount))
    × ((o : Option (ℕ × ℕ)) → allowance account o cs ≡ none)

pub IsLent-IsOpen : (account delegate amount : ℕ) → IsOpen (IsLent account delegate amount)
IsLent-IsOpen account delegate amount = record {
  pushed = λ is cs i q h. (allowance-IsSetup account none is i q ∙ h.0, h.1);
  pushed_cleanup = λ is cs i q h. (h.0, λ o. allowance-IsSetup account o cs i q ∙ h.1 o);
}

module _ (required : WebInstruction → List ℕ) where
  -- Whoever has to sign is the payer or one of these.
  abbrev pub NeedsOnly : ℕ → List ℕ → WebInstruction → Type 0
  NeedsOnly payer signers i = All (λ k. (k ≡ payer) ⊎ Any (λ j. j ≡ k) signers) (required i)

  module _ (n : WebNet) where
    abbrev pub Stage :
        ℕ
        → List WebTransaction
        → (List WebInstruction → List WebInstruction → Type 0)
        → WebSession n
        → Type 0
    Stage payer before R s =
        (s.presented ≡ before)
        × All (NeedsOnly payer s.signers) s.instructions
        × All (NeedsOnly payer s.signers) s.cleanup_instructions
        × R s.instructions s.cleanup_instructions

    module _ (payer : ℕ) (before : List WebTransaction) where
      -- An action that keeps to the stage, and asks the wallet for nothing.
      abbrev pub Stays :
          (R R' : List WebInstruction → List WebInstruction → Type 0) {A : Type 0}
          → UserAction n A
          → Type 0
      Stays R R' m =
          Ensures (Stage payer before R) (λ a s. Stage payer before R' s)
            (λ e s. s.presented ≡ before) m

      module _ (R : List WebInstruction → List WebInstruction → Type 0) where
        pub pure-Stays : {A : Type 0} (a : A) → Stays R R (pure a)
        unfolding pure
        pure-Stays a = record { at = λ s h. h }

        pub lift-Stays : {A : Type 0} (r : Result A) → Stays R R (lift r)
        unfolding lift
        lift-Stays (ok a) = record { at = λ s h. h }
        lift-Stays (err e) = record { at = λ s h. h.0 }

        pub request-Stays : {A : Type 0} (f : n.Net → Reply A × n.Net) → Stays R R (request n f)
        unfolding request settled
        request-Stays {A = A} f = record { at = λ s h. by_reply s h (f s.net) }
          where
            by_reply :
                (s : WebSession n)
                → Stage payer before R s
                → (r : Reply A × n.Net)
                → Ends
                    (λ a s. Stage payer before R s)
                    (λ e s. s.presented ≡ before)
                    (settled r.0, record s { net = r.1; cache = n.meanwhile r.1 s.cache })
            by_reply s h (fulfilled a, n') = h
            by_reply s h (refused, n') = h.0

        pub in_cache-Stays : {A : Type 0} (m : Method A) → Stays R R (in_cache n m)
        unfolding in_cache
        in_cache-Stays {A = A} m = record { at = λ s h. by_result s h (m s.cache) }
          where
            by_result :
                (s : WebSession n)
                → Stage payer before R s
                → (r : Result A × Store)
                → Ends
                    (λ a s. Stage payer before R s)
                    (λ e s. s.presented ≡ before)
                    (r.0, record s { cache = r.1 })
            by_result s h (ok a, c) = h
            by_result s h (err e, c) = h.0

        pub generate-Stays : Stays R R (generate n)
        unfolding generate
        generate-Stays = record { at = λ s h. h }
