-- ===== src/Actions/Prepared.antt =====
-- What src/actions/account.ts and approve fill the arrays of an action with.
use marinade_tenderize_from.Prelude.{
  ℕ, ◌≡◌, refl, Bool, true, false, ◌⊎◌, inl, inr, Any, All, All-append, Any-left, Any-right, Option,
  none, some, List, [], ◌∷◌, ◌++◌, arith, ◌==◌,
}
use marinade_tenderize_from.Effect.{pure, ◌>>=◌}
use marinade_tenderize_from.Effect.Ensures.{Ensures, Ends, Ensures-bind, Ensures-elim, Ensures-pure}
use marinade_tenderize_from.Cache.Tokens.{Spl}
use marinade_tenderize_from.Cache.Store.{ParsedAccount}
use marinade_tenderize_from.Web.Builders.{Ids}
use marinade_tenderize_from.Actions.Wallet.{
  WebInstruction, init_account, close_account, approve_delegate, revoke_delegate, WebTransaction,
  WebNet, WebSession, push, push_cleanup, push_cleanup_if, push_signer, generate,
}
use marinade_tenderize_from.Actions.Accounts.{
  TokenAccount, create_signing_account, approve, create_uninitialized_account, ensure_spl_account,
  create_token_account, create_by_mint, usable, found_or_created, find_or_create_account_by_mint,
}
use marinade_tenderize_from.Actions.Stage.{
  SignerLaws, allowance, allowance-append, IsSetup, IsOpen, IsLent, NeedsOnly, Stage, Stays,
  pure-Stays, lift-Stays, in_cache-Stays, generate-Stays,
}

-- The account lets the delegate take the amount.
abbrev IsGranted : ℕ → ℕ → ℕ → List WebInstruction → List WebInstruction → Type 0
IsGranted account delegate amount is cs = allowance account none is ≡ some (delegate, amount)

module _ (required : WebInstruction → List ℕ) (laws : SignerLaws required) (n : WebNet) (payer : ℕ)
    (before : List WebTransaction) where
  -- One signer more does no harm.
  more_signers :
      (ks others : List ℕ) (k : ℕ)
      → All (λ a. (a ≡ payer) ⊎ Any (λ j. j ≡ a) ks) others
      → All (λ a. (a ≡ payer) ⊎ Any (λ j. j ≡ a) (ks ++ (k ∷ []))) others
  more_signers ks [] k h = tt
  more_signers ks (a ∷ others) k (inl e, h) = (inl e, more_signers ks others k h)
  more_signers ks (a ∷ others) k (inr q, h) =
      (inr (Any-left _ ks (k ∷ []) q), more_signers ks others k h)

  NeedsOnly-more :
      (ks : List ℕ) (k : ℕ) (is : List WebInstruction)
      → All (NeedsOnly required payer ks) is
      → All (NeedsOnly required payer (ks ++ (k ∷ []))) is
  NeedsOnly-more ks k [] h = tt
  NeedsOnly-more ks k (i ∷ is) (h, hs) =
      (more_signers ks (required i) k h, NeedsOnly-more ks k is hs)

  -- The instruction needs no signer but the payer.
  abbrev pub IsPayers : WebInstruction → Type 0
  IsPayers i = (ks : List ℕ) → NeedsOnly required payer ks i

  init-IsPayers : (mint account owner : ℕ) → IsPayers (init_account mint account owner)
  init-IsPayers mint account owner ks = rw (laws.inits mint account owner) tt

  close-IsPayers : (account destination : ℕ) → IsPayers (close_account account destination payer)
  close-IsPayers account destination ks = rw (laws.closes account destination payer) (inl refl, tt)

  pub push-Stays :
      (R R' : List WebInstruction → List WebInstruction → Type 0) (i : WebInstruction)
      → IsPayers i
      → ((is cs : List WebInstruction) → R is cs → R' (is ++ (i ∷ [])) cs)
      → Stays required n payer before R R' (push n i)
  unfolding push
  push-Stays R R' i needs f = record { at = λ s h. pushed s h }
    where
      pushed :
          (s : WebSession n)
          → Stage required n payer before R s
          → Stage required n payer before R'
              (record s { instructions = s.instructions ++ (i ∷ []) })
      pushed s (e, h, h', r) =
          (e, All-append _ s.instructions (i ∷ []) h (needs s.signers, tt), h', f _ _ r)

  push_cleanup-Stays :
      (R R' : List WebInstruction → List WebInstruction → Type 0) (i : WebInstruction)
      → IsPayers i
      → ((is cs : List WebInstruction) → R is cs → R' is (cs ++ (i ∷ [])))
      → Stays required n payer before R R' (push_cleanup n i)
  unfolding push_cleanup
  push_cleanup-Stays R R' i needs f = record { at = λ s h. pushed s h }
    where
      pushed :
          (s : WebSession n)
          → Stage required n payer before R s
          → Stage required n payer before R'
              (record s { cleanup_instructions = s.cleanup_instructions ++ (i ∷ []) })
      pushed s (e, h, h', r) =
          (e, h, All-append _ s.cleanup_instructions (i ∷ []) h' (needs s.signers, tt), f _ _ r)

  -- approve lends the account, and takes care that nobody has it afterwards.
  pub approve-Stays :
      (ids : Ids ℕ) (R : List WebInstruction → List WebInstruction → Type 0)
      (account amount delegate : ℕ)
      → Stays required n payer before R
          (IsLent account delegate amount)
          (approve n ids account payer amount true (some delegate))
  unfolding approve push_cleanup_if
  approve-Stays ids R account amount delegate =
      Ensures-bind _ _ _ (generate-Stays required n payer before R) λ authority.
        Ensures-bind _ _ _ (push-Stays R (IsGranted account delegate amount) _ approves lends) λ u.
          Ensures-bind _ _ _
            (push_cleanup-Stays (IsGranted account delegate amount) _ _ revokes takes_back)
            λ u. pure-Stays required n payer before _ authority
    where
      approves : IsPayers (approve_delegate account delegate payer amount)
      approves ks = rw (laws.approves account delegate payer amount) (inl refl, tt)

      revokes : IsPayers (revoke_delegate account payer)
      revokes ks = rw (laws.revokes account payer) (inl refl, tt)

      itself : account == account ≡ true
      itself = ground arith

      lends :
          (is cs : List WebInstruction)
          → R is cs
          → IsGranted account delegate amount
              (is ++ (approve_delegate account delegate payer amount ∷ []))
              cs
      lends is cs r = rw (allowance-append account is _ none, itself) refl

      takes_back :
          (is cs : List WebInstruction)
          → IsGranted account delegate amount is cs
          → IsLent account delegate amount is (cs ++ (revoke_delegate account payer ∷ []))
      takes_back is cs r = (r, λ o. rw (allowance-append account cs _ o, itself) refl)

  -- Setting up keeps every open property of the arrays.
  module _ (ids : Ids ℕ) (spl : Spl) (R : List WebInstruction → List WebInstruction → Type 0)
      (open_r : IsOpen R) where
    create_signing_account-Stays :
        (lamports space owner : ℕ)
        → Stays required n payer before R R
            (create_signing_account n ids payer lamports space owner)
    unfolding create_signing_account generate push push_signer pure ◌>>=◌
    create_signing_account-Stays lamports space owner = record { at = λ s h. created s h }
      where
        created :
            (s : WebSession n)
            → Stage required n payer before R s
            → Ends
                (λ a s. Stage required n payer before R s)
                (λ e s. s.presented ≡ before)
                (create_signing_account n ids payer lamports space owner s)
        created s (e, h, h', r) =
            let k = n.new_account s.made in
            (
              e,
              All-append _ s.instructions _ (NeedsOnly-more s.signers k s.instructions h) (
                rw (laws.creates _)
                    (inl refl, (inr (Any-right _ s.signers (k ∷ []) (inl refl)), tt)),
                tt,
              ),
              NeedsOnly-more s.signers k s.cleanup_instructions h',
              open_r.pushed s.instructions s.cleanup_instructions _ tt r,
            )

    setup-Stays :
        (i : WebInstruction) → IsSetup i → IsPayers i → Stays required n payer before R R (push n i)
    setup-Stays i q needs = push-Stays R R i needs (λ is cs r. open_r.pushed is cs i q r)

    setup_cleanup-Stays :
        (i : WebInstruction)
        → IsSetup i
        → IsPayers i
        → Stays required n payer before R R (push_cleanup n i)
    setup_cleanup-Stays i q needs =
        push_cleanup-Stays R R i needs (λ is cs r. open_r.pushed_cleanup is cs i q r)

    setup_cleanup_if-Stays :
        (b : Bool) (i : WebInstruction)
        → IsSetup i
        → IsPayers i
        → Stays required n payer before R R (push_cleanup_if n b i)
    unfolding push_cleanup_if
    setup_cleanup_if-Stays true i q needs = setup_cleanup-Stays i q needs
    setup_cleanup_if-Stays false i q needs = pure-Stays required n payer before R tt

    -- An account that is not native is used as it is.
    pub ensure_spl_account-Stays :
        (to_check : TokenAccount) (amount : ℕ)
        → Ensures
            (Stage required n payer before R)
            (λ a s.
              Stage required n payer before R s
              × (to_check.info.is_native ≡ false → a ≡ to_check.pubkey))
            (λ e s. s.presented ≡ before)
            (ensure_spl_account n ids spl to_check payer amount)
    unfolding ensure_spl_account create_uninitialized_account
    ensure_spl_account-Stays to_check amount =
        Ensures-elim to_check.info.is_native _ _
          (λ e. Ensures-bind _ _ _ (create_signing_account-Stays amount _ _) λ account.
            Ensures-bind _ _ _ (setup-Stays _ tt (init-IsPayers ids.wrapped_sol_mint account payer))
              λ u.
                Ensures-bind _ _ _ (setup_cleanup-Stays _ tt (close-IsPayers account payer))
                  λ u. Ensures-pure account (λ s h. (h, λ q. cc)))
          (λ e. Ensures-pure to_check.pubkey (λ s h. (h, λ q. refl)))

    create_by_mint-Stays :
        (owner account_rent_exempt mint : ℕ)
        → Stays required n payer before R R
            (create_by_mint n ids spl payer owner account_rent_exempt mint)
    unfolding create_by_mint create_token_account create_uninitialized_account
    create_by_mint-Stays owner account_rent_exempt mint =
        Ensures-bind _ _ _
          (Ensures-bind _ _ _ (create_signing_account-Stays account_rent_exempt _ _) λ account.
            Ensures-bind _ _ _ (setup-Stays _ tt (init-IsPayers mint account owner))
              λ u. pure-Stays required n payer before R account)
          λ account.
            Ensures-bind _ _ _ (setup_cleanup_if-Stays _ _ tt (close-IsPayers account payer))
              λ u. pure-Stays required n payer before R account

    found_or_created-Stays :
        (owner account_rent_exempt mint : ℕ) (o : Option ParsedAccount)
        → Stays required n payer before R R
            (found_or_created n ids spl payer owner account_rent_exempt mint o)
    unfolding found_or_created
    found_or_created-Stays owner account_rent_exempt mint (some account) =
        pure-Stays required n payer before R account.pubkey
    found_or_created-Stays owner account_rent_exempt mint none =
        create_by_mint-Stays owner account_rent_exempt mint

    pub find_or_create_account_by_mint-Stays :
        (owner account_rent_exempt mint : ℕ) (excluded : Option (List ℕ))
        → Stays required n payer before R R
            (find_or_create_account_by_mint n ids spl payer owner account_rent_exempt mint excluded)
    unfolding find_or_create_account_by_mint
    find_or_create_account_by_mint-Stays owner account_rent_exempt mint excluded =
        Ensures-bind _ _ _ (in_cache-Stays required n payer before R _) λ addresses.
          Ensures-bind _ _ _ (in_cache-Stays required n payer before R _) λ accounts.
            Ensures-bind _ _ _ (lift-Stays required n payer before R _) λ account.
              found_or_created-Stays owner account_rent_exempt mint (usable n ids spl mint account)
