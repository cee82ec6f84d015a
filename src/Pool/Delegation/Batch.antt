-- ===== src/Pool/Delegation/Batch.antt =====
-- delegateReserveBatch of experiment/tenderize.ts to its end: what the on-chain program reads from
-- the transactions that were sent.
use marinade_tenderize_from.Prelude.{
  ℕ, ◌+◌, ◌*◌, ◌^◌, ◌<◌, ◌≡◌, refl, sym, ap, ◌∙◌, true, Option, some, List, [], ◌∷◌, ◌++◌, map,
  arith, length, flatten, All, append_assoc, append-nil, ltb, ltb→lt,
}
use marinade_tenderize_from.Effect.{
  Error, out_of_range, null_access, bad_cast, unexpected_reply, web, rejected, too_low_delegation,
  no_validator_added, left, ok,
}
use marinade_tenderize_from.Effect.Ensures.{
  Ensures, Ends, Ensures-pure, Ensures-bind, Ensures-throw_if, Ensures-mono, Ensures-errors,
  Ensures-given,
}
use marinade_tenderize_from.Buffer.{alloc, write_uint_le, le_bytes, of_le}
use marinade_tenderize_from.Buffer.Writes.{lt_of_write_uint_le, chain_gave}
use marinade_tenderize_from.Web3.{
  Web3, ChunkLaws, AccountMeta, Transaction, TransactionInstruction, Instruction, create_account,
  call,
}
use marinade_tenderize_from.OnChain.{
  StakePoolInstruction, DelegateReserveInstruction, delegate_reserve, unpack_vec, deserialize,
}
use marinade_tenderize_from.Pool.Types.{
  ValidatorInfo, DepositReserveValidatorParam, min_stake_account_balance, readonly, writable,
}
use marinade_tenderize_from.Pool.Client.{Program, Session, get_stake_for_validator}
use marinade_tenderize_from.Pool.Client.Requests.{
  IsRequestError, MayFail, MayFail-bind, Unsent, UnsentError, write_uint_le-MayFail,
  get_stake_for_validator-MayFail,
}
use marinade_tenderize_from.Pool.Sending
use marinade_tenderize_from.Pool.Sending.Rule.{On, Fails, send-On}
use marinade_tenderize_from.Pool.Reading.Requests.{read_validators-keeps}
use marinade_tenderize_from.Pool.Batches.{
  delegate_reserve_keys, delegate_reserve_instruction, delegate_entries,
}
use marinade_tenderize_from.Pool.Wire.Delegate.{
  Fits, delegate_view, delegate_reserve_instruction_lem, delegate_reserve_round_trip,
}
use marinade_tenderize_from.Pool.Delegation.{
  send_delegations, plan_delegation, delegate_reserve_batch, share_reserve,
}
use marinade_tenderize_from.Pool.Delegation.Plan.{amounts, amounts-append, share_reserve-Shares}

-- The lamports that the on-chain program reads from delegations, from an instruction and from a
-- list of transactions.
abbrev pub item_amounts : List DelegateReserveInstruction → ℕ
item_amounts [] = 0
item_amounts (i ∷ is) = i.amount + item_amounts is

abbrev pub delegated_by : Option StakePoolInstruction → ℕ
delegated_by (some (delegate_reserve is)) = item_amounts is
delegated_by _ = 0

module _ {K : Type 0} where
  abbrev pub delegated_in : List (Instruction K) → ℕ
  delegated_in [] = 0
  delegated_in (create_account c ∷ is) = delegated_in is
  delegated_in (call ix ∷ is) = delegated_by (deserialize ix.payload) + delegated_in is

  abbrev pub delegated : List (Transaction K) → ℕ
  delegated [] = 0
  delegated (t ∷ ts) = delegated_in t.instructions + delegated ts

  delegated-append :
      (ts us : List (Transaction K)) → delegated (ts ++ us) ≡ delegated ts + delegated us
  delegated-append [] us = omega arith
  delegated-append (t ∷ ts) us = omega (arith, delegated-append ts us)

  item_amounts-map :
      (ds : List (DepositReserveValidatorParam K))
      → item_amounts (map delegate_view ds) ≡ amounts ds
  unfolding amounts
  item_amounts-map [] = refl
  item_amounts-map (d ∷ ds) = omega (arith, item_amounts-map ds)

module _ (w : Web3) (prog : Program w) where
  entries-Fits :
      (vs : List (DepositReserveValidatorParam w.PublicKey)) (p : ℕ) (d : List ℕ)
      (keys : List (AccountMeta w.PublicKey)) {r : List ℕ × List (AccountMeta w.PublicKey)}
      → delegate_entries w prog vs p d keys ≡ ok r
      → All Fits vs
  unfolding delegate_entries
  entries-Fits [] p d keys h = tt
  entries-Fits (v ∷ vs) p d keys h =
      let (r, written, h') = chain_gave (write_uint_le 8 v.amount p d) _ h in
      let (r', written', h'') = chain_gave (write_uint_le 4 v.stake_index r.0 r.1) _ h' in
      let (stake, found, h''') =
        chain_gave (get_stake_for_validator w prog v.address v.stake_index) _ h'' in
      (
        (
          lt_of_write_uint_le 8 v.amount p d r written,
          lt_of_write_uint_le 4 v.stake_index r.0 r.1 r' written',
        ),
        entries-Fits vs _ _ _ h''',
      )

  -- What is built fits its fields.
  built-Fits :
      (vs : List (DepositReserveValidatorParam w.PublicKey))
      {ix : TransactionInstruction w.PublicKey}
      → delegate_reserve_instruction w prog vs ≡ ok ix
      → (length vs < 2 ^ 32) × All Fits vs
  unfolding delegate_reserve_instruction
  built-Fits vs h =
      let (r, written, h') =
        chain_gave (write_uint_le 1 12 0 (alloc (1 + 4 + (8 + 4) * length vs))) _ h in
      let (r', written', h'') = chain_gave (write_uint_le 4 (length vs) r.0 r.1) _ h' in
      let (r'', entries, h''') =
        chain_gave (delegate_entries w prog vs r'.0 r'.1 (delegate_reserve_keys w prog)) _ h'' in
      (lt_of_write_uint_le 4 (length vs) r.0 r.1 r' written', entries-Fits vs r'.0 r'.1 _ entries)

  entries-MayFail :
      (vs : List (DepositReserveValidatorParam w.PublicKey)) (p : ℕ) (d : List ℕ)
      (keys : List (AccountMeta w.PublicKey))
      → MayFail (delegate_entries w prog vs p d keys)
  unfolding delegate_entries
  entries-MayFail [] p d keys = tt
  entries-MayFail (v ∷ vs) p d keys = MayFail-bind _ _ (write_uint_le-MayFail 8 v.amount p d) λ r.
      MayFail-bind _ _ (write_uint_le-MayFail 4 v.stake_index r.0 r.1) λ r'.
        MayFail-bind _ _ (get_stake_for_validator-MayFail w prog v.address v.stake_index)
          λ stake. entries-MayFail vs r'.0 r'.1 (keys ++ (readonly v.address ∷ writable stake ∷ []))

  built-MayFail :
      (vs : List (DepositReserveValidatorParam w.PublicKey))
      → MayFail (delegate_reserve_instruction w prog vs)
  unfolding delegate_reserve_instruction
  built-MayFail vs =
      MayFail-bind _ _ (write_uint_le-MayFail 1 12 0 (alloc (1 + 4 + (8 + 4) * length vs))) λ r.
        MayFail-bind _ _ (write_uint_le-MayFail 4 (length vs) r.0 r.1)
          λ r'. MayFail-bind _ _ (entries-MayFail vs r'.0 r'.1 _) λ r''. tt

  built-injective : {a b : TransactionInstruction w.PublicKey} → (ok a) ≡ (ok b) → a ≡ b
  built-injective h = cc

  -- What the program reads from an instruction that was built.
  delegated_by-built :
      (vs : List (DepositReserveValidatorParam w.PublicKey))
      (ix : TransactionInstruction w.PublicKey)
      → delegate_reserve_instruction w prog vs ≡ ok ix
      → delegated_by (deserialize ix.payload) ≡ amounts vs
  unfolding deserialize unpack_vec le_bytes of_le amounts
  delegated_by-built [] ix h =
      let same : _ ≡ ix =
        built-injective (sym (delegate_reserve_instruction_lem w prog [] (omega arith) tt) ∙ h) in
      rw (← same) refl
  delegated_by-built (v ∷ vs) ix h =
      let (fits, all) = built-Fits (v ∷ vs) h in
      let (ix', made, read, keys) =
        delegate_reserve_round_trip w prog (v ∷ vs) (omega arith) fits all in
      let same : ix' ≡ ix = built-injective (sym made ∙ h) in
      rw (← same, read) (item_amounts-map (v ∷ vs))

-- The errors of a delegation: an amount below the minimal balance, no validator, or a request.
abbrev pub IsDelegationError : ℕ → Error → Type 0
IsDelegationError total too_low_delegation = total < min_stake_account_balance
IsDelegationError total no_validator_added = Unit
IsDelegationError total e = IsRequestError e

request-error : (total : ℕ) (e : Error) → IsRequestError e → IsDelegationError total e
request-error total out_of_range h = tt
request-error total null_access h = tt
request-error total rejected h = tt
request-error total bad_cast h = h
request-error total unexpected_reply h = h
request-error total too_low_delegation h = absurd h
request-error total no_validator_added h = tt
request-error total (left n) h = h
request-error total (web e) h = h

module _ (w : Web3) (prog : Program w) (log : List (Transaction w.PublicKey)) where
  -- Behind `log` there are transactions that delegate `n` lamports.
  abbrev pub Delegated : ℕ → List (Transaction w.PublicKey) → Type 0
  Delegated n sent = (ts : List (Transaction w.PublicKey)) × (sent ≡ log ++ ts) × (delegated ts ≡ n)

  delegate_reserve-Delegated :
      (n : ℕ) (vs : List (DepositReserveValidatorParam w.PublicKey))
      → Ensures
          (On w (Delegated n))
          (λ u s. On w (Delegated (n + amounts vs)) s)
          (Fails w)
          (Sending.delegate_reserve w prog vs)
  unfolding Sending.delegate_reserve
  delegate_reserve-Delegated n vs =
      send-On w (Delegated n) (Delegated (n + amounts vs)) prog _ _ (built-MayFail w prog vs)
        λ ix sent made h.
          let t : Transaction w.PublicKey = record {
            instructions = call ix ∷ [];
            signers = prog.payer_account ∷ prog.owner ∷ [];
          } in
          (
            h.0 ++ (t ∷ []),
            rw h.1 (append_assoc log h.0 (t ∷ [])),
            omega (arith, delegated-append h.0 (t ∷ []), h.2, delegated_by-built w prog vs ix made),
          )

  send_delegations-Delegated :
      (n : ℕ) (cs : List (List (DepositReserveValidatorParam w.PublicKey)))
      → Ensures
          (On w (Delegated n))
          (λ u s. On w (Delegated (n + amounts (flatten cs))) s)
          (Fails w)
          (send_delegations w prog cs)
  unfolding send_delegations
  send_delegations-Delegated n [] =
      Ensures-pure tt (λ s h. (h.0, h.1, unfold amounts in omega (arith, h.2)))
  send_delegations-Delegated n (c ∷ cs) = Ensures-bind _ _ _ (delegate_reserve-Delegated n c) λ u.
      Ensures-mono _ (λ u s. On w (Delegated (n + amounts c + amounts (flatten cs))) s) _ (λ s h. h)
        (λ u s h. (h.0, h.1, omega (arith, h.2, amounts-append c (flatten cs))))
        (send_delegations-Delegated (n + amounts c) cs)

  share_reserve-Plans :
      (total : ℕ) (vs : List (ValidatorInfo w.PublicKey))
      → Ensures
          (Unsent w log)
          (λ out s. (s.sent ≡ log) × (amounts out ≡ total))
          (λ e s. (s.sent ≡ log) × IsDelegationError total e)
          (share_reserve w prog total vs)
  unfolding share_reserve
  share_reserve-Plans total [] =
      Ensures-bind (λ u s. ⊥) _ _
        (Ensures-throw_if true no_validator_added (λ e s h. (h, tt)) (λ e s h. cc))
        λ u. record { at = λ s h. absurd h }
  share_reserve-Plans total (v ∷ vs) =
      Ensures-errors (UnsentError w log) _ (λ e s h. (h.0, request-error total e h.1))
        (Ensures-mono _ _ _ (λ s h. h) (λ out s h. (h.0, h.1.0))
          (share_reserve-Shares w prog log total (v ∷ vs) (omega arith)))

  plan_delegation-Plans :
      (total : ℕ)
      → Ensures
          (Unsent w log)
          (λ out s. (s.sent ≡ log) × (amounts out ≡ total))
          (λ e s. (s.sent ≡ log) × IsDelegationError total e)
          (plan_delegation w prog total)
  unfolding plan_delegation
  plan_delegation-Plans total =
      Ensures-bind (λ u s. Unsent w log s) _ _
        (Ensures-throw_if (ltb total min_stake_account_balance) too_low_delegation
          (λ e s h. (h, ltb→lt total min_stake_account_balance e)) (λ e s h. h))
        λ u.
          Ensures-bind (λ vs s. Unsent w log s) _ _
            (Ensures-errors (UnsentError w log) _ (λ e s h. (h.0, request-error total e h.1))
              (read_validators-keeps w prog log))
            λ vs. share_reserve-Plans total vs

  delegate_reserve_batch-Delegated :
      ChunkLaws w
      → (total : ℕ)
      → Ensures
          (Unsent w log)
          (λ u s. On w (Delegated total) s)
          (λ e s. IsDelegationError total e)
          (delegate_reserve_batch w prog total)
  unfolding delegate_reserve_batch
  delegate_reserve_batch-Delegated laws total =
      Ensures-bind _ _ _ (Ensures-errors _ _ (λ e s h. h.1) (plan_delegation-Plans total)) λ out.
        let cs = w.chunk (DepositReserveValidatorParam w.PublicKey) out 4 in
        let whole : flatten cs ≡ out = laws.flatten-chunk _ out 4 (omega arith) in
        Ensures-given (amounts out ≡ total) _ λ sum.
          Ensures-errors (Fails w) _ (λ e s h. request-error total e h)
            (Ensures-mono (On w (Delegated 0))
              (λ u s. On w (Delegated (0 + amounts (flatten cs))) s) _
              (λ s h. ([], h ∙ sym (append-nil log), refl))
              (λ u s h. (h.0, h.1, omega (arith, h.2, ap amounts whole)))
              (send_delegations-Delegated 0 cs))

module _ (w : Web3) (prog : Program w) where
  -- In every session, whatever the network replies: the plan for an amount holds exactly that
  -- amount, or it is an error: an amount below the minimal balance, no validator, or a failing
  -- request. An amount left over is none of them. No transaction is sent.
  pub plan_delegation-total :
      (total : ℕ) (s : Session w)
      → Ends
          (λ out s'. (s'.sent ≡ s.sent) × (amounts out ≡ total))
          (λ e s'. (s'.sent ≡ s.sent) × IsDelegationError total e)
          (plan_delegation w prog total s)
  plan_delegation-total total s = (plan_delegation-Plans w prog s.sent total).at s refl

  -- In every session: where chunks hold the items in order, a delegation of an amount that returns
  -- has sent transactions from which the on-chain program reads delegations of exactly that amount,
  -- in all. If it throws, then for an amount below the minimal balance, for want of a validator, or
  -- because a request failed.
  pub delegate_reserve_batch-total :
      ChunkLaws w
      → (total : ℕ) (s : Session w)
      → Ends
          (λ u s'.
            (ts : List (Transaction w.PublicKey)) × (s'.sent ≡ s.sent ++ ts)
            × (delegated ts ≡ total))
          (λ e s'. IsDelegationError total e)
          (delegate_reserve_batch w prog total s)
  delegate_reserve_batch-total laws total s =
      (delegate_reserve_batch-Delegated w prog s.sent laws total).at s refl
