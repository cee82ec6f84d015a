-- ===== src/Pool/Signed.antt =====
-- Who signs the transactions of the client (experiment/tenderize.ts).
pub mod Keys
pub mod Methods
pub mod Payments
use marinade_tenderize_from.Prelude.{
  ℕ, ◌≡◌, refl, true, false, List, [], ◌∷◌, ◌++◌, All, All-append, Any,
}
use marinade_tenderize_from.Effect.{Error, Result, ok, err, pure, throw, throw_if, lift, attempt}
use marinade_tenderize_from.Buffer.{◌>>=◌}
use marinade_tenderize_from.Effect.Ensures.{
  Ensures, Ends, Ensures-pure, Ensures-throw, Ensures-bind, Ensures-throw_if, Ensures-attempt,
  Ensures-given,
}
use marinade_tenderize_from.Web3.{
  Web3, Reply, fulfilled, refused, AccountMeta, Transaction, TransactionInstruction, Instruction,
  call, create_account,
}
use marinade_tenderize_from.Pool.Client.{
  Program, Session, Action, settled, account_info, stake_activation, rent_exemption,
  send_and_confirm,
}
use marinade_tenderize_from.Pool.Client.Requests.{Unsent, UnsentError}
use marinade_tenderize_from.Pool.Sending.{send}

-- An account that is marked as a signer is one of these.
abbrev pub IsCoveredKey : {K : Type 0} → List K → AccountMeta K → Type 0
IsCoveredKey signers m = elim m.is_signer [ true ↦ Any (λ j. j ≡ m.pubkey) signers | false ↦ Unit ]

-- The creation of an account is signed by who pays for it and by the account.
abbrev pub IsCovered : {K : Type 0} → List K → Instruction K → Type 0
IsCovered signers (create_account c) =
    Any (λ j. j ≡ c.from_pubkey) signers × Any (λ j. j ≡ c.new_account_pubkey) signers
IsCovered signers (call t) = All (IsCoveredKey signers) t.keys

-- The payer signs first, and whoever an instruction names as a signer signs.
abbrev pub IsSigned : {K : Type 0} → K → Transaction K → Type 0
IsSigned payer t =
    ((others : List _) × (t.signers ≡ payer ∷ others)) × All (IsCovered t.signers) t.instructions

module _ (w : Web3) (payer : w.PublicKey) where
  abbrev pub AllSigned : Session w → Type 0
  AllSigned s = All (IsSigned payer) s.sent

  -- An action that hands only signed transactions to the network.
  abbrev pub Signs : {A : Type 0} → Action w A → Type 0
  Signs m = Ensures AllSigned (λ a s. AllSigned s) (λ e s. AllSigned s) m

  pub pure-Signs : {A : Type 0} (a : A) → Signs (pure a)
  pure-Signs a = Ensures-pure a (λ s h. h)

  pub throw-Signs : {A : Type 0} (e : Error) → Signs {A = A} (throw e)
  throw-Signs e = Ensures-throw e (λ s h. h)

  pub throw_if-Signs : (b : _) (e : Error) → Signs (throw_if b e)
  throw_if-Signs b e = Ensures-throw_if b e (λ q s h. h) (λ q s h. h)

  pub lift-Signs : {A : Type 0} (r : Result A) → Signs (lift r)
  unfolding lift
  lift-Signs (ok a) = record { at = λ s h. h }
  lift-Signs (err e) = record { at = λ s h. h }

  pub attempt-Signs : {A : Type 0} (m : Action w A) → Signs m → Signs (attempt m)
  attempt-Signs m h = Ensures-attempt m h

  pub settled-Signs :
      {A : Type 0} (r : Reply A) (s : Session w)
      → AllSigned s
      → Ends (λ a s. AllSigned s) (λ e s. AllSigned s) (settled r, s)
  unfolding settled
  settled-Signs (fulfilled a) s h = h
  settled-Signs refused s h = h

  pub account_info-Signs : (k : w.PublicKey) → Signs (account_info w k)
  unfolding account_info
  account_info-Signs k = record { at = λ s h. settled-Signs _ _ h }

  pub stake_activation-Signs : (k : w.PublicKey) → Signs (stake_activation w k)
  unfolding stake_activation
  stake_activation-Signs k = record { at = λ s h. settled-Signs _ _ h }

  pub rent_exemption-Signs : (size : ℕ) → Signs (rent_exemption w size)
  unfolding rent_exemption
  rent_exemption-Signs size = record { at = λ s h. settled-Signs _ _ h }

  -- An action that leaves the log of transactions as it is.
  pub quiet-Signs :
      {A : Type 0} (P : Session w → A → Session w → Type 0)
      (Q : Session w → Error → Session w → Type 0) (m : Action w A)
      → ((s : Session w) → Ends (P s) (Q s) (m s))
      → ((s : Session w) (a : A) (s' : Session w) → P s a s' → s'.sent ≡ s.sent)
      → ((s : Session w) (e : Error) (s' : Session w) → Q s e s' → s'.sent ≡ s.sent)
      → Signs m
  quiet-Signs {A = A} P Q m h hp hq = record { at = λ s q. behind s q (m s) (h s) }
    where
      behind :
          (s : Session w)
          → AllSigned s
          → (r : Result A × Session w) → Ends (P s) (Q s) r
          → Ends (λ a s. AllSigned s) (λ e s. AllSigned s) r
      behind s q (ok a, s') p = rw (hp s a s' p) q
      behind s q (err x, s') p = rw (hq s x s' p) q

  pub Unsent-Signs :
      {A : Type 0} (m : Action w A)
      → ((log : List (Transaction w.PublicKey))
          → Ensures (Unsent w log) (λ a s. Unsent w log s) (UnsentError w log) m)
      → Signs m
  Unsent-Signs m h =
      quiet-Signs (λ s a s'. s'.sent ≡ s.sent) (λ s. UnsentError w s.sent) m
        (λ s. (h s.sent).at s refl) (λ s a s' p. p) (λ s e s' p. p.0)

  pub send_and_confirm-Signs :
      (t : Transaction w.PublicKey) → IsSigned payer t → Signs (send_and_confirm w t)
  unfolding send_and_confirm
  send_and_confirm-Signs t h = record {
    at = λ s q. settled-Signs _ _ (All-append _ s.sent (t ∷ []) q (h, tt));
  }

-- What a result has, if it is one.
abbrev pub Holds : {A : Type 0} → (A → Type 0) → Result A → Type 0
Holds Q (ok a) = Q a
Holds Q (err e) = Unit

pub record Yields {A : Type 0} (Q : A → Type 0) (r : Result A) : Type 0 where
  pub holds : Holds Q r

module _ {A : Type 0} where
  pub Yields-ok : {Q : A → Type 0} (a : A) → Q a → Yields Q (ok a)
  Yields-ok a q = record { holds = q }

  module _ {B : Type 0} {Q : B → Type 0} where
    pub Yields-bind :
        {P : A → Type 0} (r : Result A) (f : A → Result B)
        → Yields P r
        → ((a : A) → P a → Yields Q (f a))
        → Yields Q (r >>= f)
    Yields-bind (ok a) f h k = k a h.holds
    Yields-bind (err e) f h k = record { holds = tt }

    -- Nothing is known of what is read on the way.
    pub Yields-then :
        (r : Result A) (f : A → Result B) → ((a : A) → Yields Q (f a)) → Yields Q (r >>= f)
    Yields-then (ok a) f k = k a
    Yields-then (err e) f k = record { holds = tt }

module _ (w : Web3) (prog : Program w) where
  pub lift-Yields :
      {A : Type 0} (Q : A → Type 0) (r : Result A)
      → Yields Q r
      → Ensures
          (AllSigned w prog.payer_account)
          (λ a s. AllSigned w prog.payer_account s × Q a)
          (λ e s. AllSigned w prog.payer_account s)
          (lift r)
  unfolding lift
  lift-Yields Q (ok a) q = record { at = λ s h. (h, q.holds) }
  lift-Yields Q (err e) q = record { at = λ s h. h }

  -- A transaction of one instruction, whose keys the signers cover.
  pub call-Signs :
      (t : TransactionInstruction w.PublicKey) (others : List w.PublicKey)
      → All (IsCoveredKey (prog.payer_account ∷ others)) t.keys
      → Signs w prog.payer_account (
          send_and_confirm w
            (record { instructions = call t ∷ []; signers = prog.payer_account ∷ others }))
  call-Signs t others h = send_and_confirm-Signs w prog.payer_account _ ((others, refl), (h, tt))

  pub send-Signs :
      (built : Result (TransactionInstruction w.PublicKey)) (others : List w.PublicKey)
      → Yields (λ t. All (IsCoveredKey (prog.payer_account ∷ others)) t.keys) built
      → Signs w prog.payer_account (send w prog built (prog.payer_account ∷ others))
  unfolding send
  send-Signs built others h =
      Ensures-bind _ _ _ (lift-Yields _ built h)
        λ ix. Ensures-given _ _ λ covered. call-Signs ix others covered
