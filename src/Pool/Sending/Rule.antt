-- ===== src/Pool/Sending/Rule.antt =====
-- The rule for a method that sends one transaction: what is built is appended to what was sent.
use marinade_tenderize_from.Prelude.{◌≡◌, refl, List, [], ◌∷◌, ◌++◌}
use marinade_tenderize_from.Effect.{Error, Result, ok, err, lift}
use marinade_tenderize_from.Effect.Ensures.{
  Ensures, Ends, Ensures-lift, Ensures-bind, Ensures-given,
}
use marinade_tenderize_from.Web3.{
  Web3, Reply, fulfilled, refused, Transaction, TransactionInstruction, call,
}
use marinade_tenderize_from.Pool.Client.{Program, Session, send_and_confirm, settled}
use marinade_tenderize_from.Pool.Client.Requests.{IsRequestError, MayFail}
use marinade_tenderize_from.Pool.Sending.{send}

module _ (w : Web3) where
  -- a statement about the transactions that were sent, whatever the network is
  abbrev pub On : (List (Transaction w.PublicKey) → Type 0) → Session w → Type 0
  On P s = P s.sent

  abbrev pub Fails : Error → Session w → Type 0
  Fails e s = IsRequestError e

  settled-Fails :
      {A : Type 0} (Q : Session w → Type 0) (r : Reply A) (s : Session w)
      → Q s
      → Ends (λ a s. Q s) Fails (settled r, s)
  unfolding settled
  settled-Fails Q (fulfilled a) s h = h
  settled-Fails Q refused s h = tt

  -- A result is kept with its equation.
  pub lift-given :
      {A : Type 0} (P : List (Transaction w.PublicKey) → Type 0) (r : Result A)
      → MayFail r
      → Ensures (On P) (λ a s. On P s × (r ≡ ok a)) Fails (lift r)
  lift-given P (ok a) f = Ensures-lift (ok a) (λ s h. (h, refl))
  lift-given P (err e) f = Ensures-lift (err e) (λ s h. f)

  pub send_and_confirm-On :
      (P Q : List (Transaction w.PublicKey) → Type 0) (t : Transaction w.PublicKey)
      → ((sent : List (Transaction w.PublicKey)) → P sent → Q (sent ++ (t ∷ [])))
      → Ensures (On P) (λ u s. On Q s) Fails (send_and_confirm w t)
  unfolding send_and_confirm
  send_and_confirm-On P Q t h = record { at = λ s p. settled-Fails (On Q) _ _ (h s.sent p) }

  pub send-On :
      (P Q : List (Transaction w.PublicKey) → Type 0) (prog : Program w)
      (built : Result (TransactionInstruction w.PublicKey)) (signers : List w.PublicKey)
      → MayFail built
      → ((ix : TransactionInstruction w.PublicKey) (sent : List (Transaction w.PublicKey))
          → built ≡ ok ix
          → P sent
          → Q (sent ++ (record { instructions = call ix ∷ []; signers = signers } ∷ [])))
      → Ensures (On P) (λ u s. On Q s) Fails (send w prog built signers)
  unfolding send
  send-On P Q prog built signers f h =
      Ensures-bind (λ ix s. On P s × (built ≡ ok ix)) _ _ (lift-given P built f)
        λ ix.
          Ensures-given (built ≡ ok ix) _ λ e. send_and_confirm-On P Q _ (λ sent p. h ix sent e p)
