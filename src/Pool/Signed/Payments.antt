-- ===== src/Pool/Signed/Payments.antt =====
-- The payment of creditors (payCreditors and payAllCreditors of experiment/tenderize.ts) by who signs
-- what is sent.
use marinade_tenderize_from.Prelude.{
  ℕ, zero, suc, Bool, true, false, if◌then◌else◌, List, [], ◌∷◌, All, leb, ltb, ◌||◌, length, ◌==◌,
}
use marinade_tenderize_from.Effect.Ensures.{
  Ensures, Ensures-bind, Ensures-pure, Ensures-given, Ensures-elim,
}
use marinade_tenderize_from.Web3.{Web3}
use marinade_tenderize_from.Pool.Types.{Creditor, writable}
use marinade_tenderize_from.Pool.Client.{Program, Action}
use marinade_tenderize_from.Pool.Sending.{creditor_keys, pay_creditors_instruction, pay_creditors}
use marinade_tenderize_from.Pool.Paying.{pay_loop, pay_all_creditors}
use marinade_tenderize_from.Pool.Signed.{
  IsCoveredKey, AllSigned, Signs, pure-Signs, lift-Signs, call-Signs,
}
use marinade_tenderize_from.Pool.Signed.Keys.{payer}
use marinade_tenderize_from.Pool.Signed.Methods.{
  read_state-Signs, read_creditors-Signs, required-Signs,
}

-- either all of these, or none
All-if :
    {A : Type 0} (P : A → Type 0) (b : Bool) (xs : List A) → All P xs → All P (if b then xs else [])
All-if P true xs h = h
All-if P false xs h = tt

module _ (w : Web3) (prog : Program w) where
  abbrev Sgn : {A : Type 0} → Action w A → Type 0
  Sgn m = Signs w prog.payer_account m

  -- The accounts of the creditors sign nothing.
  creditor_keys-Covers :
      (signers : List w.PublicKey) (max_count i : ℕ) (cs : List (Creditor w.PublicKey))
      → All (IsCoveredKey signers) (creditor_keys w prog max_count i cs)
  unfolding creditor_keys
  creditor_keys-Covers signers max_count i [] = tt
  creditor_keys-Covers signers max_count i (c ∷ cs) =
      All-if (IsCoveredKey signers) (leb max_count 0 || ltb i max_count)
        (writable c.target ∷ creditor_keys w prog max_count (suc i) cs)
        (tt, creditor_keys-Covers signers max_count (suc i) cs)

  pay_creditors_instruction-Covers :
      (max_count : ℕ)
      → Ensures
          (AllSigned w prog.payer_account)
          (λ ix s. AllSigned w prog.payer_account s × All (IsCoveredKey (payer w prog)) ix.keys)
          (λ e s. AllSigned w prog.payer_account s)
          (pay_creditors_instruction w prog max_count)
  unfolding pay_creditors_instruction
  pay_creditors_instruction-Covers max_count =
      Ensures-bind _ _ _ (lift-Signs w prog.payer_account _) λ d.
        Ensures-bind _ _ _ (read_state-Signs w prog) λ found.
          Ensures-bind _ _ _ (required-Signs w prog found) λ state.
            Ensures-bind _ _ _ (read_creditors-Signs w prog) λ creditors. Ensures-pure _ λ s signed.
              (
                signed,
                (
                  tt,
                  (
                    tt,
                    (
                      tt,
                      (
                        tt,
                        (
                          tt,
                          (
                            tt,
                            (
                              tt,
                              (
                                tt,
                                (
                                  tt,
                                  (tt, creditor_keys-Covers (payer w prog) max_count 0 creditors),
                                ),
                              ),
                            ),
                          ),
                        ),
                      ),
                    ),
                  ),
                ),
              )

  pay_creditors-Signs : (max_count : ℕ) → Sgn (pay_creditors w prog max_count)
  unfolding pay_creditors
  pay_creditors-Signs max_count =
      Ensures-bind _ _ _ (pay_creditors_instruction-Covers max_count)
        λ ix. Ensures-given _ _ λ covered. call-Signs w prog ix [] covered

  pay_loop-Signs : (fuel : ℕ) (cs : List (Creditor w.PublicKey)) → Sgn (pay_loop w prog fuel cs)
  unfolding pay_loop
  pay_loop-Signs zero cs = pure-Signs w prog.payer_account false
  pay_loop-Signs (suc fuel) cs =
      Ensures-elim (ltb 0 (length cs)) _ _
        (λ some_left. Ensures-bind _ _ _ (pay_creditors-Signs 30) λ u.
          Ensures-bind _ _ _ (read_creditors-Signs w prog) λ cs'.
            Ensures-elim (length cs' == length cs) _ _
              (λ none_paid. pure-Signs w prog.payer_account true)
              (λ some_paid. pay_loop-Signs fuel cs'))
        (λ none_left. pure-Signs w prog.payer_account true)

  pub pay_all_creditors-Signs : Sgn (pay_all_creditors w prog)
  unfolding pay_all_creditors
  pay_all_creditors-Signs =
      Ensures-bind _ _ _ (read_creditors-Signs w prog) λ cs. pay_loop-Signs (suc (length cs)) cs
