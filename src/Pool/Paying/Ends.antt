-- ===== src/Pool/Paying/Ends.antt =====
-- The loop of payAllCreditors of experiment/tenderize.ts ends while nobody adds a creditor.
use marinade_tenderize_from.Prelude.{
  ℕ, zero, suc, ◌≤◌, ◌<◌, ◌≡◌, refl, true, List, arith, length, ltb, ◌==◌,
}
use marinade_tenderize_from.Effect.{ok}
use marinade_tenderize_from.Effect.Ensures.{
  Ensures, Ends, Ensures-pure, Ensures-bind, Ensures-elim, Ensures-from, Ensures-run,
}
use marinade_tenderize_from.Web3.{Web3}
use marinade_tenderize_from.Pool.Types.{Creditor}
use marinade_tenderize_from.Pool.Client.{Program, Session}
use marinade_tenderize_from.Pool.Reading.{read_creditors}
use marinade_tenderize_from.Pool.Sending.{pay_creditors}
use marinade_tenderize_from.Pool.Paying.{pay_loop, pay_all_creditors}

module _ (w : Web3) (prog : Program w) where
  -- The list that is read behind a payment is no longer than the one that was read before it.
  pub record NoNewCreditors : Type 0 where
    pub never_longer :
        (s₀ s₁ s₂ s₃ : Session w) (cs cs' : List (Creditor w.PublicKey))
        → read_creditors w prog s₀ ≡ (ok cs, s₁)
        → pay_creditors w prog 30 s₁ ≡ (ok tt, s₂)
        → read_creditors w prog s₂ ≡ (ok cs', s₃)
        → length cs' ≤ length cs

  module _ (calm : NoNewCreditors) where
    pay_loop-ends :
        (fuel : ℕ) (cs : List (Creditor w.PublicKey)) (s₀ s₁ : Session w)
        → length cs < fuel
        → read_creditors w prog s₀ ≡ (ok cs, s₁)
        → Ensures (λ s. s ≡ s₁) (λ ended s. ended ≡ true) (λ e s. Unit) (pay_loop w prog fuel cs)
    unfolding pay_loop
    pay_loop-ends zero cs s₀ s₁ h e = absurd (omega arith)
    pay_loop-ends (suc fuel) cs s₀ s₁ h e =
        Ensures-elim (ltb 0 (length cs)) _ _
          (λ some_left. Ensures-bind _ _ _ (Ensures-run (pay_creditors w prog 30) s₁) λ u.
            Ensures-from _ λ s₂ paid.
              Ensures-bind _ _ _ (Ensures-run (read_creditors w prog) s₂) λ cs'.
                Ensures-from _ λ s₃ again.
                  let shorter = calm.never_longer s₀ s₁ s₂ s₃ cs cs' e paid again in
                  Ensures-elim (length cs' == length cs) _ _
                    (λ same. Ensures-pure true (λ s h. refl))
                    (λ other. pay_loop-ends fuel cs' s₂ s₃ (ground arith) again))
          (λ none_left. Ensures-pure true (λ s h. refl))

    pay_all_creditors_rule :
        Ensures (λ s. Unit) (λ ended s. ended ≡ true) (λ e s. Unit) (pay_all_creditors w prog)
    unfolding pay_all_creditors
    pay_all_creditors_rule = Ensures-from _ λ s₀ h.
        Ensures-bind _ _ _ (Ensures-run (read_creditors w prog) s₀)
          λ cs. Ensures-from _ λ s₁ e. pay_loop-ends (suc (length cs)) cs s₀ s₁ (omega arith) e

-- While nobody adds a creditor, in every session, the loop ends by its own tests unless a request
-- fails: a round for each creditor, and one more, is enough.
pub pay_all_creditors-Ends :
    (w : Web3) (prog : Program w)
    → NoNewCreditors w prog
    → (s : Session w) → Ends (λ ended s'. ended ≡ true) (λ e s'. Unit) (pay_all_creditors w prog s)
pay_all_creditors-Ends w prog calm s = (pay_all_creditors_rule w prog calm).at s tt
