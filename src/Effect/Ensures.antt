-- ===== src/Effect/Ensures.antt =====
-- Partial and total correctness of actions: a precondition on the session, a postcondition for a
-- result and one for an error, with a rule for each way to build an action.
use marinade_tenderize_from.Prelude.{
  ◌≡◌, refl, Bool, true, false, Option, none, some, if◌then◌else◌,
}
use marinade_tenderize_from.Effect.{
  Error, Result, ok, err, M, pure, throw, throw_if, lift, caught, attempt, ◌>>=◌, continue,
}

module _ {ℓ} {S A : Type ℓ} where
  abbrev pub Ends : (A → S → Type ℓ) → (Error → S → Type ℓ) → Result A × S → Type ℓ
  Ends Post Exc (ok a, s) = Post a s
  Ends Post Exc (err e, s) = Exc e s

  pub record Ensures (Pre : S → Type ℓ) (Post : A → S → Type ℓ) (Exc : Error → S → Type ℓ)
      (m : M S A) : Type ℓ where
    pub at : (s : S) → Pre s → Ends Post Exc (m s)

module _ {ℓ} {S A : Type ℓ} {Pre : S → Type ℓ} {Post : A → S → Type ℓ}
    {Exc : Error → S → Type ℓ} where
  pub Ensures-pure : (a : A) → ((s : S) → Pre s → Post a s) → Ensures Pre Post Exc (pure a)
  unfolding pure
  Ensures-pure a h = record { at = h }

  pub Ensures-throw : (e : Error) → ((s : S) → Pre s → Exc e s) → Ensures Pre Post Exc (throw e)
  unfolding throw
  Ensures-throw e h = record { at = h }

  pub Ensures-lift :
      (r : Result A) → ((s : S) → Pre s → Ends Post Exc (r, s)) → Ensures Pre Post Exc (lift r)
  unfolding lift
  Ensures-lift r h = record { at = h }

  pub Ensures-if :
      (b : Bool) (m n : M S A)
      → (b ≡ true → Ensures Pre Post Exc m)
      → (b ≡ false → Ensures Pre Post Exc n)
      → Ensures Pre Post Exc (if b then m else n)
  Ensures-if true m n hm hn = hm refl
  Ensures-if false m n hm hn = hn refl

  -- the same split where the branches wait
  pub Ensures-elim :
      (b : Bool) (m n : M S A)
      → (b ≡ true → Ensures Pre Post Exc m)
      → (b ≡ false → Ensures Pre Post Exc n)
      → Ensures Pre Post Exc (elim b [ true ↦ m | false ↦ n ])
  Ensures-elim true m n hm hn = hm refl
  Ensures-elim false m n hm hn = hn refl

  -- A fact of the precondition that is not about the session.
  pub Ensures-given :
      (P : Type ℓ) (m : M S A) → (P → Ensures Pre Post Exc m) → Ensures (λ s. Pre s × P) Post Exc m
  Ensures-given P m f = record { at = λ s h. (f h.1).at s h.0 }

  -- A weaker precondition and a stronger postcondition will do.
  pub Ensures-mono :
      (Pre' : S → Type ℓ) (Post' : A → S → Type ℓ) (m : M S A)
      → ((s : S) → Pre s → Pre' s)
      → ((a : A) (s : S) → Post' a s → Post a s)
      → Ensures Pre' Post' Exc m
      → Ensures Pre Post Exc m
  Ensures-mono Pre' Post' m hp hq hm = record { at = λ s p. weaken (m s) (hm.at s (hp s p)) }
    where
      weaken : (r : Result A × S) → Ends Post' Exc r → Ends Post Exc r
      weaken (ok a, s) h = hq a s h
      weaken (err e, s) h = h

module _ {ℓ} {S A : Type ℓ} {Pre : S → Type ℓ} {Post : A → S → Type ℓ}
    {Exc : Error → S → Type ℓ} where
  -- Errors of fewer kinds will do.
  pub Ensures-errors :
      (Exc' : Error → S → Type ℓ) (m : M S A)
      → ((e : Error) (s : S) → Exc' e s → Exc e s)
      → Ensures Pre Post Exc' m
      → Ensures Pre Post Exc m
  Ensures-errors Exc' m hx hm = record { at = λ s p. weaken (m s) (hm.at s p) }
    where
      weaken : (r : Result A × S) → Ends Post Exc' r → Ends Post Exc r
      weaken (ok a, s) h = h
      weaken (err e, s) h = hx e s h

module _ {ℓ} {S A B : Type ℓ} {Pre : S → Type ℓ} {Post : B → S → Type ℓ}
    {Exc : Error → S → Type ℓ} where
  pub Ensures-bind :
      (Mid : A → S → Type ℓ) (m : M S A) (f : A → M S B)
      → Ensures Pre Mid Exc m
      → ((a : A) → Ensures (Mid a) Post Exc (f a))
      → Ensures Pre Post Exc (m >>= f)
  unfolding ◌>>=◌
  Ensures-bind Mid m f hm hf = record { at = λ s p. step (m s) (hm.at s p) }
    where
      step : (r : Result A × S) → Ends Mid Exc r → Ends Post Exc (continue r.0 f r.1)
      step (ok a, s) h = (hf a).at s h
      step (err e, s) h = h

module _ {ℓ} {S A : Type ℓ} {Pre : S → Type ℓ} {Post : Option A → S → Type ℓ}
    {Exc : Error → S → Type ℓ} where
  -- what is thrown under `try` is an absent value
  pub Ensures-attempt :
      (m : M S A)
      → Ensures Pre (λ a s. Post (some a) s) (λ e s. Post none s) m
      → Ensures Pre Post Exc (attempt m)
  unfolding attempt caught
  Ensures-attempt m hm = record { at = λ s p. step (m s) (hm.at s p) }
    where
      step :
          (r : Result A × S)
          → Ends (λ a s. Post (some a) s) (λ e s. Post none s) r
          → Ends Post Exc (ok (caught r.0), r.1)
      step (ok a, s) h = h
      step (err e, s) h = h

module _ {S : Type 0} {Pre : S → Type 0} {Post : Unit {0} → S → Type 0}
    {Exc : Error → S → Type 0} where
  -- behind the test it is known to have failed
  pub Ensures-throw_if :
      (b : Bool) (e : Error)
      → (b ≡ true → (s : S) → Pre s → Exc e s)
      → (b ≡ false → (s : S) → Pre s → Post tt s)
      → Ensures Pre Post Exc (throw_if b e)
  unfolding throw_if
  Ensures-throw_if true e hx hp = record { at = hx refl }
  Ensures-throw_if false e hx hp = record { at = hp refl }

module _ {ℓ} {S A : Type ℓ} where
  -- A proof for each session that the action may start in.
  pub Ensures-from :
      {Pre : S → Type ℓ} {Post : A → S → Type ℓ} {Exc : Error → S → Type ℓ} (m : M S A)
      → ((s₁ : S) → Pre s₁ → Ensures (λ s. s ≡ s₁) Post Exc m)
      → Ensures Pre Post Exc m
  Ensures-from m h = record { at = λ s p. (h s p).at s refl }

  -- What the action does in a session, as it stands.
  pub Ensures-run :
      (m : M S A) (s₁ : S) → Ensures (λ s. s ≡ s₁) (λ a s. m s₁ ≡ (ok a, s)) (λ e s. Unit) m
  Ensures-run m s₁ = record { at = λ s e. rw e (outcome (m s₁) refl) }
    where
      outcome : (r : Result A × S) → m s₁ ≡ r → Ends (λ a s. m s₁ ≡ (ok a, s)) (λ e s. Unit {ℓ}) r
      outcome (ok a, s) h = h
      outcome (err e, s) h = tt
