-- ===== src/Cache/Pending.antt =====
-- The pending calls of the cache of src/contexts/accounts.tsx: what has become of each.
pub mod Still
pub mod Answers
pub mod Reachable
use marinade_tenderize_from.Prelude.{
  ℕ, suc, ◌+◌, ◌≡◌, ◌≢◌, ◌<◌, ◌≤◌, refl, sym, ap, ◌∙◌, ◌⊎◌, inl, inr, Bool, true, false, Option,
  none, some, arith, ◌==◌, Bool-cases, ==→eq, ==→ne,
}
use marinade_tenderize_from.Effect.{Result, ok, err}
use marinade_tenderize_from.JsMap.{
  JsMap, get, set, delete, get-set, get-set_ne, get-delete, get-delete_ne,
}
use marinade_tenderize_from.Cache.Store.{
  Store, AccountParser, Request, for_account, for_mint, Outcome, account_outcome, mint_outcome,
}

-- The part of the state that is about calls on their way.
pub record Flight : Type 0 where
  pub pending : JsMap ℕ
  pub requests : JsMap Request
  pub outcomes : JsMap Outcome
  pub next_promise : ℕ

abbrev pub flight : Store → Flight
flight s = record {
  pending = s.pending_calls;
  requests = s.requests;
  outcomes = s.outcomes;
  next_promise = s.next_promise;
}

-- The promise was settled, and with no account.
abbrev pub GaveNothing : Option Outcome → Type 0
GaveNothing (some (account_outcome (ok none))) = Unit
GaveNothing (some (account_outcome (err e))) = Unit
GaveNothing _ = ⊥

abbrev pub IsAskedFor : ℕ → Option Request → Type 0
IsAskedFor address (some (for_account a parser)) = a ≡ address
IsAskedFor address _ = ⊥

-- Each pending call is on its way for its address, or gave nothing; a request on its way is not
-- settled, and no promise is settled before it is made.
pub record IsTracked (f : Flight) : Type 0 where
  pub tracked :
      (a p : ℕ)
      → get f.pending a ≡ some p
      → (p < f.next_promise) × (IsAskedFor a (get f.requests p) ⊎ GaveNothing (get f.outcomes p))
  pub unsettled :
      (p : ℕ) (r : Request)
      → get f.requests p ≡ some r
      → (p < f.next_promise) × (get f.outcomes p ≡ none)
  pub unmade : (p : ℕ) → f.next_promise ≤ p → get f.outcomes p ≡ none

pub eq-cases : (a b : ℕ) → (a ≡ b) ⊎ (a ≢ b)
eq-cases a b = elim (Bool-cases (a == b)) [ inl e ↦ inl (==→eq a b e) | inr e ↦ inr (==→ne a b e) ]

-- A call that is no longer pending.
abbrev pub without : ℕ → Flight → Flight
without address f = record f { pending = delete f.pending address }

pub without-IsTracked : (address : ℕ) (f : Flight) → IsTracked f → IsTracked (without address f)
without-IsTracked address f h = record {
  tracked = λ a p e. elim (eq-cases a address) [
    | inl q ↦ let gone = get-delete f.pending address in absurd (absent a p q e gone)
    | inr q ↦ h.tracked a p (sym (get-delete_ne f.pending address a q) ∙ e)
  ];
  unsettled = h.unsettled;
  unmade = h.unmade;
}
  where
    absent :
        (a p : ℕ)
        → a ≡ address
        → get (delete f.pending address) a ≡ some p
        → get (delete f.pending address) address ≡ none
        → ⊥
    absent a p q e gone = cc

-- A new request; for an account, its promise is pending.
abbrev pub with_request : Request → Flight → Flight
with_request r f = record f {
  requests = set f.requests f.next_promise r;
  next_promise = suc f.next_promise;
}

pub with_request-IsTracked : (r : Request) (f : Flight) → IsTracked f → IsTracked (with_request r f)
with_request-IsTracked r f h = record {
  tracked = λ a p e.
      let (made, where_to) = h.tracked a p e in
      (
        omega (arith, made),
        rw (get-set_ne f.requests f.next_promise p r (λ q. omega (arith, q, made))) where_to,
      );
  unsettled = λ p r' e. elim (eq-cases p f.next_promise) [
    | inl q ↦ (omega (arith, q), h.unmade p (omega (arith, q)))
    | inr q ↦
        let (made, open_yet) =
          h.unsettled p r' (sym (get-set_ne f.requests f.next_promise p r q) ∙ e) in
        (omega (arith, made), open_yet)
  ];
  unmade = λ p b. h.unmade p (omega (arith, b));
}

abbrev pub with_pending : ℕ → ℕ → Flight → Flight
with_pending address promise f = record f { pending = set f.pending address promise }

pub with_pending-IsTracked :
    (address promise : ℕ) (f : Flight)
    → IsTracked f
    → promise < f.next_promise
    → IsAskedFor address (get f.requests promise)
    → IsTracked (with_pending address promise f)
with_pending-IsTracked address promise f h made asked = record {
  tracked = λ a p e. elim (eq-cases a address) [
    | inl q ↦
        let same : promise ≡ p = hits a p q e (get-set f.pending address promise) in
        rw (q, ← same) (made, inl asked)
    | inr q ↦ h.tracked a p (sym (get-set_ne f.pending address a promise q) ∙ e)
  ];
  unsettled = h.unsettled;
  unmade = h.unmade;
}
  where
    hits :
        (a p : ℕ)
        → a ≡ address
        → get (set f.pending address promise) a ≡ some p
        → get (set f.pending address promise) address ≡ some promise
        → promise ≡ p
    hits a p q e e' = cc
