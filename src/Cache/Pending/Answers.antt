-- ===== src/Cache/Pending/Answers.antt =====
-- The pending calls of the cache of src/contexts/accounts.tsx behind an answer of the network.
use mathlib.Core.Path.{subst}
use marinade_tenderize_from.Prelude.{ℕ, ◌≡◌, sym, ◌∙◌, ◌⊎◌, inl, inr, Option, none, some, arith}
use marinade_tenderize_from.Effect.{Result, ok, err}
use marinade_tenderize_from.Effect.Ensures.{Ends}
use marinade_tenderize_from.JsMap.{get, set, delete, get-set, get-set_ne, get-delete, get-delete_ne}
use marinade_tenderize_from.Cache.Store.{
  Store, ParsedAccount, AccountParser, Request, for_account, Outcome, account_outcome,
}
use marinade_tenderize_from.Cache.Pending.{
  Flight, flight, IsTracked, IsAskedFor, GaveNothing, without, without-IsTracked, eq-cases,
}
use marinade_tenderize_from.Cache.Pending.Still.{Settled}

-- A request is taken off, and its promise settled.
abbrev pub closed : ℕ → Outcome → Flight → Flight
closed p o f = record f { requests = delete f.requests p; outcomes = set f.outcomes p o }

pub closed-IsTracked :
    (p : ℕ) (r : Request) (o : Outcome) (f : Flight)
    → IsTracked f
    → get f.requests p ≡ some r
    → ((a : ℕ) → get f.pending a ≡ some p → GaveNothing (some o))
    → IsTracked (closed p o f)
closed-IsTracked p r o f h e nothing = record {
  tracked = λ a q w.
      let (made, where_to) = h.tracked a q w in
      (
        made,
        elim (eq-cases q p) [
          | inl same ↦ inr (rw (same, get-set f.outcomes p o) (nothing a (rw (← same) w)))
          | inr other ↦
              rw (get-delete_ne f.requests p q other, get-set_ne f.outcomes p q o other) where_to
        ],
      );
  unsettled = λ q r' w. elim (eq-cases q p) [
    | inl same ↦ absurd (gone q r' same w (get-delete f.requests p))
    | inr other ↦
        rw (get-set_ne f.outcomes p q o other)
          (h.unsettled q r' (sym (get-delete_ne f.requests p q other) ∙ w))
  ];
  unmade = λ q b.
      rw (get-set_ne f.outcomes p q o (λ same. omega (arith, same, b, (h.unsettled p r e).0)))
        (h.unmade q b);
}
  where
    gone :
        (q : ℕ) (r' : Request)
        → q ≡ p
        → get (delete f.requests p) q ≡ some r'
        → get (delete f.requests p) p ≡ none
        → ⊥
    gone q r' same w e' = cc

-- A promise that is pending for an address was asked for it, if it is asked for at all.
pub asked :
    (p : ℕ) (r : Request) (a : ℕ) (f : Flight)
    → IsTracked f
    → get f.requests p ≡ some r
    → get f.pending a ≡ some p
    → IsAskedFor a (some r)
asked p r a f h e w = elim ((h.tracked a p w).1) [
  | inl found ↦ subst (IsAskedFor a) e found
  | inr settled ↦ absurd (not_settled (get f.outcomes p) (h.unsettled p r e).1 settled)
]
  where
    not_settled : (o : Option Outcome) → o ≡ none → GaveNothing o → ⊥
    not_settled none e n = n
    not_settled (some o) e n = cc

module _ (f : Flight) (h : IsTracked f) (p address : ℕ) (parser : Option AccountParser)
    (e : get f.requests p ≡ some (for_account address parser)) where
  -- The request is off; the calls are as they were, or the address is no longer pending.
  abbrev pub off : Flight
  off = record f { requests = delete f.requests p }

  pub closed_with :
      (r : Result (Option ParsedAccount)) (g : Flight)
      → GaveNothing (some (account_outcome r))
      → (g ≡ off) ⊎ (g ≡ without address off)
      → IsTracked (record g { outcomes = set g.outcomes p (account_outcome r) })
  closed_with r g n (inl q) =
      rw q (closed-IsTracked p (for_account address parser) (account_outcome r) f h e (λ a w. n))
  closed_with r g n (inr q) = rw q (
      closed-IsTracked p (for_account address parser) (account_outcome r) (without address f)
        (without-IsTracked address f h) e (λ a w. n))

  closed_found :
      (account : ParsedAccount) (g : Flight)
      → g ≡ without address off
      → IsTracked (record g { outcomes = set g.outcomes p (account_outcome (ok (some account))) })
  closed_found account g q = rw q (
      closed-IsTracked p (for_account address parser) (account_outcome (ok (some account)))
        (without address f) (without-IsTracked address f h) e
        (λ a w. absurd (
          other a
            (asked p (for_account address parser) a (without address f)
              (without-IsTracked address f h) e w)
            w (get-delete f.pending address))))
    where
      other :
          (a : ℕ)
          → address ≡ a
          → get (delete f.pending address) a ≡ some p
          → get (delete f.pending address) address ≡ none
          → ⊥
      other a q w e = cc

  pub Settled-IsTracked :
      (r : Result (Option ParsedAccount) × Store)
      → Ends (Settled off address) (λ e s. (flight s ≡ off) ⊎ (flight s ≡ without address off)) r
      → IsTracked (flight (record r.1 { outcomes = set r.1.outcomes p (account_outcome r.0) }))
  Settled-IsTracked (ok none, s) q = closed_with (ok none) (flight s) tt q
  Settled-IsTracked (ok (some account), s) q = closed_found account (flight s) q
  Settled-IsTracked (err x, s) q = closed_with (err x) (flight s) tt q
