-- ===== src/Cache/Pending/Still.antt =====
-- What the methods of the cache of src/contexts/accounts.tsx do to the calls on their way.
use marinade_tenderize_from.Prelude.{
  ℕ, ◌≡◌, ◌<◌, refl, ap, ◌∙◌, ◌⊎◌, inl, inr, Option, none, some, arith, length, ◌==◌,
}
use marinade_tenderize_from.Effect.{Result, ok, err, web, no_deserializer, lift}
use marinade_tenderize_from.Effect.Ensures.{
  Ensures, Ends, Ensures-pure, Ensures-lift, Ensures-bind, Ensures-elim, Ensures-mono,
  Ensures-errors,
}
use marinade_tenderize_from.Web3.{AccountInfo}
use marinade_tenderize_from.JsMap.{get, get-set}
use marinade_tenderize_from.Cache.Store.{
  Store, Method, ParsedAccount, AccountParser, Event, Request, for_account,
}
use marinade_tenderize_from.Cache.Methods.{
  modify, gets, raise, register_parser, find_parser, settle_pending, store_account, keep_parsed,
  add, ask, query,
}
use marinade_tenderize_from.Cache.Pending.{
  Flight, flight, IsTracked, without, with_request-IsTracked, with_pending-IsTracked,
}

-- The method leaves the calls on their way as they are.
abbrev pub Still : {A : Type 0} → Flight → Method A → Type 0
Still f m = Ensures (λ s. flight s ≡ f) (λ a s. flight s ≡ f) (λ e s. flight s ≡ f) m

pub modify-Still :
    (f : Flight) (g : Store → Store) → ((s : Store) → flight (g s) ≡ flight s) → Still f (modify g)
unfolding modify
modify-Still f g h = record { at = λ s e. h s ∙ e }

pub gets-Still : {A : Type 0} (f : Flight) (g : Store → A) → Still f (gets g)
unfolding gets
gets-Still f g = record { at = λ s e. e }

pub lift-Still : {A : Type 0} (f : Flight) (r : Result A) → Still f (lift r)
lift-Still f (ok a) = Ensures-lift (ok a) (λ s h. h)
lift-Still f (err e) = Ensures-lift (err e) (λ s h. h)

pub raise-Still : (f : Flight) (e : Event) → Still f (raise e)
unfolding raise
raise-Still f e = modify-Still f _ (λ s. refl)

pub register_parser-Still :
    (f : Flight) (address : ℕ) (parser : AccountParser) → Still f (register_parser address parser)
unfolding register_parser
register_parser-Still f address parser = modify-Still f _ (λ s. refl)

find_parser-Still :
    (f : Flight) (address : ℕ) (parser : Option AccountParser)
    → Still f (find_parser address parser)
unfolding find_parser
find_parser-Still f address (some parser) = record { at = λ s h. h }
find_parser-Still f address none = record {
  at = λ s h. found s (get s.key_to_account_parser address) h;
}
  where
    found :
        (s : Store) (o : Option AccountParser)
        → flight s ≡ f
        → Ends {A = AccountParser}
            (λ a s. flight s ≡ f)
            (λ e s. flight s ≡ f)
            (elim o [ none ↦ (err (web no_deserializer), s) | some parser ↦ (ok parser, s) ])
    found s none h = h
    found s (some parser) h = h

store_account-Still :
    (f : Flight) (address : ℕ) (parser : AccountParser) (account : ParsedAccount)
    → Still f (store_account address parser account)
unfolding store_account
store_account-Still f address parser account =
    Ensures-bind _ _ _ (gets-Still f _)
      λ known. Ensures-bind _ _ _ (modify-Still f _ (λ s. refl)) λ u. raise-Still f _

-- What was parsed is what comes back, beside the same calls.
keep_parsed-Still :
    (f : Flight) (address : ℕ) (parser : AccountParser) (parsed : Option ParsedAccount)
    → Still f (keep_parsed address parser parsed)
unfolding keep_parsed
keep_parsed-Still f address parser none = Ensures-pure none (λ s h. h)
keep_parsed-Still f address parser (some account) =
    Ensures-bind _ _ _ (store_account-Still f address parser account) λ u. Ensures-pure _ (λ s h. h)

settle_pending-without :
    (f : Flight) (address : ℕ)
    → Ensures
        (λ s. flight s ≡ f)
        (λ u s. flight s ≡ without address f)
        (λ e s. ⊥)
        (settle_pending address)
unfolding settle_pending modify
settle_pending-without f address = record { at = λ s e. ap (without address) e }

-- With an account, its address is no longer pending; without one, or with an error, it may be.
abbrev pub Settled : Flight → ℕ → Option ParsedAccount → Store → Type 0
Settled f address (some account) s = flight s ≡ without address f
Settled f address none s = (flight s ≡ f) ⊎ (flight s ≡ without address f)

Settled-any :
    (f : Flight) (address : ℕ) (o : Option ParsedAccount) (s : Store)
    → flight s ≡ without address f
    → Settled f address o s
Settled-any f address (some account) s h = h
Settled-any f address none s h = inr h

pub add-Settled :
    (f : Flight) (address : ℕ) (obj : AccountInfo) (parser : Option AccountParser)
    → Ensures
        (λ s. flight s ≡ f)
        (Settled f address)
        (λ e s. (flight s ≡ f) ⊎ (flight s ≡ without address f))
        (add address obj parser)
unfolding add
add-Settled f address obj parser =
    Ensures-elim (length obj.contents == 0) _ _ (λ empty. Ensures-pure none (λ s h. inl h))
      (λ full.
        Ensures-bind _ _ _
          (Ensures-errors _ _ (λ e s h. inl h) (find_parser-Still f address parser))
          λ deserialize.
            Ensures-bind _ _ _
              (Ensures-errors _ _ (λ e s h. inl h) (register_parser-Still f address deserialize))
              λ u.
                Ensures-bind _ _ _
                  (Ensures-errors _ _ (λ e s h. absurd h) (settle_pending-without f address))
                  λ u.
                    Ensures-bind _ _ _
                      (Ensures-errors _ _ (λ e s h. inr h) (lift-Still (without address f) _))
                      λ parsed.
                        Ensures-errors _ _ (λ e s h. inr h)
                          (Ensures-mono _ _ _ (λ s h. h) (Settled-any f address)
                            (keep_parsed-Still (without address f) address deserialize parsed)))

-- The calls on their way are tracked, behind a method that leaves them.
abbrev pub Tracks : {A : Type 0} → Method A → Type 0
Tracks m =
    Ensures (λ s. IsTracked (flight s)) (λ a s. IsTracked (flight s)) (λ e s. IsTracked (flight s))
      m

pub Still-Tracks : {A : Type 0} (m : Method A) → ((f : Flight) → Still f m) → Tracks m
Still-Tracks {A = A} m h = record {
  at = λ s t. behind (flight s) (m s) t ((h (flight s)).at s refl);
}
  where
    behind :
        (f : Flight) (r : Result A × Store)
        → IsTracked f
        → Ends (λ a s. flight s ≡ f) (λ e s. flight s ≡ f) r
        → Ends (λ a s. IsTracked (flight s)) (λ e s. IsTracked (flight s)) r
    behind f (ok a, s) t e = rw e t
    behind f (err x, s) t e = rw e t

-- A request is made, and its promise comes back.
pub ask-Tracks :
    (r : Request)
    → Ensures
        (λ s. IsTracked (flight s))
        (λ promise s.
          IsTracked (flight s) × (promise < s.next_promise) × (get s.requests promise ≡ some r))
        (λ e s. IsTracked (flight s))
        (ask r)
unfolding ask
ask-Tracks r = record {
  at = λ s t.
      (with_request-IsTracked r (flight s) t, omega arith, get-set s.requests s.next_promise r);
}

pub query-Tracks : (address : ℕ) (parser : Option AccountParser) → Tracks (query address parser)
unfolding query modify
query-Tracks address parser = Ensures-bind _ _ _ (Still-Tracks _ (λ f. gets-Still f _)) (elim [
  | some account ↦ Ensures-pure _ (λ s h. h)
  | none ↦ Ensures-bind _ _ _ (Still-Tracks _ (λ f. gets-Still f _)) (elim [
    | some promise ↦ Ensures-pure _ (λ s h. h)
    | none ↦ Ensures-bind _ _ _ (ask-Tracks (for_account address parser)) λ promise.
        Ensures-bind (λ u s. IsTracked (flight s)) _ _
          (record {
            at = λ s h. with_pending-IsTracked address promise (flight s) h.0 h.1 (rw h.2 refl);
          })
          λ u. Ensures-pure _ (λ s h. h)
  ])
])
