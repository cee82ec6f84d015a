-- ===== src/Cache/Sound/Calls.antt =====
-- Every call of the cache of src/contexts/accounts.tsx, and every answer to it, keeps it sound.
use marinade_tenderize_from.Prelude.{
  ℕ, ◌≡◌, refl, sym, ◌∙◌, true, false, not, ◌&&◌, inl, inr, Option, none, some, [], ◌∷◌, ◌++◌,
  arith, length, ◌==◌, Bool-cases,
}
use marinade_tenderize_from.Effect.{web, no_deserializer, Result, ok, err, lift}
use marinade_tenderize_from.Effect.Ensures.{
  Ensures, Ends, Ensures-pure, Ensures-lift, Ensures-bind, Ensures-elim,
}
use marinade_tenderize_from.Web3.{AccountInfo}
use marinade_tenderize_from.JsMap.{get, has, delete, has-delete, has-delete_ne}
use marinade_tenderize_from.Cache.Store.{
  Store, ParsedAccount, AccountParser, cache_deleted, Request,
}
use marinade_tenderize_from.Cache.Methods.{
  modify, find_parser, settle_pending, keep_parsed, add, ask, query, query_mint,
}
use marinade_tenderize_from.Cache.Sound.{
  seen-append, IsSound, Keeps, Has, modify-Keeps, gets-Keeps, register_parser-Has,
  store_account-Keeps,
}

pub lift-Keeps : {A : Type 0} (r : Result A) → Keeps (lift r)
lift-Keeps (ok a) = Ensures-lift (ok a) (λ s h. h)
lift-Keeps (err e) = Ensures-lift (err e) (λ s h. h)

find_parser-Keeps :
    (address : ℕ) (parser : Option AccountParser) → Keeps (find_parser address parser)
unfolding find_parser
find_parser-Keeps address (some parser) = record { at = λ s h. h }
find_parser-Keeps address none = record {
  at = λ s h. found s (get s.key_to_account_parser address) h;
}
  where
    found :
        (s : Store) (o : Option AccountParser)
        → IsSound s
        → Ends {A = AccountParser}
            (λ a s. IsSound s)
            (λ e s. IsSound s)
            (elim o [ none ↦ (err (web no_deserializer), s) | some parser ↦ (ok parser, s) ])
    found s none h = h
    found s (some parser) h = h

-- What was parsed is stored where the address has a parser.
keep_parsed-Keeps :
    (address : ℕ) (parser : AccountParser) (parsed : Option ParsedAccount)
    → Ensures
        (Has address)
        (λ a s. IsSound s)
        (λ e s. IsSound s)
        (keep_parsed address parser parsed)
unfolding keep_parsed
keep_parsed-Keeps address parser none = Ensures-pure none (λ s h. h.0)
keep_parsed-Keeps address parser (some account) =
    Ensures-bind _ _ _ (store_account-Keeps address parser account) λ u. Ensures-pure _ (λ s h. h)

settle_pending-Has :
    (address a : ℕ) → Ensures (Has a) (λ u s. Has a s) (λ e s. IsSound s) (settle_pending address)
unfolding settle_pending modify
settle_pending-Has address a = record {
  at = λ s h. (record { registered = h.0.registered; told = h.0.told }, h.1);
}

lift-Has :
    {A : Type 0} (a : ℕ) (r : Result A)
    → Ensures (Has a) (λ v s. Has a s) (λ e s. IsSound s) (lift r)
lift-Has a (ok v) = Ensures-lift (ok v) (λ s h. h)
lift-Has a (err e) = Ensures-lift (err e) (λ s h. h.0)

pub add-Keeps :
    (address : ℕ) (obj : AccountInfo) (parser : Option AccountParser)
    → Keeps (add address obj parser)
unfolding add
add-Keeps address obj parser =
    Ensures-elim (length obj.contents == 0) _ _ (λ empty. Ensures-pure none (λ s h. h))
      (λ full. Ensures-bind _ _ _ (find_parser-Keeps address parser) λ deserialize.
        Ensures-bind _ _ _ (register_parser-Has address deserialize) λ u.
          Ensures-bind _ _ _ (settle_pending-Has address address) λ u.
            Ensures-bind _ _ _ (lift-Has address (deserialize.parse address obj))
              λ parsed. keep_parsed-Keeps address deserialize parsed)

ask-Keeps : (r : Request) → Keeps (ask r)
unfolding ask
ask-Keeps r = record { at = λ s h. record { registered = h.registered; told = h.told } }

pub query-Keeps : (address : ℕ) (parser : Option AccountParser) → Keeps (query address parser)
unfolding query
query-Keeps address parser = Ensures-bind _ _ _ (gets-Keeps _) (elim [
  | some account ↦ Ensures-pure _ (λ s h. h)
  | none ↦ Ensures-bind _ _ _ (gets-Keeps _) (elim [
    | some promise ↦ Ensures-pure _ (λ s h. h)
    | none ↦ Ensures-bind _ _ _ (ask-Keeps _) λ promise.
        Ensures-bind _ _ _ (modify-Keeps _ (λ s. refl) (λ s. refl) (λ s. refl))
          λ u. Ensures-pure _ (λ s h. h)
  ])
])

pub query_mint-Keeps : (address : ℕ) → Keeps (query_mint address)
unfolding query_mint
query_mint-Keeps address = Ensures-bind _ _ _ (gets-Keeps _) (elim [
  | some mint ↦ Ensures-pure _ (λ s h. h)
  | none ↦ Ensures-bind _ _ _ (gets-Keeps _) (elim [
    | some promise ↦ Ensures-pure _ (λ s h. h)
    | none ↦ Ensures-bind _ _ _ (ask-Keeps _) λ promise.
        Ensures-bind _ _ _ (modify-Keeps _ (λ s. refl) (λ s. refl) (λ s. refl))
          λ u. Ensures-pure _ (λ s h. h)
  ])
])

-- An account that is deleted, and told of.
pub removed :
    (address : ℕ) (s : Store)
    → IsSound s
    → IsSound (record s {
      generic_cache = delete s.generic_cache address;
      events = s.events ++ (cache_deleted address ∷ []);
    })
removed address s h = record {
  registered = λ a c. elim (Bool-cases (address == a)) [
    | inl e ↦ absurd (gone a (ground (arith, e)) c)
    | inr e ↦
        h.registered a
          (sym (has-delete_ne s.generic_cache address a (λ q. ground (arith, q, e))) ∙ c)
  ];
  told = λ a. rw (seen-append a false s.events _, ← (h.told a)) (split a);
}
  where
    gone : (a : ℕ) → address ≡ a → has (delete s.generic_cache address) a ≡ true → ⊥
    gone a q c =
        let none_left = has-delete s.generic_cache address in ground (arith, q, c, none_left)

    split :
        (a : ℕ)
        → has (delete s.generic_cache address) a ≡ (not (address == a) && has s.generic_cache a)
    split a = elim (Bool-cases (address == a)) [
      | inl e ↦
          let q : address ≡ a = ground (arith, e) in
          rw e (rw (← q) (has-delete s.generic_cache address))
      | inr e ↦ rw e (has-delete_ne s.generic_cache address a (λ q. ground (arith, q, e)))
    ]
