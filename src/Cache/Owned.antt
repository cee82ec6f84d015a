-- ===== src/Cache/Owned.antt =====
-- Which accounts selectUserAccounts of src/contexts/accounts.tsx gives.
use marinade_tenderize_from.Prelude.{
  ℕ, ◌≡◌, refl, sym, ap, ◌∙◌, ◌⊎◌, inl, inr, false, Any, Option, none, some, List, [], ◌∷◌, map,
  ◌==◌, if◌then◌else◌, Bool-cases, ==→eq, ==→ne,
}
use marinade_tenderize_from.Effect.{Error, Result, ok, err, pure, lift, ◌>>=◌}
use marinade_tenderize_from.JsMap.{JsMap, get}
use marinade_tenderize_from.Cache.Tokens.{Spl, TokenAccountInfo}
use marinade_tenderize_from.Cache.Store.{
  Store, ParsedAccount, AccountParser, Info, token_info, parsed_mint, buffer_info, other_info,
}
use marinade_tenderize_from.Cache.Methods.{gets, of_parser, by_parser, get_account}
use marinade_tenderize_from.Cache.Users.{get_each, token_of, owned_of, select_user_accounts}

get_each_lem :
    (addresses : List ℕ) (s : Store)
    → get_each addresses s ≡ (ok (map (get s.generic_cache) addresses), s)
unfolding get_each get_account gets pure ◌>>=◌
get_each_lem [] s = refl
get_each_lem (a ∷ addresses) s = rw (get_each_lem addresses s) refl

select_lem :
    (spl : Spl) (owner : ℕ) (s : Store)
    → select_user_accounts spl (some owner) s
      ≡ (owned_of owner (map (get s.generic_cache) (of_parser 0 s.key_to_account_parser)), s)
unfolding select_user_accounts by_parser gets lift ◌>>=◌
select_lem spl owner s = rw (get_each_lem (of_parser 0 s.key_to_account_parser) s) refl

-- A token account of the owner.
abbrev pub IsOwnedBy : ℕ → ParsedAccount → Type 0
IsOwnedBy owner a = (i : TokenAccountInfo) × (a.info ≡ token_info i) × (i.owner ≡ owner)

-- It is cached, at an address with the parser of token accounts, whose identity is 0.
abbrev pub IsCachedIn : Store → ParsedAccount → Type 0
IsCachedIn s a =
    Any (λ e. (get s.generic_cache e.0 ≡ some a) × (e.1.identity ≡ 0)) s.key_to_account_parser

Any-of_parser :
    (P : ℕ → Type 0) (m : JsMap AccountParser)
    → (Any P (of_parser 0 m) → Any (λ e. P e.0 × (e.1.identity ≡ 0)) m)
      × (Any (λ e. P e.0 × (e.1.identity ≡ 0)) m → Any P (of_parser 0 m))
unfolding of_parser
Any-of_parser P [] = ((λ h. h), λ h. h)
Any-of_parser P ((address, p) ∷ m) =
    let (forth, back) = Any-of_parser P m in
    elim (Bool-cases (p.identity == 0)) [
      | inl t ↦
          let same : p.identity ≡ 0 = ==→eq p.identity 0 t in
          rw t (
            elim [ inl h ↦ inl (h, same) | inr h ↦ inr (forth h) ],
            elim [ inl h ↦ inl h.0 | inr h ↦ inr (back h) ],
          )
      | inr t ↦ rw t (
        (λ h. inr (forth h)),
        elim [ inl h ↦ absurd (==→ne p.identity 0 t h.1) | inr h ↦ back h ],
      )
    ]

token_of-ok : (info : Info) (i : TokenAccountInfo) → token_of info ≡ ok i → info ≡ token_info i
unfolding token_of
token_of-ok (token_info j) i e = cc
token_of-ok (parsed_mint m) i e = cc
token_of-ok (buffer_info bs) i e = cc
token_of-ok (other_info bs) i e = cc

-- Of these accounts the ones of the owner were found, and no others.
abbrev IsExact : ℕ → List (Option ParsedAccount) → List ParsedAccount → ParsedAccount → Type 0
IsExact owner os found a =
    (Any (λ x. x ≡ a) found → IsOwnedBy owner a × Any (λ o. o ≡ some a) os)
    × (IsOwnedBy owner a → Any (λ o. o ≡ some a) os → Any (λ x. x ≡ a) found)

taken-IsExact :
    (owner : ℕ) (b : ParsedAccount) (os : List (Option ParsedAccount)) (rest : List ParsedAccount)
    (a : ParsedAccount)
    → IsOwnedBy owner b
    → IsExact owner os rest a
    → IsExact owner (some b ∷ os) (b ∷ rest) a
taken-IsExact owner b os rest a own ih = (forth, back)
  where
    forth : Any (λ x. x ≡ a) (b ∷ rest) → IsOwnedBy owner a × Any (λ o. o ≡ some a) (some b ∷ os)
    forth (inl p) = rw (← p) (own, inl refl)
    forth (inr h) = let (o, q) = ih.0 h in (o, inr q)

    back : IsOwnedBy owner a → Any (λ o. o ≡ some a) (some b ∷ os) → Any (λ x. x ≡ a) (b ∷ rest)
    back o (inl p) = inl cc
    back o (inr h) = inr (ih.1 o h)

left-IsExact :
    (owner : ℕ) (b : ParsedAccount) (os : List (Option ParsedAccount)) (rest : List ParsedAccount)
    (a : ParsedAccount)
    → (b ≡ a → IsOwnedBy owner a → ⊥)
    → IsExact owner os rest a
    → IsExact owner (some b ∷ os) rest a
left-IsExact owner b os rest a not_own ih = (forth, back)
  where
    forth : Any (λ x. x ≡ a) rest → IsOwnedBy owner a × Any (λ o. o ≡ some a) (some b ∷ os)
    forth h = let (o, q) = ih.0 h in (o, inr q)

    same : some b ≡ some a → b ≡ a
    same p = cc

    back : IsOwnedBy owner a → Any (λ o. o ≡ some a) (some b ∷ os) → Any (λ x. x ≡ a) rest
    back o (inl p) = absurd (not_own (same p) o)
    back o (inr h) = ih.1 o h

ok-injective : (xs ys : List ParsedAccount) → ok xs ≡ ok ys → xs ≡ ys
ok-injective xs ys e = cc

owned_of-step :
    (owner : ℕ) (b : ParsedAccount) (os : List (Option ParsedAccount)) (found : List ParsedAccount)
    (a : ParsedAccount) (r : Result TokenAccountInfo) (others : Result (List ParsedAccount))
    → token_of b.info ≡ r
    → ((rest : List ParsedAccount) → others ≡ ok rest → IsExact owner os rest a)
    → elim r as (λ r. Result (List ParsedAccount)) [
      | err e ↦ err e
      | ok i ↦ elim others as (λ r. Result (List ParsedAccount)) [
        | err e ↦ err e
        | ok rest ↦ ok (if i.owner == owner then b ∷ rest else rest)
      ]
    ]
      ≡ ok found
    → IsExact owner (some b ∷ os) found a
owned_of-step owner b os found a (err x) others q ih e = absurd (not_ok x e)
  where
    not_ok : (x : Error) → err x ≡ ok found → ⊥
    not_ok x e = cc
owned_of-step owner b os found a (ok i) (err x) q ih e = absurd (not_ok x e)
  where
    not_ok : (x : Error) → err x ≡ ok found → ⊥
    not_ok x e = cc
owned_of-step owner b os found a (ok i) (ok rest) q ih e =
    let info : b.info ≡ token_info i = token_of-ok b.info i q in
    rw (← (ok-injective _ found e)) (elim (Bool-cases (i.owner == owner)) [
      | inl t ↦
          rw t (taken-IsExact owner b os rest a (i, info, ==→eq i.owner owner t) (ih rest refl))
      | inr t ↦ rw t (left-IsExact owner b os rest a (other_owner info t) (ih rest refl))
    ])
  where
    other_owner : b.info ≡ token_info i → i.owner == owner ≡ false → b ≡ a → IsOwnedBy owner a → ⊥
    other_owner info t p (j, info', own) =
        let same : i ≡ j = injected (sym info ∙ ap (λ c. c.info) p ∙ info') in
        ==→ne i.owner owner t (ap (λ k. k.owner) same ∙ own)
      where
        injected : {j : TokenAccountInfo} → token_info i ≡ token_info j → i ≡ j
        injected e = cc

owned_of-IsExact :
    (owner : ℕ) (os : List (Option ParsedAccount)) (found : List ParsedAccount)
    → owned_of owner os ≡ ok found
    → (a : ParsedAccount) → IsExact owner os found a
unfolding owned_of
owned_of-IsExact owner [] found e a = rw (← (ok-injective [] found e)) ((λ h. absurd h), λ o h. h)
owned_of-IsExact owner (none ∷ os) found e a =
    let (forth, back) = owned_of-IsExact owner os found e a in
    ((λ h. ((forth h).0, inr (forth h).1)), λ o h. back o (there h))
  where
    there : (none ≡ some a) ⊎ Any (λ o. o ≡ some a) os → Any (λ o. o ≡ some a) os
    there (inl p) = cc
    there (inr h) = h
owned_of-IsExact owner (some b ∷ os) found e a =
    owned_of-step owner b os found a (token_of b.info) (owned_of owner os) refl
      (λ rest h. owned_of-IsExact owner os rest h a) e

Any-map :
    (f : ℕ → Option ParsedAccount) (a : ParsedAccount) (ks : List ℕ)
    → (Any (λ o. o ≡ some a) (map f ks) → Any (λ k. f k ≡ some a) ks)
      × (Any (λ k. f k ≡ some a) ks → Any (λ o. o ≡ some a) (map f ks))
Any-map f a [] = ((λ h. h), λ h. h)
Any-map f a (k ∷ ks) =
    let (forth, back) = Any-map f a ks in
    (elim [ inl e ↦ inl e | inr h ↦ inr (forth h) ], elim [ inl e ↦ inl e | inr h ↦ inr (back h) ])

-- Where selectUserAccounts gives accounts for a public key, an account is among them just if it is a
-- token account of this owner, and is cached at an address with the parser of token accounts. The
-- state of the cache stays.
pub select_user_accounts-exact :
    (spl : Spl) (owner : ℕ) (s s' : Store) (found : List ParsedAccount)
    → select_user_accounts spl (some owner) s ≡ (ok found, s')
    → (s' ≡ s)
      × ((a : ParsedAccount)
          → (Any (λ x. x ≡ a) found → IsOwnedBy owner a × IsCachedIn s a)
            × (IsOwnedBy owner a → IsCachedIn s a → Any (λ x. x ≡ a) found))
select_user_accounts-exact spl owner s s' found e =
    let whole = sym (select_lem spl owner s) ∙ e in
    (
      sym (ap (λ r. r.1) whole),
      λ a.
          let (forth, back) = owned_of-IsExact owner _ found (ap (λ r. r.0) whole) a in
          let (cached, listed) =
            Any-map (get s.generic_cache) a (of_parser 0 s.key_to_account_parser) in
          let (registered, parsed) =
            Any-of_parser (λ k. get s.generic_cache k ≡ some a) s.key_to_account_parser in
          (
            (λ h. ((forth h).0, registered (cached (forth h).1))),
            λ o h. back o (listed (parsed h)),
          ),
    )
