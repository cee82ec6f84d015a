-- ===== src/Cache/Heard.antt =====
-- Whose accounts the listener of the token program in src/contexts/accounts.tsx caches, behind
-- precacheUserTokenAccounts.
use marinade_tenderize_from.Prelude.{
  ℕ, ◌≡◌, ◌≢◌, refl, ap, ◌∙◌, ◌⊎◌, inl, inr, true, false, Any, Option, some, List, [], ◌∷◌, ◌++◌,
  arith, length, ◌==◌, ==→eq, ==→ne, Bool-cases,
}
use marinade_tenderize_from.Effect.{Result, ok, err, pure, lift, continue, ◌>>=◌}
use marinade_tenderize_from.Web3.{AccountInfo, Reply}
use marinade_tenderize_from.JsMap.{get, get-set}
use marinade_tenderize_from.Market.Subscriptions.{contains}
use marinade_tenderize_from.Cache.Tokens.{Spl, TokenAccountInfo, deserialize_account}
use marinade_tenderize_from.Cache.Store.{Store, ParsedAccount, token_info, token_account_parser}
use marinade_tenderize_from.Cache.Methods.{
  gets, modify, raise, register_parser, find_parser, settle_pending, store_account, keep_parsed,
  add,
}
use marinade_tenderize_from.Cache.Users.{
  add_owner, add_if, precache_user_token_accounts, program_account_changed,
}

abbrev pub IsAmong : List ℕ → ℕ → Type 0
IsAmong owners o = Any (λ k. k ≡ o) owners

contains-IsAmong : (owners : List ℕ) (o : ℕ) → contains owners o ≡ true → IsAmong owners o
unfolding contains
contains-IsAmong [] o e = absurd (cc e)
contains-IsAmong (k ∷ ks) o e = elim (Bool-cases (k == o)) [
  | inl t ↦ inl (==→eq k o t)
  | inr t ↦ inr (contains-IsAmong ks o (rw t at e))
]

contains-none : (owners : List ℕ) (o : ℕ) → contains owners o ≡ false → IsAmong owners o → ⊥
unfolding contains
contains-none [] o e h = h
contains-none (k ∷ ks) o e h = elim (Bool-cases (k == o)) [
  | inl t ↦ absurd (cc (rw t at e))
  | inr t ↦ elim h [ inl p ↦ ==→ne k o t p | inr q ↦ contains-none ks o (rw t at e) q ]
]

-- Behind the request, the owner and those that were there are precached.
add_owner-cases :
    (owners : List ℕ) (owner o : ℕ)
    → ((contains (add_owner owners owner) o ≡ true) × ((o ≡ owner) ⊎ IsAmong owners o))
      ⊎ ((contains (add_owner owners owner) o ≡ false) × (o ≢ owner) × (IsAmong owners o → ⊥))
unfolding add_owner
add_owner-cases owners owner o = elim (Bool-cases (contains (add_owner owners owner) o)) [
  | inl t ↦ inl (t, from_added (contains-IsAmong _ o t))
  | inr t ↦ inr (t, (λ e. contains-none _ o t (is_added e)), λ h. contains-none _ o t (kept h))
]
  where
    at_end : (ks : List ℕ) → IsAmong (ks ++ (owner ∷ [])) o → (o ≡ owner) ⊎ IsAmong ks o
    at_end [] (inl p) = inl cc
    at_end [] (inr h) = absurd h
    at_end (k ∷ ks) (inl p) = inr (inl p)
    at_end (k ∷ ks) (inr h) = elim (at_end ks h) [ inl p ↦ inl p | inr q ↦ inr (inr q) ]

    in_front : (ks : List ℕ) → IsAmong ks o → IsAmong (ks ++ (owner ∷ [])) o
    in_front [] h = absurd h
    in_front (k ∷ ks) (inl p) = inl p
    in_front (k ∷ ks) (inr h) = inr (in_front ks h)

    last : (ks : List ℕ) → o ≡ owner → IsAmong (ks ++ (owner ∷ [])) o
    last [] e = inl cc
    last (k ∷ ks) e = inr (last ks e)

    from_added : IsAmong (add_owner owners owner) o → (o ≡ owner) ⊎ IsAmong owners o
    from_added h = elim (Bool-cases (contains owners owner)) [
      | inl t ↦ inr (rw (add_owner, t) at h)
      | inr t ↦ at_end owners (rw (add_owner, t) at h)
    ]

    is_added : o ≡ owner → IsAmong (add_owner owners owner) o
    is_added e = elim (Bool-cases (contains owners owner)) [
      | inl t ↦ rw (add_owner, t, e) (contains-IsAmong owners owner t)
      | inr t ↦ rw (add_owner, t) (last owners e)
    ]

    kept : IsAmong owners o → IsAmong (add_owner owners owner) o
    kept h = elim (Bool-cases (contains owners owner)) [
      | inl t ↦ rw (add_owner, t) h
      | inr t ↦ rw (add_owner, t) (in_front owners h)
    ]

module _ (spl : Spl) (address : ℕ) (info : AccountInfo) (i : TokenAccountInfo) where
  module _ (s : Store) where
    added :
        length info.contents == 0 ≡ false
        → deserialize_account spl info.contents ≡ ok i
        → get (add address info (some (token_account_parser spl)) s).1.generic_cache address
          ≡ some (record { pubkey = address; account = info; info = token_info i })
    unfolding add find_parser register_parser settle_pending keep_parsed store_account modify gets
        raise lift pure ◌>>=◌
    added full decoded =
        rw (add, full, token_account_parser, decoded) (get-set s.generic_cache address _)

    behind_add :
        (add_if spl true address info s).1
        ≡ (add address info (some (token_account_parser spl)) s).1
    unfolding add_if pure ◌>>=◌
    behind_add = behind (add address info (some (token_account_parser spl)) s)
      where
        behind :
            (r : Result (Option ParsedAccount) × Store)
            → (continue {S = Store} {B = Unit {0}} r.0 (λ a s. (ok tt, s)) r.1).1 ≡ r.1
        behind (ok a, s) = refl
        behind (err e, s) = refl

  -- Behind a call of precacheUserTokenAccounts for an owner, whatever the node replies to it and
  -- whatever happens to the cache in between, the listener of the token program takes a notification
  -- of an account with data of the right size, which can be decoded: it is cached at its address if
  -- its owner is the one of the call, or one that was precached before, and the account of any other
  -- owner changes nothing.
  pub precached_owner-heard :
      (owner : ℕ) (owners : List ℕ) (reply : Reply (List (ℕ × AccountInfo))) (s s' : Store)
      → length info.contents == 0 ≡ false
      → length info.contents ≡ spl.account_layout_span
      → deserialize_account spl info.contents ≡ ok i
      → (((i.owner ≡ owner) ⊎ IsAmong owners i.owner)
          × (get
                (program_account_changed spl
                  (precache_user_token_accounts spl (some owner) reply owners s).0
                  address
                  info
                  s').1.generic_cache
                address
              ≡ some (record { pubkey = address; account = info; info = token_info i })))
        ⊎ ((i.owner ≢ owner)
            × (IsAmong owners i.owner → ⊥)
            × (program_account_changed spl
                  (precache_user_token_accounts spl (some owner) reply owners s).0
                  address
                  info
                  s'
                ≡ (ok tt, s')))
  unfolding program_account_changed precache_user_token_accounts add_if lift pure ◌>>=◌
  precached_owner-heard owner owners reply s s' full span decoded =
      let right : length info.contents == spl.account_layout_span ≡ true = ground (arith, span) in
      elim (add_owner-cases owners owner i.owner) [
        | inl (known, whose) ↦ inl (
          whose,
          rw (program_account_changed, right, decoded, known)
              (ap (λ t. get t.generic_cache address) (behind_add s') ∙ added s' full decoded),
        )
        | inr (unknown, other, not_there) ↦
            inr (other, not_there, rw (program_account_changed, right, decoded, unknown) refl)
      ]
