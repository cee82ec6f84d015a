-- ===== src/Ledger/Adapter/Stranded.antt =====
-- What a `disconnect` between a call of the Ledger wallet and the device's reply leads to
-- (src/wallet-adapters/ledger/index.tsx).
use marinade_tenderize_from.Prelude.{◌≡◌, refl, sym, Option, none, some, List, ◌∷◌}
use marinade_tenderize_from.Web3.{fulfilled}
use marinade_tenderize_from.Ledger.Adapter.{
  Task, user, asking, closing, Adapter, awaiting, disconnect_from, disconnect, returned, sign_with,
  sign_transaction, asked, closed, without, disconnects, asks, closes, Runs, done, next,
}

module _ {K T : Type 0} (key_of : T → K) where
  -- A key is shown, and nothing can be signed with it.
  abbrev pub IsStranded : T → Adapter K T → Type 0
  IsStranded t a =
      (a.public_key ≡ some (key_of t)) × (a.transport ≡ none) × (sign_transaction key_of a ≡ none)

  disconnect_some :
      (o : Option T) (t : T) (a : Adapter K T)
      → o ≡ some t
      → disconnect_from key_of o user a ≡ awaiting key_of (closing user) a
  unfolding disconnect_from
  disconnect_some none t a e = absurd (cc e)
  disconnect_some (some t') t a e = refl

  -- After a `disconnect` and its close() while the key is asked for, the key that comes in stays, and
  -- nothing can be signed with it.
  pub Runs-IsStranded :
      (a : Adapter K T) (t : T) (rest : List (Task T))
      → a.tasks ≡ asking t ∷ rest
      → a.transport ≡ some t
      → (d : Adapter K T) × Runs key_of a d × IsStranded t d
  unfolding disconnect awaiting closed returned asked sign_transaction sign_with
  Runs-IsStranded a t rest tasks transport =
      let b : Adapter K T = awaiting key_of (closing user) a in
      let c : Adapter K T = closed key_of user (fulfilled tt) (without key_of a.tasks b) in
      let d : Adapter K T = asked key_of t (fulfilled tt) (without key_of rest c) in
      (
        d,
        next
            (next (next done (disconnects (sym (disconnect_some a.transport t a transport))))
              (closes 0 a.tasks user (fulfilled tt) refl refl))
            (asks 0 rest t (fulfilled tt) (rw tasks refl) refl),
        (refl, refl, refl),
      )
