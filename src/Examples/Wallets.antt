-- ===== src/Examples/Wallets.antt =====
-- The Ledger wallet of src/wallet-adapters/ledger/index.tsx with devices that have numbers as keys.
use marinade_tenderize_from.Prelude.{ℕ, ◌+◌, ◌≡◌, refl, [], All, Any, true}
use marinade_tenderize_from.Web3.{fulfilled}
use marinade_tenderize_from.Ledger.Adapter.{
  Adapter, signing, new_adapter, awaiting, connect, created, asked, sign_transaction, sign_with,
  signed, without, connects, creates, asks, signs, adds, Runs, done, next,
}
use marinade_tenderize_from.Ledger.Adapter.Released.{IsOfConnect, Runs-IsReleased}
use marinade_tenderize_from.Ledger.Adapter.Phases.{IsKeyOf, IsOwnSignature}
use marinade_tenderize_from.Ledger.Adapter.Orderly.{Runs-IsKeyOf}

abbrev key_of : ℕ → ℕ
key_of t = t + 100

abbrev connecting_adapter : Adapter ℕ ℕ
connecting_adapter = connect key_of (new_adapter key_of)

abbrev opened_adapter : Adapter ℕ ℕ
opened_adapter = created key_of (fulfilled 7) (without key_of [] connecting_adapter)

abbrev connected_adapter : Adapter ℕ ℕ
connected_adapter = asked key_of 7 (fulfilled tt) (without key_of [] opened_adapter)

abbrev signing_adapter : Adapter ℕ ℕ
signing_adapter = awaiting key_of (signing 7) connected_adapter

abbrev signed_adapter : Adapter ℕ ℕ
signed_adapter = signed key_of 7 (fulfilled tt) (without key_of [] signing_adapter)

to_opened : Runs key_of (new_adapter key_of) opened_adapter
unfolding connect awaiting
to_opened = next (next done (connects refl)) (creates 0 [] (fulfilled 7) refl refl)

-- A connection, and a transaction that is signed.
abbrev to_signed : Runs key_of (new_adapter key_of) signed_adapter
unfolding connect awaiting created asked sign_transaction sign_with
to_signed =
    next
      (next
        (next (next (next done (connects refl)) (creates 0 [] (fulfilled 7) refl refl))
          (asks 0 [] 7 (fulfilled tt) refl refl))
        (signs refl))
      (adds 0 [] 7 (fulfilled tt) refl refl)

is_connecting : opened_adapter.connecting ≡ true
unfolding connect awaiting created
is_connecting = refl

Runs-IsReleased_example : Any IsOfConnect opened_adapter.tasks
Runs-IsReleased_example = Runs-IsReleased key_of opened_adapter to_opened is_connecting

Runs-IsKeyOf_example :
    IsKeyOf key_of signed_adapter.public_key signed_adapter.transport
    × All (IsOwnSignature key_of) signed_adapter.signatures
unfolding to_signed
Runs-IsKeyOf_example =
    Runs-IsKeyOf key_of signed_adapter to_signed (((((tt, (refl, refl)), tt), tt), tt), tt)
