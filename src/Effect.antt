-- ===== src/Effect.antt =====
-- Fallible code and asynchronous methods. A thrown exception or a rejected promise is `err`;
-- a method of the client is a function of the session, which comes back beside an error too.
pub mod Ensures
use marinade_tenderize_from.Prelude.{ℕ, Bool, true, false, Option, none, some}

-- What the web application and the command line throw, by its message.
pub data WebError : Type 0 where
  account_not_found no_deserializer mint_not_found not_a_mint not_connected not_enough_funds :
      WebError
  transaction_failed accounts_failed invalid_validator unsafe_number : WebError

pub data Error : Type 0 where
  -- RangeError of a Buffer access, TypeError of a property of null, a cast that is not what it says
  out_of_range null_access bad_cast : Error
  -- a reply of the wallet that is not the one of a part
  unexpected_reply : Error
  -- a promise of the connection that is rejected
  rejected : Error
  -- the errors that the client throws itself
  too_low_delegation no_validator_added : Error
  left : ℕ → Error
  web : WebError → Error

pub data Result {ℓ} (A : Type ℓ) : Type ℓ where
  ok : A → Result A
  err : Error → Result A

abbrev pub M {ℓ κ} : Type ℓ → Type κ → Type (ℓ ⊔ κ)
M S A = S → Result A × S

unfoldable pub caught {ℓ} : {A : Type ℓ} → Result A → Option A
caught (ok a) = some a
caught (err e) = none

module _ {ℓ κ} {S : Type ℓ} {A : Type κ} where
  unfoldable pub pure : A → M S A
  pure a s = (ok a, s)

  unfoldable pub throw : Error → M S A
  throw e s = (err e, s)

  -- code that reads or writes no session
  unfoldable pub lift : Result A → M S A
  lift r s = (r, s)

  -- `try { ... } catch (e) { }`: the value, if there is one
  unfoldable pub attempt : M S A → M S (Option A)
  unfolding caught
  attempt m s = let (r, s') = m s in (ok (caught r), s')

module _ {ℓ κ ι} {S : Type ℓ} {A : Type κ} {B : Type ι} where
  abbrev pub continue : Result A → (A → M S B) → M S B
  continue (ok a) f s = f a s
  continue (err e) f s = (err e, s)

  infixl 5 ◌>>=◌ ◌>>◌
  unfoldable pub ◌>>=◌ : M S A → (A → M S B) → M S B
  unfolding pure throw lift attempt
  ◌>>=◌ m f s = let (r, s') = m s in continue r f s'

  abbrev pub ◌>>◌ : M S A → M S B → M S B
  m >> n = m >>= λ _. n

-- `if (test) throw e`
unfoldable pub throw_if : {S : Type 0} → Bool → Error → M S (Unit {0})
unfolding throw pure
throw_if true e = throw e
throw_if false e = pure tt
