-- ===== src/Pool/Client/Requests.antt =====
-- What every request keeps: a read hands no transaction to the network, and its only errors are
-- those of requests and of reading what they bring.
use marinade_tenderize_from.Prelude.{ℕ, ◌≡◌, refl, List, [], ◌∷◌, arith}
use marinade_tenderize_from.Effect
use marinade_tenderize_from.Effect.{
  Error, out_of_range, null_access, bad_cast, rejected, too_low_delegation, no_validator_added,
  left, Result, ok, err, M,
}
use marinade_tenderize_from.Effect.Ensures.{Ensures, Ends, Ensures-lift}
use marinade_tenderize_from.Buffer.{◌>>=◌, write_uint_le}
use marinade_tenderize_from.Web3.{Web3, Reply, fulfilled, refused, Transaction, StakeActivationData}
use marinade_tenderize_from.Pool.Client.{
  Program, Session, get_stake_for_validator, account_info, stake_activation, settled,
}

-- A rejected promise, a RangeError or a property of null.
abbrev pub IsRequestError : Error → Type 0
IsRequestError out_of_range = Unit
IsRequestError null_access = Unit
IsRequestError rejected = Unit
IsRequestError _ = ⊥

-- A result, or an error of a request.
abbrev pub MayFail : {A : Type 0} → Result A → Type 0
MayFail (ok a) = Unit
MayFail (err e) = IsRequestError e

pub MayFail-bind :
    {A B : Type 0} (r : Result A) (f : A → Result B)
    → MayFail r
    → ((a : A) → MayFail (f a))
    → MayFail (r >>= f)
MayFail-bind (ok a) f h k = k a
MayFail-bind (err e) f h k = h

module _ (w : Web3) (log : List (Transaction w.PublicKey)) where
  abbrev pub Unsent : Session w → Type 0
  Unsent s = s.sent ≡ log

  abbrev pub UnsentError : Error → Session w → Type 0
  UnsentError e s = (s.sent ≡ log) × IsRequestError e

  module _ {A : Type 0} where
    settled-Ends :
        (r : Reply A) (s : Session w)
        → s.sent ≡ log
        → Ends (λ a s. Unsent s) UnsentError (settled r, s)
    unfolding settled
    settled-Ends (fulfilled a) s h = h
    settled-Ends refused s h = (h, tt)

  -- code without requests
  pub lift-Unsent :
      {A : Type 0} {P : A → Type 0} (r : Result A)
      → ((a : A) → r ≡ ok a → P a)
      → MayFail r
      → Ensures Unsent (λ a s. (s.sent ≡ log) × P a) UnsentError (Effect.lift r)
  lift-Unsent (ok a) h f = Ensures-lift (ok a) (λ s u. (u, h a refl))
  lift-Unsent (err e) h f = Ensures-lift (err e) (λ s u. (u, f))

  pub account_info-Unsent :
      (k : w.PublicKey) → Ensures Unsent (λ a s. Unsent s) UnsentError (account_info w k)
  unfolding account_info
  account_info-Unsent k = record { at = λ s h. settled-Ends _ _ h }

  -- under `try` the error is dropped
  pub stake_activation-Unsent :
      (k : w.PublicKey) → Ensures Unsent (λ a s. Unsent s) (λ e s. Unsent s) (stake_activation w k)
  unfolding stake_activation
  stake_activation-Unsent k = record { at = λ s h. kept (settled _) _ h }
    where
      kept :
          (r : Result StakeActivationData) (s : Session w)
          → s.sent ≡ log
          → Ends (λ a s. Unsent s) (λ e s. Unsent s) (r, s)
      kept (ok a) s h = h
      kept (err e) s h = h

  pub lift-keeps :
      {A : Type 0} (r : Result A)
      → MayFail r
      → Ensures Unsent (λ a s. Unsent s) UnsentError (Effect.lift r)
  lift-keeps (ok a) f = Ensures-lift (ok a) (λ s u. u)
  lift-keeps (err e) f = Ensures-lift (err e) (λ s u. (u, f))

pub write_uint_le-MayFail : (width v p : ℕ) (d : List ℕ) → MayFail (write_uint_le width v p d)
unfolding write_uint_le
write_uint_le-MayFail width v p d = ground arith

module _ (w : Web3) (prog : Program w) where
  pub get_stake_for_validator-MayFail :
      (validator : w.PublicKey) (index : ℕ)
      → MayFail (get_stake_for_validator w prog validator index)
  unfolding get_stake_for_validator
  get_stake_for_validator-MayFail validator index =
      ground (arith, write_uint_le-MayFail 4 index 0 (0 ∷ 0 ∷ 0 ∷ 0 ∷ []))
