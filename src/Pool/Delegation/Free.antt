-- ===== src/Pool/Delegation/Free.antt =====
-- The free index that delegateReserveBatch and unstake of experiment/tenderize.ts look for among the
-- stakes of a validator.
use marinade_tenderize_from.Prelude.{
  ℕ, zero, suc, ◌+◌, ◌<◌, ◌≡◌, refl, true, false, Bool-cases, Option, none, some, ◌⊎◌, inl, inr,
  List, arith, if◌then◌else◌, ◌==◌, ==→eq, ==→ne,
}
use mathlib.Core.Path.{subst}
use marinade_tenderize_from.Effect.{ok}
use marinade_tenderize_from.Effect.Ensures.{
  Ensures, Ends, Ensures-pure, Ensures-bind, Ensures-given,
}
use marinade_tenderize_from.Web3.{Web3, Transaction, AccountInfo, Reply, fulfilled, refused}
use marinade_tenderize_from.Pool.Client.{
  Program, Session, settled, account_info, get_stake_for_validator,
}
use marinade_tenderize_from.Pool.Client.Requests.{
  Unsent, UnsentError, lift-Unsent, get_stake_for_validator-MayFail,
}
use marinade_tenderize_from.Pool.Delegation.{is_free, find_free}

-- There is no account, or its owner passes the comparison with the system program; or it does not.
abbrev pub IsVacant : Option AccountInfo → Type 0
IsVacant none = Unit
IsVacant (some account) = account.owner_is_system ≡ true

abbrev pub IsOccupied : Option AccountInfo → Type 0
IsOccupied none = ⊥
IsOccupied (some account) = account.owner_is_system ≡ false

is_free-IsVacant : (o : Option AccountInfo) → is_free o ≡ true → IsVacant o
unfolding is_free
is_free-IsVacant none e = tt
is_free-IsVacant (some account) e = e

is_free-IsOccupied : (o : Option AccountInfo) → is_free o ≡ false → IsOccupied o
unfolding is_free
is_free-IsOccupied none e = cc
is_free-IsOccupied (some account) e = e

module _ (w : Web3) (prog : Program w) (validator : w.PublicKey) where
  -- The network replied this of the account at the address of the validator's stake `index`.
  abbrev pub Replied : (Option AccountInfo → Type 0) → ℕ → Type 0
  Replied P index =
      (address : w.PublicKey) × (net : w.Net) × (o : Option AccountInfo) × (get_stake_for_validator
          w prog validator index
        ≡ ok address)
      × ((w.get_account_info address net).0 ≡ fulfilled o)
      × P o

  -- The last vacant one of the stakes below `index`, or `count` if none is vacant.
  abbrev pub IsLastVacant : ℕ → ℕ → ℕ → Type 0
  IsLastVacant count index found =
      ((found ≡ count) ⊎ ((found < index) × Replied IsVacant found))
      × ((j : ℕ) → j < index → (found ≡ count) ⊎ (found < j) → Replied IsOccupied j)

  IsLastVacant-next :
      (count index found : ℕ) (o : Option AccountInfo)
      → index < count
      → IsLastVacant count index found
      → ((P : Option AccountInfo → Type 0) → P o → Replied P index)
      → IsLastVacant count (suc index) (if is_free o then index else found)
  IsLastVacant-next count index found o below (where_, taken) said = elim (Bool-cases (is_free o)) [
    | inl e ↦ rw e (
      inr (omega arith, said IsVacant (is_free-IsVacant o e)),
      λ j h later. absurd (none_later j h later),
    )
    | inr e ↦ rw e (
      elim where_ [ inl h ↦ inl h | inr (h, v) ↦ inr (omega (arith, h), v) ],
      λ j h later. elim (Bool-cases (j == index)) [
        | inl same ↦ rw (==→eq j index same) (said IsOccupied (is_free-IsOccupied o e))
        | inr other ↦ taken j (before j h other) later
      ],
    )
  ]
    where
      none_later : (j : ℕ) → j < suc index → (index ≡ count) ⊎ (index < j) → ⊥
      none_later j h (inl e) = omega (arith, below, e)
      none_later j h (inr l) = omega (arith, h, l)

      before : (j : ℕ) → j < suc index → j == index ≡ false → j < index
      before j h other = let ne = ==→ne j index other in ground arith

  abbrev HasReplied : w.PublicKey → Option AccountInfo → Type 0
  HasReplied address o = (net : w.Net) × ((w.get_account_info address net).0 ≡ fulfilled o)

  module _ (log : List (Transaction w.PublicKey)) where
    account_info-Replied :
        (address : w.PublicKey)
        → Ensures
            (Unsent w log)
            (λ o s. (s.sent ≡ log) × HasReplied address o)
            (UnsentError w log)
            (account_info w address)
    unfolding account_info settled
    account_info-Replied address = record { at = λ s h. replied s.net _ _ refl h }
      where
        replied :
            (net : w.Net) (r : Reply (Option AccountInfo)) (s : Session w)
            → (w.get_account_info address net).0 ≡ r
            → s.sent ≡ log
            → Ends (λ o s. (s.sent ≡ log) × HasReplied address o) (UnsentError w log) (settled r, s)
        replied net (fulfilled o) s e h = (h, (net, e))
        replied net refused s e h = (h, tt)

    find_free-IsLastVacant :
        (count found index rounds : ℕ)
        → index + rounds ≡ count
        → IsLastVacant count index found
        → Ensures
            (Unsent w log)
            (λ free s. (s.sent ≡ log) × IsLastVacant count count free)
            (UnsentError w log)
            (find_free w prog validator found index rounds)
    unfolding find_free
    find_free-IsLastVacant count found index zero e h =
        let all : index ≡ count = omega (arith, e) in
        Ensures-pure found (λ s u. (u, subst (λ i. IsLastVacant count i found) all h))
    find_free-IsLastVacant count found index (suc rounds) e h =
        Ensures-bind
          (λ address s.
            (s.sent ≡ log) × (get_stake_for_validator w prog validator index ≡ ok address))
          _ _
          (lift-Unsent w log _ (λ address q. q)
            (get_stake_for_validator-MayFail w prog validator index))
          λ address.
            Ensures-given (get_stake_for_validator w prog validator index ≡ ok address) _ λ q.
              Ensures-bind _ _ _ (account_info-Replied address) λ o.
                Ensures-given (HasReplied address o) _ λ (net, r).
                  find_free-IsLastVacant count _ (suc index) rounds (omega (arith, e)) (
                    IsLastVacant-next count index found o (omega (arith, e)) h
                      (λ P p. (address, net, o, q, r, p)))

    -- A free index among all stakes of the validator.
    pub find_free-vacant :
        (count : ℕ)
        → Ensures
            (Unsent w log)
            (λ free s. (s.sent ≡ log) × IsLastVacant count count free)
            (UnsentError w log)
            (find_free w prog validator count 0 count)
    find_free-vacant count =
        find_free-IsLastVacant count count 0 count (omega arith)
          (inl refl, λ j h. absurd (omega arith))
