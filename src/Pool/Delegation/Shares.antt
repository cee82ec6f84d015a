-- ===== src/Pool/Delegation/Shares.antt =====
-- The arithmetic of the shares: the target is high enough for all of the amount.
use marinade_tenderize_from.Prelude.{ℕ, ◌+◌, ◌-◌, ◌*◌, ◌≤◌, ◌<◌, ◌≡◌, List, [], ◌∷◌, length, arith}
use native.Mathlib.Nat.{div-add-mod, mod-lt}
use marinade_tenderize_from.Pool.Types.{ValidatorInfo, min_stake_account_balance}
use marinade_tenderize_from.Pool.Delegation.{total_from, ceil_div, take_share}

module _ {K : Type 0} where
  -- what all balances are short of the target
  abbrev pub shortage : ℕ → List (ValidatorInfo K) → ℕ
  shortage target [] = 0
  shortage target (v ∷ vs) = (target - v.balance) + shortage target vs

  total_from-shortage :
      (acc target : ℕ) (vs : List (ValidatorInfo K))
      → acc + target * length vs ≤ total_from acc vs + shortage target vs
  unfolding total_from
  total_from-shortage acc target [] = omega arith
  total_from-shortage acc target (v ∷ vs) =
      omega (arith, total_from-shortage (acc + v.balance) target vs)

pub le-ceil_div : (total count : ℕ) → 1 ≤ count → total ≤ ceil_div total count * count
unfolding ceil_div
le-ceil_div total count h =
    let above = total + (count - 1) in omega (arith, div-add-mod above count, mod-lt above h)

-- The shortage of all validators takes the whole amount.
pub le-shortage :
    {K : Type 0} (amount : ℕ) (vs : List (ValidatorInfo K))
    → 1 ≤ length vs
    → amount ≤ shortage (ceil_div (total_from 0 vs + amount) (length vs)) vs
le-shortage amount vs h =
    let target = ceil_div (total_from 0 vs + amount) (length vs) in
    omega
      (arith, total_from-shortage 0 target vs, le-ceil_div (total_from 0 vs + amount) (length vs) h)

-- A share of a validator below the target: something is given, nothing is lost, the validator gets
-- less than the minimal balance above the target, and what is left needs the shortage of the others.
pub take_share_lem :
    (target balance amount rest : ℕ)
    → 1 ≤ amount
    → balance < target
    → amount ≤ target - balance + rest
    → (1 ≤ (take_share target balance amount).0)
      × ((take_share target balance amount).0 + (take_share target balance amount).1 ≡ amount)
      × (balance + (take_share target balance amount).0 < target + min_stake_account_balance)
      × ((take_share target balance amount).1 ≤ rest)
unfolding take_share
take_share_lem target balance amount rest h b e = ground arith
