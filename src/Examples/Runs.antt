-- ===== src/Examples/Runs.antt =====
-- The plans and the loops of the client (experiment/tenderize.ts) on a small network.
use marinade_tenderize_from.Prelude.{
  ℕ, ◌+◌, ◌≡◌, refl, sym, ap, ◌∙◌, true, Option, none, some, List, [], ◌∷◌, ◌++◌, arith, length,
  All, Any,
}
use marinade_tenderize_from.Effect.{Result, ok, err, pure, throw, lift, continue, ◌>>=◌}
use marinade_tenderize_from.Effect.Ensures.{Ends}
use marinade_tenderize_from.Web3.{Transaction, AccountInfo}
use marinade_tenderize_from.Pool.Types.{ValidatorInfo}
use marinade_tenderize_from.Pool.Client.{Session, Action, account_info}
use marinade_tenderize_from.Pool.Reading.{
  required, state_of_contents, state_of, read_state, read_creditors,
}
use marinade_tenderize_from.Pool.Client.Requests.{IsRequestError}
use marinade_tenderize_from.Pool.Delegation.{
  total_from, ceil_div, share_reserve, delegate_reserve_batch,
}
use marinade_tenderize_from.Pool.Delegation.Plan.{amounts, IsFair, share_reserve-total}
use marinade_tenderize_from.Pool.Delegation.Batch.{
  IsDelegationError, delegated, delegate_reserve_batch-total,
}
use marinade_tenderize_from.Pool.Merging.{stake_pairs}
use marinade_tenderize_from.Pool.Merging.Pairs.{IsMerge, stake_pairs-IsMerge}
use marinade_tenderize_from.Pool.Delegation.Free.{IsLastVacant}
use marinade_tenderize_from.Pool.Unstaking.{plan_unstake}
use marinade_tenderize_from.Pool.Unstaking.Plan.{IsUnstakePlan, plan_unstake-shape}
use marinade_tenderize_from.Pool.Paying.{pay_all_creditors}
use marinade_tenderize_from.Pool.Paying.Ends.{NoNewCreditors, pay_all_creditors-Ends}
use marinade_tenderize_from.Examples.Network.{
  Key, key, calm_network, calm_chunk_laws, client, start,
}

abbrev two_stakes : ValidatorInfo Key
two_stakes = record {
  vote_pubkey = key 21;
  balance = 5000000000;
  last_update_epoch = 3;
  stake_count = 2;
}

abbrev no_stake : ValidatorInfo Key
no_stake = record { vote_pubkey = key 22; balance = 0; last_update_epoch = 3; stake_count = 0 }

abbrev two_validators : List (ValidatorInfo Key)
two_validators = two_stakes ∷ no_stake ∷ []

delegate_reserve_batch-total_example :
    Ends
      (λ u s'.
        (ts : List (Transaction Key)) × (s'.sent ≡ start.sent ++ ts) × (delegated ts ≡ 7000000000))
      (λ e s'. IsDelegationError 7000000000 e)
      (delegate_reserve_batch calm_network client 7000000000 start)
delegate_reserve_batch-total_example =
    delegate_reserve_batch-total calm_network client calm_chunk_laws 7000000000 start

share_reserve-total_example :
    Ends
      (λ out s'.
        (s'.sent ≡ start.sent)
        × (amounts out ≡ 7000000000)
        × All
            (IsFair
              (ceil_div (total_from 0 two_validators + 7000000000) (length two_validators))
              two_validators)
            out)
      (λ e s'. (s'.sent ≡ start.sent) × IsRequestError e)
      (share_reserve calm_network client 7000000000 two_validators start)
share_reserve-total_example =
    share_reserve-total calm_network client 7000000000 two_validators start (omega arith)

stake_pairs-IsMerge_example :
    Ends
      (λ ps s'.
        (s'.sent ≡ start.sent)
        × All (λ p. Any (λ v. IsMerge v.vote_pubkey v.stake_count p) two_validators) ps)
      (λ e s'. (s'.sent ≡ start.sent) × IsRequestError e)
      (stake_pairs calm_network client two_validators start)
stake_pairs-IsMerge_example = stake_pairs-IsMerge calm_network client two_validators start

plan_unstake-shape_example :
    Ends
      (λ us s'.
        (s'.sent ≡ start.sent)
        × (free : ℕ) × IsLastVacant calm_network client two_stakes.vote_pubkey
            two_stakes.stake_count two_stakes.stake_count free
        × IsUnstakePlan two_stakes.vote_pubkey free two_stakes.stake_count (some 3000000000) us)
      (λ e s'. (s'.sent ≡ start.sent) × IsRequestError e)
      (plan_unstake calm_network client two_stakes (some 3000000000) start)
plan_unstake-shape_example =
    plan_unstake-shape calm_network client two_stakes (some 3000000000) start

-- The action gives the same result in all sessions.
abbrev Steady : {A : Type 0} → Action calm_network A → Type 0
Steady m = (s s' : Session calm_network) → (m s).0 ≡ (m s').0

Steady-bind :
    {A B : Type 0} (m : Action calm_network A) (f : A → Action calm_network B)
    → Steady m
    → ((a : A) → Steady (f a))
    → Steady (m >>= f)
unfolding ◌>>=◌
Steady-bind {A = A} m f hm hf s s' = step (m s) (m s') (hm s s')
  where
    step :
        (r r' : Result A × Session calm_network)
        → r.0 ≡ r'.0
        → (continue r.0 f r.1).0 ≡ (continue r'.0 f r'.1).0
    step (q, s) (ok a, s') h = rw h (hf a s s')
    step (q, s) (err e, s') h = rw h refl

account_info-Steady : (k : Key) → Steady (account_info calm_network k)
unfolding account_info
account_info-Steady k s s' = refl

lift-Steady : {A : Type 0} (r : Result A) → Steady (lift r)
unfolding lift
lift-Steady r s s' = refl

required-Steady : {A : Type 0} (o : Option A) → Steady (required o)
unfolding required throw pure
required-Steady none s s' = refl
required-Steady (some a) s s' = refl

state_of_contents-Steady : (bs : List ℕ) → Steady (state_of_contents calm_network client bs)
unfolding state_of_contents pure
state_of_contents-Steady [] = λ s s'. refl
state_of_contents-Steady (b ∷ bs) = Steady-bind _ _ (lift-Steady _) λ state s s'. refl

state_of-Steady : (found : Option AccountInfo) → Steady (state_of calm_network client found)
unfolding state_of pure
state_of-Steady none = λ s s'. refl
state_of-Steady (some account) = state_of_contents-Steady account.contents

read_state-Steady : Steady (read_state calm_network client)
unfolding read_state
read_state-Steady = Steady-bind _ _ (account_info-Steady (key 1)) λ found. state_of-Steady found

read_creditors-Steady : Steady (read_creditors calm_network client)
unfolding read_creditors
read_creditors-Steady = Steady-bind _ _ read_state-Steady λ found_state.
    Steady-bind _ _ (required-Steady found_state) λ state.
      Steady-bind _ _ (account_info-Steady state.credit_list)
        λ found. Steady-bind _ _ (required-Steady found) λ account. lift-Steady _

calm_creditors : NoNewCreditors calm_network client
calm_creditors = record {
  never_longer = λ s₀ s₁ s₂ s₃ cs cs' e paid e'.
      let same : ok cs' ≡ ok cs =
        sym (ap (λ r. r.0) e') ∙ read_creditors-Steady s₂ s₀ ∙ ap (λ r. r.0) e in
      let equal : cs' ≡ cs = cc in rw equal (omega arith);
}

pay_all_creditors-Ends_example :
    Ends (λ ended s'. ended ≡ true) (λ e s'. Unit) (pay_all_creditors calm_network client start)
pay_all_creditors-Ends_example = pay_all_creditors-Ends calm_network client calm_creditors start
