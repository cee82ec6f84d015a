-- ===== src/Pool/Paying.antt =====
-- payAllCreditors and updatePool of experiment/tenderize.ts.
pub mod Ends
use marinade_tenderize_from.Prelude.{
  ℕ, zero, suc, Bool, true, false, List, [], ◌∷◌, length, ltb, ◌==◌,
}
use marinade_tenderize_from.Effect.{pure, ◌>>=◌, ◌>>◌}
use marinade_tenderize_from.Web3.{Web3}
use marinade_tenderize_from.Pool.Types.{ValidatorInfo, Creditor}
use marinade_tenderize_from.Pool.Client.{Program, Action}
use marinade_tenderize_from.Pool.Reading.{read_validators, read_creditors}
use marinade_tenderize_from.Pool.Sending.{pay_creditors, update_list_balance, update_pool_balance}

module _ (w : Web3) (prog : Program w) where
  open w use {PublicKey}

  -- `while (creditors.length > 0)`. The result tells whether the loop ended: `false` is no result of
  -- the source, the fuel ran out.
  unfoldable pub pay_loop : ℕ → List (Creditor PublicKey) → Action w Bool
  pay_loop zero creditors = pure false
  pay_loop (suc fuel) creditors = elim (ltb 0 (length creditors)) [
    | false ↦ pure true
    | true ↦ do
      pay_creditors w prog 30
      creditors' ← read_creditors w prog
      elim (length creditors' == length creditors) [
        | true ↦ pure true
        | false ↦ pay_loop fuel creditors'
      ]
  ]

  -- A round for each creditor, and one to see that none is left.
  unfoldable pub pay_all_creditors : Action w Bool
  unfolding pay_loop
  pay_all_creditors = do
    creditors ← read_creditors w prog
    pay_loop (suc (length creditors)) creditors

  unfoldable pub update_lists : List (ValidatorInfo PublicKey) → Action w (Unit {0})
  update_lists [] = pure tt
  update_lists (v ∷ vs) = do update_list_balance w prog (v ∷ []); update_lists vs

  unfoldable pub update_pool : Action w (Unit {0})
  unfolding update_lists
  update_pool = do
    validators ← read_validators w prog
    update_lists validators
    update_pool_balance w prog
