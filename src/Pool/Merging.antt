-- ===== src/Pool/Merging.antt =====
-- mergeAllStakes of experiment/tenderize.ts: the active stakes of each validator are merged into the
-- first one, four pairs to a transaction.
pub mod Pairs
use marinade_tenderize_from.Prelude.{
  ℕ, zero, suc, ◌-◌, Bool, true, false, Option, none, some, List, [], ◌∷◌, ◌++◌, length, get_elem?,
}
use marinade_tenderize_from.Effect.{pure, lift, attempt, ◌>>=◌, ◌>>◌}
use marinade_tenderize_from.Web3.{Web3, StakeActivationData, active}
use marinade_tenderize_from.Pool.Types.{ValidatorInfo, StakePair}
use marinade_tenderize_from.Pool.Client.{Program, Action, stake_activation, get_stake_for_validator}
use marinade_tenderize_from.Pool.Reading.{read_validators}
use marinade_tenderize_from.Pool.Sending.{merge_stakes}

-- `stakeData.state == 'active'`
unfoldable pub is_active : StakeActivationData → Bool
is_active d = elim d.state [ active ↦ true | _ ↦ false ]

abbrev pub pair_at : {K : Type 0} → K → Option ℕ → Option ℕ → List (StakePair K)
pair_at validator (some main) (some additional) =
    record { validator = validator; main_index = main; additional_index = additional } ∷ []
pair_at validator _ _ = []

-- `for (let i = mergeIndices.length - 1; i > 0; --i)`, from `i` on
unfoldable pub pairs_down : {K : Type 0} → K → List ℕ → ℕ → List (StakePair K)
pairs_down validator indices zero = []
pairs_down validator indices (suc i) =
    pair_at validator (get_elem? indices 0) (get_elem? indices (suc i))
    ++ pairs_down validator indices i

module _ (w : Web3) (prog : Program w) where
  open w use {PublicKey}

  -- The active stakes from `index` on, of `rounds` many. A failing request counts as inactive.
  unfoldable pub merge_indices : PublicKey → ℕ → ℕ → Action w (List ℕ)
  unfolding is_active
  merge_indices validator index zero = pure []
  merge_indices validator index (suc rounds) = do
    address ← lift (get_stake_for_validator w prog validator index)
    data? ← attempt (stake_activation w address)
    rest ← merge_indices validator (suc index) rounds
    pure (elim data? [
      | none ↦ rest
      | some d ↦ elim (is_active d) [ true ↦ index ∷ rest | false ↦ rest ]
    ])

  unfoldable pub stake_pairs :
      List (ValidatorInfo PublicKey) → Action w (List (StakePair PublicKey))
  unfolding merge_indices pairs_down
  stake_pairs [] = pure []
  stake_pairs (v ∷ vs) = do
    indices ← merge_indices v.vote_pubkey 0 v.stake_count
    rest ← stake_pairs vs
    pure (pairs_down v.vote_pubkey indices (length indices - 1) ++ rest)

  unfoldable pub send_merges : List (List (StakePair PublicKey)) → Action w (Unit {0})
  send_merges [] = pure tt
  send_merges (c ∷ cs) = do merge_stakes w prog c; send_merges cs

  -- Without validators there are no pairs, and nothing is sent.
  unfoldable pub merge_listed : List (ValidatorInfo PublicKey) → Action w (Unit {0})
  unfolding stake_pairs send_merges
  merge_listed [] = pure tt
  merge_listed (v ∷ vs) = do
    pairs ← stake_pairs (v ∷ vs)
    send_merges (w.chunk (StakePair PublicKey) pairs 4)

  unfoldable pub merge_all_stakes : Action w (Unit {0})
  unfolding merge_listed
  merge_all_stakes = do validators ← read_validators w prog; merge_listed validators
