-- ===== src/Cli/Signed.antt =====
-- A run of the command line (experiment/cli.ts) by who signs what it sends.
use marinade_tenderize_from.Prelude.{
  ℕ, zero, suc, refl, Bool, true, false, Option, none, some, List, [], ◌∷◌, ltb, ◌==◌,
}
use marinade_tenderize_from.Effect.{web, invalid_validator}
use marinade_tenderize_from.Effect.Ensures.{Ends, Ensures-bind, Ensures-elim}
use marinade_tenderize_from.Web3.{Web3, Reply, AccountInfo}
use marinade_tenderize_from.Pool.Types.{State, ValidatorInfo}
use marinade_tenderize_from.Pool.Client.{Program, Session, Action}
use marinade_tenderize_from.Pool.Signed.{
  AllSigned, Signs, pure-Signs, throw-Signs, throw_if-Signs, lift-Signs, attempt-Signs,
  account_info-Signs, stake_activation-Signs, rent_exemption-Signs, settled-Signs,
}
use marinade_tenderize_from.Pool.Signed.Methods.{
  read_state-Signs, read_validators-Signs, read_creditors-Signs, required-Signs,
  create_stake_pool-Signs, add_validator-Signs, remove_validator-Signs, deposit-Signs,
  delegate_reserve_batch-Signs, merge_all_stakes-Signs, unstake-Signs, unstake_all-Signs,
  update_pool-Signs,
}
use marinade_tenderize_from.Pool.Signed.Payments.{pay_all_creditors-Signs}
use marinade_tenderize_from.Cli.Steps.{
  Command, show, vadd, vrem, del, update, unstake_one, unstake_every, Args, Host, ask, create_pool,
  update_state, update_old, bring_up_from, bring_up, deposit_lacking, top_up, look_at, show_stakes,
  show_validators, show_pool, to_add, to_remove, add_each, remove_each, unstake_found,
  update_unless, process_command, run,
}

module _ (w : Web3) (prog : Program w) (host : Host w) where
  abbrev Sgn : {A : Type 0} → Action w A → Type 0
  Sgn m = Signs w prog.payer_account m

  ask-Signs : {A : Type 0} (f : w.Net → Reply A × w.Net) → Sgn (ask w prog host f)
  unfolding ask
  ask-Signs f = record { at = λ s h. settled-Signs w prog.payer_account _ _ h }

  create_pool-Signs : (args : Args w.PublicKey) → Sgn (create_pool w prog host args)
  unfolding create_pool
  create_pool-Signs args = Ensures-bind _ _ _ (ask-Signs _) λ u.
      Ensures-bind _ _ _ (ask-Signs _) λ u. Ensures-bind _ _ _ (ask-Signs _) λ u.
        Ensures-bind _ _ _ (ask-Signs _)
          λ u. Ensures-bind _ _ _ (create_stake_pool-Signs w prog _) λ u. read_state-Signs w prog

  update_state-Signs : Sgn (update_state w prog host)
  unfolding update_state
  update_state-Signs =
      Ensures-bind _ _ _ (merge_all_stakes-Signs w prog)
        λ u. Ensures-bind _ _ _ (update_pool-Signs w prog) λ u. read_state-Signs w prog

  update_old-Signs : (state : State w.PublicKey) → Sgn (update_old w prog host state)
  unfolding update_old
  update_old-Signs state = Ensures-bind _ _ _ (ask-Signs _) λ epoch.
      Ensures-elim (ltb state.last_epoch_update epoch) _ _
        (λ old. Ensures-bind _ _ _ update_state-Signs λ state'. pure-Signs w prog.payer_account _)
        (λ up_to_date. pure-Signs w prog.payer_account _)

  bring_up_from-Signs :
      (args : Args w.PublicKey) (o : Option (State w.PublicKey))
      → Sgn (bring_up_from w prog host args o)
  unfolding bring_up_from
  bring_up_from-Signs args none =
      Ensures-bind _ _ _ (create_pool-Signs args) λ state'. pure-Signs w prog.payer_account _
  bring_up_from-Signs args (some state) =
      Ensures-elim (state.version == 0) _ _
        (λ not_made.
          Ensures-bind _ _ _ (create_pool-Signs args) λ state'. pure-Signs w prog.payer_account _)
        (λ made. update_old-Signs state)

  bring_up-Signs : (args : Args w.PublicKey) → Sgn (bring_up w prog host args)
  unfolding bring_up
  bring_up-Signs args = Ensures-bind _ _ _ (read_state-Signs w prog) (bring_up_from-Signs args)

  -- The payer is the source of the deposit.
  deposit_lacking-Signs : (o : Option ℕ) → Sgn (deposit_lacking w prog host o)
  unfolding deposit_lacking
  deposit_lacking-Signs none = pure-Signs w prog.payer_account tt
  deposit_lacking-Signs (some amount) =
      Ensures-bind _ _ _ (account_info-Signs w prog.payer_account _) λ payer.
        Ensures-bind _ _ _ (throw_if-Signs w prog.payer_account _ _)
          λ u. deposit-Signs w prog _ refl

  top_up-Signs : (args : Args w.PublicKey) → Sgn (top_up w prog host args)
  unfolding top_up
  top_up-Signs args = Ensures-bind _ _ _ (account_info-Signs w prog.payer_account _) λ reserve.
      Ensures-bind _ _ _ (rent_exemption-Signs w prog.payer_account _) λ for_nothing.
        Ensures-bind _ _ _ (rent_exemption-Signs w prog.payer_account _)
          λ for_credits. deposit_lacking-Signs _

  look_at-Signs : (stake : w.PublicKey) → Sgn (look_at w prog host stake)
  unfolding look_at
  look_at-Signs stake =
      Ensures-bind _ _ _ (account_info-Signs w prog.payer_account stake) λ account.
        Ensures-bind _ _ _ (stake_activation-Signs w prog.payer_account stake)
          λ activation. pure-Signs w prog.payer_account tt

  show_stakes-Signs :
      (v : w.PublicKey) (index rounds : ℕ) → Sgn (show_stakes w prog host v index rounds)
  unfolding show_stakes
  show_stakes-Signs v index zero = pure-Signs w prog.payer_account tt
  show_stakes-Signs v index (suc rounds) =
      Ensures-bind _ _ _ (lift-Signs w prog.payer_account _) λ stake.
        Ensures-bind _ _ _ (attempt-Signs w prog.payer_account _ (look_at-Signs stake))
          λ looked. show_stakes-Signs v (suc index) rounds

  show_validators-Signs :
      (vs : List (ValidatorInfo w.PublicKey)) → Sgn (show_validators w prog host vs)
  unfolding show_validators
  show_validators-Signs [] = pure-Signs w prog.payer_account tt
  show_validators-Signs (v ∷ vs) =
      Ensures-bind _ _ _ (show_stakes-Signs v.vote_pubkey 0 v.stake_count)
        λ u. show_validators-Signs vs

  show_pool-Signs :
      (reserve : Option AccountInfo) (state : Option (State w.PublicKey))
      → Sgn (show_pool w prog host reserve state)
  unfolding show_pool
  show_pool-Signs reserve state = Ensures-bind _ _ _ (required-Signs w prog reserve) λ account.
      Ensures-bind _ _ _ (required-Signs w prog state) λ shown.
        Ensures-bind _ _ _ (read_validators-Signs w prog) λ validators.
          Ensures-bind _ _ _ (show_validators-Signs validators) λ u.
            Ensures-bind _ _ _ (read_creditors-Signs w prog)
              λ creditors. pure-Signs w prog.payer_account account

  to_add-Signs : (vs : List w.PublicKey) → Sgn (to_add w prog host vs)
  unfolding to_add
  to_add-Signs [] =
      Ensures-bind _ _ _ (read_validators-Signs w prog)
        λ current. Ensures-bind _ _ _ (ask-Signs _) λ votes. pure-Signs w prog.payer_account _
  to_add-Signs (v ∷ vs) = pure-Signs w prog.payer_account _

  to_remove-Signs : (vs : List w.PublicKey) → Sgn (to_remove w prog host vs)
  unfolding to_remove
  to_remove-Signs [] =
      Ensures-bind _ _ _ (read_validators-Signs w prog) λ current. pure-Signs w prog.payer_account _
  to_remove-Signs (v ∷ vs) = pure-Signs w prog.payer_account _

  add_each-Signs : (vs : List w.PublicKey) → Sgn (add_each w prog host vs)
  unfolding add_each
  add_each-Signs [] = pure-Signs w prog.payer_account tt
  add_each-Signs (v ∷ vs) = Ensures-bind _ _ _ (add_validator-Signs w prog v) λ u. add_each-Signs vs

  remove_each-Signs : (vs : List w.PublicKey) → Sgn (remove_each w prog host vs)
  unfolding remove_each
  remove_each-Signs [] = pure-Signs w prog.payer_account tt
  remove_each-Signs (v ∷ vs) =
      Ensures-bind _ _ _ (remove_validator-Signs w prog v) λ u. remove_each-Signs vs

  unstake_found-Signs :
      (o : Option (ValidatorInfo w.PublicKey)) (amount : Option ℕ)
      → Sgn (unstake_found w prog host o amount)
  unfolding unstake_found
  unstake_found-Signs none amount = throw-Signs w prog.payer_account (web invalid_validator)
  unstake_found-Signs (some v) amount = unstake-Signs w prog v amount

  update_unless-Signs : (b : Bool) → Sgn (update_unless w prog host b)
  unfolding update_unless
  update_unless-Signs true = pure-Signs w prog.payer_account tt
  update_unless-Signs false =
      Ensures-bind _ _ _ update_state-Signs λ state. pure-Signs w prog.payer_account tt

  process_command-Signs :
      (c : Command w.PublicKey) (was_updated : Bool) (reserve : AccountInfo)
      → Sgn (process_command w prog host c was_updated reserve)
  unfolding process_command
  process_command-Signs show was_updated reserve = pure-Signs w prog.payer_account tt
  process_command-Signs (vadd votes) was_updated reserve =
      Ensures-bind _ _ _ (to_add-Signs votes) add_each-Signs
  process_command-Signs (vrem votes) was_updated reserve =
      Ensures-bind _ _ _ (to_remove-Signs votes) remove_each-Signs
  process_command-Signs (del amount) was_updated reserve = delegate_reserve_batch-Signs w prog _
  process_command-Signs update was_updated reserve = update_unless-Signs was_updated
  process_command-Signs (unstake_one vote amount) was_updated reserve =
      Ensures-bind _ _ _ (read_validators-Signs w prog) λ validators. unstake_found-Signs _ amount
  process_command-Signs unstake_every was_updated reserve = unstake_all-Signs w prog

  run-Signs : (args : Args w.PublicKey) → Sgn (run w prog host args)
  unfolding run
  run-Signs args = Ensures-bind _ _ _ (bring_up-Signs args) λ r.
      Ensures-bind _ _ _ (top_up-Signs args) λ u.
        Ensures-bind _ _ _ (pay_all_creditors-Signs w prog) λ paid.
          Ensures-bind _ _ _ (account_info-Signs w prog.payer_account _) λ reserve.
            Ensures-bind _ _ _ (show_pool-Signs reserve r.1)
              λ account. process_command-Signs args.command r.0 account

-- From a session in which every transaction is signed by the payer first and by whomever its
-- instructions name as a signer or as the payer or the new account of an account's creation, a run
-- of the command line with any command leads to such a session, whether it returns or throws and
-- whatever the network replies.
pub run-AllSigned :
    (w : Web3) (prog : Program w) (host : Host w) (args : Args w.PublicKey) (s : Session w)
    → AllSigned w prog.payer_account s
    → Ends
        (λ u s'. AllSigned w prog.payer_account s')
        (λ e s'. AllSigned w prog.payer_account s')
        (run w prog host args s)
run-AllSigned w prog host args s h = (run-Signs w prog host args).at s h
