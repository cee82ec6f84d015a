-- ===== src/Examples/Commands.antt =====
-- The command line of experiment/cli.ts on the small network.
use marinade_tenderize_from.Prelude.{ℕ, ◌*◌, refl, [], ◌∷◌, ◌==◌}
use marinade_tenderize_from.Web3.{fulfilled}
use marinade_tenderize_from.Pool.Client.{get_reserve_address, account_info, rent_exemption, settled}
use marinade_tenderize_from.Cli.Steps.{Host, Args, update, top_up, run}
use marinade_tenderize_from.Cli.Deposits.{IsGreater, IsToppedUp, top_up-fills}
use marinade_tenderize_from.Effect.Ensures.{Ends}
use marinade_tenderize_from.Pool.Signed.{AllSigned}
use marinade_tenderize_from.Cli.Signed.{run-AllSigned}
use marinade_tenderize_from.Examples.Network.{Key, key, answer, calm_network, client, start}

abbrev a_host : Host calm_network
a_host = record {
  exec_shell_command = λ c net. (fulfilled tt, net);
  get_epoch_info = λ net. (fulfilled 4, net);
  get_vote_accounts = λ net. (fulfilled (key 21 ∷ key 23 ∷ []), net);
  equals = λ k k'. k.0 == k'.0;
  round_nine_tenths = λ n. n;
}

-- Five SOL are to be in the reserve, which has two; so has the payer.
abbrev five_sol : Args Key
five_sol = record { fee_denominator = 100; fee_numerator = 3; min_reserve = 5; command = update }

top_up-fills_example :
    (least : ℕ) × IsGreater (1000000000 * 5) 10256 least
    × IsToppedUp calm_network client a_host
        (answer (get_reserve_address calm_network client).0)
        (answer client.payer_account.0)
        least
        start
        start
        (top_up calm_network client a_host five_sol start)
unfolding account_info rent_exemption settled
top_up-fills_example =
    top_up-fills calm_network client a_host five_sol start start start start start
      (answer (get_reserve_address calm_network client).0) (answer client.payer_account.0) 128 10128
      refl refl refl refl

run-AllSigned_example :
    Ends
      (λ u s. AllSigned calm_network client.payer_account s)
      (λ e s. AllSigned calm_network client.payer_account s)
      (run calm_network client a_host five_sol start)
run-AllSigned_example = run-AllSigned calm_network client a_host five_sol start tt
