-- ===== src/Examples/Builders.antt =====
-- The builders of src/models/lending with concrete libraries.
use native.Mathlib.Nat.{zero-add}
use marinade_tenderize_from.Prelude.{ℕ, ◌+◌, ◌≡◌, refl, List, [], ◌∷◌, arith}
use marinade_tenderize_from.Effect.{Result, ok}
use marinade_tenderize_from.Buffer.{Buffer, ◌>>=◌, copy, le_bytes, write_uint8}
use marinade_tenderize_from.Buffer.Bytes.{length-le_bytes, of_le-le_bytes}
use marinade_tenderize_from.OnChain.{deposit, withdraw, credit}
use marinade_tenderize_from.Web.Layout.{Encoder, Libraries, LibraryLaws, reversed}
use marinade_tenderize_from.Web.Builders.{
  Ids, WebDepositParams, WebWithdrawParams, WebCreditParams, Tenderize, web_deposit_instruction,
  web_withdraw_instruction, web_credit_instruction,
}
use marinade_tenderize_from.Web.RoundTrip.{IsReadOnChain, web_round_trip}

abbrev pub in_order : List (ℕ × Encoder) → ℕ → Buffer → Result Buffer
in_order [] p d = ok d
in_order ((s, e) ∷ []) p d = e d p
in_order ((s, e) ∷ f ∷ fs) p d = e d p >>= λ d'. in_order (f ∷ fs) (p + s) d'

abbrev pub libraries : Libraries
libraries = record {
  BigNumber = ℕ;
  new_big_number = λ n. n;
  to_array = λ n. reversed (le_bytes 7 n);
  u8_encode = λ b d p. write_uint8 b p d >>= λ r. ok r.1;
  blob_encode = λ size bs d p. ok (copy bs d p).1;
  struct_encode = λ fields d. in_order fields 0 d;
}

seven-lem : (n : ℕ) → reversed (reversed (le_bytes 7 n)) ≡ le_bytes 7 n
unfolding reversed le_bytes
seven-lem n = refl

library_laws : LibraryLaws libraries
library_laws = record {
  array-value = λ n h. rw (seven-lem n) (of_le-le_bytes 7 n (omega arith));
  array-short = λ n h. rw (seven-lem n, length-le_bytes 7 n) (omega arith);
  u8_encode-writes = λ b p d d' p' h. rw h refl;
  blob_encode-copies = λ size bs d p e h. refl;
  struct_encode-fields = λ s s' e e' d. rw (zero-add s) refl;
}

abbrev pub web_ids : Ids ℕ
web_ids = record {
  tenderize_program_id = 1;
  token_program_id = 2;
  tenderized_sol_mint_id = 3;
  stake_pool_id = 4;
  wrapped_sol_mint = 5;
  owner_fee_account = 6;
  reserve_address_pda = 7;
  withdraw_authority_pda = 8;
  temp_account_pda = 9;
  sysvar_rent = 10;
  system_program = 11;
}

abbrev one_deposit : WebDepositParams ℕ
one_deposit = record { user_source = 20; amount = 1000; user_token = 21 }

abbrev one_withdrawal : WebWithdrawParams ℕ
one_withdrawal = record { user_token_source = 21; user_sol_target = 20; amount = 700 }

abbrev one_credit : WebCreditParams ℕ
one_credit = record {
  user_token_source = 21;
  user_sol_target = 20;
  cancel_authority = 22;
  amount = 0;
}

abbrev one_pool : Tenderize ℕ
one_pool = record { credit_list = 30; pool_mint = 3; credit_reserve = 31 }

web_round_trip_example :
    IsReadOnChain libraries library_laws web_ids
      (web_deposit_instruction libraries web_ids one_deposit)
      (deposit 1000)
    × IsReadOnChain libraries library_laws web_ids
        (web_withdraw_instruction libraries web_ids one_withdrawal one_pool)
        (withdraw 700)
    × IsReadOnChain libraries library_laws web_ids
        (web_credit_instruction libraries web_ids one_credit one_pool)
        (credit 0)
web_round_trip_example =
    web_round_trip libraries library_laws web_ids one_deposit one_withdrawal one_credit one_pool
      (omega arith) (omega arith) (omega arith)
