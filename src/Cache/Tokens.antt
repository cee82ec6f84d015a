-- ===== src/Cache/Tokens.antt =====
-- deserializeAccount, deserializeMint and wrapNativeAccount of src/contexts/accounts.tsx. The layouts
-- of @solana/spl-token are parameters.
use marinade_tenderize_from.Prelude.{
  ℕ, Bool, true, false, not, Option, none, some, List, length, ◌==◌, if◌then◌else◌,
}
use marinade_tenderize_from.Effect.{Result, ok, err, web, not_a_mint}
use marinade_tenderize_from.Buffer.{◌>>=◌}
use marinade_tenderize_from.Web3.{AccountInfo}

-- What AccountLayout.decode and MintLayout.decode give.
pub record RawTokenAccount : Type 0 where
  pub mint : ℕ
  pub owner : ℕ
  pub amount : ℕ
  pub delegate_option : ℕ
  pub delegate : ℕ
  pub delegated_amount : ℕ
  pub state : ℕ
  pub is_native_option : ℕ
  pub is_native : ℕ
  pub close_authority_option : ℕ
  pub close_authority : ℕ

pub record RawMint : Type 0 where
  pub mint_authority_option : ℕ
  pub mint_authority : ℕ
  pub supply : ℕ
  pub decimals : ℕ
  pub is_initialized : ℕ
  pub freeze_authority_option : ℕ
  pub freeze_authority : ℕ

-- Decoding throws where the bytes are too few.
pub record Spl : Type 0 where
  pub account_layout_span : ℕ
  pub account_layout_decode : List ℕ → Result RawTokenAccount
  pub mint_layout_span : ℕ
  pub mint_layout_decode : List ℕ → Result RawMint

pub record TokenAccountInfo : Type 0 where
  pub mint : ℕ
  pub owner : ℕ
  pub amount : ℕ
  pub delegate : Option ℕ
  pub delegated_amount : ℕ
  pub is_initialized : Bool
  pub is_frozen : Bool
  pub is_native : Bool
  pub rent_exempt_reserve : Option ℕ
  pub close_authority : Option ℕ

pub record MintInfo : Type 0 where
  pub mint_authority : Option ℕ
  pub supply : ℕ
  pub decimals : ℕ
  pub is_initialized : Bool
  pub freeze_authority : Option ℕ

-- null for an option of 0
unfoldable pub unless_zero : ℕ → ℕ → Option ℕ
unless_zero option value = if option == 0 then none else some value

unfoldable pub token_account_info : RawTokenAccount → TokenAccountInfo
unfolding unless_zero
token_account_info raw = record {
  mint = raw.mint;
  owner = raw.owner;
  amount = raw.amount;
  delegate = unless_zero raw.delegate_option raw.delegate;
  delegated_amount = if raw.delegate_option == 0 then 0 else raw.delegated_amount;
  is_initialized = not (raw.state == 0);
  is_frozen = raw.state == 2;
  is_native = raw.is_native_option == 1;
  rent_exempt_reserve = if raw.is_native_option == 1 then some raw.is_native else none;
  close_authority = unless_zero raw.close_authority_option raw.close_authority;
}

unfoldable pub mint_info : RawMint → MintInfo
unfolding unless_zero
mint_info raw = record {
  mint_authority = unless_zero raw.mint_authority_option raw.mint_authority;
  supply = raw.supply;
  decimals = raw.decimals;
  is_initialized = not (raw.is_initialized == 0);
  freeze_authority = unless_zero raw.freeze_authority_option raw.freeze_authority;
}

module _ (spl : Spl) where
  unfoldable pub deserialize_account : List ℕ → Result TokenAccountInfo
  unfolding token_account_info
  deserialize_account contents = do
    raw ← spl.account_layout_decode contents
    ok (token_account_info raw)

  unfoldable pub deserialize_mint : List ℕ → Result MintInfo
  unfolding mint_info
  deserialize_mint contents = elim (length contents == spl.mint_layout_span) [
    | false ↦ err (web not_a_mint)
    | true ↦ do raw ← spl.mint_layout_decode contents; ok (mint_info raw)
  ]

-- The account of a wallet, shown as an account of wrapped SOL.
unfoldable pub native_info : ℕ → ℕ → AccountInfo → TokenAccountInfo
native_info wrapped_sol_mint pubkey account = record {
  mint = wrapped_sol_mint;
  owner = pubkey;
  amount = account.lamports;
  delegate = none;
  delegated_amount = 0;
  is_initialized = true;
  is_frozen = false;
  is_native = true;
  rent_exempt_reserve = none;
  close_authority = none;
}
