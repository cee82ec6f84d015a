-- ===== src/Web/Decode.antt =====
-- The decoders of src/utils/layout.ts, and TenderizeLayout and TenderizeParser of
-- src/models/lending/tenderize.ts. What they call of buffer-layout, bn.js and PublicKey is a
-- parameter.
use marinade_tenderize_from.Prelude.{
  ℕ, ◌+◌, ◌-◌, ◌*◌, ◌/◌, ◌%◌, ◌≡◌, ◌<◌, ◌≤◌, Option, none, some, List, [], ◌∷◌, ◌++◌, ltb,
  if◌then◌else◌, length, take, drop, All,
}
use marinade_tenderize_from.Effect.{Result, ok}
use marinade_tenderize_from.Buffer.{Buffer, ◌>>=◌, slice, of_le, read_uint_le}
use marinade_tenderize_from.Web3.{AccountInfo}
use marinade_tenderize_from.Web.Layout.{Libraries, reversed, tenderize_layout, span}

-- The i-th field of a structure of these spans is decoded at field_offset spans i. The digits of
-- new BN(digits, 16) are given by their values.
pub record Decoders (l : Libraries) (K : Type 0) : Type 0 where
  pub u8_decode : Buffer → ℕ → Result ℕ
  pub blob_decode : ℕ → Buffer → ℕ → Result (List ℕ)
  pub field_offset : List ℕ → ℕ → ℕ
  pub big_number_of_hex : List ℕ → l.BigNumber
  pub new_public_key : List ℕ → K

-- i.toString(16) of a byte
unfoldable pub hex_digits : ℕ → List ℕ
hex_digits i = if ltb i 16 then i ∷ [] else i / 16 ∷ i % 16 ∷ []

-- `00${i.toString(16)}`.slice(-2)
unfoldable pub two_digits : ℕ → List ℕ
unfolding hex_digits
two_digits i = let digits = 0 ∷ 0 ∷ hex_digits i in drop (length digits - 2) digits

-- .map(two digits).join("")
unfoldable pub joined : List ℕ → List ℕ
unfolding two_digits
joined [] = []
joined (b ∷ bs) = two_digits b ++ joined bs

-- What digits stand for, the most significant one first.
unfoldable pub of_hex : ℕ → List ℕ → ℕ
of_hex acc [] = acc
of_hex acc (x ∷ xs) = of_hex (16 * acc + x) xs

abbrev pub value : (l : Libraries) → l.BigNumber → ℕ
value l n = of_le (reversed (l.to_array n))

-- The documented behaviour, where the bytes are there.
pub record DecoderLaws {l : Libraries} {K : Type 0} (r : Decoders l K) : Type 0 where
  pub u8_decode-reads : (d : Buffer) (p : ℕ) → p < length d → r.u8_decode d p ≡ read_uint_le 1 d p
  pub blob_decode-slices :
      (n : ℕ) (d : Buffer) (p : ℕ) → p + n ≤ length d → r.blob_decode n d p ≡ ok (slice d p (p + n))
  pub field_offset-sums : (ss : List ℕ) (i : ℕ) → r.field_offset ss i ≡ span (take i ss)
  pub big_number_of_hex-value :
      (digits : List ℕ)
      → All (λ x. x < 16) digits
      → value l (r.big_number_of_hex digits) ≡ of_hex 0 digits
  pub array-bytes : (n : ℕ) → All (λ b. b < 256) (reversed (l.to_array (l.new_big_number n)))

-- interface Tenderize
pub record TenderizeInfo (l : Libraries) (K : Type 0) : Type 0 where
  pub version : ℕ
  pub owner : K
  pub validator_stake_list : K
  pub credit_list : K
  pub pool_mint : K
  pub owner_fee_account : K
  pub credit_reserve : K
  pub token_program : K
  pub stake_total : l.BigNumber
  pub pool_total : l.BigNumber
  pub last_epoch_update : l.BigNumber
  pub fee_denominator : l.BigNumber
  pub fee_numerator : l.BigNumber

pub record ParsedTenderize (l : Libraries) (K : Type 0) : Type 0 where
  pub pubkey : K
  pub account : AccountInfo
  pub info : TenderizeInfo l K

module _ (l : Libraries) {K : Type 0} (r : Decoders l K) where
  -- publicKey(...).decode
  unfoldable pub public_key_decode : Buffer → ℕ → Result K
  public_key_decode d p = do data_bytes ← r.blob_decode 32 d p; ok (r.new_public_key data_bytes)

  -- uint64(...).decode and uint128(...).decode
  unfoldable pub uint64_decode : Buffer → ℕ → Result l.BigNumber
  unfolding joined reversed
  uint64_decode d p = do
    data_bytes ← r.blob_decode 8 d p
    ok (r.big_number_of_hex (joined (reversed data_bytes)))

  unfoldable pub uint128_decode : Buffer → ℕ → Result l.BigNumber
  unfolding joined reversed
  uint128_decode d p = do
    data_bytes ← r.blob_decode 16 d p
    ok (r.big_number_of_hex (joined (reversed data_bytes)))

  -- TenderizeLayout.decode(buffer). Of two fields named `padding` neither is in the interface.
  unfoldable pub tenderize_decode : Buffer → Result (TenderizeInfo l K)
  unfolding public_key_decode uint64_decode
  tenderize_decode d = do
    let at = r.field_offset tenderize_layout
    version ← r.u8_decode d (at 0)
    owner ← public_key_decode d (at 1)
    padding ← r.blob_decode 2 d (at 2)
    validator_stake_list ← public_key_decode d (at 3)
    credit_list ← public_key_decode d (at 4)
    pool_mint ← public_key_decode d (at 5)
    owner_fee_account ← public_key_decode d (at 6)
    credit_reserve ← public_key_decode d (at 7)
    token_program ← public_key_decode d (at 8)
    padding' ← r.blob_decode 5 d (at 9)
    stake_total ← uint64_decode d (at 10)
    pool_total ← uint64_decode d (at 11)
    last_epoch_update ← uint64_decode d (at 12)
    fee_denominator ← uint64_decode d (at 13)
    fee_numerator ← uint64_decode d (at 14)
    ok (record {
      version = version;
      owner = owner;
      validator_stake_list = validator_stake_list;
      credit_list = credit_list;
      pool_mint = pool_mint;
      owner_fee_account = owner_fee_account;
      credit_reserve = credit_reserve;
      token_program = token_program;
      stake_total = stake_total;
      pool_total = pool_total;
      last_epoch_update = last_epoch_update;
      fee_denominator = fee_denominator;
      fee_numerator = fee_numerator;
    })

  -- Nothing is parsed of a missing account, or of one without contents.
  unfoldable pub parse_contents : K → AccountInfo → Buffer → Result (Option (ParsedTenderize l K))
  unfolding tenderize_decode
  parse_contents pubkey info [] = ok none
  parse_contents pubkey info (b ∷ bs) = do
    decoded ← tenderize_decode (b ∷ bs)
    ok (some (record { pubkey = pubkey; account = info; info = decoded }))

  unfoldable pub tenderize_parser : K → Option AccountInfo → Result (Option (ParsedTenderize l K))
  unfolding parse_contents
  tenderize_parser pubkey none = ok none
  tenderize_parser pubkey (some info) = parse_contents pubkey info info.contents
