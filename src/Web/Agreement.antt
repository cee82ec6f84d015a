-- ===== src/Web/Agreement.antt =====
-- TenderizeParser of src/models/lending/tenderize.ts and parseState of experiment/tenderize.ts on the
-- same account.
use marinade_tenderize_from.Prelude.{
  ℕ, ◌+◌, ◌≡◌, ◌≤◌, ◌⊎◌, inl, inr, refl, ◌∙◌, ap, Option, none, some, List, [], ◌∷◌, arith, length,
  take, All, le→leb,
}
use marinade_tenderize_from.Effect
use marinade_tenderize_from.Effect.{Result, ok, pure, lift}
use marinade_tenderize_from.Buffer.{Buffer, slice, of_le, read_uint_le}
use marinade_tenderize_from.Web3.{Web3, AccountInfo}
use marinade_tenderize_from.Pool.Types.{State}
use marinade_tenderize_from.Pool.Client.{Program, Session}
use marinade_tenderize_from.Pool.Accounts.{parse_state}
use marinade_tenderize_from.Pool.Reading.{state_of, state_of_contents}
use marinade_tenderize_from.Web.Layout.{Libraries, tenderize_layout, span}
use marinade_tenderize_from.Web.Decode.{
  Decoders, DecoderLaws, TenderizeInfo, ParsedTenderize, value, public_key_decode, uint64_decode,
  tenderize_decode, parse_contents, tenderize_parser,
}
use marinade_tenderize_from.Web.Hex.{IsByte, IsDecoded, uint64_decode_lem}

read_uint_le-inside :
    (size : ℕ) (d : Buffer) (p : ℕ)
    → p + size ≤ length d
    → read_uint_le size d p ≡ ok (of_le (slice d p (p + size)))
unfolding read_uint_le
read_uint_le-inside size d p h = rw (le→leb (p + size) (length d) h) refl

module _ (w : Web3) (l : Libraries) where
  open w use {PublicKey}

  -- The state of the client, from that of the web application: its numbers by their values.
  abbrev pub as_state : TenderizeInfo l PublicKey → State PublicKey
  as_state t = record {
    version = t.version;
    owner = t.owner;
    validator_stake_list = t.validator_stake_list;
    credit_list = t.credit_list;
    pool_mint = t.pool_mint;
    owner_fee_account = t.owner_fee_account;
    credit_reserve = t.credit_reserve;
    token_program = t.token_program;
    stake_total = value l t.stake_total;
    pool_total = value l t.pool_total;
    last_epoch_update = value l t.last_epoch_update;
    fee_denominator = value l t.fee_denominator;
    fee_numerator = value l t.fee_numerator;
  }

  abbrev pub as_found : Option (ParsedTenderize l PublicKey) → Option (State PublicKey)
  as_found none = none
  as_found (some t) = some (as_state t.info)

  -- No account, an account without contents, or one with bytes for the whole layout.
  abbrev pub IsWhole : Option AccountInfo → Type 0
  IsWhole none = Unit
  IsWhole (some info) =
      All IsByte info.contents
      × ((info.contents ≡ []) ⊎ (span tenderize_layout ≤ length info.contents))

  abbrev pub IsOf : PublicKey → Option AccountInfo → Option (ParsedTenderize l PublicKey) → Type 0
  IsOf pubkey account none = Unit
  IsOf pubkey account (some t) = (t.pubkey ≡ pubkey) × (some t.account ≡ account)

  module _ (r : Decoders l PublicKey) (laws : DecoderLaws r)
      (same_key : (bs : List ℕ) → r.new_public_key bs ≡ w.new_public_key bs) where
    key_at :
        (d : Buffer) (i p : ℕ)
        → span (take i tenderize_layout) ≡ p
        → p + 32 ≤ length d
        → public_key_decode l r d (r.field_offset tenderize_layout i)
          ≡ ok (w.new_public_key (slice d p (p + 32)))
    unfolding public_key_decode
    key_at d i p e h =
        rw
          (
            laws.field_offset-sums tenderize_layout i,
            e,
            laws.blob_decode-slices 32 d p h,
            same_key (slice d p (p + 32)),
          )
          refl

    blob_at :
        (d : Buffer) (i p n : ℕ)
        → span (take i tenderize_layout) ≡ p
        → p + n ≤ length d
        → r.blob_decode n d (r.field_offset tenderize_layout i) ≡ ok (slice d p (p + n))
    blob_at d i p n e h =
        rw (laws.field_offset-sums tenderize_layout i, e, laws.blob_decode-slices n d p h) refl

    number_at :
        (d : Buffer) (i p : ℕ)
        → All IsByte d
        → span (take i tenderize_layout) ≡ p
        → p + 8 ≤ length d
        → IsDecoded r laws 8 d p (uint64_decode l r d (r.field_offset tenderize_layout i))
    number_at d i p bytes e h =
        rw (laws.field_offset-sums tenderize_layout i, e) (uint64_decode_lem r laws d p bytes h)

    -- What both read from contents of the whole layout
    tenderize_decode-parse_state :
        (d : Buffer)
        → All IsByte d
        → span tenderize_layout ≤ length d
        → (t : TenderizeInfo l PublicKey) × (tenderize_decode l r d ≡ ok t)
          × (parse_state w d ≡ ok (as_state t))
    unfolding tenderize_decode parse_state
    tenderize_decode-parse_state d bytes h =
        let version : r.u8_decode d (r.field_offset tenderize_layout 0) ≡ ok (of_le (slice d 0 1)) =
          ap (λ at. r.u8_decode d at) (laws.field_offset-sums tenderize_layout 0)
          ∙ laws.u8_decode-reads d 0 (omega (arith, h))
          ∙ read_uint_le-inside 1 d 0 (omega (arith, h)) in
        let (total, decoded_total, is_total) = number_at d 10 232 bytes refl (omega (arith, h)) in
        let (pool, decoded_pool, is_pool) = number_at d 11 240 bytes refl (omega (arith, h)) in
        let (epoch, decoded_epoch, is_epoch) = number_at d 12 248 bytes refl (omega (arith, h)) in
        let (denominator, decoded_denominator, is_denominator) =
          number_at d 13 256 bytes refl (omega (arith, h)) in
        let (numerator, decoded_numerator, is_numerator) =
          number_at d 14 264 bytes refl (omega (arith, h)) in
        let key : ℕ → PublicKey = λ p. w.new_public_key (slice d p (p + 32)) in
        (
          record {
            version = of_le (slice d 0 1);
            owner = key 1;
            validator_stake_list = key 35;
            credit_list = key 67;
            pool_mint = key 99;
            owner_fee_account = key 131;
            credit_reserve = key 163;
            token_program = key 195;
            stake_total = total;
            pool_total = pool;
            last_epoch_update = epoch;
            fee_denominator = denominator;
            fee_numerator = numerator;
          },
          rw
              (
                version,
                key_at d 1 1 refl (omega (arith, h)),
                blob_at d 2 33 2 refl (omega (arith, h)),
                key_at d 3 35 refl (omega (arith, h)),
                key_at d 4 67 refl (omega (arith, h)),
                key_at d 5 99 refl (omega (arith, h)),
                key_at d 6 131 refl (omega (arith, h)),
                key_at d 7 163 refl (omega (arith, h)),
                key_at d 8 195 refl (omega (arith, h)),
                blob_at d 9 227 5 refl (omega (arith, h)),
                decoded_total,
                decoded_pool,
                decoded_epoch,
                decoded_denominator,
                decoded_numerator,
              )
              refl,
          rw
              (
                read_uint_le-inside 1 d 0 (omega (arith, h)),
                read_uint_le-inside 8 d 232 (omega (arith, h)),
                read_uint_le-inside 8 d 240 (omega (arith, h)),
                read_uint_le-inside 8 d 248 (omega (arith, h)),
                read_uint_le-inside 8 d 256 (omega (arith, h)),
                read_uint_le-inside 8 d 264 (omega (arith, h)),
                is_total,
                is_pool,
                is_epoch,
                is_denominator,
                is_numerator,
              )
              refl,
        )

    contents_lem :
        (prog : Program w) (pubkey : PublicKey) (info : AccountInfo) (d : Buffer) (s : Session w)
        → All IsByte d
        → (d ≡ []) ⊎ (span tenderize_layout ≤ length d)
        → (parsed : Option (ParsedTenderize l PublicKey)) × (parse_contents l r pubkey info d
            ≡ ok parsed)
          × (state_of_contents w prog d s ≡ (ok (as_found parsed), s))
          × IsOf pubkey (some info) parsed
    unfolding parse_contents state_of_contents pure lift Effect.◌>>=◌
    contents_lem prog pubkey info [] s bytes whole = (none, refl, refl, tt)
    contents_lem prog pubkey info (b ∷ bs) s bytes (inl e) = absurd (cc e)
    contents_lem prog pubkey info (b ∷ bs) s bytes (inr h) =
        let (t, decoded, parsed) = tenderize_decode-parse_state (b ∷ bs) bytes h in
        (
          some (record { pubkey = pubkey; account = info; info = t }),
          rw decoded refl,
          rw parsed refl,
          (refl, refl),
        )

    -- Where both read the same key from 32 bytes and the libraries do as documented, and where the
    -- account is missing, empty, or has bytes for the whole layout: TenderizeParser gives what
    -- parseState of the client gives, with the same keys and numbers, and nothing where the client
    -- reads nothing. It is of the address and the account that it was called with.
    pub tenderize_parser-state_of :
        (prog : Program w) (pubkey : PublicKey) (account : Option AccountInfo) (s : Session w)
        → IsWhole account
        → (parsed : Option (ParsedTenderize l PublicKey)) × (tenderize_parser l r pubkey account
            ≡ ok parsed)
          × (state_of w prog account s ≡ (ok (as_found parsed), s))
          × IsOf pubkey account parsed
    unfolding tenderize_parser state_of pure
    tenderize_parser-state_of prog pubkey none s h = (none, refl, refl, tt)
    tenderize_parser-state_of prog pubkey (some info) s (bytes, whole) =
        contents_lem prog pubkey info info.contents s bytes whole
