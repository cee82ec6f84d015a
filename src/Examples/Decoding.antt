-- ===== src/Examples/Decoding.antt =====
-- The decoders of src/utils/layout.ts with concrete libraries.
use marinade_tenderize_from.Prelude.{
  ℕ, zero, suc, ◌+◌, ◌/◌, ◌^◌, ◌≡◌, ◌<◌, ◌≤◌, refl, ◌∙◌, inl, inr, Option, none, some, false, List,
  [], ◌∷◌, ◌++◌, arith, ltb, if◌then◌else◌, length, take, replicate, flatten, All, All-append,
  lt→ltb, Bool-cases, ap,
}
use native.Mathlib.Nat.{pow-suc, zero-add}
use marinade_tenderize_from.Effect.{ok}
use marinade_tenderize_from.Buffer.{◌>>=◌, slice, copy, le_bytes, of_le, read_uint_le, write_uint8}
use marinade_tenderize_from.Buffer.Bytes.{length-le_bytes, of_le-le_bytes}
use marinade_tenderize_from.Web3.{AccountInfo}
use marinade_tenderize_from.Pool.Reading.{state_of}
use marinade_tenderize_from.Web.Layout.{
  Libraries, LibraryLaws, reversed, tenderize_layout, span, uint64_encode, uint128_encode,
}
use marinade_tenderize_from.Web.Decode.{
  Decoders, DecoderLaws, ParsedTenderize, of_hex, uint64_decode, uint128_decode, tenderize_parser,
}
use marinade_tenderize_from.Web.Numbers.{IsNumberAt, uint_round_trip}
use marinade_tenderize_from.Web.Agreement.{as_found, IsOf, tenderize_parser-state_of}
use marinade_tenderize_from.Web.Provider.{
  ProviderEvent, replied, failed, changed, last_arrived, provider_run, provider_run-state_of,
}
use marinade_tenderize_from.Examples.Builders.{in_order}
use marinade_tenderize_from.Examples.Network.{
  Key, key, calm_network, client, start, state_parts, state_contents,
}

-- How many bytes a number is written in: seven below 2 ^ 53.
unfoldable width : ℕ → ℕ
width n = if ltb n (2 ^ 53) then 7 else n

self_lt : (n : ℕ) → n < 256 ^ n
self_lt zero = omega arith
self_lt (suc n) = omega (arith, self_lt n, pow-suc 256 n)

width_fits : (n : ℕ) → n < 256 ^ width n
unfolding width
width_fits n = elim (Bool-cases (ltb n (2 ^ 53))) [
  | inl e ↦ rw e (ground arith)
  | inr e ↦ rw e (self_lt n)
]

reversed-append : (bs : List ℕ) (b : ℕ) → reversed (bs ++ (b ∷ [])) ≡ b ∷ reversed bs
unfolding reversed
reversed-append [] b = refl
reversed-append (c ∷ bs) b = rw (reversed-append bs b) refl

reversed-reversed : (bs : List ℕ) → reversed (reversed bs) ≡ bs
unfolding reversed
reversed-reversed [] = refl
reversed-reversed (b ∷ bs) =
    reversed-append (reversed bs) b ∙ ap (λ l. b ∷ l) (reversed-reversed bs)

le_bytes-IsByte : (size n : ℕ) → All (λ b. b < 256) (le_bytes size n)
unfolding le_bytes
le_bytes-IsByte zero n = tt
le_bytes-IsByte (suc size) n = (omega arith, le_bytes-IsByte size (n / 256))

abbrev wide_libraries : Libraries
wide_libraries = record {
  BigNumber = ℕ;
  new_big_number = λ n. n;
  to_array = λ n. reversed (le_bytes (width n) n);
  u8_encode = λ b d p. write_uint8 b p d >>= λ r. ok r.1;
  blob_encode = λ size bs d p. ok (copy bs d p).1;
  struct_encode = λ fields d. in_order fields 0 d;
}

wide_value : (n : ℕ) → of_le (reversed (reversed (le_bytes (width n) n))) ≡ n
wide_value n =
    rw (reversed-reversed (le_bytes (width n) n)) (of_le-le_bytes (width n) n (width_fits n))

wide_short : (n : ℕ) → n < 2 ^ 53 → length (reversed (reversed (le_bytes (width n) n))) ≤ 8
unfolding width
wide_short n h =
    rw (reversed-reversed (le_bytes (width n) n), length-le_bytes (width n) n, lt→ltb n (2 ^ 53) h)
      (omega arith)

wide_bytes : (n : ℕ) → All (λ b. b < 256) (reversed (reversed (le_bytes (width n) n)))
wide_bytes n = rw (reversed-reversed (le_bytes (width n) n)) (le_bytes-IsByte (width n) n)

wide_laws : LibraryLaws wide_libraries
wide_laws = record {
  array-value = λ n h. wide_value n;
  array-short = wide_short;
  u8_encode-writes = λ b p d d' p' h. rw h refl;
  blob_encode-copies = λ size bs d p e h. refl;
  struct_encode-fields = λ s s' e e' d. rw (zero-add s) refl;
}

abbrev decoders : Decoders wide_libraries Key
decoders = record {
  u8_decode = read_uint_le 1;
  blob_decode = λ n d p. ok (slice d p (p + n));
  field_offset = λ ss i. span (take i ss);
  big_number_of_hex = λ digits. of_hex 0 digits;
  new_public_key = λ bs. key (of_le bs);
}

decoder_laws : DecoderLaws decoders
decoder_laws = record {
  u8_decode-reads = λ d p h. refl;
  blob_decode-slices = λ n d p h. refl;
  field_offset-sums = λ ss i. refl;
  big_number_of_hex-value = λ digits h. wide_value (of_hex 0 digits);
  array-bytes = wide_bytes;
}

uint_round_trip_example :
    IsNumberAt wide_laws decoders decoder_laws 8 1000 2
      (replicate 12 9)
      (uint64_encode wide_libraries 1000 (replicate 12 9) 2)
      (uint64_decode wide_libraries decoders)
    × IsNumberAt wide_laws decoders decoder_laws 16 1000 2
        (replicate 18 9)
        (uint128_encode wide_libraries 1000 (replicate 18 9) 2)
        (uint128_decode wide_libraries decoders)
uint_round_trip_example =
    uint_round_trip wide_laws decoders decoder_laws 1000 2 (replicate 12 9) (replicate 18 9)
      (omega arith) (omega arith) (omega arith)

All-parts : (P : ℕ → Type 0) (xss : List (List ℕ)) → All (All P) xss → All P (flatten xss)
All-parts P [] h = tt
All-parts P (xs ∷ xss) (h, hs) = All-append P xs (flatten xss) h (All-parts P xss hs)

state_bytes : All (λ b. b < 256) state_contents
state_bytes = All-parts _ state_parts (
  (omega arith, tt),
  (
    le_bytes-IsByte 32 7,
    (
      (omega arith, (omega arith, tt)),
      (
        le_bytes-IsByte 32 2,
        (
          le_bytes-IsByte 32 3,
          (
            le_bytes-IsByte 32 4,
            (
              le_bytes-IsByte 32 5,
              (
                le_bytes-IsByte 32 6,
                (
                  le_bytes-IsByte 32 8,
                  (
                    (omega arith, (omega arith, (omega arith, (omega arith, (omega arith, tt))))),
                    (
                      le_bytes-IsByte 8 100,
                      (
                        le_bytes-IsByte 8 90,
                        (le_bytes-IsByte 8 3, (le_bytes-IsByte 8 100, (le_bytes-IsByte 8 3, tt))),
                      ),
                    ),
                  ),
                ),
              ),
            ),
          ),
        ),
      ),
    ),
  ),
)

abbrev pool_account : AccountInfo
pool_account = record { lamports = 1; owner_is_system = false; contents = state_contents }

state_size : span tenderize_layout ≤ length state_contents
unfolding le_bytes
state_size = omega arith

tenderize_parser-state_of_example :
    (parsed : Option (ParsedTenderize wide_libraries Key)) × (tenderize_parser wide_libraries
        decoders
        (key 1)
        (some pool_account)
      ≡ ok parsed)
    × (state_of calm_network client (some pool_account) start
        ≡ (ok (as_found calm_network wide_libraries parsed), start))
    × IsOf calm_network wide_libraries (key 1) (some pool_account) parsed
tenderize_parser-state_of_example =
    tenderize_parser-state_of calm_network wide_libraries decoders decoder_laws (λ bs. refl) client
      (key 1) (some pool_account) start (state_bytes, inr state_size)

-- The reply comes late, behind a change.
abbrev late_reply : List ProviderEvent
late_reply = changed pool_account ∷ replied none ∷ failed ∷ []

provider_run-state_of_example :
    state_of calm_network client (last_arrived late_reply none) start ≡ (
      ok (
          as_found calm_network wide_libraries
            (provider_run wide_libraries decoders (key 1) late_reply none)),
      start,
    )
provider_run-state_of_example =
    provider_run-state_of calm_network wide_libraries decoders decoder_laws (λ bs. refl) client
      (key 1) start late_reply ((state_bytes, inr state_size), (tt, (tt, tt)))
