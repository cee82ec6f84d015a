-- ===== src/Web/RoundTrip.antt =====
-- What the on-chain program reads from the instructions of src/models/lending.
use marinade_tenderize_from.Prelude.{
  ℕ, zero, suc, ◌-◌, ◌%◌, ◌^◌, ◌≡◌, ◌<◌, ◌≤◌, refl, ap, ◌∙◌, some, List, [], ◌∷◌, ◌++◌, arith,
  length, replicate, take, length-append, length-replicate, append-nil, inl, inr, ◌==◌, ==→eq,
  Bool-cases,
}
use marinade_tenderize_from.Effect.{Result, ok}
use marinade_tenderize_from.Buffer.{alloc, le_bytes, of_le}
use marinade_tenderize_from.Buffer.Writes.{filled, copy-filled, write_uint_le-filled}
use marinade_tenderize_from.Web3.{TransactionInstruction}
use marinade_tenderize_from.OnChain.{
  deposit, withdraw, credit, StakePoolInstruction, unpack_u64, deserialize,
}
use marinade_tenderize_from.Web.Layout.{Libraries, LibraryLaws, reversed, padded, uint64_encode}
use marinade_tenderize_from.Web.Builders.{
  Ids, WebDepositParams, WebWithdrawParams, WebCreditParams, Tenderize, amount_data,
  web_deposit_instruction, web_withdraw_instruction, web_credit_instruction,
}

of_le-zeros : (bs : List ℕ) (n : ℕ) → of_le (bs ++ replicate n 0) ≡ of_le bs
unfolding of_le
of_le-zeros [] zero = refl
of_le-zeros [] (suc n) = omega (arith, of_le-zeros [] n)
of_le-zeros (b ∷ bs) n = omega (arith, of_le-zeros bs n)

take_whole : (n : ℕ) (xs : List ℕ) → length xs ≡ n → take n xs ≡ xs
take_whole zero [] h = refl
take_whole zero (x ∷ xs) h = absurd (omega arith)
take_whole (suc n) [] h = refl
take_whole (suc n) (x ∷ xs) h = ap (λ l. x ∷ l) (take_whole n xs (omega arith))

abbrev zeros : ℕ → List ℕ → List ℕ
zeros size bs = replicate (size - length bs) 0

-- The padded bytes have the value of the bytes.
pub padded_lem :
    (size : ℕ) (bs : List ℕ)
    → length bs ≤ size
    → (length (padded size bs) ≡ size) × (of_le (padded size bs) ≡ of_le bs)
unfolding padded
padded_lem size bs h = elim (Bool-cases (length bs == size)) [
  | inl e ↦ rw e (==→eq _ _ e, refl)
  | inr e ↦
      rw (e, copy-filled bs [] 0 size (size - length bs) refl (omega arith))
        (
          omega (
            arith,
            length-append bs (zeros size bs),
            length-replicate {A = ℕ} (size - length bs) 0,
          ),
          of_le-zeros bs (size - length bs),
        )
]

unpack_u64-value : (bs : List ℕ) → length bs ≡ 8 → unpack_u64 bs ≡ some (of_le bs)
unfolding unpack_u64
unpack_u64-value bs h = rw (h, take_whole 8 bs h) refl

module _ (l : Libraries) (laws : LibraryLaws l) where
  -- The bytes of an instruction.
  amount_data_lem :
      (opcode amount : ℕ)
      → opcode < 256
      → amount < 2 ^ 53
      → (bs : List ℕ) × (amount_data l opcode amount ≡ ok (opcode ∷ bs))
        × (unpack_u64 bs ≡ some amount)
  unfolding amount_data uint64_encode le_bytes
  amount_data_lem opcode amount o a =
      let raw : List ℕ = reversed (l.to_array (l.new_big_number amount)) in
      let bs : List ℕ = padded 8 raw in
      let (size, value) = padded_lem 8 raw (laws.array-short amount a) in
      let byte : opcode % 256 ≡ opcode = omega arith in
      let opened : l.u8_encode opcode (alloc 9) 0 ≡ ok ((opcode % 256) ∷ replicate 8 0) =
        laws.u8_encode-writes opcode 0 _ _ _ (write_uint_le-filled 1 opcode 0 9 8 [] o refl refl) in
      let closed : l.blob_encode 8 bs ((opcode % 256) ∷ replicate 8 0) 1
          ≡ ok (filled ((opcode % 256) ∷ bs) 0) =
        laws.blob_encode-copies 8 bs _ 1 size (omega arith)
        ∙ ap (λ r. ok r.1)
            (copy-filled bs ((opcode % 256) ∷ []) 1 8 0 refl (omega (arith, size))) in
      (
        bs,
        laws.struct_encode-fields _ _ _ _ _ ∙ (rw (opened, closed, byte, append-nil) refl),
        unpack_u64-value bs size ∙ ap some (value ∙ laws.array-value amount a),
      )

  module _ {K : Type 0} (ids : Ids K) where
    -- The instruction is built, and read on chain as `i`.
    abbrev pub IsReadOnChain : Result (TransactionInstruction K) → StakePoolInstruction → Type 0
    IsReadOnChain built i =
        (ix : TransactionInstruction K) × (built ≡ ok ix) × (deserialize ix.payload ≡ some i)

    -- Under the documented behaviour of the libraries, a deposit, a withdrawal and a credit of an
    -- amount below 2 ^ 53 are built, and read on chain as what they are, of that amount.
    pub web_round_trip :
        (d : WebDepositParams K) (t : WebWithdrawParams K) (c : WebCreditParams K)
        (pool : Tenderize K)
        → d.amount < 2 ^ 53
        → t.amount < 2 ^ 53
        → c.amount < 2 ^ 53
        → IsReadOnChain (web_deposit_instruction l ids d) (deposit d.amount)
          × IsReadOnChain (web_withdraw_instruction l ids t pool) (withdraw t.amount)
          × IsReadOnChain (web_credit_instruction l ids c pool) (credit c.amount)
    unfolding web_deposit_instruction web_withdraw_instruction web_credit_instruction deserialize
    web_round_trip d t c pool hd ht hc =
        let (ds, made_d, read_d) = amount_data_lem 6 d.amount (omega arith) hd in
        let (ts, made_t, read_t) = amount_data_lem 7 t.amount (omega arith) ht in
        let (cs, made_c, read_c) = amount_data_lem 10 c.amount (omega arith) hc in
        (
          rw made_d (_, refl, rw read_d refl),
          rw made_t (_, refl, rw read_t refl),
          rw made_c (_, refl, rw read_c refl),
        )
