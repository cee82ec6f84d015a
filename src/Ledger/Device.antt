-- ===== src/Ledger/Device.antt =====
-- The commands to the device, and the requests made of them: ledgerSend, signBytes,
-- signTransaction and getPublicKey of src/wallet-adapters/ledger/core.ts.
use marinade_tenderize_from.Prelude.{
  ℕ, zero, suc, ◌+◌, ◌-◌, true, false, List, [], ◌∷◌, ◌++◌, ltb, ◌==◌, not, length, take, drop,
}
use marinade_tenderize_from.Effect.{
  Result, ok, err, rejected, unexpected_reply, M, pure, lift, throw_if, ◌>>=◌, ◌>>◌,
}
use marinade_tenderize_from.Buffer.{Buffer, alloc, slice, write_uint8}
use marinade_tenderize_from.Web3.{Reply, fulfilled, refused}
use marinade_tenderize_from.Ledger.Bits.{with_bit}

abbrev pub ins_get_pubkey : ℕ
ins_get_pubkey = 5

abbrev pub ins_sign_message : ℕ
ins_sign_message = 6

abbrev pub p1_non_confirm : ℕ
p1_non_confirm = 0

abbrev pub p1_confirm : ℕ
p1_confirm = 1

abbrev pub p2_extend : ℕ
p2_extend = 1

abbrev pub p2_more : ℕ
p2_more = 2

abbrev pub max_payload : ℕ
max_payload = 255

abbrev pub ledger_cla : ℕ
ledger_cla = 224

-- What transport.send takes.
pub record Command : Type 0 where
  pub cla : ℕ
  pub instruction : ℕ
  pub p1 : ℕ
  pub p2 : ℕ
  pub chunk : List ℕ

-- The device, as it stands when a command comes, and its reply.
module _ (Device : Type 0) (transport_send : Command → Device → Reply (List ℕ) × Device) where
  -- The device, and the commands that were sent, the last one last.
  pub record Session : Type 0 where
    pub device : Device
    pub sent : List Command

  unfoldable pub answered : {A : Type 0} → Reply A → Result A
  answered (fulfilled a) = ok a
  answered refused = err rejected

  unfoldable pub send : Command → M Session (List ℕ)
  unfolding answered
  send c s =
      let (r, device') = transport_send c s.device in
      (answered r, record { device = device'; sent = s.sent ++ (c ∷ []) })

  unfoldable pub command : ℕ → ℕ → ℕ → List ℕ → Command
  command instruction p1 p2 chunk = record {
    cla = ledger_cla;
    instruction = instruction;
    p1 = p1;
    p2 = p2;
    chunk = chunk;
  }

  -- `while (payload.length - payloadOffset > MAX_PAYLOAD)`: p2 and the offset behind it.
  unfoldable pub send_full : ℕ → ℕ → ℕ → List ℕ → ℕ → ℕ → M Session (ℕ × ℕ)
  unfolding send with_bit command
  send_full zero instruction p1 payload p2 offset = pure (p2, offset)
  send_full (suc fuel) instruction p1 payload p2 offset =
      elim (ltb max_payload (length payload - offset)) [
        | false ↦ pure (p2, offset)
        | true ↦ do
          reply ← send (
              command instruction p1 (with_bit p2_more p2)
                (slice payload offset (offset + max_payload)))
          throw_if (not (length reply == 2)) unexpected_reply
          send_full fuel instruction p1 payload (with_bit p2_extend p2) (offset + max_payload)
      ]

  -- A round for each byte of the payload is enough.
  unfoldable pub ledger_send : ℕ → ℕ → List ℕ → M Session (List ℕ)
  unfolding send_full send command
  ledger_send instruction p1 payload = do
    (p2, offset) ← send_full (length payload) instruction p1 payload 0 0
    reply ← send (command instruction p1 p2 (drop offset payload))
    pure (take (length reply - 2) reply)

  unfoldable pub sign_bytes : List ℕ → Buffer → M Session (List ℕ)
  unfolding ledger_send
  sign_bytes bytes derivation_path = do
    (p, num_paths) ← lift (write_uint8 1 0 (alloc 1))
    ledger_send ins_sign_message p1_confirm (num_paths ++ (derivation_path ++ bytes))

  -- `message` is what transaction.serializeMessage() gives.
  unfoldable pub sign_transaction : List ℕ → Buffer → M Session (List ℕ)
  unfolding sign_bytes
  sign_transaction message derivation_path = sign_bytes message derivation_path

  unfoldable pub get_public_key : {K : Type 0} → (List ℕ → K) → Buffer → M Session K
  unfolding ledger_send
  get_public_key new_public_key derivation_path = do
    bytes ← ledger_send ins_get_pubkey p1_non_confirm derivation_path
    pure (new_public_key bytes)
