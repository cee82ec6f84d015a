-- ===== src/Ledger/Delivery.antt =====
-- What the device is sent by src/wallet-adapters/ledger/core.ts: the whole payload, in order.
use marinade_tenderize_from.Prelude.{
  ℕ, ◌+◌, ◌-◌, ◌≤◌, ◌≡◌, List, [], ◌∷◌, ◌++◌, map, length, flatten, All, drop,
}
use marinade_tenderize_from.Effect.{Error, rejected, unexpected_reply}
use marinade_tenderize_from.Effect.Ensures.{Ensures}
use marinade_tenderize_from.Web3.{Reply}
use marinade_tenderize_from.Ledger.Device.{Command, Session, ledger_cla}

-- The flags of commands that more follow, and of the last one: each but the last has the flag 2,
-- each but the first the flag 1.
abbrev pub IsContinued : ℕ → List Command → Command → Type 0
IsContinued p2 [] last = last.p2 ≡ p2
IsContinued p2 (c ∷ cs) last = (c.p2 ≡ p2 + 2) × IsContinued 1 cs last

-- The same for the commands alone, up to the flags of the next one.
abbrev IsMore : ℕ → List Command → ℕ → Type 0
IsMore p2 [] next = p2 ≡ next
IsMore p2 (c ∷ cs) next = (c.p2 ≡ p2 + 2) × IsMore 1 cs next

abbrev pub chunks : List Command → List ℕ
chunks cs = flatten (map (λ c. c.chunk) cs)

-- A command of the request, and one with a chunk of 255 bytes.
abbrev pub IsFor : ℕ → ℕ → Command → Type 0
IsFor instruction p1 c = (c.cla ≡ ledger_cla) × (c.instruction ≡ instruction) × (c.p1 ≡ p1)

abbrev pub IsFull : ℕ → ℕ → Command → Type 0
IsFull instruction p1 c = IsFor instruction p1 c × (length c.chunk ≡ 255)

-- The errors: a request that is refused, and a reply that is none to a part.
abbrev pub IsDeviceError : Error → Type 0
IsDeviceError rejected = Unit
IsDeviceError unexpected_reply = Unit
IsDeviceError _ = ⊥

module _ (Device : Type 0) (transport_send : Command → Device → Reply (List ℕ) × Device) where
  module _ (instruction p1 : ℕ) (payload : List ℕ) where
    -- The commands behind `log` hold the payload from `offset` up to where the loop ended.
    abbrev Sent : List Command → ℕ → ℕ → ℕ × ℕ → Session Device transport_send → Type 0
    Sent log p2 offset r s =
        (cs : List Command) × (s.sent ≡ log ++ cs)
        × (chunks cs ++ drop r.1 payload ≡ drop offset payload)
        × All (IsFull instruction p1) cs
        × IsMore p2 cs r.0
        × (length payload - r.1 ≤ 255)

    -- The whole payload, in `cs` and `last` behind `log`.
    abbrev pub Delivered : List Command → List Command → Type 0
    Delivered log sent =
        (cs : List Command) × (last : Command) × (sent ≡ log ++ (cs ++ (last ∷ [])))
        × (chunks cs ++ last.chunk ≡ payload)
        × All (IsFull instruction p1) cs
        × IsFor instruction p1 last
        × (length last.chunk ≤ 255)
        × IsContinued 0 cs last
