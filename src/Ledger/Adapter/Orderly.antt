-- ===== src/Ledger/Adapter/Orderly.antt =====
-- The Ledger wallet (src/wallet-adapters/ledger/index.tsx) where `connect` and `disconnect` are called
-- one after the other.
use marinade_tenderize_from.Prelude.{
  ℕ, ◌≡◌, refl, sym, ap, ◌∙◌, none, some, List, [], ◌∷◌, All, taken,
}
use marinade_tenderize_from.Web3.{Reply, fulfilled, refused}
use marinade_tenderize_from.Ledger.Adapter.{
  Caller, user, connect_failed, Task, creating, asking, closing, settling, signing, Adapter,
  new_adapter, awaiting, connect, disconnect, sign_transaction, created, asked, closed, settled,
  signed, without, Step, connects, disconnects, signs, creates, asks, closes, settles, adds, Runs,
  done, next,
}
use marinade_tenderize_from.Ledger.Adapter.Phases.{
  IsKeyOf, IsOwnSignature, IsCurrent, IsLate, Phase, Holds, taken-IsLate, taken_only, rest-IsKeyOf,
  late-Holds, returned-Holds, disconnect_from-Holds, connect_if-Holds, sign_with-Holds,
  add_signature-Holds, All-none, opening, opened, late,
}

module _ {K T : Type 0} (key_of : T → K) where
  -- `connect` is called of an adapter at rest that has no transport, `disconnect` of one at rest.
  abbrev pub IsOrderlyStep : (a b : Adapter K T) → Step key_of a b → Type 0
  IsOrderlyStep a b (connects e) = (a.tasks ≡ []) × (a.transport ≡ none)
  IsOrderlyStep a b (disconnects e) = a.tasks ≡ []
  IsOrderlyStep a b _ = Unit

  abbrev pub IsOrderly : {a b : Adapter K T} → Runs key_of a b → Type 0
  IsOrderly done = Unit
  IsOrderly (next {b} {c} run step) = IsOrderly run × IsOrderlyStep b c step

  created-Holds :
      (reply : Reply T) (a : Adapter K T)
      → a.tasks ≡ []
      → a.public_key ≡ none
      → a.transport ≡ none
      → All (IsOwnSignature key_of) a.signatures
      → Holds key_of (created key_of reply a)
  unfolding created awaiting disconnect
  created-Holds (fulfilled t) a e k o own = record {
    phase = opened t (ap (λ ts. asking t ∷ ts) e) k refl;
    own = own;
  }
  created-Holds refused a e k o own =
      disconnect_from-Holds key_of a.transport connect_failed a e (rw k tt) own (λ n. n)

  asked-Holds :
      (t : T) (reply : Reply (Unit {0})) (a : Adapter K T)
      → a.tasks ≡ []
      → a.public_key ≡ none
      → a.transport ≡ some t
      → All (IsOwnSignature key_of) a.signatures
      → Holds key_of (asked key_of t reply a)
  unfolding asked disconnect
  asked-Holds t (fulfilled u) a e k o own = late-Holds key_of _ (rw e tt) (rw o refl) own
  asked-Holds t refused a e k o own =
      disconnect_from-Holds key_of a.transport connect_failed a e (rw k tt) own (λ n. n)

  closed-Holds :
      (by : Caller) (reply : Reply (Unit {0})) (a : Adapter K T)
      → All (IsLate key_of a.public_key a.transport) a.tasks
      → IsKeyOf key_of a.public_key a.transport
      → All (IsOwnSignature key_of) a.signatures
      → Holds key_of (closed key_of by reply a)
  unfolding closed
  closed-Holds by (fulfilled u) a h k own =
      returned-Holds key_of by _ (All-none key_of a.public_key a.transport none a.tasks h) tt own
  closed-Holds by refused a h k own = returned-Holds key_of by a h k own

  signed-Holds :
      (t : T) (reply : Reply (Unit {0})) (a : Adapter K T)
      → IsCurrent key_of a.public_key a.transport t
      → All (IsLate key_of a.public_key a.transport) a.tasks
      → IsKeyOf key_of a.public_key a.transport
      → All (IsOwnSignature key_of) a.signatures
      → Holds key_of (signed key_of t reply a)
  unfolding signed
  signed-Holds t (fulfilled u) a c h k own =
      add_signature-Holds key_of a.public_key t a c refl h k own
  signed-Holds t refused a c h k own = late-Holds key_of a h k own

  -- A task that is taken tells the phase.
  only_task :
      (a : Adapter K T) (x : Task T) (i : ℕ) (t : Task T) (rest : List (Task T))
      → a.tasks ≡ x ∷ []
      → taken a.tasks i ≡ some (t, rest)
      → (x ≡ t) × (rest ≡ [])
  only_task a x i t rest q e = taken_only key_of x i t rest (rw q at e)

  creates-Holds :
      (a : Adapter K T) (i : ℕ) (rest : List (Task T)) (reply : Reply T)
      → taken a.tasks i ≡ some (creating, rest)
      → Phase key_of a
      → All (IsOwnSignature key_of) a.signatures
      → Holds key_of (created key_of reply (without key_of rest a))
  creates-Holds a i rest reply e (opening q k o) own =
      created-Holds reply (without key_of rest a) (only_task a creating i creating rest q e).1 k o
        own
  creates-Holds a i rest reply e (opened t q k o) own =
      let same : asking t ≡ creating = (only_task a (asking t) i creating rest q e).0 in
      absurd (cc same)
  creates-Holds a i rest reply e (late h k) own =
      absurd (taken-IsLate key_of a.public_key a.transport a.tasks i creating rest e h).0

  asks-Holds :
      (a : Adapter K T) (i : ℕ) (rest : List (Task T)) (t : T) (reply : Reply (Unit {0}))
      → taken a.tasks i ≡ some (asking t, rest)
      → Phase key_of a
      → All (IsOwnSignature key_of) a.signatures
      → Holds key_of (asked key_of t reply (without key_of rest a))
  asks-Holds a i rest t reply e (opening q k o) own =
      let same : creating ≡ asking t = (only_task a creating i (asking t) rest q e).0 in
      absurd (cc same)
  asks-Holds a i rest t reply e (opened t' q k o) own =
      let (same, none_left) = only_task a (asking t') i (asking t) rest q e in
      let here : t' ≡ t = cc same in
      asked-Holds t reply (without key_of rest a) none_left k (o ∙ ap some here) own
  asks-Holds a i rest t reply e (late h k) own =
      absurd (taken-IsLate key_of a.public_key a.transport a.tasks i (asking t) rest e h).0

  -- The other tasks are those of the last phase.
  IsLate-rest :
      (a : Adapter K T) (i : ℕ) (t : Task T) (rest : List (Task T))
      → taken a.tasks i ≡ some (t, rest)
      → (t ≡ creating → ⊥)
      → ((d : T) → t ≡ asking d → ⊥)
      → Phase key_of a
      → (IsLate key_of a.public_key a.transport t
          × All (IsLate key_of a.public_key a.transport) rest)
        × IsKeyOf key_of a.public_key a.transport
  IsLate-rest a i t rest e nc na (opening q k o) =
      absurd (nc (sym (only_task a creating i t rest q e).0))
  IsLate-rest a i t rest e nc na (opened d q k o) =
      absurd (na d (sym (only_task a (asking d) i t rest q e).0))
  IsLate-rest a i t rest e nc na (late h k) =
      (taken-IsLate key_of a.public_key a.transport a.tasks i t rest e h, k)

  Step-Holds :
      (a b : Adapter K T) (step : Step key_of a b)
      → IsOrderlyStep a b step
      → Holds key_of a
      → Holds key_of b
  unfolding connect disconnect sign_transaction settled
  Step-Holds a b (connects e) (r, o) h =
      rw e (connect_if-Holds key_of a.connecting a r o (rest-IsKeyOf key_of a h.phase r) h.own)
  Step-Holds a b (disconnects e) r h = rw e (
      disconnect_from-Holds key_of a.transport user a r (rest-IsKeyOf key_of a h.phase r) h.own
        (λ n. n))
  Step-Holds a b (signs e) r h = sign_with-Holds key_of a.transport a.public_key a b refl refl e h
  Step-Holds a b (creates i rest reply e f) r h =
      rw f (creates-Holds a i rest reply e h.phase h.own)
  Step-Holds a b (asks i rest t reply e f) r h = rw f (asks-Holds a i rest t reply e h.phase h.own)
  Step-Holds a b (closes i rest by reply e f) r h =
      let (tasks, key) = IsLate-rest a i (closing by) rest e (λ q. cc q) (λ d q. cc q) h.phase in
      rw f (closed-Holds by reply (without key_of rest a) tasks.1 key h.own)
  Step-Holds a b (settles i rest e f) r h =
      let (tasks, key) = IsLate-rest a i settling rest e (λ q. cc q) (λ d q. cc q) h.phase in
      rw f (late-Holds key_of _ tasks.1 key h.own)
  Step-Holds a b (adds i rest t reply e f) r h =
      let (tasks, key) = IsLate-rest a i (signing t) rest e (λ q. cc q) (λ d q. cc q) h.phase in
      rw f (signed-Holds t reply (without key_of rest a) tasks.0 tasks.1 key h.own)

  Runs-Holds :
      (a : Adapter K T) (run : Runs key_of (new_adapter key_of) a) → IsOrderly run → Holds key_of a
  Runs-Holds a done o = late-Holds key_of _ tt tt tt
  Runs-Holds a (next {b} {c} run step) (o, os) = Step-Holds b a step os (Runs-Holds b run o)

  Phase-IsKeyOf : (a : Adapter K T) → Phase key_of a → IsKeyOf key_of a.public_key a.transport
  Phase-IsKeyOf a (opening q k o) = rw k tt
  Phase-IsKeyOf a (opened t q k o) = rw k tt
  Phase-IsKeyOf a (late h k) = k

  -- Where `connect` is called only of an adapter at rest without a transport, and `disconnect` only
  -- of one at rest, with signing at any time and any replies: the key that the adapter shows is that
  -- of the device at its open transport, and each signature stands beside the key of the device that
  -- signed.
  pub Runs-IsKeyOf :
      (a : Adapter K T) (run : Runs key_of (new_adapter key_of) a)
      → IsOrderly run
      → IsKeyOf key_of a.public_key a.transport × All (IsOwnSignature key_of) a.signatures
  Runs-IsKeyOf a run o = let h = Runs-Holds a run o in (Phase-IsKeyOf a h.phase, h.own)
