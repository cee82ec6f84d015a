-- ===== src/Ledger/Adapter/Phases.antt =====
-- The phases of the Ledger wallet (src/wallet-adapters/ledger/index.tsx) where `connect` and `disconnect`
-- are called one after the other.
use marinade_tenderize_from.Prelude.{
  ℕ, zero, suc, ◌≡◌, refl, sym, ap, ◌∙◌, Bool, true, false, Option, none, some, List, [], ◌∷◌, All,
  taken, Parts, taken-Parts, if◌then◌else◌,
}
use marinade_tenderize_from.Ledger.Adapter.{
  Caller, user, connect_failed, Task, creating, asking, closing, settling, signing, Adapter,
  awaiting, returned, disconnect_from, sign_with, add_signature,
}

module _ {K T : Type 0} (key_of : T → K) where
  -- The key is that of the device at the open transport.
  abbrev pub IsKeyOf : Option K → Option T → Type 0
  IsKeyOf none o = Unit
  IsKeyOf (some k) none = ⊥
  IsKeyOf (some k) (some t) = k ≡ key_of t

  abbrev pub IsOwnSignature : K × T → Type 0
  IsOwnSignature (k, t) = k ≡ key_of t

  -- A device that signs is the one whose key is shown, if one is.
  abbrev pub IsCurrent : Option K → Option T → T → Type 0
  IsCurrent none o t = Unit
  IsCurrent (some k) o t = o ≡ some t

  abbrev pub IsLate : Option K → Option T → Task T → Type 0
  IsLate k o creating = ⊥
  IsLate k o (asking t) = ⊥
  IsLate k o (closing by) = Unit
  IsLate k o settling = Unit
  IsLate k o (signing t) = IsCurrent k o t

  pub data Phase (a : Adapter K T) : Type 0 where
    opening : a.tasks ≡ creating ∷ [] → a.public_key ≡ none → a.transport ≡ none → Phase a
    opened :
        (t : T) → a.tasks ≡ asking t ∷ [] → a.public_key ≡ none → a.transport ≡ some t → Phase a
    late :
        All (IsLate a.public_key a.transport) a.tasks → IsKeyOf a.public_key a.transport → Phase a

  pub record Holds (a : Adapter K T) : Type 0 where
    pub phase : Phase a
    pub own : All IsOwnSignature a.signatures

  -- Without a key, any device may sign: no signature is added.
  IsLate-none : (k : Option K) (o o' : Option T) (t : Task T) → IsLate k o t → IsLate none o' t
  IsLate-none k o o' creating h = h
  IsLate-none k o o' (asking t) h = h
  IsLate-none k o o' (closing by) h = tt
  IsLate-none k o o' settling h = tt
  IsLate-none k o o' (signing t) h = tt

  pub All-none :
      (k : Option K) (o o' : Option T) (ts : List (Task T))
      → All (IsLate k o) ts
      → All (IsLate none o') ts
  All-none k o o' [] h = tt
  All-none k o o' (t ∷ ts) (h, hs) = (IsLate-none k o o' t h, All-none k o o' ts hs)

  pub taken-IsLate :
      (k : Option K) (o : Option T) (ts : List (Task T)) (i : ℕ) (t : Task T) (rest : List (Task T))
      → taken ts i ≡ some (t, rest)
      → All (IsLate k o) ts
      → IsLate k o t × All (IsLate k o) rest
  taken-IsLate k o ts i t rest e h =
      let parts : Parts (IsLate k o) (taken ts i) = taken-Parts (IsLate k o) ts i h in rw e at parts

  -- The only task is taken.
  pub taken_only :
      (x : Task T) (i : ℕ) (t : Task T) (rest : List (Task T))
      → taken (x ∷ []) i ≡ some (t, rest)
      → (x ≡ t) × (rest ≡ [])
  taken_only x zero t rest e = (cc e, cc e)
  taken_only x (suc i) t rest e = absurd (cc e)

  IsKeyOf-none : (k : Option K) (o : Option T) → o ≡ none → IsKeyOf k o → k ≡ none
  IsKeyOf-none none o e h = refl
  IsKeyOf-none (some k) none e h = absurd h
  IsKeyOf-none (some k) (some t) e h = absurd (cc e)

  own_key :
      (k : K) (o : Option T) (t : T) → IsCurrent (some k) o t → IsKeyOf (some k) o → k ≡ key_of t
  own_key k none t e h = absurd h
  own_key k (some t') t e h = let same : t' ≡ t = cc e in h ∙ ap key_of same

  pub rest-IsKeyOf : (a : Adapter K T) → Phase a → a.tasks ≡ [] → IsKeyOf a.public_key a.transport
  rest-IsKeyOf a (opening e k o) r = absurd (cc (e, r))
  rest-IsKeyOf a (opened t e k o) r = absurd (cc (e, r))
  rest-IsKeyOf a (late h k) r = k

  pub late-Holds :
      (a : Adapter K T)
      → All (IsLate a.public_key a.transport) a.tasks
      → IsKeyOf a.public_key a.transport
      → All IsOwnSignature a.signatures
      → Holds a
  late-Holds a h k own = record { phase = late h k; own = own }

  -- what `disconnect` leaves is in the last phase
  pub returned-Holds :
      (by : Caller) (a : Adapter K T)
      → All (IsLate a.public_key a.transport) a.tasks
      → IsKeyOf a.public_key a.transport
      → All IsOwnSignature a.signatures
      → Holds (returned key_of by a)
  unfolding returned awaiting
  returned-Holds user a h k own = late-Holds a h k own
  returned-Holds connect_failed a h k own = late-Holds _ (tt, h) k own

  pub disconnect_from-Holds :
      (o : Option T) (by : Caller) (a : Adapter K T)
      → a.tasks ≡ []
      → IsKeyOf a.public_key a.transport
      → All IsOwnSignature a.signatures
      → (o ≡ none → a.transport ≡ none)
      → Holds (disconnect_from key_of o by a)
  unfolding disconnect_from awaiting
  disconnect_from-Holds (some t) by a e k own n = late-Holds _ (tt, rw e tt) k own
  disconnect_from-Holds none by a e k own n =
      returned-Holds by (record a { connecting = false; public_key = none }) (rw e tt) tt own

  pub connect_if-Holds :
      (b : Bool) (a : Adapter K T)
      → a.tasks ≡ []
      → a.transport ≡ none
      → IsKeyOf a.public_key a.transport
      → All IsOwnSignature a.signatures
      → Holds (if b then a else awaiting key_of creating (record a { connecting = true }))
  unfolding awaiting
  connect_if-Holds true a e o k own = late-Holds a (rw e tt) k own
  connect_if-Holds false a e o k own = record {
    phase = opening (ap (λ ts. creating ∷ ts) e) (IsKeyOf-none a.public_key a.transport o k) o;
    own = own;
  }

  pub sign_with-Holds :
      (o : Option T) (k : Option K) (a b : Adapter K T)
      → o ≡ a.transport
      → k ≡ a.public_key
      → sign_with key_of o k a ≡ some b
      → Holds a
      → Holds b
  unfolding sign_with awaiting
  sign_with-Holds (some t) (some k) a b o p e h =
      let same : awaiting key_of (signing t) a ≡ b = cc e in rw (← same) (signing_phase h.phase)
    where
      signing_phase : Phase a → Holds (awaiting key_of (signing t) a)
      signing_phase (opening f q r) = absurd (cc (p, q))
      signing_phase (opened t' f q r) = absurd (cc (p, q))
      signing_phase (late l q) = late-Holds _ (rw (← p) (sym o), l) q h.own
  sign_with-Holds (some t) none a b o p e h = absurd (cc e)
  sign_with-Holds none k a b o p e h = absurd (cc e)

  pub add_signature-Holds :
      (k : Option K) (t : T) (a : Adapter K T)
      → IsCurrent k a.transport t
      → k ≡ a.public_key
      → All (IsLate a.public_key a.transport) a.tasks
      → IsKeyOf a.public_key a.transport
      → All IsOwnSignature a.signatures
      → Holds (add_signature key_of k t a)
  unfolding add_signature
  add_signature-Holds none t a c p h k own = late-Holds a h k own
  add_signature-Holds (some key) t a c p h k own =
      late-Holds _ h k (own_key key a.transport t c (rw p k), own)
