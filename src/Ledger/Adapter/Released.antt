-- ===== src/Ledger/Adapter/Released.antt =====
-- `_connecting` of the Ledger wallet (src/wallet-adapters/ledger/index.tsx).
use marinade_tenderize_from.Prelude.{
  ℕ, ◌≡◌, Bool, true, false, inl, inr, Option, none, some, List, Any, taken, Part, taken-Part,
  if◌then◌else◌,
}
use marinade_tenderize_from.Web3.{fulfilled, refused}
use marinade_tenderize_from.Ledger.Adapter.{
  user, connect_failed, Task, creating, asking, closing, settling, signing, Adapter, new_adapter,
  awaiting, connect, returned, disconnect_from, disconnect, sign_with, sign_transaction, created,
  asked, closed, settled, add_signature, signed, without, Step, connects, disconnects, signs,
  creates, asks, closes, settles, adds, Runs, done, next,
}

-- A step of a call of `connect` is awaited.
abbrev pub IsOfConnect : {T : Type 0} → Task T → Type 0
IsOfConnect creating = Unit
IsOfConnect (asking transport) = Unit
IsOfConnect (closing user) = ⊥
IsOfConnect (closing connect_failed) = Unit
IsOfConnect settling = Unit
IsOfConnect (signing transport) = ⊥

module _ {K T : Type 0} (key_of : T → K) where
  abbrev IsReleased : Adapter K T → Type 0
  IsReleased a = a.connecting ≡ true → Any IsOfConnect a.tasks

  -- Any other task may be taken away.
  taken-IsReleased :
      (a : Adapter K T) (i : ℕ) (task : Task T) (rest : List (Task T))
      → taken a.tasks i ≡ some (task, rest)
      → (IsOfConnect task → ⊥)
      → IsReleased a
      → IsReleased (without key_of rest a)
  taken-IsReleased a i task rest e other h c =
      let part : Part IsOfConnect (taken a.tasks i) = taken-Part IsOfConnect a.tasks i (h c) in
      elim (rw e at part) [ inl p ↦ absurd (other p) | inr p ↦ p ]

  disconnect_from-IsReleased :
      (o : Option T) (a : Adapter K T) → IsReleased (disconnect_from key_of o connect_failed a)
  unfolding disconnect_from returned awaiting
  disconnect_from-IsReleased (some transport) a c = inl tt
  disconnect_from-IsReleased none a c = inl tt

  disconnect-IsReleased :
      (o : Option T) (a : Adapter K T) → IsReleased a → IsReleased (disconnect_from key_of o user a)
  unfolding disconnect_from returned awaiting
  disconnect-IsReleased (some transport) a h c = inr (h c)
  disconnect-IsReleased none a h c = absurd (cc c)

  connect_if-IsReleased :
      (b : Bool) (a : Adapter K T)
      → IsReleased a
      → IsReleased (if b then a else awaiting key_of creating (record a { connecting = true }))
  unfolding awaiting
  connect_if-IsReleased true a h = h
  connect_if-IsReleased false a h = λ c. inl tt

  connect-IsReleased : (a : Adapter K T) → IsReleased a → IsReleased (connect key_of a)
  unfolding connect
  connect-IsReleased a h = connect_if-IsReleased a.connecting a h

  sign_with-IsReleased :
      (o : Option T) (k : Option K) (a b : Adapter K T)
      → sign_with key_of o k a ≡ some b
      → IsReleased a
      → IsReleased b
  unfolding sign_with awaiting
  sign_with-IsReleased (some transport) (some public_key) a b e h =
      let same : awaiting key_of (signing transport) a ≡ b = cc e in rw (← same) (λ c. inr (h c))
  sign_with-IsReleased (some transport) none a b e h = absurd (cc e)
  sign_with-IsReleased none k a b e h = absurd (cc e)

  add_signature-IsReleased :
      (k : Option K) (transport : T) (a : Adapter K T)
      → IsReleased a
      → IsReleased (add_signature key_of k transport a)
  unfolding add_signature
  add_signature-IsReleased (some public_key) transport a h = h
  add_signature-IsReleased none transport a h = h

  Step-IsReleased : (a b : Adapter K T) → Step key_of a b → IsReleased a → IsReleased b
  unfolding disconnect sign_transaction created asked closed settled signed returned awaiting
  Step-IsReleased a b (connects e) h = rw e (connect-IsReleased a h)
  Step-IsReleased a b (disconnects e) h = rw e (disconnect-IsReleased a.transport a h)
  Step-IsReleased a b (signs e) h = sign_with-IsReleased a.transport a.public_key a b e h
  Step-IsReleased a b (creates i rest (fulfilled t) e f) h = rw f (λ c. inl tt)
  Step-IsReleased a b (creates i rest refused e f) h =
      rw f (disconnect_from-IsReleased a.transport (without key_of rest a))
  Step-IsReleased a b (asks i rest t (fulfilled u) e f) h = rw f (λ c. absurd (cc c))
  Step-IsReleased a b (asks i rest t refused e f) h =
      rw f (disconnect_from-IsReleased a.transport (without key_of rest a))
  Step-IsReleased a b (closes i rest user (fulfilled u) e f) h = rw f (λ c. absurd (cc c))
  Step-IsReleased a b (closes i rest user refused e f) h =
      rw f (taken-IsReleased a i (closing user) rest e (λ p. p) h)
  Step-IsReleased a b (closes i rest connect_failed (fulfilled u) e f) h = rw f (λ c. inl tt)
  Step-IsReleased a b (closes i rest connect_failed refused e f) h = rw f (λ c. inl tt)
  Step-IsReleased a b (settles i rest e f) h = rw f (λ c. absurd (cc c))
  Step-IsReleased a b (adds i rest t (fulfilled u) e f) h = rw f (
      add_signature-IsReleased a.public_key t (without key_of rest a)
        (taken-IsReleased a i (signing t) rest e (λ p. p) h))
  Step-IsReleased a b (adds i rest t refused e f) h =
      rw f (taken-IsReleased a i (signing t) rest e (λ p. p) h)

  run-IsReleased : (a : Adapter K T) → Runs key_of (new_adapter key_of) a → IsReleased a
  run-IsReleased a done = λ c. absurd (cc c)
  run-IsReleased a (next {b} {c} run step) = Step-IsReleased b a step (run-IsReleased b run)

  -- Whatever calls are made and in whatever order the replies come: while the adapter of a new
  -- wallet says that it is connecting, a step of `connect` is awaited, so that `connect` never stays
  -- shut.
  pub Runs-IsReleased :
      (a : Adapter K T)
      → Runs key_of (new_adapter key_of) a
      → a.connecting ≡ true
      → Any IsOfConnect a.tasks
  Runs-IsReleased a run c = run-IsReleased a run c
