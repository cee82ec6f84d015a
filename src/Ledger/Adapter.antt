-- ===== src/Ledger/Adapter.antt =====
-- The class LedgerWalletAdapter of src/wallet-adapters/ledger/index.tsx: its fields, its methods up
-- to where they await, and what they do then. Calls and replies come in any order. Messages to the
-- user are left out.
pub mod Released
pub mod Phases
pub mod Orderly
pub mod Stranded
use marinade_tenderize_from.Prelude.{
  ℕ, ◌≡◌, Bool, true, false, Option, none, some, List, [], ◌∷◌, ◌++◌, if◌then◌else◌, taken,
}
use marinade_tenderize_from.Web3.{Reply, fulfilled, refused}

-- Who called `disconnect`: the user, or `connect` for an error.
pub data Caller : Type 0 where
  user connect_failed : Caller

-- What a method awaits: TransportWebUSB.create(), getPublicKey(transport), transport.close(), the end
-- of `disconnect` in `connect`, the core's signTransaction(transport, transaction).
pub data Task (T : Type 0) : Type 0 where
  creating : Task T
  asking : (transport : T) → Task T
  closing : (by : Caller) → Task T
  settling : Task T
  signing : (transport : T) → Task T

pub data Event (K : Type 0) : Type 0 where
  connect_event : (public_key : K) → Event K
  disconnect_event : Event K

-- The fields; beside them what is awaited, the events so far, and the signatures that were added to
-- transactions, each with the key and the device it is of.
pub record Adapter (K T : Type 0) : Type 0 where
  pub connecting : Bool
  pub public_key : Option K
  pub transport : Option T
  pub tasks : List (Task T)
  pub emitted : List (Event K)
  pub signatures : List (K × T)

-- A transport leads to a device, which has a key.
module _ {K T : Type 0} (key_of : T → K) where
  abbrev pub new_adapter : Adapter K T
  new_adapter = record {
    connecting = false;
    public_key = none;
    transport = none;
    tasks = [];
    emitted = [];
    signatures = [];
  }

  unfoldable pub awaiting : Task T → Adapter K T → Adapter K T
  awaiting task a = record a { tasks = task ∷ a.tasks }

  unfoldable pub connect : Adapter K T → Adapter K T
  unfolding awaiting
  connect a = if a.connecting then a else awaiting creating (record a { connecting = true })

  -- Where `connect` called it, `connect` goes on behind it.
  unfoldable pub returned : Caller → Adapter K T → Adapter K T
  unfolding awaiting
  returned user a = a
  returned connect_failed a = awaiting settling a

  unfoldable pub disconnect_from : Option T → Caller → Adapter K T → Adapter K T
  unfolding awaiting returned
  disconnect_from (some transport) by a = awaiting (closing by) a
  disconnect_from none by a = returned by (record a { connecting = false; public_key = none })

  unfoldable pub disconnect : Caller → Adapter K T → Adapter K T
  unfolding disconnect_from
  disconnect by a = disconnect_from a.transport by a

  -- `none` for the error "Not connected to Ledger"
  unfoldable pub sign_with : Option T → Option K → Adapter K T → Option (Adapter K T)
  unfolding awaiting
  sign_with (some transport) (some public_key) a = some (awaiting (signing transport) a)
  sign_with _ _ a = none

  unfoldable pub sign_transaction : Adapter K T → Option (Adapter K T)
  unfolding sign_with
  sign_transaction a = sign_with a.transport a.public_key a

  unfoldable pub created : Reply T → Adapter K T → Adapter K T
  unfolding awaiting disconnect
  created (fulfilled transport) a =
      awaiting (asking transport) (record a { transport = some transport })
  created refused a = disconnect connect_failed a

  -- getPublicKey gives the key of the device.
  unfoldable pub asked : T → Reply (Unit {0}) → Adapter K T → Adapter K T
  unfolding disconnect
  asked transport (fulfilled u) a = record a {
    public_key = some (key_of transport);
    emitted = a.emitted ++ (connect_event (key_of transport) ∷ []);
    connecting = false;
  }
  asked transport refused a = disconnect connect_failed a

  -- Where close() fails, `disconnect` is left at once.
  unfoldable pub closed : Caller → Reply (Unit {0}) → Adapter K T → Adapter K T
  unfolding returned
  closed by (fulfilled u) a = returned by (record a {
    transport = none;
    connecting = false;
    public_key = none;
    emitted = a.emitted ++ (disconnect_event ∷ []);
  })
  closed by refused a = returned by a

  -- `finally`
  unfoldable pub settled : Adapter K T → Adapter K T
  settled a = record a { connecting = false }

  -- transaction.addSignature(this._publicKey, signature): the key is read now; without one it throws.
  unfoldable pub add_signature : Option K → T → Adapter K T → Adapter K T
  add_signature (some public_key) transport a = record a {
    signatures = (public_key, transport) ∷ a.signatures;
  }
  add_signature none transport a = a

  unfoldable pub signed : T → Reply (Unit {0}) → Adapter K T → Adapter K T
  unfolding add_signature
  signed transport (fulfilled u) a = add_signature a.public_key transport a
  signed transport refused a = a

  abbrev pub without : List (Task T) → Adapter K T → Adapter K T
  without rest a = record a { tasks = rest }

  -- What may happen: a call, or a reply to what is awaited.
  pub data Step (a b : Adapter K T) : Type 0 where
    connects : b ≡ connect a → Step a b
    disconnects : b ≡ disconnect user a → Step a b
    signs : sign_transaction a ≡ some b → Step a b
    creates :
        (i : ℕ) (rest : List (Task T)) (reply : Reply T)
        → taken a.tasks i ≡ some (creating, rest)
        → b ≡ created reply (without rest a)
        → Step a b
    asks :
        (i : ℕ) (rest : List (Task T)) (transport : T) (reply : Reply (Unit {0}))
        → taken a.tasks i ≡ some (asking transport, rest)
        → b ≡ asked transport reply (without rest a)
        → Step a b
    closes :
        (i : ℕ) (rest : List (Task T)) (by : Caller) (reply : Reply (Unit {0}))
        → taken a.tasks i ≡ some (closing by, rest)
        → b ≡ closed by reply (without rest a)
        → Step a b
    settles :
        (i : ℕ) (rest : List (Task T))
        → taken a.tasks i ≡ some (settling, rest)
        → b ≡ settled (without rest a)
        → Step a b
    adds :
        (i : ℕ) (rest : List (Task T)) (transport : T) (reply : Reply (Unit {0}))
        → taken a.tasks i ≡ some (signing transport, rest)
        → b ≡ signed transport reply (without rest a)
        → Step a b

  -- Any number of steps.
  pub data Runs (a : Adapter K T) : Adapter K T → Type 0 where
    done : Runs a a
    next : {b c : Adapter K T} → Runs a b → Step b c → Runs a c
