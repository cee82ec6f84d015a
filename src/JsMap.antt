-- ===== src/JsMap.antt =====
-- The Map of JavaScript with keys that are numbers, in insertion order: what the web application
-- keeps by address or by signature.
use marinade_tenderize_from.Prelude.{
  ℕ, ◌≡◌, refl, ◌≢◌, Bool, true, false, ◌||◌, Option, none, some, List, [], ◌∷◌, arith, ◌==◌,
  if◌then◌else◌,
}

abbrev pub JsMap {ℓ} : Type ℓ → Type ℓ
JsMap V = List (ℕ × V)

module _ {ℓ} {V : Type ℓ} where
  abbrev pub get : JsMap V → ℕ → Option V
  get [] k = none
  get ((j, v) ∷ m) k = if j == k then some v else get m k

  abbrev pub has : JsMap V → ℕ → Bool
  has [] k = false
  has ((j, v) ∷ m) k = j == k || has m k

  abbrev pub set : JsMap V → ℕ → V → JsMap V
  set [] k v = (k, v) ∷ []
  set (e ∷ m) k v = let rest = set m k v in if e.0 == k then (k, v) ∷ m else e ∷ rest

  abbrev pub delete : JsMap V → ℕ → JsMap V
  delete [] k = []
  delete (e ∷ m) k = let rest = delete m k in if e.0 == k then rest else e ∷ rest

  abbrev pub keys : JsMap V → List ℕ
  keys [] = []
  keys (e ∷ m) = e.0 ∷ keys m

  pub get-set : (m : JsMap V) (k : ℕ) (v : V) → get (set m k v) k ≡ some v
  get-set [] k v = ground arith
  get-set (e ∷ m) k v = ground (arith, get-set m k v)

  pub get-set_ne : (m : JsMap V) (k j : ℕ) (v : V) → j ≢ k → get (set m k v) j ≡ get m j
  get-set_ne [] k j v h = ground arith
  get-set_ne (e ∷ m) k j v h = ground (arith, get-set_ne m k j v h)

  pub get-delete : (m : JsMap V) (k : ℕ) → get (delete m k) k ≡ none
  get-delete [] k = refl
  get-delete (e ∷ m) k = ground (arith, get-delete m k)

  pub get-delete_ne : (m : JsMap V) (k j : ℕ) → j ≢ k → get (delete m k) j ≡ get m j
  get-delete_ne [] k j h = refl
  get-delete_ne (e ∷ m) k j h = ground (arith, get-delete_ne m k j h)

  -- `has` tells whether `get` gives a value.
  abbrev pub is_there : Option V → Bool
  is_there none = false
  is_there (some v) = true

  pub has-get : (m : JsMap V) (k : ℕ) → has m k ≡ is_there (get m k)
  has-get [] k = refl
  has-get (e ∷ m) k = ground (arith, has-get m k)

  pub has-set : (m : JsMap V) (k j : ℕ) (v : V) → has (set m k v) j ≡ (k == j || has m j)
  has-set [] k j v = ground arith
  has-set (e ∷ m) k j v = ground (arith, has-set m k j v)

  pub has-delete_ne : (m : JsMap V) (k j : ℕ) → j ≢ k → has (delete m k) j ≡ has m j
  has-delete_ne [] k j h = refl
  has-delete_ne (e ∷ m) k j h = ground (arith, has-delete_ne m k j h)

  pub has-delete : (m : JsMap V) (k : ℕ) → has (delete m k) k ≡ false
  has-delete [] k = refl
  has-delete (e ∷ m) k = ground (arith, has-delete m k)
