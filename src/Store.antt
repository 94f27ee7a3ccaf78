-- ===== src/Store.antt =====
-- `std::collections::HashMap`, as an association list in its iteration order. The order of a real
-- map is unspecified: no theorem supposes one but the order of the list itself.
pub mod Laws
pub mod Values
use durust.Base.{
  Bool, true, false, not, ◌&&◌, ◌||◌, Option, none, some, List, [], ◌∷◌, ◌≡◌, KeyEq, ◌==◌, All,
  if◌then◌else◌,
}

abbrev pub HashMap {ℓ κ} : Type ℓ → Type κ → Type (ℓ ⊔ κ)
HashMap K V = List (K × V)

module _ {ℓ κ} {K : Type ℓ} {V : Type κ} ⦃e : KeyEq K⦄ where
  -- `map.get(k)`
  unfoldable pub get : K → HashMap K V → Option V
  get k [] = none
  get k ((key, found) ∷ rest) = if key == k then some found else get k rest

  -- `map.contains_key(k)`
  unfoldable pub contains_key : K → HashMap K V → Bool
  contains_key k [] = false
  contains_key k ((j, v) ∷ m) = j == k || contains_key k m

  -- `map.insert(k, v)`: replaces the value of a key that is there.
  unfoldable pub insert : K → V → HashMap K V → HashMap K V
  insert key new [] = (key, new) ∷ []
  insert key new ((k, old) ∷ rest) =
      if k == key then (k, new) ∷ rest else (k, old) ∷ insert key new rest

  -- A write through `map.get_mut(k)`: nothing, on a missing key.
  unfoldable pub update : K → (V → V) → HashMap K V → HashMap K V
  update k f [] = []
  update k f ((j, w) ∷ m) = if j == k then (j, f w) ∷ m else (j, w) ∷ update k f m

  -- `map.remove(k)`
  unfoldable pub remove : K → HashMap K V → HashMap K V
  remove k [] = []
  remove k ((j, w) ∷ m) = if j == k then m else (j, w) ∷ remove k m

  -- The keys are pairwise different.
  abbrev pub Distinct : HashMap K V → Type 0
  Distinct [] = Unit
  Distinct ((j, w) ∷ m) = (contains_key j m ≡ false) × Distinct m

module _ {ℓ κ} {K : Type ℓ} {V : Type κ} where
  -- `map.retain(|k, _| p(k))`
  unfoldable pub retain : (K → Bool) → HashMap K V → HashMap K V
  retain p [] = []
  retain p ((j, w) ∷ m) = let rest = retain p m in if p j then (j, w) ∷ rest else rest

  -- `map.values()`
  unfoldable pub values : HashMap K V → List V
  values [] = []
  values ((j, w) ∷ m) = w ∷ values m

  -- A loop over `map.values_mut()`.
  unfoldable pub map_values : (V → V) → HashMap K V → HashMap K V
  map_values f [] = []
  map_values f ((j, w) ∷ m) = (j, f w) ∷ map_values f m
