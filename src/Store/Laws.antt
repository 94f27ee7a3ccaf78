-- ===== src/Store/Laws.antt =====
-- What `get` sees after each operation on a map.
use durust.Base.{
  Bool, false, none, some, [], ◌∷◌, ◌≡◌, refl, ap, sym, ◌∙◌, KeyEq, ◌==◌, ==_refl, arith,
  if◌then◌else◌, option_map, is_some, Bool-cases, inl, inr,
}
use durust.Store.{HashMap, get, contains_key, insert, update, remove, Distinct, retain, map_values}

module _ {ℓ κ} {K : Type ℓ} {V : Type κ} ⦃e : KeyEq K⦄ where
  pub get-insert :
      (j k : K) (v : V) (m : HashMap K V)
      → get j (insert k v m) ≡ (if k == j then some v else get j m)
  unfolding get insert
  get-insert j k v [] = refl
  get-insert j k v ((i, w) ∷ m) =
      ground (arith, e.eqb_iff i k, e.eqb_iff i j, e.eqb_iff k j, get-insert j k v m)

  pub get-update :
      (j k : K) (f : V → V) (m : HashMap K V)
      → get j (update k f m) ≡ (if k == j then option_map f (get j m) else get j m)
  unfolding get update
  get-update j k f [] = ground arith
  get-update j k f ((i, w) ∷ m) =
      ground (arith, e.eqb_iff i k, e.eqb_iff i j, e.eqb_iff k j, get-update j k f m)

  pub contains_key-get : (k : K) (m : HashMap K V) → contains_key k m ≡ is_some (get k m)
  unfolding get contains_key
  contains_key-get k [] = refl
  contains_key-get k ((i, w) ∷ m) = ground (arith, contains_key-get k m)

  pub get-retain :
      (j : K) (p : K → Bool) (m : HashMap K V)
      → get j (retain p m) ≡ (if p j then get j m else none)
  unfolding get retain
  get-retain j p [] = ground arith
  get-retain j p ((i, w) ∷ m) = elim (Bool-cases (i == j)) [
    | inl same ↦ let q : i ≡ j = (e.eqb_iff i j).0 same in ground (arith, get-retain j p m, ap p q)
    | inr other ↦ ground (arith, get-retain j p m)
  ]

  pub get-map_values :
      (j : K) (f : V → V) (m : HashMap K V) → get j (map_values f m) ≡ option_map f (get j m)
  unfolding get map_values
  get-map_values j f [] = refl
  get-map_values j f ((i, w) ∷ m) = ground (arith, get-map_values j f m)

  get-absent : (k : K) (m : HashMap K V) → contains_key k m ≡ false → get k m ≡ none
  get-absent k m h = ground (arith, contains_key-get k m)

  pub get-remove :
      (j k : K) (m : HashMap K V)
      → Distinct m
      → get j (remove k m) ≡ (if k == j then none else get j m)
  unfolding get remove
  get-remove j k [] d = ground arith
  get-remove j k ((i, w) ∷ m) d = elim (Bool-cases (i == k)) [
    | inl same ↦
        let q : i ≡ k = (e.eqb_iff i k).0 same in
        let gone : get k m ≡ none = rw (← q) (get-absent i m d.0) in
        ground (arith, gone, q, e.eqb_iff k j, e.eqb_iff i j)
    | inr other ↦ ground (arith, get-remove j k m d.1, e.eqb_iff i j, e.eqb_iff k j, e.eqb_iff i k)
  ]

  pub get-head : (j k : K) (v : V) (m : HashMap K V) → k ≡ j → get j ((k, v) ∷ m) ≡ some v
  unfolding get
  get-head j k v m h = rw ((e.eqb_iff k j).1 h)

  -- An entry behind a head with another key.
  pub get-tail :
      (j k : K) (v w : V) (m : HashMap K V)
      → contains_key k m ≡ false
      → get j m ≡ some w
      → get j ((k, v) ∷ m) ≡ some w
  unfolding get
  get-tail j k v w m absent h = elim (Bool-cases (k == j)) [
    | inl same ↦
        let q : k ≡ j = (e.eqb_iff k j).0 same in
        let gone : get j m ≡ none = rw (← q) (get-absent k m absent) in absurd (ground arith)
    | inr other ↦ rw other h
  ]

module _ {ℓ κ} {K : Type ℓ} {V : Type κ} ⦃e : KeyEq K⦄ where
  pub get-insert_same : (k : K) (v : V) (m : HashMap K V) → get k (insert k v m) ≡ some v
  get-insert_same k v m = ground (arith, get-insert k k v m, ==_refl k)

  pub get-insert_other :
      (j k : K) (v : V) (m : HashMap K V) → (k == j) ≡ false → get j (insert k v m) ≡ get j m
  get-insert_other j k v m other = ground (arith, get-insert j k v m)

  -- A new key hides no entry.
  pub get-insert_new :
      (j k : K) (v w : V) (m : HashMap K V)
      → get k m ≡ none
      → get j m ≡ some w
      → get j (insert k v m) ≡ some w
  get-insert_new j k v w m absent here = elim (Bool-cases (k == j)) [
    | inl same ↦ absurd (
        ground
          (arith, (let q : get k m ≡ get j m = ap (λ x. get x m) ((e.eqb_iff k j).0 same) in q)))
    | inr other ↦ get-insert_other j k v m other ∙ here
  ]

  -- Rewriting a value to itself.
  pub update_same :
      (k : K) (f : V → V) (v : V) (m : HashMap K V) → get k m ≡ some v → f v ≡ v → update k f m ≡ m
  unfolding get update
  update_same k f v [] h q = refl
  update_same k f v ((i, w) ∷ m) h q = elim (Bool-cases (i == k)) [
    | inl same ↦
        let head : some w ≡ some v = rw same at h in
        let r : w ≡ v = ground arith in rw same (ap (λ x. (i, x) ∷ m) (ap f r ∙ q ∙ sym r))
    | inr other ↦ rw other (ap (◌∷◌ (i, w)) (update_same k f v m (rw other at h) q))
  ]

  -- Rewriting the value of a missing key.
  pub update_absent : (k : K) (f : V → V) (m : HashMap K V) → get k m ≡ none → update k f m ≡ m
  unfolding get update
  update_absent k f [] h = refl
  update_absent k f ((i, w) ∷ m) h = elim (Bool-cases (i == k)) [
    | inl same ↦ (let head : some w ≡ none = rw same at h in absurd (ground arith))
    | inr other ↦ rw other (ap (◌∷◌ (i, w)) (update_absent k f m (rw other at h)))
  ]
