-- ===== src/Base/Sorting/Order.antt =====
-- Sorting permutes: it keeps elements, lengths and counts. By a total and transitive order the
-- result is sorted, so whatever it is cut at, nothing after the cut precedes what is before it.
use durust.Base.{
  ℕ, zero, suc, Bool, true, false, ◌||◌, List, [], ◌∷◌, ◌≡◌, refl, ◌⊎◌, inl, inr, arith, length,
  take, drop, anyb, All, In, All-map_imp, All-drop, Bool-cases,
}
use durust.Base.Sorting.{insert_sorted, sort}

module _ {A : Type 0} (le : A → A → Bool) where
  length-insert_sorted : (x : A) (ys : List A) → length (insert_sorted le x ys) ≡ suc (length ys)
  unfolding insert_sorted
  length-insert_sorted x [] = refl
  length-insert_sorted x (y ∷ ys) = ground (arith, length-insert_sorted x ys)

  pub length-sort : (xs : List A) → length (sort le xs) ≡ length xs
  unfolding sort
  length-sort [] = refl
  length-sort (x ∷ xs) = ground (arith, length-insert_sorted x (sort le xs), length-sort xs)

  pub anyb-insert_sorted :
      (p : A → Bool) (x : A) (ys : List A) → anyb p (insert_sorted le x ys) ≡ (p x || anyb p ys)
  unfolding insert_sorted
  anyb-insert_sorted p x [] = refl
  anyb-insert_sorted p x (y ∷ ys) = ground (arith, anyb-insert_sorted p x ys)

  pub anyb-sort : (p : A → Bool) (xs : List A) → anyb p (sort le xs) ≡ anyb p xs
  unfolding sort
  anyb-sort p [] = refl
  anyb-sort p (x ∷ xs) = ground (arith, anyb-insert_sorted p x (sort le xs), anyb-sort p xs)

  All-insert_sorted :
      (P : A → Type 0) (x : A) (ys : List A) → P x → All P ys → All P (insert_sorted le x ys)
  unfolding insert_sorted
  All-insert_sorted P x [] hx h = (hx, tt)
  All-insert_sorted P x (y ∷ ys) hx h = elim (Bool-cases (le x y)) [
    | inl t ↦ rw t (hx, h)
    | inr f ↦ rw f (h.0, All-insert_sorted P x ys hx h.1)
  ]

  pub All-sort : (P : A → Type 0) (xs : List A) → All P xs → All P (sort le xs)
  unfolding sort
  All-sort P [] h = tt
  All-sort P (x ∷ xs) h = All-insert_sorted P x (sort le xs) h.0 (All-sort P xs h.1)

  In-insert_sorted : (a x : A) (ys : List A) → (a ≡ x) ⊎ In a ys → In a (insert_sorted le x ys)
  unfolding insert_sorted
  In-insert_sorted a x [] m = m
  In-insert_sorted a x (y ∷ ys) m = elim (Bool-cases (le x y)) [
    | inl t ↦ rw t m
    | inr f ↦ rw f (elim m [
      | inl e ↦ inr (In-insert_sorted a x ys (inl e))
      | inr (inl e) ↦ inl e
      | inr (inr k) ↦ inr (In-insert_sorted a x ys (inr k))
    ])
  ]

  pub In-sort : (a : A) (xs : List A) → In a xs → In a (sort le xs)
  unfolding sort
  In-sort a [] m = elim m [ ]
  In-sort a (x ∷ xs) (inl e) = In-insert_sorted a x (sort le xs) (inl e)
  In-sort a (x ∷ xs) (inr m) = In-insert_sorted a x (sort le xs) (inr (In-sort a xs m))

  -- Each element precedes all that follow it.
  abbrev pub IsSorted : List A → Type 0
  IsSorted [] = Unit
  IsSorted (x ∷ xs) = All (λ y. le x y ≡ true) xs × IsSorted xs

  pub take-drop-le :
      (n : ℕ) (xs : List A)
      → IsSorted xs
      → All (λ x. All (λ y. le x y ≡ true) (drop n xs)) (take n xs)
  take-drop-le zero xs s = tt
  take-drop-le (suc n) [] s = tt
  take-drop-le (suc n) (x ∷ xs) s = (All-drop (λ y. le x y ≡ true) n xs s.0, take-drop-le n xs s.1)

  module _ (total : (a b : A) → le a b ≡ false → le b a ≡ true)
      (trans : (a b c : A) → le a b ≡ true → le b c ≡ true → le a c ≡ true) where
    insert_sorted-IsSorted : (x : A) (ys : List A) → IsSorted ys → IsSorted (insert_sorted le x ys)
    unfolding insert_sorted
    insert_sorted-IsSorted x [] s = (tt, tt)
    insert_sorted-IsSorted x (y ∷ ys) s = elim (Bool-cases (le x y)) [
      | inl t ↦ rw t (
        (t, All-map_imp (λ z. le y z ≡ true) (λ z. le x z ≡ true) ys (λ z h. trans x y z t h) s.0),
        s,
      )
      | inr f ↦ rw f (
        All-insert_sorted (λ z. le y z ≡ true) x ys (total x y f) s.0,
        insert_sorted-IsSorted x ys s.1,
      )
    ]

    pub sort-IsSorted : (xs : List A) → IsSorted (sort le xs)
    unfolding sort
    sort-IsSorted [] = tt
    sort-IsSorted (x ∷ xs) = insert_sorted-IsSorted x (sort le xs) (sort-IsSorted xs)
