-- ===== src/Base/Lists.antt =====
-- Lists measured by native numbers, Boolean searches, and a predicate on every element.
use Prim.Native.Nat.{ℕ, zero, suc, ◌+◌, ◌≤◌, ◌<◌, min}
use mathlib.Core.Path.{◌≡◌, refl, ap}
use mathlib.Core.Logic.{◌⊎◌, inl, inr}
use mathlib.Core.Bool.{Bool, true, false, ◌||◌}
use mathlib.Core.List.{List, [], ◌∷◌, ◌++◌, map}
use mathlib.Core.Option.{Option, none, some}
use native.Mathlib.Omega.{arith}
use durust.Base.Tests.{KeyEq, ◌==◌, if◌then◌else◌, Bool-cases}

module _ {ℓ} {A : Type ℓ} where
  abbrev pub length : List A → ℕ
  length [] = 0
  length (x ∷ xs) = suc (length xs)

  -- `Vec::truncate(n)`
  abbrev pub take : ℕ → List A → List A
  take zero xs = []
  take (suc n) [] = []
  take (suc n) (x ∷ xs) = x ∷ take n xs

  -- `iter().skip(n)`
  abbrev pub drop : ℕ → List A → List A
  drop zero xs = xs
  drop (suc n) [] = []
  drop (suc n) (x ∷ xs) = drop n xs

  abbrev pub get_elem? : List A → ℕ → Option A
  get_elem? [] i = none
  get_elem? (x ∷ xs) zero = some x
  get_elem? (x ∷ xs) (suc i) = get_elem? xs i

  abbrev pub filterb : (A → Bool) → List A → List A
  filterb p [] = []
  filterb p (x ∷ xs) = let rest = filterb p xs in if p x then x ∷ rest else rest

  abbrev pub countb : (A → Bool) → List A → ℕ
  countb p [] = 0
  countb p (x ∷ xs) = (if p x then 1 else 0) + countb p xs

  abbrev pub anyb : (A → Bool) → List A → Bool
  anyb p [] = false
  anyb p (x ∷ xs) = p x || anyb p xs

  abbrev pub findb : (A → Bool) → List A → Option A
  findb p [] = none
  findb p (x ∷ xs) = if p x then some x else findb p xs

  abbrev pub is_empty : List A → Bool
  is_empty [] = true
  is_empty (x ∷ xs) = false

  abbrev pub All {κ} : (A → Type κ) → List A → Type κ
  All Holds [] = Unit
  All Holds (a ∷ rest) = Holds a × All Holds rest

  abbrev pub last? : List A → Option A
  last? [] = none
  last? (x ∷ []) = some x
  last? (x ∷ y ∷ xs) = last? (y ∷ xs)

module _ {ℓ} {A : Type ℓ} where
  pub length-append : (xs ys : List A) → length (xs ++ ys) ≡ length xs + length ys
  length-append [] ys = omega arith
  length-append (x ∷ xs) ys = omega (arith, length-append xs ys)

  pub length-take : (n : ℕ) (xs : List A) → length (take n xs) ≡ min n (length xs)
  length-take zero xs = omega arith
  length-take (suc n) [] = omega arith
  length-take (suc n) (x ∷ xs) = omega (arith, length-take n xs)

  pub take-append-drop : (n : ℕ) (xs : List A) → take n xs ++ drop n xs ≡ xs
  take-append-drop zero xs = refl
  take-append-drop (suc n) [] = refl
  take-append-drop (suc n) (x ∷ xs) = ap (◌∷◌ x) (take-append-drop n xs)

  pub countb-le : (p : A → Bool) (xs : List A) → countb p xs ≤ length xs
  countb-le p [] = omega arith
  countb-le p (x ∷ xs) = ground (arith, countb-le p xs)

  pub length-filterb : (p : A → Bool) (xs : List A) → length (filterb p xs) ≡ countb p xs
  length-filterb p [] = refl
  length-filterb p (x ∷ xs) = ground (arith, length-filterb p xs)

  pub countb-append :
      (p : A → Bool) (xs ys : List A) → countb p (xs ++ ys) ≡ countb p xs + countb p ys
  countb-append p [] ys = omega arith
  countb-append p (x ∷ xs) ys = omega (arith, countb-append p xs ys)

module _ {ℓ κ} {A : Type ℓ} where
  pub All-map_imp : (P Q : A → Type κ) (xs : List A) → ((x : A) → P x → Q x) → All P xs → All Q xs
  All-map_imp P Q [] f h = tt
  All-map_imp P Q (x ∷ xs) f h = (f x h.0, All-map_imp P Q xs f h.1)

  pub All-append :
      (Q : A → Type κ) (front back : List A) → All Q front → All Q back → All Q (front ++ back)
  All-append Q [] back none_of hold = hold
  All-append Q (a ∷ front) back of_front hold =
      (of_front.0, All-append Q front back of_front.1 hold)

  pub All-take : (P : A → Type κ) (n : ℕ) (xs : List A) → All P xs → All P (take n xs)
  All-take P zero xs h = tt
  All-take P (suc n) [] h = tt
  All-take P (suc n) (x ∷ xs) h = (h.0, All-take P n xs h.1)

  pub All-drop : (P : A → Type κ) (n : ℕ) (xs : List A) → All P xs → All P (drop n xs)
  All-drop P zero xs h = h
  All-drop P (suc n) [] h = tt
  All-drop P (suc n) (x ∷ xs) h = All-drop P n xs h.1

  pub All-filterb : (P : A → Type κ) (p : A → Bool) (xs : List A) → All P xs → All P (filterb p xs)
  All-filterb P p [] h = tt
  All-filterb P p (x ∷ xs) h = elim (Bool-cases (p x)) [
    | inl e ↦ rw e (h.0, All-filterb P p xs h.1)
    | inr e ↦ rw e (All-filterb P p xs h.1)
  ]

module _ {ℓ} {A : Type ℓ} where
  pub filterb-holds : (p : A → Bool) (xs : List A) → All (λ x. p x ≡ true) (filterb p xs)
  filterb-holds p [] = tt
  filterb-holds p (x ∷ xs) = elim (Bool-cases (p x)) [
    | inl e ↦ rw e (e, filterb-holds p xs)
    | inr e ↦ rw e (filterb-holds p xs)
  ]

module _ {ℓ} {A : Type ℓ} ⦃e : KeyEq A⦄ where
  -- `xs.contains(&a)`
  abbrev pub contains : List A → A → Bool
  contains [] a = false
  contains (x ∷ xs) a = x == a || contains xs a

  pub contains-append :
      (xs ys : List A) (a : A) → contains (xs ++ ys) a ≡ (contains xs a || contains ys a)
  contains-append [] ys a = refl
  contains-append (x ∷ xs) ys a = ground (arith, contains-append xs ys a)

-- `x` is an element.
module _ {A : Type 0} where
  abbrev pub In : A → List A → Type 0
  In x [] = ⊥
  In x (y ∷ ys) = (x ≡ y) ⊎ In x ys

  pub All-In : (P : A → Type 0) (x : A) (xs : List A) → All P xs → In x xs → P x
  All-In P x [] h m = elim m [ ]
  All-In P x (y ∷ ys) h (inl e) = rw e h.0
  All-In P x (y ∷ ys) h (inr m) = All-In P x ys h.1 m

  pub In-filterb : (p : A → Bool) (x : A) (xs : List A) → In x xs → p x ≡ true → In x (filterb p xs)
  In-filterb p x [] m h = elim m [ ]
  In-filterb p x (y ∷ ys) (inl e) h = rw (← e, h) (inl refl)
  In-filterb p x (y ∷ ys) (inr m) h = elim (Bool-cases (p y)) [
    | inl t ↦ rw t (inr (In-filterb p x ys m h))
    | inr f ↦ rw f (In-filterb p x ys m h)
  ]

  pub In-take-drop : (n : ℕ) (x : A) (xs : List A) → In x xs → In x (take n xs) ⊎ In x (drop n xs)
  In-take-drop zero x xs m = inr m
  In-take-drop (suc n) x [] m = elim m [ ]
  In-take-drop (suc n) x (y ∷ ys) (inl e) = inl (inl e)
  In-take-drop (suc n) x (y ∷ ys) (inr m) = elim (In-take-drop n x ys m) [
    | inl t ↦ inl (inr t)
    | inr d ↦ inr d
  ]

module _ {A B : Type 0} where
  pub In-map : (f : A → B) (x : A) (xs : List A) → In x xs → In (f x) (map f xs)
  In-map f x [] m = elim m [ ]
  In-map f x (y ∷ ys) (inl e) = inl (ap f e)
  In-map f x (y ∷ ys) (inr m) = inr (In-map f x ys m)

  pub All-map :
      (P : B → Type 0) (f : A → B) (xs : List A) → All (λ x. P (f x)) xs → All P (map f xs)
  All-map P f [] h = tt
  All-map P f (x ∷ xs) h = (h.0, All-map P f xs h.1)

  pub length-map : (f : A → B) (xs : List A) → length (map f xs) ≡ length xs
  length-map f [] = refl
  length-map f (x ∷ xs) = ap suc (length-map f xs)

  pub In-map_inv :
      (f : A → B) (y : B) (xs : List A) → In y (map f xs) → (x : A) × In x xs × (y ≡ f x)
  In-map_inv f y [] m = elim m [ ]
  In-map_inv f y (x ∷ xs) (inl e) = (x, inl refl, e)
  In-map_inv f y (x ∷ xs) (inr m) = let (z, k, e) = In-map_inv f y xs m in (z, inr k, e)

module _ {A : Type 0} where
  pub lt-length_of_In-drop : (n : ℕ) (x : A) (xs : List A) → In x (drop n xs) → n < length xs
  lt-length_of_In-drop n x [] m = drop_nil n m
    where
      drop_nil : (k : ℕ) → In x (drop k []) → k < 0
      drop_nil zero q = elim q [ ]
      drop_nil (suc k) q = elim q [ ]
  lt-length_of_In-drop zero x (y ∷ ys) m = omega arith
  lt-length_of_In-drop (suc n) x (y ∷ ys) m = omega (arith, lt-length_of_In-drop n x ys m)

  -- A test that fails on the list fails on each element.
  pub anyb-In : (p : A → Bool) (x : A) (xs : List A) → In x xs → p x ≡ true → anyb p xs ≡ true
  anyb-In p x [] m h = elim m [ ]
  anyb-In p x (y ∷ ys) (inl e) h = rw (← e, h)
  anyb-In p x (y ∷ ys) (inr m) h = ground (arith, anyb-In p x ys m h)

  -- A test that passes has a witness.
  pub In-of_anyb :
      (p : A → Bool) (xs : List A) → anyb p xs ≡ true → (x : A) × In x xs × (p x ≡ true)
  In-of_anyb p [] h = absurd (ground arith)
  In-of_anyb p (y ∷ ys) h = elim (Bool-cases (p y)) [
    | inl t ↦ (y, inl refl, t)
    | inr f ↦ let (x, m, e) = In-of_anyb p ys (ground arith) in (x, inr m, e)
  ]
