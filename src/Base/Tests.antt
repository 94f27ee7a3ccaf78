-- ===== src/Base/Tests.antt =====
-- Boolean tests and the conditional; equality of keys as an interface with instances.
use Prim.Native.Nat.{ℕ, compare, Ordering}
use Prim.Native.String.{String}
use text.Mathlib.Text.{◌==◌ as str_eq}
use text.Mathlib.TextEquality.{eq_iff}
use mathlib.Core.Path.{◌≡◌, refl, ap}
use mathlib.Core.Logic.{◌↔◌, ◌⊎◌, inl, inr}
use mathlib.Core.Bool.{Bool, true, false, ◌&&◌}
use mathlib.Core.Option.{Option, none, some}
use native.Mathlib.Omega.{arith}

abbrev pub ltb : ℕ → ℕ → Bool
ltb a b = elim (compare a b) [ Ordering.lt ↦ true | _ ↦ false ]

abbrev pub leb : ℕ → ℕ → Bool
leb a b = elim (compare a b) [ Ordering.gt ↦ false | _ ↦ true ]

abbrev pub nat_eq : ℕ → ℕ → Bool
nat_eq a b = elim (compare a b) [ Ordering.eq ↦ true | _ ↦ false ]

infix 1 if◌then◌else◌
abbrev pub if◌then◌else◌ {ℓ} : {A : Type ℓ} → Bool → A → A → A
if true then x else y = x
if false then x else y = y

pub nat_eq_iff : (a b : ℕ) → (nat_eq a b ≡ true) ↔ (a ≡ b)
nat_eq_iff a b = ground arith

pub Bool-cases : (b : Bool) → (b ≡ true) ⊎ (b ≡ false)
Bool-cases true = inl refl
Bool-cases false = inr refl

pub Option-cases {ℓ} : {A : Type ℓ} (o : Option A) → (o ≡ none) ⊎ ((a : A) × (o ≡ some a))
Option-cases none = inl refl
Option-cases (some a) = inr (a, refl)

-- `==` of the key types and of texts.
pub record KeyEq {ℓ} (K : Type ℓ) : Type ℓ where
  pub eqb : K → K → Bool
  pub eqb_iff : (x y : K) → (eqb x y ≡ true) ↔ (x ≡ y)

infix 50 ◌==◌
abbrev pub ◌==◌ {ℓ} : {K : Type ℓ} ⦃keys : KeyEq K⦄ → K → K → Bool
◌==◌ ⦃keys⦄ x y = keys.eqb x y

instance abbrev pub string_eq : KeyEq String
string_eq = record { eqb = str_eq; eqb_iff = eq_iff }

module _ {ℓ κ} {A : Type ℓ} {B : Type κ} where
  abbrev pub pair_eqb : KeyEq A → KeyEq B → A × B → A × B → Bool
  pair_eqb d e p q = d.eqb p.0 q.0 && e.eqb p.1 q.1

  pub pair_eqb_iff : (d : KeyEq A) (e : KeyEq B) (p q : A × B) → (pair_eqb d e p q ≡ true) ↔ (p ≡ q)
  pair_eqb_iff d e (a, b) (c, f) = (
    λ h. ground (arith, d.eqb_iff a c, e.eqb_iff b f),
    λ h.
        ground (
          arith,
          d.eqb_iff a c,
          e.eqb_iff b f,
          ap (λ (t : A × B). t.0) h,
          ap (λ (t : A × B). t.1) h,
        ),
  )

  instance abbrev pub pair_eq : ⦃d : KeyEq A⦄ ⦃e : KeyEq B⦄ → KeyEq (A × B)
  pair_eq ⦃d⦄ ⦃e⦄ = record { eqb = pair_eqb d e; eqb_iff = pair_eqb_iff d e }

pub ==_refl {ℓ} : {A : Type ℓ} ⦃e : KeyEq A⦄ (a : A) → (a == a) ≡ true
==_refl ⦃e⦄ a = (e.eqb_iff a a).1 refl

-- An optional text compared with a text: `o.as_deref() == Some(s)`.
abbrev pub is_some_of : Option String → String → Bool
is_some_of none s = false
is_some_of (some t) s = t == s

-- `o.as_deref() == p.as_deref()`.
abbrev pub opt_eq : Option String → Option String → Bool
opt_eq none none = true
opt_eq (some s) (some t) = s == t
opt_eq _ _ = false

abbrev pub is_some {ℓ} : {A : Type ℓ} → Option A → Bool
is_some none = false
is_some (some a) = true

abbrev pub is_none {ℓ} : {A : Type ℓ} → Option A → Bool
is_none none = true
is_none (some a) = false

-- `o.is_some_and(p)` and `o.is_none_or(p)`.
abbrev pub is_some_and {ℓ} : {A : Type ℓ} → Option A → (A → Bool) → Bool
is_some_and none p = false
is_some_and (some a) p = p a

abbrev pub is_none_or {ℓ} : {A : Type ℓ} → Option A → (A → Bool) → Bool
is_none_or none p = true
is_none_or (some a) p = p a

abbrev pub unwrap_or {ℓ} : {A : Type ℓ} → Option A → A → A
unwrap_or none d = d
unwrap_or (some a) d = a

abbrev pub option_map {ℓ κ} : {A : Type ℓ} {B : Type κ} → (A → B) → Option A → Option B
option_map f none = none
option_map f (some a) = some (f a)

pub some_of_is_some_of : (o : Option String) (s : String) → is_some_of o s ≡ true → o ≡ some s
some_of_is_some_of none s h = absurd (ground arith)
some_of_is_some_of (some t) s h = ap some ((eq_iff t s).0 h)
