-- ===== src/Base/Words.antt =====
-- Signed machine integers. `negsuc n` is -(n + 1); `i64` and `i32` are the two's complement
-- values to which the source's arithmetic wraps.
use Prim.Native.Nat.{ℕ, suc, ◌+◌, ◌-◌, ◌%◌, ◌^◌, ◌≤◌, ◌<◌}
use mathlib.Core.Path.{◌≡◌}
use mathlib.Core.Logic.{◌↔◌}
use mathlib.Core.Bool.{Bool, true}
use native.Mathlib.Omega.{arith}
use durust.Base.Tests.{ltb, leb, nat_eq, if◌then◌else◌, KeyEq}

pub data ℤ : Type 0 where
  pos : ℕ → ℤ
  negsuc : ℕ → ℤ

abbrev pub pos_part : ℤ → ℕ
pos_part (pos n) = n
pos_part (negsuc n) = 0

abbrev pub neg_part : ℤ → ℕ
neg_part (pos n) = 0
neg_part (negsuc n) = suc n

abbrev pub sub_ℕ : ℕ → ℕ → ℤ
sub_ℕ a b = if leb b a then pos (a - b) else negsuc (b - a - 1)

infixl 65 ◌+ℤ◌ ◌-ℤ◌
infix 50 ◌≤ℤ◌ ◌<ℤ◌
unfoldable pub ◌+ℤ◌ : ℤ → ℤ → ℤ
a +ℤ b = sub_ℕ (pos_part a + pos_part b) (neg_part a + neg_part b)

unfoldable pub ◌-ℤ◌ : ℤ → ℤ → ℤ
a -ℤ b = sub_ℕ (pos_part a + neg_part b) (neg_part a + pos_part b)

abbrev pub ◌≤ℤ◌ : ℤ → ℤ → Type 0
a ≤ℤ b = pos_part a + neg_part b ≤ pos_part b + neg_part a

abbrev pub ◌<ℤ◌ : ℤ → ℤ → Type 0
a <ℤ b = pos_part a + neg_part b < pos_part b + neg_part a

abbrev pub leb_ℤ : ℤ → ℤ → Bool
leb_ℤ a b = leb (pos_part a + neg_part b) (pos_part b + neg_part a)

abbrev pub ltb_ℤ : ℤ → ℤ → Bool
ltb_ℤ a b = ltb (pos_part a + neg_part b) (pos_part b + neg_part a)

abbrev pub beq_ℤ : ℤ → ℤ → Bool
beq_ℤ a b = nat_eq (pos_part a + neg_part b) (pos_part b + neg_part a)

pub beq_ℤ_iff : (a b : ℤ) → (beq_ℤ a b ≡ true) ↔ (a ≡ b)
beq_ℤ_iff a b = (λ h. ground arith, λ h. ground arith)

instance abbrev pub int_eq : KeyEq ℤ
int_eq = record { eqb = beq_ℤ; eqb_iff = beq_ℤ_iff }

abbrev pub min_ℤ : ℤ → ℤ → ℤ
min_ℤ a b = if leb_ℤ a b then a else b

abbrev pub max_ℤ : ℤ → ℤ → ℤ
max_ℤ a b = if leb_ℤ b a then a else b

-- A residue below 2 ^ w, read as a signed value.
signed : ℕ → ℕ → ℤ
signed half r = if ltb r half then pos r else negsuc (half + half - r - 1)

wrap : ℕ → ℤ → ℤ
unfolding signed
wrap half (pos n) = signed half (n % (half + half))
wrap half (negsuc n) = signed half (half + half - 1 - n % (half + half))

-- The value that a sum or difference of two `i64` wraps to.
unfoldable pub i64 : ℤ → ℤ
unfolding wrap
i64 z = wrap (2 ^ 63) z

unfoldable pub i32 : ℤ → ℤ
unfolding wrap
i32 z = wrap (2 ^ 31) z

abbrev pub FitsI64 : ℤ → Type 0
FitsI64 z = (pos_part z < 2 ^ 63) × (neg_part z ≤ 2 ^ 63)

abbrev pub FitsI32 : ℤ → Type 0
FitsI32 z = (pos_part z < 2 ^ 31) × (neg_part z ≤ 2 ^ 31)

-- Wrapping changes nothing in range.
pub i64_of_fits : (z : ℤ) → FitsI64 z → i64 z ≡ z
unfolding i64
i64_of_fits (pos n) h = ground arith
i64_of_fits (negsuc n) h = ground arith

pub i32_of_fits : (z : ℤ) → FitsI32 z → i32 z ≡ z
unfolding i32
i32_of_fits (pos n) h = ground arith
i32_of_fits (negsuc n) h = ground arith

-- And the result is always in range.
pub i64-fits : (z : ℤ) → FitsI64 (i64 z)
unfolding i64
i64-fits (pos n) = ground arith
i64-fits (negsuc n) = ground arith

pub i32-fits : (z : ℤ) → FitsI32 (i32 z)
unfolding i32
i32-fits (pos n) = ground arith
i32-fits (negsuc n) = ground arith

pub +ℤ_parts :
    (a b : ℤ)
    → pos_part (a +ℤ b) + neg_part a + neg_part b ≡ neg_part (a +ℤ b) + pos_part a + pos_part b
unfolding ◌+ℤ◌
+ℤ_parts a b = ground arith

pub -ℤ_parts :
    (a b : ℤ)
    → pos_part (a -ℤ b) + neg_part a + pos_part b ≡ neg_part (a -ℤ b) + pos_part a + neg_part b
unfolding ◌-ℤ◌
-ℤ_parts a b = ground arith
