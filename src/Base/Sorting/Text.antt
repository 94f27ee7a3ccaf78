-- ===== src/Base/Sorting/Text.antt =====
-- The order of texts is total and transitive.
use Prim.Native.Nat.{Ordering, compare as compare_ℕ}
use Prim.Native.Char.{Char, code}
use Prim.Native.String.{String, compare, then}
use Prim.Native.String.compare
use mathlib.Core.Path.{◌≡◌}
use text.Mathlib.TextEquality.{path_by_compare}
use mathlib.Core.Bool.{true, false}
use native.Mathlib.Omega.{arith}
use durust.Base.Sorting.{text_le}

compare-cons :
    (c d : Char) (s t : String)
    → compare (String.◌∷◌ c s) (String.◌∷◌ d t) ≡ then (compare_ℕ (code c) (code d)) (compare s t)
compare-cons c d s t = λ i. compare.cons-cons c d s t i

compare-nil-cons : (d : Char) (t : String) → compare String.[] (String.◌∷◌ d t) ≡ Ordering.lt
compare-nil-cons d t = λ i. compare.nil-cons d t i

compare-cons-nil : (d : Char) (t : String) → compare (String.◌∷◌ d t) String.[] ≡ Ordering.gt
compare-cons-nil d t = λ i. compare.cons-nil d t i

pub text_le_total : (s t : String) → text_le s t ≡ false → text_le t s ≡ true
text_le_total String.[] String.[] h = ground arith
text_le_total String.[] (String.◌∷◌ d t) h = ground (arith, compare-nil-cons d t)
text_le_total (String.◌∷◌ c s) String.[] h = ground (arith, compare-nil-cons c s)
text_le_total (String.◌∷◌ c s) (String.◌∷◌ d t) h =
    ground (arith, compare-cons c d s t, compare-cons d c t s, text_le_total s t)

pub text_le_trans : (s t u : String) → text_le s t ≡ true → text_le t u ≡ true → text_le s u ≡ true
text_le_trans String.[] t String.[] h k = ground arith
text_le_trans String.[] t (String.◌∷◌ e u) h k = ground (arith, compare-nil-cons e u)
text_le_trans (String.◌∷◌ c s) String.[] u h k = ground (arith, compare-cons-nil c s)
text_le_trans (String.◌∷◌ c s) (String.◌∷◌ d t) String.[] h k = ground (arith, compare-cons-nil d t)
text_le_trans (String.◌∷◌ c s) (String.◌∷◌ d t) (String.◌∷◌ e u) h k = ground (
  arith,
  compare-cons c d s t,
  compare-cons d e t u,
  compare-cons c e s u,
  text_le_trans s t u,
  path_by_compare s t,
  path_by_compare t u,
)
