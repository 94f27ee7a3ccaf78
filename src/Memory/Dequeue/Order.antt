-- ===== src/Memory/Dequeue/Order.antt =====
-- src/memory.rs, `dequeue_workflows`: the order of the candidates, by priority, creation time and id.
use durust.Base.{ℤ, pos, Bool, true, false, ◌≡◌, arith}
use durust.Base.Sorting.Order.{IsSorted, sort-IsSorted}
use durust.Base.Sorting.Text.{text_le_total, text_le_trans}
use durust.Platform.{Platform}
use durust.Provider.{DequeueRequest}
use durust.Memory.{Inner}
use durust.Memory.Dequeue.{Candidate, lex, candidate_le, candidates}

pub candidate_le_total : (a b : Candidate) → candidate_le a b ≡ false → candidate_le b a ≡ true
unfolding candidate_le
candidate_le_total (a, b, c) (a', b', c') h = ground (arith, text_le_total c c')

lex_trans :
    (a b c : ℤ) (r s t : Bool)
    → lex a b r ≡ true
    → lex b c s ≡ true
    → (r ≡ true → s ≡ true → t ≡ true)
    → lex a c t ≡ true
lex_trans (pos a) (pos b) (pos c) r s t h k f = ground arith
lex_trans a b c r s t h k f = ground arith

pub candidate_le_trans :
    (x y z : Candidate)
    → candidate_le x y ≡ true
    → candidate_le y z ≡ true
    → candidate_le x z ≡ true
unfolding candidate_le
candidate_le_trans (a, b, c) (a', b', c') (a'', b'', c'') h k =
    lex_trans a a' a'' _ _ _ h k (λ h' k'. lex_trans b b' b'' _ _ _ h' k' (text_le_trans c c' c''))

module _ {p : Platform} where
  pub candidates-IsSorted :
      (req : DequeueRequest) (g : Inner p) → IsSorted candidate_le (candidates req g)
  unfolding candidates
  candidates-IsSorted req g = sort-IsSorted candidate_le candidate_le_total candidate_le_trans _
