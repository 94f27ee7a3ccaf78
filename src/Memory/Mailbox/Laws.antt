-- ===== src/Memory/Mailbox/Laws.antt =====
-- src/memory.rs, `consume_notification`: the search for the oldest message.
use mathlib.Core.Path.{subst}
use durust.Base.{
  ◌+◌, String, true, false, Option, none, some, List, [], ◌∷◌, ◌++◌, ◌≡◌, refl, ap, string_eq,
  arith, inl, inr, Bool-cases, Option-cases, All, All-map_imp, All-append, countb, leb_ℤ,
  countb-append,
}
use durust.Platform.{Platform}
use durust.Memory.{NotificationRow}
use durust.Memory.Mailbox.{is_waiting, Split, oldest}

module _ {p : Platform} where
  -- `m` is not younger than `n`, if `n` waits.
  abbrev pub NotYounger : String → String → NotificationRow p → NotificationRow p → Type 0
  NotYounger id topic m n =
      is_waiting id topic n ≡ true → leb_ℤ m.created_at_ms n.created_at_ms ≡ true

  -- `n` does not wait, or is younger than `m`.
  abbrev pub Younger : String → String → NotificationRow p → NotificationRow p → Type 0
  Younger id topic m n =
      is_waiting id topic n ≡ true → leb_ℤ n.created_at_ms m.created_at_ms ≡ false

  -- What the search finds: a waiting row, none before it as old, none behind it older.
  pub record IsOldest (id topic : String) (rows : List (NotificationRow p)) (s : Split p)
      : Type 0 where
    pub rejoins : s.0 ++ s.1 ∷ s.2 ≡ rows
    pub waits : is_waiting id topic s.1 ≡ true
    pub before : All (Younger id topic s.1) s.0
    pub behind : All (NotYounger id topic s.1) s.2

  abbrev pub IsSearched : String → String → List (NotificationRow p) → Option (Split p) → Type 0
  IsSearched id topic rows none =
      All (λ (n : NotificationRow p). is_waiting id topic n ≡ false) rows
  IsSearched id topic rows (some s) = IsOldest id topic rows s

  further :
      (id topic : String) (n : NotificationRow p) (rest : List (NotificationRow p)) (s : Split p)
      → IsOldest id topic rest s
      → Younger id topic s.1 n
      → IsOldest id topic (n ∷ rest) (n ∷ s.0, s.1, s.2)
  further id topic n rest s ih young = record {
    rejoins = ap (◌∷◌ n) ih.rejoins;
    waits = ih.waits;
    before = (young, ih.before);
    behind = ih.behind;
  }

  older :
      (id topic : String) (n m : NotificationRow p) (rows : List (NotificationRow p))
      → leb_ℤ n.created_at_ms m.created_at_ms ≡ true
      → All (NotYounger id topic m) rows
      → All (NotYounger id topic n) rows
  older id topic n m rows le h =
      All-map_imp (NotYounger id topic m) (NotYounger id topic n) rows
        (λ r h busy. ground (arith, h busy, le)) h

  -- Every row of a split that `n` is not younger than.
  older-All :
      (id topic : String) (n : NotificationRow p) (rows : List (NotificationRow p)) (s : Split p)
      → IsOldest id topic rows s
      → leb_ℤ n.created_at_ms s.1.created_at_ms ≡ true
      → All (NotYounger id topic n) rows
  older-All id topic n rows s ih le = subst (All (NotYounger id topic n)) ih.rejoins (
      All-append (NotYounger id topic n) s.0 (s.1 ∷ s.2)
        (All-map_imp (Younger id topic s.1) (NotYounger id topic n) s.0
          (λ r h busy. ground (arith, h busy, le)) ih.before)
        (λ busy. le, older id topic n s.1 s.2 le ih.behind))

  pub oldest_lem :
      (id topic : String) (rows : List (NotificationRow p))
      → IsSearched id topic rows (oldest id topic rows)
  unfolding oldest
  oldest_lem id topic [] = tt
  oldest_lem id topic (n ∷ rest) = elim (Option-cases (oldest id topic rest)) [
    | inl nothing ↦
        let ih : All (λ (r : NotificationRow p). is_waiting id topic r ≡ false) rest =
          rw nothing at (oldest_lem id topic rest) in
        elim (Bool-cases (is_waiting id topic n)) [
          | inl w ↦
              rw (nothing, w)
                (record {
                  rejoins = refl;
                  waits = w;
                  before = tt;
                  behind =
                      All-map_imp (λ (r : NotificationRow p). is_waiting id topic r ≡ false)
                        (NotYounger id topic n) rest (λ r idle busy. absurd (ground arith)) ih;
                })
          | inr w ↦ rw (nothing, w) (w, ih)
        ]
    | inr (s, found) ↦
        let ih : IsOldest id topic rest s = rw found at (oldest_lem id topic rest) in
        elim (Bool-cases (is_waiting id topic n)) [
          | inr w ↦ rw (found, w) (further id topic n rest s ih (λ busy. absurd (ground arith)))
          | inl w ↦ elim (Bool-cases (leb_ℤ n.created_at_ms s.1.created_at_ms)) [
            | inl old ↦
                rw (found, w, old)
                  (record {
                    rejoins = refl;
                    waits = w;
                    before = tt;
                    behind = older-All id topic n rest s ih old;
                  })
            | inr young ↦ rw (found, w, young) (further id topic n rest s ih (λ busy. young))
          ]
        ]
  ]

  -- One message fewer waits once the oldest is consumed.
  pub count-consumed :
      (id topic : String) (rows : List (NotificationRow p)) (s : Split p)
      → IsOldest id topic rows s
      → countb (is_waiting id topic) (s.0 ++ record s.1 { consumed = true } ∷ s.2) + 1
        ≡ countb (is_waiting id topic) rows
  count-consumed id topic rows s h =
      let w : is_waiting id topic s.1 ≡ true = h.waits in
      subst
        (λ xs.
          countb (is_waiting id topic) (s.0 ++ record s.1 { consumed = true } ∷ s.2) + 1
          ≡ countb (is_waiting id topic) xs)
        h.rejoins
        (ground (
          arith,
          countb-append (is_waiting id topic) s.0 (s.1 ∷ s.2),
          countb-append (is_waiting id topic) s.0 (record s.1 { consumed = true } ∷ s.2),
        ))

  pub none_waits :
      (id topic : String) (rows : List (NotificationRow p))
      → All (λ (n : NotificationRow p). is_waiting id topic n ≡ false) rows
      → countb (is_waiting id topic) rows ≡ 0
  none_waits id topic [] h = refl
  none_waits id topic (n ∷ rows) h = ground (arith, h.0, none_waits id topic rows h.1)
