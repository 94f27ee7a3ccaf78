-- ===== src/Debounce/Collector.antt =====
-- src/debounce.rs, `internal_debouncer`: when the collector ends, and with which input.
use durust.Base.{
  ℕ, suc, ◌+◌, ◌<◌, ◌≤◌, ◌^◌, ℤ, pos, ◌+ℤ◌, ◌-ℤ◌, i64, i64_of_fits, leb_ℤ, ltb_ℤ, String, true,
  false, not, none, some, is_some, List, [], ◌∷◌, ◌≡◌, refl, sym, ap, ◌∙◌, string_eq, ◌==◌, arith,
  inl, inr, Bool-cases, Option-cases, take, length, In, All, if◌then◌else◌,
}
use durust.Platform.{Platform}
use durust.Debounce.{DebouncerInput, DebounceMessage, Round, cap, collect, internal_debouncer}

-- Sums and differences in range.
sum_lem : (a b : ℕ) → a + b < 2 ^ 63 → i64 (pos a +ℤ pos b) ≡ pos (a + b)
unfolding ◌+ℤ◌
sum_lem a b small =
    let plain : pos a +ℤ pos b ≡ pos (a + b) = ground arith in
    ap i64 plain ∙ i64_of_fits (pos (a + b)) (ground arith)

-- The rest of the time is none once the clock has reached the target.
is_over : (u n : ℕ) → u < 2 ^ 63 → n < 2 ^ 63 → u ≤ n → leb_ℤ (i64 (pos u -ℤ pos n)) (pos 0) ≡ true
unfolding ◌-ℤ◌
is_over u n small small' reached = rw (i64_of_fits (pos u -ℤ pos n) (ground arith)) (ground arith)

module _ {p : Platform} where
  -- The clock shows a date of the next millions of years, and a delay is no longer than that.
  abbrev pub IsTimely : Round p → Type 0
  IsTimely r =
      ((n : ℕ) × (r.now ≡ pos n) × (n < 2 ^ 62))
      × ((msg : DebounceMessage p)
          → r.received ≡ some msg
          → (d : ℕ) × (msg.delay_ms ≡ pos d) × (d < 2 ^ 62))

  -- The round brought a message.
  abbrev pub HasMessage : Round p → Type 0
  HasMessage r = is_some r.received ≡ true

  -- The last input that some rounds brought, and what they acknowledged.
  abbrev pub last_input : p.Value → List (Round p) → p.Value
  last_input current [] = current
  last_input current (r ∷ rounds) =
      last_input (elim r.received [ none ↦ current | some msg ↦ msg.input ]) rounds

  abbrev pub acks : List (Round p) → List String
  acks [] = []
  acks (r ∷ rounds) =
      let rest = acks rounds in
      elim r.received [
        | none ↦ rest
        | some msg ↦ if not (msg.id == "") then msg.id ∷ rest else rest
      ]

  module _ (input : DebouncerInput p) (s t : ℕ) (timed : input.timeout_ms ≡ pos t)
      (positive : 0 < t) (fits : s + t < 2 ^ 62) where
    -- A capped instant is no later than the start and the timeout.
    capped : (u : ℕ) → u < 2 ^ 63 → (v : ℕ) × (cap input (pos s) (pos u) ≡ pos v) × (v ≤ s + t)
    unfolding cap
    capped u small = elim (Bool-cases (ltb_ℤ (pos (s + t)) (pos u))) [
      | inl over ↦
          (s + t, rw (timed, sum_lem s t (omega (arith, fits))) (ground arith), ground arith)
      | inr within ↦ (u, rw (timed, sum_lem s t (omega (arith, fits))) (ground arith), ground arith)
    ]

    -- Some of the rounds brought messages; the rest of the loop ends after them with the last input.
    Settles : List (Round p) → p.Value → ℤ → Type 0
    Settles rounds current target =
        (k : ℕ) × (k ≤ length rounds)
        × All HasMessage (take k rounds)
        × (collect input (pos s) rounds current target
            ≡ some (last_input current (take k rounds), acks (take k rounds)))

    -- A round with a message, and what comes after it.
    onward :
        (x : Round p) (msg : DebounceMessage p) (rounds : List (Round p)) (current : p.Value)
        (target next : ℤ)
        → x.received ≡ some msg
        → leb_ℤ (i64 (target -ℤ x.now)) (pos 0) ≡ false
        → cap input (pos s) (i64 (x.now +ℤ msg.delay_ms)) ≡ next
        → Settles rounds msg.input next
        → Settles (x ∷ rounds) current target
    unfolding collect Settles
    onward x msg rounds current target next there goes e (k, few, all, ends) = (
      suc k,
      omega (arith, few),
      (ap is_some there, all),
      rw (goes, there, e, ends, collect) refl,
    )

    settles :
        (rounds : List (Round p)) (current : p.Value) (u : ℕ) (r : Round p) (n : ℕ)
        → u ≤ s + t
        → All IsTimely rounds
        → In r rounds
        → r.now ≡ pos n
        → s + t ≤ n
        → Settles rounds current (pos u)
    unfolding collect Settles
    settles [] current u r n early timely at clock past = absurd at
    settles (x ∷ rounds) current u r n early timely at clock past =
        elim (Bool-cases (leb_ℤ (i64 (pos u -ℤ x.now)) (pos 0))) [
          | inl over ↦ (0, omega arith, tt, rw (over, collect) refl)
          | inr goes ↦ elim (Option-cases x.received) [
            | inl silent ↦ (0, omega arith, tt, rw (goes, silent, collect) refl)
            | inr (msg, there) ↦
                let (n', shown, small) = timely.0.0 in
                let (d, delay, short) = timely.0.1 msg there in
                elim at [
                  | inl same ↦
                      let e : x.now ≡ pos n = ap (λ (y : Round p). y.now) (sym same) ∙ clock in
                      let agree : n' ≡ n = ground (arith, shown, e) in
                      absurd (
                        ground (
                          arith,
                          is_over u n (omega (arith, early, fits)) (omega (arith, small, agree))
                              (omega (arith, early, past)),
                          ap (λ (z : ℤ). leb_ℤ (i64 (pos u -ℤ z)) (pos 0)) (sym e) ∙ goes,
                        ))
                  | inr later ↦
                      let (u', e, early') = capped (n' + d) (omega (arith, small, short)) in
                      onward x msg rounds current (pos u) (pos u') there goes
                        (ap (cap input (pos s)) (
                            ap (λ (z : ℤ). i64 (z +ℤ msg.delay_ms)) shown
                            ∙ ap (λ (z : ℤ). i64 (pos n' +ℤ z)) delay
                            ∙ sum_lem n' d (omega (arith, small, short)))
                          ∙ e)
                        (settles rounds msg.input u' r n early' timely.1 later clock past)
                ]
          ]
        ]

  -- A collector with a timeout ends, however many inputs come. Where the clock shows the start and
  -- the timeout, or more, in some round, it has ended by that round: some rounds brought a message
  -- each, and then it runs the target with the last input that they brought, or the first of all if
  -- there were none, and it has acknowledged each of their messages that asks for it. Instants and
  -- delays are supposed to be below 2 ^ 62 milliseconds.
  pub internal_debouncer-settles :
      (input : DebouncerInput p) (s t d : ℕ) (rounds : List (Round p)) (r : Round p) (n : ℕ)
      → input.timeout_ms ≡ pos t
      → 0 < t
      → s + t < 2 ^ 62
      → input.delay_ms ≡ pos d
      → d < 2 ^ 62
      → All IsTimely rounds
      → In r rounds
      → r.now ≡ pos n
      → s + t ≤ n
      → (k : ℕ) × (k ≤ length rounds)
        × All HasMessage (take k rounds)
        × (internal_debouncer input (pos s) rounds
            ≡ some (last_input input.initial_input (take k rounds), acks (take k rounds)))
  unfolding internal_debouncer Settles
  internal_debouncer-settles input s t d rounds r n timed positive fits delay short timely at clock
        past =
      let (u, e, early) =
        capped input s t timed positive fits (s + d) (omega (arith, fits, short)) in
      let (k, few, all, ends) =
        settles input s t timed positive fits rounds input.initial_input u r n early timely at clock
          past in
      (
        k,
        few,
        all,
        ap (collect input (pos s) rounds input.initial_input) (
              ap (cap input (pos s))
                (ap (λ (z : ℤ). i64 (pos s +ℤ z)) delay ∙ sum_lem s d (omega (arith, fits, short)))
              ∙ e)
            ∙ ends,
      )
