-- ===== src/Memory/Drain/Complete.antt =====
-- src/provider.rs, `drain_stream_from`: every value is read, whenever it was written.
use mathlib.Core.List.{append_assoc}
use mathlib.Core.Path.{subst}
use durust.Base.{
  ◌+◌, ◌<◌, ◌^◌, ℤ, pos, ◌+ℤ◌, i32, i32_of_fits, String, Bool, true, false, Option, none, some,
  List, [], ◌∷◌, ◌++◌, map, ◌≡◌, refl, sym, ap, ◌∙◌, arith, inl, inr, Bool-cases, drop, length,
  length-append, length-map, is_some_and, All,
}
use durust.Platform.{Platform}
use durust.Error.{Result, ok}
use durust.Memory.Streams.{until_closed}
use durust.Memory.Drain.{Pass, is_inactive, read_from, go_on, drain_stream_from, drain_stream}

-- Open entries, and those behind them.
module _ {A : Type 0} where
  until_closed-open :
      (vs : List A) (r : List (Option A))
      → until_closed (map some vs ++ r) ≡ (vs ++ (until_closed r).0, (until_closed r).1)
  unfolding until_closed
  until_closed-open [] r = refl
  until_closed-open (v ∷ vs) r = ap (λ (t : List A × Bool). (v ∷ t.0, t.1)) (until_closed-open vs r)

  until_closed-end :
      (r s : List (Option A))
      → (until_closed r).1 ≡ true
      → (until_closed (r ++ s)).0 ≡ (until_closed r).0
  unfolding until_closed
  until_closed-end [] s h = absurd (ground arith)
  until_closed-end (none ∷ r) s h = refl
  until_closed-end (some v ∷ r) s h = ap (◌∷◌ v) (until_closed-end r s h)

  open_of_until_closed :
      (r : List (Option A)) → (until_closed r).1 ≡ false → r ≡ map some (until_closed r).0
  unfolding until_closed
  open_of_until_closed [] h = refl
  open_of_until_closed (none ∷ r) h = absurd (ground arith)
  open_of_until_closed (some v ∷ r) h = ap (◌∷◌ (some v)) (open_of_until_closed r h)

  map-some-append : (us vs : List A) → map some (us ++ vs) ≡ map some us ++ map some vs
  map-some-append [] vs = refl
  map-some-append (u ∷ us) vs = ap (◌∷◌ (some u)) (map-some-append us vs)

  drop-open : (vs : List A) (r : List (Option A)) → drop (length vs) (map some vs ++ r) ≡ r
  drop-open [] r = refl
  drop-open (v ∷ vs) r = drop-open vs r

module _ {p : Platform} where
  -- The stream only grows, from `seen` on, to `total`; and once the producer was seen inactive, no
  -- more is written.
  abbrev pub Grows : List (Option p.Value) → Bool → List (Option p.Value) → List (Pass p) → Type 0
  Grows seen inactive total [] = Unit
  Grows seen inactive total (pass ∷ passes) =
      ((more : List (Option p.Value)) × (pass.entries ≡ seen ++ more))
      × ((rest : List (Option p.Value)) × (total ≡ pass.entries ++ rest))
      × (inactive ≡ true → pass.entries ≡ total)
      × Grows pass.entries (is_some_and pass.status is_inactive) total passes

  -- Each pass finds the producing workflow.
  abbrev pub Exists : Pass p → Type 0
  Exists pass = (s : String) × (pass.status ≡ some s)

  module _ (id : String) (total : List (Option p.Value)) (small : length total < 2 ^ 31) where
    closes :
        (pass : Pass p) (passes : List (Pass p)) (final : Bool) (vs : List p.Value) (offset : ℤ)
        → (read_from offset pass).1 ≡ true
        → drain_stream_from id (pass ∷ passes) final vs offset
          ≡ some (ok (vs ++ (read_from offset pass).0, true))
    unfolding drain_stream_from
    closes pass passes final vs offset h = rw h

    open_pass :
        (pass : Pass p) (passes : List (Pass p)) (final : Bool) (vs : List p.Value) (offset : ℤ)
        → (read_from offset pass).1 ≡ false
        → drain_stream_from id (pass ∷ passes) final vs offset
          ≡ go_on id final pass.status (vs ++ (read_from offset pass).0) (λ inactive.
            drain_stream_from id passes inactive
              (vs ++ (read_from offset pass).0)
              (i32 (offset +ℤ pos (length (read_from offset pass).0))))
    unfolding drain_stream_from
    open_pass pass passes final vs offset h = rw h

    -- What the loop is to return.
    answer : Option (Result p (List p.Value × Bool))
    answer = some (ok ((until_closed total).0, true))

    -- A pass at which all that was seen before is read.
    module _ (pass : Pass p) (passes : List (Pass p)) (final : Bool) (vs : List p.Value)
        (more rest : List (Option p.Value)) (grown : pass.entries ≡ map some vs ++ more)
        (total_is : total ≡ pass.entries ++ rest) (last : final ≡ true → pass.entries ≡ total) where
      reads : read_from (pos (length vs)) pass ≡ until_closed more
      reads =
          ap (λ (es : List (Option p.Value)). until_closed (drop (length vs) es)) grown
          ∙ ap until_closed (drop-open vs more)

      -- The values seen and read are all, once the end is met.
      all_closed :
          (until_closed more).1 ≡ true → (until_closed total).0 ≡ vs ++ (until_closed more).0
      all_closed closed =
          ap (λ (es : List (Option p.Value)). (until_closed es).0)
            (total_is
              ∙ ap (λ (es : List (Option p.Value)). es ++ rest) grown
              ∙ append_assoc (map some vs) more rest)
          ∙ ap (λ (t : List p.Value × Bool). t.0) (until_closed-open vs (more ++ rest))
          ∙ ap (λ (us : List p.Value). vs ++ us) (until_closed-end more rest closed)

      all_final : final ≡ true → (until_closed total).0 ≡ vs ++ (until_closed more).0
      all_final is_final =
          ap (λ (es : List (Option p.Value)). (until_closed es).0) (sym (last is_final) ∙ grown)
          ∙ ap (λ (t : List p.Value × Bool). t.0) (until_closed-open vs more)

      -- What the next pass has seen.
      seen : (until_closed more).1 ≡ false → pass.entries ≡ map some (vs ++ (until_closed more).0)
      seen is_open =
          grown
          ∙ ap (λ (es : List (Option p.Value)). map some vs ++ es)
              (open_of_until_closed more is_open)
          ∙ sym (map-some-append vs (until_closed more).0)

      offset_fits :
          (until_closed more).1 ≡ false
          → i32 (pos (length vs) +ℤ pos (length (until_closed more).0))
            ≡ pos (length (vs ++ (until_closed more).0))
      unfolding ◌+ℤ◌
      offset_fits is_open =
          let counted : length pass.entries ≡ length (vs ++ (until_closed more).0) =
            ap (λ (es : List (Option p.Value)). length es) (seen is_open)
            ∙ length-map some (vs ++ (until_closed more).0) in
          let within : length total ≡ length pass.entries + length rest =
            ap (λ (es : List (Option p.Value)). length es) total_is
            ∙ length-append pass.entries rest in
          let parts = length-append vs (until_closed more).0 in
          i32_of_fits (pos (length vs) +ℤ pos (length (until_closed more).0)) (ground arith)
          ∙ ground arith

      pass_lem :
          (s : String)
          → pass.status ≡ some s
          → ((until_closed more).1 ≡ false
              → final ≡ false
              → drain_stream_from id passes
                  (is_inactive s)
                  (vs ++ (until_closed more).0)
                  (pos (length (vs ++ (until_closed more).0)))
                ≡ answer)
          → drain_stream_from id (pass ∷ passes) final vs (pos (length vs)) ≡ answer
      unfolding answer
      pass_lem s found next = elim (Bool-cases (until_closed more).1) [
        | inl closed ↦
            closes pass passes final vs (pos (length vs))
              (ap (λ (t : List p.Value × Bool). t.1) reads ∙ closed)
            ∙ ap (λ (t : List p.Value × Bool). some (ok (vs ++ t.0, true))) reads
            ∙ ap (λ (us : List p.Value). some (ok (us, true))) (sym (all_closed closed))
        | inr is_open ↦
            open_pass pass passes final vs (pos (length vs))
              (ap (λ (t : List p.Value × Bool). t.1) reads ∙ is_open)
            ∙ ap
                (λ (t : List p.Value × Bool). go_on id final pass.status (vs ++ t.0) (λ inactive.
                  drain_stream_from id passes inactive (vs ++ t.0)
                    (i32 (pos (length vs) +ℤ pos (length t.0)))))
                reads
            ∙ onward is_open
      ]
        where
          onto : List p.Value → Bool → Option (Result p (List p.Value × Bool))
          onto us inactive =
              drain_stream_from id passes inactive (vs ++ us)
                (i32 (pos (length vs) +ℤ pos (length us)))

          onward :
              (until_closed more).1 ≡ false
              → go_on id final pass.status (vs ++ (until_closed more).0) (λ inactive.
                drain_stream_from id passes inactive
                  (vs ++ (until_closed more).0)
                  (i32 (pos (length vs) +ℤ pos (length (until_closed more).0))))
                ≡ answer
          onward is_open = elim (Bool-cases final) [
            | inl ends ↦
                ap
                  (λ (b : Bool).
                    go_on id b pass.status (vs ++ (until_closed more).0)
                      (onto (until_closed more).0))
                  ends
                ∙ ap (λ (us : List p.Value). some (ok (us, true))) (sym (all_final ends))
            | inr goes ↦
                ap
                  (λ (b : Bool).
                    go_on id b pass.status (vs ++ (until_closed more).0)
                      (onto (until_closed more).0))
                  goes
                ∙ ap
                    (λ (o : Option String).
                      go_on id false o (vs ++ (until_closed more).0) (onto (until_closed more).0))
                    found
                ∙ ap (drain_stream_from id passes (is_inactive s) (vs ++ (until_closed more).0))
                    (offset_fits is_open)
                ∙ next is_open goes
          ]

    drains :
        (front : List (Pass p)) (q q' : Pass p) (back : List (Pass p)) (s s' : String)
        (final : Bool) (vs : List p.Value)
        → Grows (map some vs) final total (front ++ q ∷ q' ∷ back)
        → All Exists front
        → q.status ≡ some s
        → is_inactive s ≡ true
        → q'.status ≡ some s'
        → drain_stream_from id (front ++ q ∷ q' ∷ back) final vs (pos (length vs)) ≡ answer
    drains [] q q' back s s' final vs
          (((more, grown), (rest, whole), last, ((more', grown'), (rest', whole'), last', onward)))
          there found inactive found' =
        pass_lem q (q' ∷ back) final vs more rest grown whole last s found λ is_open goes.
          pass_lem q' back (is_inactive s) (vs ++ (until_closed more).0) more' rest'
            (grown'
              ∙ ap (λ (es : List (Option p.Value)). es ++ more')
                  (seen q (q' ∷ back) final vs more rest grown whole last is_open))
            whole' (λ e. last' (ap (λ (o : Option String). is_some_and o is_inactive) found ∙ e)) s'
            found' (λ open' runs. absurd (ground (arith, inactive, runs)))
    drains (x ∷ front) q q' back s s' final vs (((more, grown), (rest, whole), last, onward)) there
          found inactive found' =
        let (s0, e0) = there.0 in
        pass_lem x (front ++ q ∷ q' ∷ back) final vs more rest grown whole last s0 e0
          λ is_open goes.
            drains front q q' back s s' (is_inactive s0) (vs ++ (until_closed more).0)
              (subst
                (λ (b : Bool).
                  Grows (map some (vs ++ (until_closed more).0)) b total (front ++ q ∷ q' ∷ back))
                (ap (λ (o : Option String). is_some_and o is_inactive) e0)
                (subst
                  (λ (es : List (Option p.Value)).
                    Grows es (is_some_and x.status is_inactive) total (front ++ q ∷ q' ∷ back))
                  (seen x (front ++ q ∷ q' ∷ back) final vs more rest grown whole last is_open)
                  onward))
              there.1 found inactive found'

    -- A reader of a stream that only grows meets its producer inactive at some pass, finds it there
    -- at every pass till then, and takes one pass more; nothing is written after the producer was
    -- seen inactive. Then the reader returns, and it has read every value of the stream up to its
    -- end, in order: none that was written between its last read and the look at the status is lost.
    -- The stream is supposed to have fewer than 2 ^ 31 entries.
    pub drain_stream_complete :
        (front : List (Pass p)) (q q' : Pass p) (back : List (Pass p)) (s s' : String)
        → Grows [] false total (front ++ q ∷ q' ∷ back)
        → All Exists front
        → q.status ≡ some s
        → is_inactive s ≡ true
        → q'.status ≡ some s'
        → drain_stream id (front ++ q ∷ q' ∷ back) ≡ some (ok ((until_closed total).0, true))
    unfolding drain_stream answer
    drain_stream_complete front q q' back s s' grows there found inactive found' =
        drains front q q' back s s' false [] grows there found inactive found'
