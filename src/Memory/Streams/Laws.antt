-- ===== src/Memory/Streams/Laws.antt =====
-- src/memory.rs: writing, closing and reading one stream.
use durust.Base.{
  pos, String, Bool, true, false, Option, none, some, List, [], ◌∷◌, ◌++◌, ◌≡◌, refl, ap, ◌∙◌, sym,
  string_eq, pair_eq, arith, inl, inr, Option-cases, anyb, is_none, unwrap_or,
}
use durust.Platform.{Platform}
use durust.Error.{ok, err, app}
use durust.Store.{get, insert}
use durust.Store.Laws.{get-insert_same}
use durust.Memory.{Inner}
use durust.Memory.Streams.{closed_message, until_closed, stream_entries, write_stream, read_stream}

module _ {A : Type 0} where
  until_closed-append :
      (xs : List (Option A)) (v : A)
      → (until_closed xs).1 ≡ false
      → until_closed (xs ++ some v ∷ []) ≡ ((until_closed xs).0 ++ v ∷ [], false)
  unfolding until_closed
  until_closed-append [] v h = refl
  until_closed-append (none ∷ xs) v h = absurd (ground arith)
  until_closed-append (some x ∷ xs) v h = rw (until_closed-append xs v h)

  until_closed-close :
      (xs : List (Option A))
      → (until_closed xs).1 ≡ false
      → until_closed (xs ++ none ∷ []) ≡ ((until_closed xs).0, true)
  unfolding until_closed
  until_closed-close [] h = refl
  until_closed-close (none ∷ xs) h = absurd (ground arith)
  until_closed-close (some x ∷ xs) h = rw (until_closed-close xs h)

  until_closed-none : (xs : List (Option A)) → (until_closed xs).1 ≡ anyb is_none xs
  unfolding until_closed
  until_closed-none [] = refl
  until_closed-none (none ∷ xs) = refl
  until_closed-none (some x ∷ xs) = until_closed-none xs

module _ {p : Platform} where
  read_all :
      (id key : String) (g : Inner p)
      → read_stream id key (pos 0) g ≡ until_closed (stream_entries id key g)
  unfolding read_stream until_closed
  read_all id key g = elim (Option-cases (get (id, key) g.streams)) [
    | inl absent ↦ rw (absent, read_stream)
    | inr (entries, found) ↦ rw (found, read_stream)
  ]

  written :
      (id key : String) (value : Option p.Value) (g : Inner p)
      → (read_stream id key (pos 0) g).1 ≡ false
      → write_stream id key value g ≡ (
        ok tt,
        record g { streams = insert (id, key) (stream_entries id key g ++ value ∷ []) g.streams },
      )
  unfolding write_stream
  written id key value g h =
      let free : anyb is_none (stream_entries id key g) ≡ false =
        sym (until_closed-none (stream_entries id key g))
        ∙ sym (ap (λ t. t.1) (read_all id key g))
        ∙ h in
      rw (free, write_stream)

  sealed :
      (id key : String) (value : Option p.Value) (g : Inner p)
      → anyb is_none (stream_entries id key g) ≡ true
      → write_stream id key value g ≡ (err (app (closed_message key)), g)
  unfolding write_stream
  sealed id key value g shut = rw (shut, write_stream)

  entries-write :
      (id key : String) (xs : List (Option p.Value)) (g : Inner p)
      → stream_entries id key (record g { streams = insert (id, key) xs g.streams }) ≡ xs
  entries-write id key xs g = ap (λ o. unwrap_or o []) (get-insert_same (id, key) xs g.streams)

  -- While a stream is open, a write is accepted; a reader from the start then sees the value after
  -- all the values it saw before, and the stream still open.
  pub read_stream-write :
      (id key : String) (v : p.Value) (g : Inner p)
      → (read_stream id key (pos 0) g).1 ≡ false
      → ((write_stream id key (some v) g).0 ≡ ok tt)
        × (read_stream id key (pos 0) (write_stream id key (some v) g).1
            ≡ ((read_stream id key (pos 0) g).0 ++ v ∷ [], false))
  read_stream-write id key v g h = rw (written id key (some v) g h) (
    refl,
    read_all id key (record g {
      streams = insert (id, key) (stream_entries id key g ++ some v ∷ []) g.streams;
    })
        ∙ ap until_closed (entries-write id key (stream_entries id key g ++ some v ∷ []) g)
        ∙ until_closed-append (stream_entries id key g) v
            (sym (ap (λ (t : List p.Value × Bool). t.1) (read_all id key g)) ∙ h)
        ∙ ap (λ (t : List p.Value × Bool). (t.0 ++ v ∷ [], false)) (sym (read_all id key g)),
  )

  -- Closing an open stream is accepted; a reader from the start then sees the same values and that
  -- the stream is closed, and every later write to it, of a value or of a close, is refused and
  -- changes nothing.
  pub write_stream-closes :
      (id key : String) (later : Option p.Value) (g : Inner p)
      → (read_stream id key (pos 0) g).1 ≡ false
      → ((write_stream id key none g).0 ≡ ok tt)
        × (read_stream id key (pos 0) (write_stream id key none g).1
            ≡ ((read_stream id key (pos 0) g).0, true))
        × (write_stream id key later (write_stream id key none g).1
            ≡ (err (app (closed_message key)), (write_stream id key none g).1))
  write_stream-closes id key later g h =
      let xs = stream_entries id key g ++ none ∷ [] in
      let closed : Inner p = record g { streams = insert (id, key) xs g.streams } in
      let seen : until_closed (stream_entries id key closed)
          ≡ ((read_stream id key (pos 0) g).0, true) =
        ap until_closed (entries-write id key xs g)
        ∙ until_closed-close (stream_entries id key g)
            (sym (ap (λ (t : List p.Value × Bool). t.1) (read_all id key g)) ∙ h)
        ∙ ap (λ (t : List p.Value × Bool). (t.0, true)) (sym (read_all id key g)) in
      rw (written id key none g h) (
        refl,
        read_all id key closed ∙ seen,
        sealed id key later closed (
            sym (until_closed-none (stream_entries id key closed))
            ∙ ap (λ (t : List p.Value × Bool). t.1) seen),
      )
