-- ===== src/Memory/Streams.antt =====
-- src/memory.rs: append-only streams; an entry `none` is the close sentinel.
pub mod Laws
use Prim.Native.String.{◌++◌ as text_append}
use durust.Base.{
  ℕ, ℤ, pos, pos_part, String, Bool, true, false, Option, none, some, List, [], ◌∷◌, ◌++◌, map,
  ◌==◌, string_eq, pair_eq, anyb, drop, filterb, is_none, unwrap_or, if◌then◌else◌,
}
use durust.Base.Sorting.{sort, text_le}
use durust.Platform.{Platform}
use durust.Error.{Result, ok, err, app}
use durust.Store.{HashMap, get, insert}
use durust.Memory.{Inner}

abbrev pub closed_message : String → String
closed_message key = text_append "stream `" (text_append key "` is already closed")

-- The values up to the sentinel, and whether it was met.
unfoldable pub until_closed {ℓ} : {A : Type ℓ} → List (Option A) → List A × Bool
until_closed [] = ([], false)
until_closed (none ∷ rest) = ([], true)
until_closed (some v ∷ rest) = let (vs, closed) = until_closed rest in (v ∷ vs, closed)

module _ {p : Platform} where
  abbrev pub stream_entries : String → String → Inner p → List (Option p.Value)
  stream_entries workflow_id key g = unwrap_or (get (workflow_id, key) g.streams) []

  unfoldable pub write_stream :
      String → String → Option p.Value → Inner p → Result p (Unit {0}) × Inner p
  write_stream workflow_id key value g =
      let entries = stream_entries workflow_id key g in
      if anyb is_none entries then (err (app (closed_message key)), g) else (
        ok tt,
        record g { streams = insert (workflow_id, key) (entries ++ value ∷ []) g.streams },
      )

  unfoldable pub read_stream : String → String → ℤ → Inner p → List p.Value × Bool
  unfolding until_closed
  read_stream workflow_id key from_offset g = elim (get (workflow_id, key) g.streams) [
    | none ↦ ([], false)
    | some entries ↦ until_closed (drop (pos_part from_offset) entries)
  ]

  unfoldable pub list_workflow_streams : String → Inner p → List (String × List p.Value)
  unfolding until_closed
  list_workflow_streams workflow_id g =
      sort (λ (a b : String × List p.Value). text_le a.0 b.0)
        (map (λ (e : (String × String) × List (Option p.Value)). (e.0.1, (until_closed e.1).0))
          (filterb (λ (e : (String × String) × List (Option p.Value)). e.0.0 == workflow_id)
            g.streams))
