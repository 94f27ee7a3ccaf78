-- ===== src/Memory/Drain.antt =====
-- src/provider.rs: reading a stream to its end (`drain_stream_from`), over the two reads that it
-- makes of a backend, here the in-memory provider's: the entries of the stream, and the status of
-- the workflow that produces it.
pub mod Complete
use durust.Base.{
  ℤ, pos, pos_part, ◌+ℤ◌, i32, String, Bool, true, false, not, ◌&&◌, Option, none, some, List, [],
  ◌∷◌, ◌++◌, ◌==◌, string_eq, drop, length, option_map, if◌then◌else◌,
}
use durust.Platform.{Platform}
use durust.Error.{Error, nonexistent_workflow, Result, ok, err}
use durust.Provider.{WorkflowStatus, status_pending, status_enqueued}
use durust.Memory.{Inner}
use durust.Memory.Lifecycle.{get_workflow_status}
use durust.Memory.Streams.{stream_entries, until_closed, read_stream}

-- One pass of the loop: the entries when they are read, and the status that is seen after that, none
-- for a workflow that does not exist.
pub record Pass (p : Platform) : Type 0 where
  pub entries : List (Option p.Value)
  pub status : Option String

-- The producer writes no more.
abbrev pub is_inactive : String → Bool
is_inactive s = not (s == status_pending) && not (s == status_enqueued)

module _ {p : Platform} where
  -- A pass that reads in these tables and looks at the status in those.
  unfoldable pub pass_of : String → String → Inner p → Inner p → Pass p
  pass_of workflow_id key at_read at_status = record {
    entries = stream_entries workflow_id key at_read;
    status =
        option_map (λ (w : WorkflowStatus p). w.status) (get_workflow_status workflow_id at_status);
  }

  -- `stream_entries` of the backend: the values from the offset on, and whether the end was met.
  abbrev pub read_from : ℤ → Pass p → List p.Value × Bool
  read_from offset pass = until_closed (drop (pos_part offset) pass.entries)

  -- After a pass that met no end: the last one, or one more according to the status.
  abbrev pub go_on :
      String
      → Bool
      → Option String
      → List p.Value
      → (Bool → Option (Result p (List p.Value × Bool)))
      → Option (Result p (List p.Value × Bool))
  go_on workflow_id true status values more = some (ok (values, true))
  go_on workflow_id false none values more = some (err (nonexistent_workflow workflow_id))
  go_on workflow_id false (some s) values more = more (is_inactive s)

  -- The loop, over the passes that it may take; none: it goes on. `final_read` is set once the
  -- producer is seen inactive.
  unfoldable pub drain_stream_from :
      String → List (Pass p) → Bool → List p.Value → ℤ → Option (Result p (List p.Value × Bool))
  drain_stream_from workflow_id [] final_read values offset = none
  drain_stream_from workflow_id (pass ∷ passes) final_read values offset =
      let (read, closed) = read_from offset pass in
      if closed
      then some (ok (values ++ read, true))
      else go_on workflow_id final_read pass.status (values ++ read) (λ inactive.
        drain_stream_from workflow_id passes inactive (values ++ read)
          (i32 (offset +ℤ pos (length read))))

  -- `drain_stream`
  unfoldable pub drain_stream : String → List (Pass p) → Option (Result p (List p.Value × Bool))
  unfolding drain_stream_from
  drain_stream workflow_id passes = drain_stream_from workflow_id passes false [] (pos 0)

  -- `snapshot_stream`
  unfoldable pub snapshot_stream : String → String → ℤ → Inner p → List p.Value × Bool
  snapshot_stream workflow_id key from_offset g = read_stream workflow_id key from_offset g
