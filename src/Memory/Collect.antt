-- ===== src/Memory/Collect.antt =====
-- src/provider.rs, `resolve_gc_cutoff` and the default `garbage_collect`, on the in-memory provider.
-- They call the provider two or three times; here no other call comes between these.
pub mod Laws
use Prim.Native.String.{◌++◌ as text_append}
use durust.Base.{
  ℕ, ℤ, pos, ◌-ℤ◌, i64, leb_ℤ, ltb_ℤ, String, Bool, true, false, Option, none, some, List, [], ◌∷◌,
  map, string_eq, int_eq, pair_eq, length, is_none_or, if◌then◌else◌,
}
use durust.Platform.{Platform}
use durust.Error.{Result, ok, err, panicked, app}
use durust.Provider.{
  WorkflowStatus, ListFilter, default_filter, status_success, status_error, status_cancelled,
  status_max_recovery_attempts_exceeded,
}
use durust.Memory.{Inner}
use durust.Memory.Listing.{list_workflows}
use durust.Memory.Delete.{delete_workflows}

-- The message of a bound that is not positive; `shown` is the bound in decimal.
abbrev pub threshold_message : String → String
threshold_message shown = text_append "rows_threshold must be positive, got " shown

-- The newest workflow but `threshold - 1`.
abbrev pub nth_newest_filter : ℤ → ListFilter
nth_newest_filter threshold = record default_filter {
  sort_desc = true;
  limit = some (pos 1);
  offset = some (i64 (threshold -ℤ pos 1));
  load_input = false;
  load_output = false;
}

-- What has ended, created at the latest one millisecond before the cutoff.
abbrev pub victims_filter : ℤ → ListFilter
victims_filter cutoff = record default_filter {
  status =
      status_success ∷ status_error ∷ status_cancelled ∷ status_max_recovery_attempts_exceeded ∷ [];
  end_time_ms = some (i64 (cutoff -ℤ pos 1));
  load_input = false;
  load_output = false;
}

module _ {p : Platform} where
  -- The newer of the two bounds.
  unfoldable pub newer_bound : Option ℤ → List (WorkflowStatus p) → Option ℤ
  newer_bound cutoff [] = cutoff
  newer_bound cutoff (w ∷ rows) =
      let rows_cutoff = p.timestamp_millis w.created_at in
      if is_none_or cutoff (λ c. ltb_ℤ c rows_cutoff) then some rows_cutoff else cutoff

  unfoldable pub resolve_gc_cutoff :
      (ℤ → String) → Option ℤ → Option ℤ → Inner p → Result p (Option ℤ)
  unfolding newer_bound
  resolve_gc_cutoff shown cutoff none g = ok cutoff
  resolve_gc_cutoff shown cutoff (some threshold) g =
      if leb_ℤ threshold (pos 0)
      then err (app (threshold_message (shown threshold)))
      else ok (newer_bound cutoff (list_workflows (nth_newest_filter threshold) g))

  unfoldable pub victims : ℤ → Inner p → List String
  victims cutoff g = map (λ (w : WorkflowStatus p). w.id) (list_workflows (victims_filter cutoff) g)

  -- The deletion of the ids alone always ends.
  unfoldable pub collect : List String → Inner p → Result p ℕ × Inner p
  collect ids g = elim (delete_workflows ids false g) [
    | none ↦ (panicked, g)
    | some g' ↦ (ok (length ids), g')
  ]

  unfoldable pub garbage_collect :
      (ℤ → String) → Option ℤ → Option ℤ → Inner p → Result p ℕ × Inner p
  unfolding resolve_gc_cutoff victims collect
  garbage_collect shown cutoff_epoch_ms rows_threshold g =
      elim (resolve_gc_cutoff shown cutoff_epoch_ms rows_threshold g) [
        | err e ↦ (err e, g)
        | panicked ↦ (panicked, g)
        | ok none ↦ (ok 0, g)
        | ok (some cutoff) ↦ collect (victims cutoff g) g
      ]
