-- ===== src/Slip/Store/Filter.antt =====
-- `SnapshotFilter` and `snapshotMatches` of app/slip/state_store.go, and the loop of `List`.
pub mod Lists
use routing_slip_pattern.Common.{
  ℕ, ◌≤◌, ◌<◌, String, Bool, true, false, ◌&&◌, ◌||◌, not, List, [], ◌∷◌, ◌++◌, ◌≡◌, str_eq, leb,
  ◌==◌, if◌then◌else◌, length, length-append, All, arith, Bool-cases, inl, inr,
}
use routing_slip_pattern.Common.Int.{ℤ, pos, is_positive, lt_int}
use routing_slip_pattern.Common.Text.{is_empty}
use routing_slip_pattern.Slip.Snapshot.{MessageSnapshot}

-- A `time.Time` is a number of nanoseconds, 0 the zero time.
pub record SnapshotFilter : Type 0 where
  pub message_id : String
  pub correlation_id : String
  pub trace_id : String
  pub workflow : String
  pub status : String
  pub from : ℕ
  pub to : ℕ
  pub limit : ℤ

-- An empty text of the filter lets every value through.
abbrev accepts : String → String → Bool
accepts wanted value = is_empty wanted || str_eq value wanted

unfoldable pub snapshot_matches : MessageSnapshot → SnapshotFilter → Bool
snapshot_matches s f =
    accepts f.message_id s.id
    && accepts f.correlation_id s.correlation_id
    && accepts f.trace_id s.trace_id
    && accepts f.workflow s.workflow
    && accepts f.status s.status
    && (f.from == 0 || leb f.from s.updated_at)
    && (f.to == 0 || leb s.updated_at f.to)

-- The result is full: there is a limit, and it is reached.
abbrev pub is_full : SnapshotFilter → List MessageSnapshot → Bool
is_full f out = is_positive f.limit && not (lt_int (pos (length out)) f.limit)

-- The loop of `List` over the stored snapshots, with the result so far.
unfoldable pub list_from :
    SnapshotFilter → List MessageSnapshot → List MessageSnapshot → List MessageSnapshot
unfolding snapshot_matches
list_from f out [] = out
list_from f out (s ∷ more) =
    let longer = out ++ s ∷ [] in
    let rest = list_from f longer more in
    let skipped = list_from f out more in
    if snapshot_matches s f then (if is_full f longer then longer else rest) else skipped
