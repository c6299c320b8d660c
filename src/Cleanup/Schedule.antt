-- ===== src/Cleanup/Schedule.antt =====
-- The two clean-ups of lib/cleanup.ts and what the schedule runs. SQLite's order of ids is a parameter.
pub mod Tracked
pub mod Runs
pub mod Counts
use anzdrop.Base.{
  ℕ, ◌+◌, Bool, true, false, ◌&&◌, ◌||◌, String, Option, none, some, List, [], ◌∷◌, keep, take, ltb,
  leb, ◌==◌, if◌then◌else◌,
}
use anzdrop.Server.State.{Share, Upload}
use anzdrop.Cleanup.World.{Storage, World, Result, done, thrown, Job, query, within_budget}
use anzdrop.Cleanup.Share.{delete_share, delete_stale_upload}
use anzdrop.Cleanup.Batches.{
  CleanupCandidate, CleanupBatchOptions, CleanupResult, run_cleanup_batches,
}

abbrev pub share_candidate : Share → CleanupCandidate
share_candidate share = record { id = share.id; cleanup_at = share.expires_at }

abbrev pub upload_candidate : Upload → CleanupCandidate
upload_candidate u = record { id = u.id; cleanup_at = u.created_at }

-- 24 hours in milliseconds.
abbrev pub stale_upload_threshold_ms : ℕ
stale_upload_threshold_ms = 86400000

pub record ScheduledCleanupSummary : Type 0 where
  pub expired_shares : Option CleanupResult
  pub stale_uploads : Option CleanupResult

abbrev pub default_options : CleanupBatchOptions
default_options = record {
  query_limit = none;
  max_batches = none;
  dry_run = false;
  work_limit = none;
}

abbrev pub phase_backlog : Option CleanupResult → Bool
phase_backlog none = true
phase_backlog (some r) = ltb 0 r.failed || r.reached_batch_limit

-- Whether the summary is logged as a warning.
pub has_backlog : ScheduledCleanupSummary → Bool
has_backlog summary = phase_backlog summary.expired_shares || phase_backlog summary.stale_uploads

abbrev pub caught : {st : Storage} {A : Type 0} → Result A × World st → Option A × World st
caught (done a, w) = (some a, w)
caught (thrown e, w) = (none, w)

module _ (id_before : String → String → Bool) where
  -- `(time, id) > (?, ?)`
  pub comes_after : CleanupCandidate → CleanupCandidate → Bool
  comes_after c d =
      ltb c.cleanup_at d.cleanup_at || (c.cleanup_at == d.cleanup_at && id_before c.id d.id)

  abbrev pub is_beyond : Option CleanupCandidate → CleanupCandidate → Bool
  is_beyond none d = true
  is_beyond (some c) d = comes_after c d

  module _ {Row : Type 0} (candidate : Row → CleanupCandidate) where
    -- `ORDER BY time, id`
    pub insert_ordered : Row → List Row → List Row
    insert_ordered row [] = row ∷ []
    insert_ordered row (other ∷ rows) =
        if comes_after (candidate other) (candidate row)
        then other ∷ insert_ordered row rows
        else row ∷ other ∷ rows

    pub order_by : List Row → List Row
    order_by [] = []
    order_by (row ∷ rows) = insert_ordered row (order_by rows)

    -- The rows that are due, past the cursor, in order, at most so many.
    abbrev pub page : (Row → Bool) → ℕ → Option CleanupCandidate → List Row → List Row
    page due limit after rows =
        take limit (order_by (keep (λ row. due row && is_beyond after (candidate row)) rows))

  module _ {st : Storage} where
    unfoldable pub cleanup_expired_shares : (now : ℕ) → CleanupBatchOptions → Job st CleanupResult
    cleanup_expired_shares now options = within_budget options.work_limit (
        run_cleanup_batches share_candidate options
          (λ limit after.
            query
              (λ s. page share_candidate (λ share. leb share.expires_at now) limit after s.shares))
          (λ share. delete_share share.id))

    unfoldable pub cleanup_stale_uploads : (now : ℕ) → CleanupBatchOptions → Job st CleanupResult
    cleanup_stale_uploads now options = within_budget options.work_limit (
        run_cleanup_batches upload_candidate options
          (λ limit after. query (λ s.
            page upload_candidate (λ u. leb (u.created_at + stale_upload_threshold_ms) now) limit
              after s.uploads))
          (λ u. delete_stale_upload u))

    abbrev pub run_phases : (now later : ℕ) → Job st ScheduledCleanupSummary
    run_phases now later w =
        let (shares, w') = caught (cleanup_expired_shares now default_options w) in
        let (uploads, w'') = caught (cleanup_stale_uploads later default_options w') in
        (done (record { expired_shares = shares; stale_uploads = uploads }), w'')

    unfoldable pub run_scheduled_cleanup :
        (work_limit : Option ℕ) (now later : ℕ) → Job st ScheduledCleanupSummary
    run_scheduled_cleanup work_limit now later = within_budget work_limit (run_phases now later)
