-- ===== src/Cleanup/Batches.antt =====
-- `runCleanupBatches` of lib/cleanup.ts. A job that fails leaves its row for the next run.
pub mod Kept
pub mod Counts
use anzdrop.Base.{
  ℕ, zero, suc, Bool, true, false, ◌||◌, String, Option, none, some, List, [], ◌∷◌, length, ltb,
  ◌==◌, if◌then◌else◌,
}
use anzdrop.Cleanup.World.{
  Storage, World, CleanupError, work_limit_reached, invalid_limits, Result, done, thrown, Job,
}

pub record CleanupCandidate : Type 0 where
  pub id : String
  pub cleanup_at : ℕ

pub record CleanupBatchOptions : Type 0 where
  pub query_limit : Option ℕ
  pub max_batches : Option ℕ
  pub dry_run : Bool
  pub work_limit : Option ℕ

pub record CleanupResult : Type 0 where
  pub processed : ℕ
  pub work_limit_hit : Bool
  pub candidates : Option ℕ
  pub failed : ℕ
  pub reached_batch_limit : Bool

abbrev pub cleanup_query_limit : ℕ
cleanup_query_limit = 20

abbrev pub cleanup_max_batches : ℕ
cleanup_max_batches = 3

abbrev pub or_default : Option ℕ → ℕ → ℕ
or_default none n = n
or_default (some m) n = m

abbrev pub query_limit_of : CleanupBatchOptions → ℕ
query_limit_of options = or_default options.query_limit cleanup_query_limit

abbrev pub max_batches_of : CleanupBatchOptions → ℕ
max_batches_of options = or_default options.max_batches cleanup_max_batches

abbrev pub has_invalid_limits : (query_limit max_batches : ℕ) → Bool
has_invalid_limits query_limit max_batches =
    ltb query_limit 1 || (ltb 100 query_limit || (ltb max_batches 1 || ltb 10 max_batches))

abbrev pub is_work_limit : CleanupError → Bool
is_work_limit work_limit_reached = true
is_work_limit _ = false

-- The variables of the loop. `stopped` says that it has been left from inside a batch.
pub record Progress : Type 0 where
  pub candidates : ℕ
  pub after : Option CleanupCandidate
  pub processed : ℕ
  pub failed : ℕ
  pub reached_batch_limit : Bool
  pub work_limit_hit : Bool
  pub stopped : Bool

abbrev pub start_progress : Progress
start_progress = record {
  candidates = 0;
  after = none;
  processed = 0;
  failed = 0;
  reached_batch_limit = false;
  work_limit_hit = false;
  stopped = false;
}

abbrev pub move_to : CleanupCandidate → Progress → Progress
move_to c p = record p { after = some c }

abbrev pub count_candidate : Progress → Progress
count_candidate p = record p { candidates = suc p.candidates }

abbrev pub count_processed : Progress → Progress
count_processed p = record p { processed = suc p.processed }

abbrev pub count_failed : Progress → Progress
count_failed p = record p { failed = suc p.failed }

abbrev pub stop_at_work_limit : Progress → Progress
stop_at_work_limit p = record p {
  reached_batch_limit = true;
  work_limit_hit = true;
  stopped = true;
}

abbrev pub reach_batch_limit : Progress → Progress
reach_batch_limit p = record p { reached_batch_limit = true }

abbrev pub summarise :
    {st : Storage} → Bool → Result Progress × World st → Result CleanupResult × World st
summarise dry_run (thrown e, w) = (thrown e, w)
summarise dry_run (done p, w) = (
  done (record {
    processed = p.processed;
    work_limit_hit = p.work_limit_hit;
    candidates = if dry_run then some p.candidates else none;
    failed = p.failed;
    reached_batch_limit = p.reached_batch_limit;
  }),
  w,
)

-- What follows the rows of a batch.
abbrev pub after_rows :
    {st : Storage}
    → (fetched limit left : ℕ) → (Progress → World st → Result Progress × World st)
    → Progress × World st
    → Result Progress × World st
after_rows fetched limit left next (q, w) =
    if q.stopped || ltb fetched limit
    then (done q, w)
    else next (if left == 0 then reach_batch_limit q else q) w

module _ {st : Storage} {Row : Type 0} (candidate : Row → CleanupCandidate) where
  -- What follows the handling of a row, with the rest of the rows as `next`.
  abbrev pub after_row :
      (Progress → World st → Progress × World st)
      → Progress
      → Result (Unit {0}) × World st
      → Progress × World st
  after_row next p (done _, w) = next (count_processed p) w
  after_row next p (thrown e, w) =
      if is_work_limit e then (stop_at_work_limit p, w) else next (count_failed p) w

  unfoldable pub handle_rows :
      Bool → (Row → Job st (Unit {0})) → List Row → Progress → World st → Progress × World st
  handle_rows dry_run handle [] p w = (p, w)
  handle_rows dry_run handle (row ∷ rows) p w =
      let next : Progress → World st → Progress × World st = handle_rows dry_run handle rows in
      elim dry_run [
        | true ↦ next (count_candidate (move_to (candidate row) p)) w
        | false ↦ after_row next (move_to (candidate row) p) (handle row w)
      ]

  -- What follows a fetch, with the batches that are left as `next`.
  abbrev pub after_fetch :
      Bool
      → (Row → Job st (Unit {0}))
      → (limit left : ℕ) → (Progress → World st → Result Progress × World st)
      → Progress
      → Result (List Row) × World st
      → Result Progress × World st
  after_fetch dry_run handle limit left next p (thrown e, w) =
      if is_work_limit e then (done (stop_at_work_limit p), w) else (thrown e, w)
  after_fetch dry_run handle limit left next p (done [], w) = (done p, w)
  after_fetch dry_run handle limit left next p (done (row ∷ rows), w) =
      after_rows (length (row ∷ rows)) limit left next (handle_rows dry_run handle (row ∷ rows) p w)

  -- The loop over the batches, with those that are left.
  unfoldable pub run_batches :
      Bool
      → (ℕ → Option CleanupCandidate → Job st (List Row))
      → (Row → Job st (Unit {0}))
      → (limit left : ℕ) → Progress
      → World st
      → Result Progress × World st
  run_batches dry_run fetch handle limit zero p w = (done p, w)
  run_batches dry_run fetch handle limit (suc left) p w =
      after_fetch dry_run handle limit left (run_batches dry_run fetch handle limit left) p
        (fetch limit p.after w)

  unfoldable pub run_cleanup_batches :
      CleanupBatchOptions
      → (ℕ → Option CleanupCandidate → Job st (List Row))
      → (Row → Job st (Unit {0}))
      → Job st CleanupResult
  run_cleanup_batches options fetch handle w =
      if has_invalid_limits (query_limit_of options) (max_batches_of options)
      then (thrown invalid_limits, w)
      else summarise options.dry_run (
          run_batches options.dry_run fetch handle (query_limit_of options) (max_batches_of options)
            start_progress w)
