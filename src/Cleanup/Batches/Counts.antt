-- ===== src/Cleanup/Batches/Counts.antt =====
-- How many rows a run can get through.
use native.Mathlib.Nat.{mul-suc}
use anzdrop.Base.{
  ℕ, zero, suc, ◌+◌, ◌*◌, ◌≤◌, Bool, true, false, ◌||◌, ◌≡◌, refl, Option, some, List, [], ◌∷◌,
  length, ltb, ◌==◌, if◌then◌else◌, by_test, arith,
}
use anzdrop.Cleanup.World.{Storage, World, invalid_limits, Result, done, thrown, Job}
use anzdrop.Cleanup.Batches.{
  CleanupCandidate, CleanupBatchOptions, CleanupResult, Progress, start_progress, move_to,
  reach_batch_limit, is_work_limit, after_row, handle_rows, after_fetch, after_rows, run_batches,
  has_invalid_limits, query_limit_of, max_batches_of, summarise, run_cleanup_batches,
  stop_at_work_limit, count_failed, or_default,
}

-- The rows that a run has come to, but for the one at which a ceiling stopped it.
abbrev total : Progress → ℕ
total p = p.processed + p.failed + p.candidates

abbrev pub total_of : CleanupResult → ℕ
total_of r = r.processed + r.failed + or_default r.candidates 0

-- What the outcome of the loop counts is at most `bound`.
abbrev Within : {st : Storage} → ℕ → Result Progress × World st → Type 0
Within bound (done p, w) = total p ≤ bound
Within bound (thrown e, w) = Unit {0}

module _ {st : Storage} {Row : Type 0} (candidate : Row → CleanupCandidate) where
  after_row-total :
      (next : Progress → World st → Progress × World st) (p : Progress)
      (r : Result (Unit {0}) × World st) (bound : ℕ)
      → ((q : Progress) (w : World st) → total q ≤ total p + 1 → total (next q w).0 ≤ bound)
      → total p ≤ bound
      → total (after_row candidate next p r).0 ≤ bound
  after_row-total next p (done _, w) bound rest h = rest _ w (omega arith)
  after_row-total next p (thrown e, w) bound rest h =
      by_test {A = Progress × World st} (λ r. total r.0 ≤ bound) (is_work_limit e)
        (stop_at_work_limit p, w) (next (count_failed p) w) (λ _. h) (λ _. rest _ w (omega arith))

  handle_rows-total :
      (dry_run : Bool) (handle : Row → Job st (Unit {0})) (rows : List Row) (p : Progress)
      (w : World st)
      → total (handle_rows candidate dry_run handle rows p w).0 ≤ total p + length rows
  unfolding handle_rows
  handle_rows-total dry_run handle [] p w = omega arith
  handle_rows-total true handle (row ∷ rows) p w = omega (
    arith,
    handle_rows-total true handle rows
        (record p { after = some (candidate row); candidates = suc p.candidates }) w,
  )
  handle_rows-total false handle (row ∷ rows) p w =
      after_row-total (handle_rows candidate false handle rows) (move_to (candidate row) p)
        (handle row w) (total p + suc (length rows))
        (λ q v h. omega (arith, handle_rows-total false handle rows q v)) (omega arith)

  module _ (dry_run : Bool) (fetch : ℕ → Option CleanupCandidate → Job st (List Row))
      (handle : Row → Job st (Unit {0}))
      (bounded : (n : ℕ) (after : Option CleanupCandidate) (w : World st) (rows : List Row)
        → (fetch n after w).0 ≡ done rows
        → length rows ≤ n) where
    reach-total : (b : Bool) (q : Progress) → total (if b then reach_batch_limit q else q) ≡ total q
    reach-total true q = refl
    reach-total false q = refl

    weaken : (m n : ℕ) (r : Result Progress × World st) → m ≤ n → Within m r → Within n r
    weaken m n (done p, w) le h = omega arith
    weaken m n (thrown e, w) le h = tt

    after_rows-total :
        (fetched limit left : ℕ) (next : Progress → World st → Result Progress × World st)
        (bound : ℕ) (r : Progress × World st)
        → ((q : Progress) (w : World st) → Within (total q + limit * left) (next q w))
        → total r.0 + limit * left ≤ bound
        → Within bound (after_rows fetched limit left next r)
    after_rows-total fetched limit left next bound (q, w) rest h =
        by_test (Within bound) (q.stopped || ltb fetched limit) (done q, w)
          (next (if left == 0 then reach_batch_limit q else q) w) (λ _. omega arith)
          (λ _.
            weaken _ bound (next (if left == 0 then reach_batch_limit q else q) w)
              (omega (arith, reach-total (left == 0) q))
              (rest (if left == 0 then reach_batch_limit q else q) w))

    after_fetch-total :
        (limit left : ℕ) (next : Progress → World st → Result Progress × World st) (p : Progress)
        (r : Result (List Row) × World st)
        → ((rows : List Row) → r.0 ≡ done rows → length rows ≤ limit)
        → ((q : Progress) (w : World st) → Within (total q + limit * left) (next q w))
        → Within
            (total p + limit * suc left)
            (after_fetch candidate dry_run handle limit left next p r)
    after_fetch-total limit left next p (thrown e, w) few rest =
        by_test (Within (total p + limit * suc left)) (is_work_limit e)
          (done (stop_at_work_limit p), w) (thrown e, w) (λ _. omega arith) (λ _. tt)
    after_fetch-total limit left next p (done [], w) few rest = omega arith
    after_fetch-total limit left next p (done (row ∷ rows), w) few rest =
        after_rows-total (suc (length rows)) limit left next (total p + limit * suc left)
          (handle_rows candidate dry_run handle (row ∷ rows) p w) rest
          (omega (
            arith,
            mul-suc limit left,
            few (row ∷ rows) refl,
            handle_rows-total dry_run handle (row ∷ rows) p w,
          ))

    run_batches-total :
        (limit left : ℕ) (p : Progress) (w : World st)
        → Within
            (total p + limit * left)
            (run_batches candidate dry_run fetch handle limit left p w)
    unfolding run_batches
    run_batches-total limit zero p w = omega arith
    run_batches-total limit (suc left) p w =
        after_fetch-total limit left (run_batches candidate dry_run fetch handle limit left) p
          (fetch limit p.after w) (λ rows e. bounded limit p.after w rows e)
          (run_batches-total limit left)

-- What a clean-up that returns counts is at most `bound`.
abbrev pub CountsWithin : {st : Storage} → ℕ → Result CleanupResult × World st → Type 0
CountsWithin bound (done r, w) = total_of r ≤ bound
CountsWithin bound (thrown e, w) = Unit {0}

summarise-counts :
    {st : Storage} (dry_run : Bool) (m bound : ℕ) (r : Result Progress × World st)
    → m ≤ bound
    → Within m r
    → CountsWithin bound (summarise dry_run r)
summarise-counts true m bound (done p, w) le h = omega arith
summarise-counts false m bound (done p, w) le h = omega arith
summarise-counts dry_run m bound (thrown e, w) le h = tt

pub run_cleanup_batches-counts :
    {st : Storage} {Row : Type 0} (candidate : Row → CleanupCandidate)
    (options : CleanupBatchOptions) (fetch : ℕ → Option CleanupCandidate → Job st (List Row))
    (handle : Row → Job st (Unit {0}))
    → ((n : ℕ) (after : Option CleanupCandidate) (w : World st) (rows : List Row)
        → (fetch n after w).0 ≡ done rows
        → length rows ≤ n)
    → (w : World st)
    → CountsWithin
        (query_limit_of options * max_batches_of options)
        (run_cleanup_batches candidate options fetch handle w)
unfolding run_cleanup_batches
run_cleanup_batches-counts candidate options fetch handle bounded w =
    by_test (CountsWithin (query_limit_of options * max_batches_of options))
      (has_invalid_limits (query_limit_of options) (max_batches_of options))
      (thrown invalid_limits, w)
      (summarise options.dry_run (
        run_batches candidate options.dry_run fetch handle (query_limit_of options)
          (max_batches_of options) start_progress w))
      (λ _. tt)
      (λ _. summarise-counts options.dry_run _ _ _ (omega arith) (
        run_batches-total candidate options.dry_run fetch handle bounded (query_limit_of options)
          (max_batches_of options) start_progress w))
