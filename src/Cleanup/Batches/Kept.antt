-- ===== src/Cleanup/Batches/Kept.antt =====
-- What every fetch and every job of a run keeps, the run keeps, whichever jobs fail.
use anzdrop.Base.{
  ℕ, zero, suc, Bool, true, false, ◌||◌, List, [], ◌∷◌, Option, length, All, ltb, ◌==◌,
  if◌then◌else◌, by_test,
}
use anzdrop.Cleanup.World.{Storage, World, invalid_limits, Result, done, thrown, Job}
use anzdrop.Cleanup.Triple.{Triple, Ends, Keeps}
use anzdrop.Cleanup.Batches.{
  CleanupCandidate, CleanupBatchOptions, Progress, start_progress, move_to, reach_batch_limit,
  is_work_limit, after_row, handle_rows, after_fetch, after_rows, run_batches, has_invalid_limits,
  query_limit_of, max_batches_of, summarise, run_cleanup_batches,
}

module _ {st : Storage} {Row : Type 0} (candidate : Row → CleanupCandidate) (P : World st → Type 0)
    (Good : Row → Type 0) where
  after_row-keeps :
      (next : Progress → World st → Progress × World st) (p : Progress)
      (r : Result (Unit {0}) × World st)
      → ((q : Progress) (w : World st) → P w → P (next q w).1)
      → Ends (λ _. P) (λ _. P) r
      → P (after_row candidate next p r).1
  after_row-keeps next p (done _, w) rest h = rest _ w h
  after_row-keeps next p (thrown e, w) rest h =
      by_test {A = Progress × World st} (λ r. P r.1) (is_work_limit e) _ _ (λ _. h)
        (λ _. rest _ w h)

  handle_rows-keeps :
      (dry_run : Bool) (handle : Row → Job st (Unit {0}))
      → ((row : Row) → Good row → Keeps P (handle row))
      → (rows : List Row) (p : Progress) (w : World st) → All Good rows
      → P w
      → P (handle_rows candidate dry_run handle rows p w).1
  unfolding handle_rows
  handle_rows-keeps dry_run handle k [] p w g h = h
  handle_rows-keeps true handle k (row ∷ rows) p w g h =
      handle_rows-keeps true handle k rows _ w g.1 h
  handle_rows-keeps false handle k (row ∷ rows) p w g h =
      after_row-keeps (handle_rows candidate false handle rows) (move_to (candidate row) p)
        (handle row w) (λ q v. handle_rows-keeps false handle k rows q v g.1) ((k row g.0).at w h)

  after_rows-keeps :
      (fetched limit left : ℕ) (next : Progress → World st → Result Progress × World st)
      (r : Progress × World st)
      → ((q : Progress) (w : World st) → P w → P (next q w).1)
      → P r.1
      → P (after_rows fetched limit left next r).1
  after_rows-keeps fetched limit left next (q, w) rest h =
      by_test {A = Result Progress × World st} (λ r. P r.1) (q.stopped || ltb fetched limit)
        (done q, w) (next (if left == 0 then reach_batch_limit q else q) w) (λ _. h)
        (λ _. rest _ w h)

  after_fetch-keeps :
      (dry_run : Bool) (handle : Row → Job st (Unit {0}))
      → ((row : Row) → Good row → Keeps P (handle row))
      → (limit left : ℕ) (next : Progress → World st → Result Progress × World st) (p : Progress)
        (r : Result (List Row) × World st)
      → ((q : Progress) (w : World st) → P w → P (next q w).1)
      → Ends (λ rows w. P w × All Good rows) (λ _. P) r
      → P (after_fetch candidate dry_run handle limit left next p r).1
  after_fetch-keeps dry_run handle k limit left next p (thrown e, w) rest h =
      by_test {A = Result Progress × World st} (λ r. P r.1) (is_work_limit e) _ _ (λ _. h) (λ _. h)
  after_fetch-keeps dry_run handle k limit left next p (done [], w) rest h = h.0
  after_fetch-keeps dry_run handle k limit left next p (done (row ∷ rows), w) rest h =
      after_rows-keeps (length (row ∷ rows)) limit left next
        (handle_rows candidate dry_run handle (row ∷ rows) p w) rest
        (handle_rows-keeps dry_run handle k (row ∷ rows) p w h.1 h.0)

  run_batches-keeps :
      (dry_run : Bool) (fetch : ℕ → Option CleanupCandidate → Job st (List Row))
      (handle : Row → Job st (Unit {0}))
      → ((n : ℕ) (after : Option CleanupCandidate)
          → Triple P (fetch n after) (λ rows w. P w × All Good rows) (λ _. P))
      → ((row : Row) → Good row → Keeps P (handle row))
      → (limit left : ℕ) (p : Progress) (w : World st) → P w
      → P (run_batches candidate dry_run fetch handle limit left p w).1
  unfolding run_batches
  run_batches-keeps dry_run fetch handle kf kh limit zero p w h = h
  run_batches-keeps dry_run fetch handle kf kh limit (suc left) p w h =
      after_fetch-keeps dry_run handle kh limit left
        (run_batches candidate dry_run fetch handle limit left) p (fetch limit p.after w)
        (run_batches-keeps dry_run fetch handle kf kh limit left) ((kf limit p.after).at w h)

  summarise-keeps :
      (dry_run : Bool) (r : Result Progress × World st)
      → P r.1
      → Ends (λ _. P) (λ _. P) (summarise dry_run r)
  summarise-keeps dry_run (done p, w) h = h
  summarise-keeps dry_run (thrown e, w) h = h

  pub run_cleanup_batches-Keeps :
      (options : CleanupBatchOptions) (fetch : ℕ → Option CleanupCandidate → Job st (List Row))
      (handle : Row → Job st (Unit {0}))
      → ((n : ℕ) (after : Option CleanupCandidate)
          → Triple P (fetch n after) (λ rows w. P w × All Good rows) (λ _. P))
      → ((row : Row) → Good row → Keeps P (handle row))
      → Keeps P (run_cleanup_batches candidate options fetch handle)
  unfolding run_cleanup_batches
  run_cleanup_batches-Keeps options fetch handle kf kh = record {
    at = λ w h.
        by_test (Ends (λ _. P) (λ _. P))
          (has_invalid_limits (query_limit_of options) (max_batches_of options))
          (thrown invalid_limits, w)
          (summarise options.dry_run (
            run_batches candidate options.dry_run fetch handle (query_limit_of options)
              (max_batches_of options) start_progress w))
          (λ _. h)
          (λ _.
            summarise-keeps options.dry_run _
              (run_batches-keeps options.dry_run fetch handle kf kh _ _ start_progress w h));
  }
