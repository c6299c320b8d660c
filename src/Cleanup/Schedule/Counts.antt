-- ===== src/Cleanup/Schedule/Counts.antt =====
-- How many rows each clean-up can get through in one run.
use mathlib.Core.Path.{subst}
use anzdrop.Base.{
  ℕ, ◌+◌, ◌*◌, ◌≤◌, String, Bool, ◌||◌, ◌&&◌, ◌≡◌, sym, ◌∙◌, Option, List, ◌∷◌, length, length-take,
  keep, ltb, leb, by_test, arith,
}
use anzdrop.Server.State.{Server, Share, Upload}
use anzdrop.Cleanup.World.{
  Storage, World, Result, done, thrown, Job, query, within_budget, work_limit_of, set_budgets,
  close_budget, invalid_limits,
}
use anzdrop.Cleanup.Triple.{Ends, Triple-query}
use anzdrop.Cleanup.Batches.{CleanupBatchOptions, CleanupResult, query_limit_of, max_batches_of}
use anzdrop.Cleanup.Batches.Counts.{CountsWithin, run_cleanup_batches-counts}
use anzdrop.Cleanup.Schedule.{
  order_by, is_beyond, share_candidate, upload_candidate, cleanup_expired_shares,
  cleanup_stale_uploads, stale_upload_threshold_ms,
}

-- A query that returns has computed its answer of the tables.
query-bounded :
    {st : Storage} {Row : Type 0} (f : Server → List Row) (n : ℕ)
    → ((s : Server) → length (f s) ≤ n)
    → (w : World st) (rows : List Row) → (query f w).0 ≡ done rows
    → length rows ≤ n
query-bounded {st} {Row} f n few w rows e =
    at_end (query f w) ((Triple-query (λ s b. Unit {0}) f).at w tt) e
  where
    at_end :
        (r : Result (List Row) × World st)
        → Ends (λ a w. Unit {0} × (a ≡ f w.server)) (λ _ _. Unit {0}) r
        → r.0 ≡ done rows
        → length rows ≤ n
    at_end (done a, w') h e =
        let same_rows : f w'.server ≡ rows = sym h.1 ∙ (cc (e)) in
        subst (λ (xs : List Row). length xs ≤ n) same_rows (few w'.server)
    at_end (thrown x, w') h e = cc

module _ {st : Storage} where
  close-counts :
      (bound : ℕ) (r : Result CleanupResult × World st)
      → CountsWithin bound r
      → CountsWithin bound (close_budget r)
  close-counts bound (done a, w) h = h
  close-counts bound (thrown e, w) h = h

  within_budget-counts :
      (own : Option ℕ) (m : Job st CleanupResult) (bound : ℕ)
      → ((w : World st) → CountsWithin bound (m w))
      → (w : World st) → CountsWithin bound (within_budget own m w)
  unfolding within_budget
  within_budget-counts own m bound h w =
      by_test (CountsWithin bound) (ltb (work_limit_of own) 1 || ltb 900 (work_limit_of own))
        (thrown invalid_limits, w)
        (close_budget (m (set_budgets (work_limit_of own ∷ w.budgets) w))) (λ _. tt)
        (λ _.
          close-counts bound (m (set_budgets (work_limit_of own ∷ w.budgets) w))
            (h (set_budgets (work_limit_of own ∷ w.budgets) w)))

-- A clean-up that returns has come to at most so many shares, or upload sessions, as a page holds
-- times the number of pages: those removed, those that failed and those that a dry run counts.
pub cleanup_bounds :
    (id_before : String → String → Bool) (st : Storage) (now : ℕ) (options : CleanupBatchOptions)
    (w : World st)
    → CountsWithin
        (query_limit_of options * max_batches_of options)
        (cleanup_expired_shares id_before now options w)
      × CountsWithin
          (query_limit_of options * max_batches_of options)
          (cleanup_stale_uploads id_before now options w)
unfolding cleanup_expired_shares cleanup_stale_uploads
cleanup_bounds id_before st now options w = (
  within_budget-counts options.work_limit _ _
      (run_cleanup_batches-counts share_candidate options _ _ (λ n after. query-bounded _ n (λ s.
        omega (
          arith,
          length-take n (
              order_by id_before share_candidate (
                keep
                  (λ (share : Share).
                    leb share.expires_at now && is_beyond id_before after (share_candidate share))
                  s.shares)),
        ))))
      w,
  within_budget-counts options.work_limit _ _
      (run_cleanup_batches-counts upload_candidate options _ _ (λ n after. query-bounded _ n (λ s.
        omega (
          arith,
          length-take n (
              order_by id_before upload_candidate (
                keep
                  (λ (u : Upload).
                    leb (u.created_at + stale_upload_threshold_ms) now
                    && is_beyond id_before after (upload_candidate u))
                  s.uploads)),
        ))))
      w,
)
