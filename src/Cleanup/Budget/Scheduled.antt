-- ===== src/Cleanup/Budget/Scheduled.antt =====
-- The clean-ups as a whole.
use anzdrop.Server.State.{Share, Upload}
use anzdrop.Cleanup.Triple.{Triple, Triple-imp}
use anzdrop.Base.{
  All, [], ℕ, suc, ◌+◌, ◌≤◌, String, Bool, ◌||◌, Option, List, [], ◌∷◌, drop, ltb, by_test, arith,
}
use anzdrop.Cleanup.World.{
  Storage, World, invalid_limits, Result, done, thrown, Job, within_budget, work_limit_of,
  set_budgets, close_budget,
}
use anzdrop.Cleanup.Triple.{Ends, Keeps}
use anzdrop.Cleanup.Batches.{CleanupBatchOptions}
use anzdrop.Cleanup.Batches.Kept.{run_cleanup_batches-Keeps}
use anzdrop.Cleanup.Schedule.{
  cleanup_expired_shares, cleanup_stale_uploads, caught, run_phases, run_scheduled_cleanup,
  share_candidate, upload_candidate, default_options,
}
use anzdrop.Cleanup.Budget.Room.{HasRoom, Room, query-Room}
use anzdrop.Cleanup.Budget.Jobs.{delete_share-Room, delete_stale_upload-Room}

drop-HasRoom :
    (limit depth calls : ℕ) (budgets : List ℕ)
    → HasRoom limit (suc depth) calls budgets
    → HasRoom limit depth calls (drop 1 budgets)
drop-HasRoom limit depth calls [] h = h
drop-HasRoom limit depth calls (n ∷ outer) h = h

module _ {st : Storage} {A : Type 0} where
  close-Room :
      (limit depth : ℕ) (r : Result A × World st)
      → Ends (λ _. Room limit (suc depth)) (λ _. Room limit (suc depth)) r
      → Ends (λ _. Room limit depth) (λ _. Room limit depth) (close_budget r)
  close-Room limit depth (done a, w) h = drop-HasRoom limit depth w.calls w.budgets h
  close-Room limit depth (thrown e, w) h = drop-HasRoom limit depth w.calls w.budgets h

  -- A ceiling of its own adds to those in force.
  within_budget-Room :
      (limit depth : ℕ) (own : Option ℕ) (m : Job st A)
      → Keeps (Room limit (suc depth)) m
      → Keeps (Room limit depth) (within_budget own m)
  unfolding within_budget
  within_budget-Room limit depth own m km = record {
    at = λ w h.
        by_test (Ends (λ _. Room limit depth) (λ _. Room limit depth))
          (ltb (work_limit_of own) 1 || ltb 900 (work_limit_of own)) (thrown invalid_limits, w)
          (close_budget (m (set_budgets (work_limit_of own ∷ w.budgets) w))) (λ _. h)
          (λ _.
            close-Room limit depth (m (set_budgets (work_limit_of own ∷ w.budgets) w))
              (km.at (set_budgets (work_limit_of own ∷ w.budgets) w) h));
  }

  closed_calls :
      (limit : ℕ) (r : Result A × World st)
      → Ends (λ _. Room limit 0) (λ _. Room limit 0) r
      → (close_budget r).1.calls ≤ limit
  closed_calls limit (done a, w) h = spent w.budgets h
    where
      spent : (budgets : List ℕ) → HasRoom limit 0 w.calls budgets → w.calls ≤ limit
      spent [] e = absurd e
      spent (n ∷ outer) e = omega arith
  closed_calls limit (thrown x, w) h = spent w.budgets h
    where
      spent : (budgets : List ℕ) → HasRoom limit 0 w.calls budgets → w.calls ≤ limit
      spent [] e = absurd e
      spent (n ∷ outer) e = omega arith

  -- From the world that a ceiling is set in.
  within_budget-calls :
      (own : Option ℕ) (m : Job st A) (w : World st)
      → Keeps (Room (w.calls + work_limit_of own) 0) m
      → (within_budget own m w).1.calls ≤ w.calls + work_limit_of own
  unfolding within_budget
  within_budget-calls own m w km =
      by_test {A = Result A × World st} (λ r. r.1.calls ≤ w.calls + work_limit_of own)
        (ltb (work_limit_of own) 1 || ltb 900 (work_limit_of own)) (thrown invalid_limits, w)
        (close_budget (m (set_budgets (work_limit_of own ∷ w.budgets) w))) (λ _. omega arith)
        (λ _.
          closed_calls (w.calls + work_limit_of own)
            (m (set_budgets (work_limit_of own ∷ w.budgets) w))
            (km.at (set_budgets (work_limit_of own ∷ w.budgets) w) (omega arith)))

All-any : {Row : Type 0} (rows : List Row) → All (λ _. Unit {0}) rows
All-any [] = tt
All-any (row ∷ rows) = (tt, All-any rows)

-- Of any row there is something to say.
Keeps-any :
    {st : Storage} {Row : Type 0} {P : World st → Type 0} {m : Job st (List Row)}
    → Keeps P m
    → Triple P m (λ rows w. P w × All (λ _. Unit {0}) rows) (λ _. P)
Keeps-any k = Triple-imp (λ w h. h) (λ rows w h. (h, All-any rows)) (λ _ w h. h) k

module _ (id_before : String → String → Bool) {st : Storage} (limit depth : ℕ) where
  expired-Room :
      (now : ℕ) (options : CleanupBatchOptions)
      → Keeps {st = st} (Room limit depth) (cleanup_expired_shares id_before now options)
  unfolding cleanup_expired_shares
  expired-Room now options = within_budget-Room limit depth options.work_limit _ (
      run_cleanup_batches-Keeps share_candidate (Room limit (suc depth))
        (λ (share : Share). Unit {0}) options _ _
        (λ n after. Keeps-any (query-Room limit (suc depth) _))
        (λ share _. delete_share-Room limit (suc depth) share.id))

  stale-Room :
      (now : ℕ) (options : CleanupBatchOptions)
      → Keeps {st = st} (Room limit depth) (cleanup_stale_uploads id_before now options)
  unfolding cleanup_stale_uploads
  stale-Room now options = within_budget-Room limit depth options.work_limit _ (
      run_cleanup_batches-Keeps upload_candidate (Room limit (suc depth)) (λ (u : Upload). Unit {0})
        options _ _ (λ n after. Keeps-any (query-Room limit (suc depth) _))
        (λ u _. delete_stale_upload-Room limit (suc depth) u))

module _ {st : Storage} {A : Type 0} (P : World st → Type 0) where
  pub caught-keeps : (r : Result A × World st) → Ends (λ _. P) (λ _. P) r → P (caught r).1
  caught-keeps (done a, w) h = h
  caught-keeps (thrown e, w) h = h

module _ (id_before : String → String → Bool) {st : Storage} (limit depth : ℕ) where
  run_phases-Room :
      (now later : ℕ) → Keeps {st = st} (Room limit depth) (run_phases id_before now later)
  run_phases-Room now later = record {
    at = λ w h.
        caught-keeps (Room limit depth)
          (cleanup_stale_uploads id_before later default_options
            (caught (cleanup_expired_shares id_before now default_options w)).1)
          ((stale-Room id_before limit depth later default_options).at _ (
            caught-keeps (Room limit depth) (cleanup_expired_shares id_before now default_options w)
              ((expired-Room id_before limit depth now default_options).at w h)));
  }

-- Whatever fails and however many rows are due, one scheduled run prepares no more statements and
-- makes no more calls of R2 than its ceiling, which is 900 by default.
pub run_scheduled_cleanup_calls :
    (id_before : String → String → Bool) (st : Storage) (work_limit : Option ℕ) (now later : ℕ)
    (w : World st)
    → (run_scheduled_cleanup id_before work_limit now later w).1.calls
      ≤ w.calls + work_limit_of work_limit
unfolding run_scheduled_cleanup
run_scheduled_cleanup_calls id_before st work_limit now later w =
    within_budget-calls work_limit (run_phases id_before now later) w
      (run_phases-Room id_before (w.calls + work_limit_of work_limit) 0 now later)
