-- ===== src/Cleanup/Schedule/Runs.antt =====
-- The clean-ups as a whole: what is on record after them.
use mathlib.Core.Path.{subst}
use mathlib.Core.List.{Memᴰ}
use anzdrop.Base.{
  ℕ, ◌+◌, String, Bool, ◌||◌, Option, List, [], ◌∷◌, Bool-cases, inl, inr, by_test, leb, ltb,
  if◌then◌else◌,
}
use anzdrop.Base.Member.{keep-Memᴰ, take-Memᴰ, All-of-Memᴰ}
use anzdrop.Server.State.{Server, Share, Upload}
use anzdrop.Cleanup.World.{
  Storage, World, Result, done, thrown, Job, within_budget, work_limit_of, set_budgets,
  close_budget, invalid_limits,
}
use anzdrop.Cleanup.Triple.{Ends, Keeps, Stored, Triple-query, Triple-imp}
use anzdrop.Cleanup.Share.Tracked.{IsTracked, IsKeyed}
use anzdrop.Cleanup.Batches.{CleanupCandidate, CleanupBatchOptions}
use anzdrop.Cleanup.Batches.Kept.{run_cleanup_batches-Keeps}
use anzdrop.Cleanup.Schedule.{
  comes_after, insert_ordered, order_by, page, share_candidate, upload_candidate, default_options,
  caught, run_phases, cleanup_expired_shares, cleanup_stale_uploads, run_scheduled_cleanup,
  stale_upload_threshold_ms,
}
use anzdrop.Cleanup.Schedule.Tracked.{
  Sound, FewerUploads, delete_share-Sound, delete_stale_upload-Sound,
}
use anzdrop.Cleanup.Budget.Scheduled.{caught-keeps}

module _ (id_before : String → String → Bool) {Row : Type 0}
    (candidate : Row → CleanupCandidate) where
  insert_ordered-Memᴰ :
      (x row : Row) (rows : List Row)
      → Memᴰ x (insert_ordered id_before candidate row rows)
      → Memᴰ x (row ∷ rows)
  unfolding insert_ordered
  insert_ordered-Memᴰ x row [] m = m
  insert_ordered-Memᴰ x row (other ∷ rows) m =
      elim (Bool-cases (comes_after id_before (candidate other) (candidate row))) [
        | inr e ↦ rw (e, if◌then◌else◌) at m
        | inl e ↦ behind (λ n. insert_ordered-Memᴰ x row rows n) (rw (e, if◌then◌else◌) at m)
      ]
    where
      behind :
          (Memᴰ x (insert_ordered id_before candidate row rows) → Memᴰ x (row ∷ rows))
          → Memᴰ x (other ∷ insert_ordered id_before candidate row rows)
          → Memᴰ x (row ∷ other ∷ rows)
      behind rest (Memᴰ.head e) = Memᴰ.tail (Memᴰ.head e)
      behind rest (Memᴰ.tail n) = second (rest n)
        where
          second : Memᴰ x (row ∷ rows) → Memᴰ x (row ∷ other ∷ rows)
          second (Memᴰ.head e) = Memᴰ.head e
          second (Memᴰ.tail k) = Memᴰ.tail (Memᴰ.tail k)

  order_by-Memᴰ :
      (x : Row) (rows : List Row) → Memᴰ x (order_by id_before candidate rows) → Memᴰ x rows
  unfolding order_by
  order_by-Memᴰ x [] m = m
  order_by-Memᴰ x (row ∷ rows) m =
      behind (λ n. order_by-Memᴰ x rows n)
        (insert_ordered-Memᴰ x row (order_by id_before candidate rows) m)
    where
      behind :
          (Memᴰ x (order_by id_before candidate rows) → Memᴰ x rows)
          → Memᴰ x (row ∷ order_by id_before candidate rows)
          → Memᴰ x (row ∷ rows)
      behind rest (Memᴰ.head e) = Memᴰ.head e
      behind rest (Memᴰ.tail n) = Memᴰ.tail (rest n)

  -- A page has rows of the table.
  page-Memᴰ :
      (due : Row → Bool) (limit : ℕ) (after : Option CleanupCandidate) (rows : List Row) (x : Row)
      → Memᴰ x (page id_before candidate due limit after rows)
      → Memᴰ x rows
  page-Memᴰ due limit after rows x m =
      (keep-Memᴰ _ x rows (order_by-Memᴰ x _ (take-Memᴰ limit x _ m))).0

module _ {st : Storage} {A : Type 0} (Q : Server → st.Bucket → Type 0) where
  close-Stored :
      (r : Result A × World st)
      → Ends (λ _. Stored st Q) (λ _. Stored st Q) r
      → Ends (λ _. Stored st Q) (λ _. Stored st Q) (close_budget r)
  close-Stored (done a, w) h = h
  close-Stored (thrown e, w) h = h

  within_budget-Stored :
      (own : Option ℕ) (m : Job st A)
      → Keeps (Stored st Q) m
      → Keeps (Stored st Q) (within_budget own m)
  unfolding within_budget
  within_budget-Stored own m km = record {
    at = λ w h.
        by_test (Ends (λ _. Stored st Q) (λ _. Stored st Q))
          (ltb (work_limit_of own) 1 || ltb 900 (work_limit_of own)) (thrown invalid_limits, w)
          (close_budget (m (set_budgets (work_limit_of own ∷ w.budgets) w))) (λ _. h)
          (λ _.
            close-Stored (m (set_budgets (work_limit_of own ∷ w.budgets) w))
              (km.at (set_budgets (work_limit_of own ∷ w.budgets) w) h));
  }

module _ (id_before : String → String → Bool) (st : Storage) (start : Server)
    (keyed : IsKeyed start) where
  expired-Sound :
      (now : ℕ) (options : CleanupBatchOptions)
      → Keeps (Stored st (Sound st start)) (cleanup_expired_shares id_before now options)
  unfolding cleanup_expired_shares
  expired-Sound now options = within_budget-Stored (Sound st start) options.work_limit _ (
      run_cleanup_batches-Keeps share_candidate (Stored st (Sound st start))
        (λ (share : Share). Unit {0}) options _ _
        (λ n after.
          Triple-imp (λ w h. h) (λ rows w h. (h.0, All-of-Memᴰ _ rows (λ x _. tt))) (λ _ w h. h)
            (Triple-query (Sound st start) _))
        (λ share _. delete_share-Sound st start share.id))

  stale-Sound :
      (now : ℕ) (options : CleanupBatchOptions)
      → Keeps (Stored st (Sound st start)) (cleanup_stale_uploads id_before now options)
  unfolding cleanup_stale_uploads
  stale-Sound now options = within_budget-Stored (Sound st start) options.work_limit _ (
      run_cleanup_batches-Keeps upload_candidate (Stored st (Sound st start))
        (λ (u : Upload). Memᴰ u start.uploads) options _ _
        (λ n after.
          Triple-imp (λ w h. h)
            (λ rows w h. (
              h.0,
              All-of-Memᴰ _ rows (λ u m. h.0.2 u (
                  page-Memᴰ id_before upload_candidate
                    (λ u. leb (u.created_at + stale_upload_threshold_ms) now) n after
                    w.server.uploads u (subst (Memᴰ u) h.1 m))),
            ))
            (λ _ w h. h) (Triple-query (Sound st start) _))
        (λ u known. delete_stale_upload-Sound st start keyed u known))

  run_phases-Sound :
      (now later : ℕ) → Keeps (Stored st (Sound st start)) (run_phases id_before now later)
  run_phases-Sound now later = record {
    at = λ w h.
        caught-keeps (Stored st (Sound st start))
          (cleanup_stale_uploads id_before later default_options
            (caught (cleanup_expired_shares id_before now default_options w)).1)
          ((stale-Sound later default_options).at _ (
            caught-keeps (Stored st (Sound st start))
              (cleanup_expired_shares id_before now default_options w)
              ((expired-Sound now default_options).at w h)));
  }

  scheduled-Sound :
      (work_limit : Option ℕ) (now later : ℕ)
      → Keeps (Stored st (Sound st start)) (run_scheduled_cleanup id_before work_limit now later)
  unfolding run_scheduled_cleanup
  scheduled-Sound work_limit now later =
      within_budget-Stored (Sound st start) work_limit _ (run_phases-Sound now later)

module _ {st : Storage} {A : Type 0} (P : World st → Type 0) where
  at_end : (r : Result A × World st) → Ends (λ _. P) (λ _. P) r → P r.1
  at_end (done a, w) h = h
  at_end (thrown e, w) h = h

-- If every object has a row that names it and ids are primary keys, so it is after a scheduled run,
-- whatever fails in it and wherever its ceiling stops it, and no upload session is there that was not before.
pub run_scheduled_cleanup-IsTracked :
    (id_before : String → String → Bool) (st : Storage) (work_limit : Option ℕ) (now later : ℕ)
    (w : World st)
    → IsTracked st w.server w.bucket
    → IsKeyed w.server
    → let w' = (run_scheduled_cleanup id_before work_limit now later w).1 in
      IsTracked st w'.server w'.bucket × IsKeyed w'.server × FewerUploads w.server w'.server
run_scheduled_cleanup-IsTracked id_before st work_limit now later w tracked keyed =
    at_end (Stored st (Sound st w.server)) (run_scheduled_cleanup id_before work_limit now later w)
      ((scheduled-Sound id_before st w.server keyed work_limit now later).at w
        (tracked, keyed, λ u m. m))
