-- ===== src/Client/Uploader/Sent.antt =====
-- What an upload has sent when it returns.
use mathlib.Core.Path.{subst}
use mathlib.Core.List.{Perm, foldr}
use mathlib.Core.List.Perm
use native.Mathlib.Nat.{ℕ_set}
use anzdrop.Base.{
  by_test, by_option, ℕ, zero, suc, ◌+◌, ◌<◌, true, ◌≡◌, ◌≢◌, refl, sym, ap, ◌∙◌, none, some, List,
  [], ◌∷◌, ◌++◌, append-nil, length, concat, length-append, arith, if◌then◌else◌,
}
use anzdrop.Crypto.Bytes.{Bytes}
use anzdrop.Client.Repartition.{Part, repartition}
use anzdrop.Client.Repartition.Parts.{bodies, repartition-IsPartition}
use anzdrop.Client.Uploader.{
  UploadMode, UploadEnd, running, succeeded, failed, Worker, reading, sending_direct, sending_proxy,
  finished, Pool, worker_at, new_workers, start_pool, all_finished, upload_end,
}
use anzdrop.Client.Uploader.Steps.{Reaches, all_held, Accounts}
use anzdrop.Client.Uploader.Accounted.{Reaches-Accounts}

no_parts_held : (n : ℕ) → all_held (new_workers n) ≡ []
unfolding all_held new_workers
no_parts_held zero = refl
no_parts_held (suc n) = no_parts_held n

none_finished : (n i : ℕ) → worker_at i (new_workers n) ≢ some finished
unfolding worker_at new_workers
none_finished zero i q = cc (q)
none_finished (suc n) zero q = cc (q)
none_finished (suc n) (suc i) q = none_finished n i q

some_worker : (n : ℕ) → 0 < n → worker_at 0 (new_workers n) ≢ none
unfolding worker_at new_workers
some_worker zero h q = absurd (omega arith)
some_worker (suc n) h q = cc (q)

start-Accounts :
    (concurrency : ℕ) (parts : List Part)
    → 0 < concurrency
    → Accounts parts (start_pool concurrency parts)
unfolding start_pool
start-Accounts concurrency parts h = record {
  lost = [];
  each_part =
      subst (λ (x : List Part). Perm x parts)
        (sym (
          ap (λ (x : List Part). x ++ (parts ++ [])) (no_parts_held concurrency)
          ∙ append-nil parts))
        Perm.rfl;
  none_lost = λ _. refl;
  read_out = λ i q _. absurd (none_finished concurrency i q);
  staffed = some_worker concurrency h;
}

finished_hold_none : (workers : List Worker) → all_finished workers ≡ true → all_held workers ≡ []
unfolding all_finished all_held
finished_hold_none [] h = refl
finished_hold_none (finished ∷ workers) h = finished_hold_none workers h
finished_hold_none (reading ∷ workers) h = absurd (cc (h))
finished_hold_none (sending_direct p ∷ workers) h = absurd (cc (h))
finished_hold_none (sending_proxy p ∷ workers) h = absurd (cc (h))

first_finished :
    (workers : List Worker)
    → all_finished workers ≡ true
    → worker_at 0 workers ≢ none
    → worker_at 0 workers ≡ some finished
unfolding all_finished worker_at
first_finished [] h some_there = absurd (some_there refl)
first_finished (finished ∷ workers) h some_there = refl
first_finished (reading ∷ workers) h some_there = absurd (cc (h))
first_finished (sending_direct p ∷ workers) h some_there = absurd (cc (h))
first_finished (sending_proxy p ∷ workers) h some_there = absurd (cc (h))

succeeded_ends :
    (w : Pool) → upload_end w ≡ succeeded → (w.first_error ≡ none) × (all_finished w.workers ≡ true)
unfolding upload_end
succeeded_ends w =
    by_option
      (λ (x : UploadEnd). x ≡ succeeded → (w.first_error ≡ none) × (all_finished w.workers ≡ true))
      w.first_error (if all_finished w.workers then succeeded else running) (λ e. failed e)
      (λ clean.
        by_test
          (λ (x : UploadEnd).
            x ≡ succeeded → (w.first_error ≡ none) × (all_finished w.workers ≡ true))
          (all_finished w.workers) succeeded running (λ all _. (clean, all))
          (λ _ q. absurd (cc (q))))
      (λ e _ q. absurd (cc (q)))

-- The bytes that `onBytesUploaded` is told of.
abbrev add_body : Part → ℕ → ℕ
add_body p n = length p.body + n

unfoldable pub sent_bytes : List Part → ℕ
sent_bytes parts = foldr add_body 0 parts

sent_bytes-bodies : (parts : List Part) → sent_bytes parts ≡ length (concat (bodies parts))
unfolding sent_bytes
sent_bytes-bodies [] = refl
sent_bytes-bodies (p ∷ parts) =
    omega (arith, sent_bytes-bodies parts, length-append p.body (concat (bodies parts)))

sent_bytes-Perm : (xs ys : List Part) → Perm xs ys → sent_bytes xs ≡ sent_bytes ys
unfolding sent_bytes
sent_bytes-Perm xs ys p = Perm.foldr-eq ℕ_set add_body swapped p 0
  where
    swapped : (a b : Part) (n : ℕ) → add_body a (add_body b n) ≡ add_body b (add_body a n)
    swapped a b n = omega arith

-- In every state, no part is reported as sent twice.
pub sent-once :
    (mode : UploadMode) (max_attempts concurrency : ℕ) (parts : List Part) (w : Pool)
    → 0 < concurrency
    → Reaches mode max_attempts (start_pool concurrency parts) w
    → (rest : List Part) × Perm (w.sent ++ rest) parts
sent-once mode max_attempts concurrency parts w staff r =
    let o : Accounts parts w =
      Reaches-Accounts parts mode max_attempts r (start-Accounts concurrency parts staff) in
    (all_held w.workers ++ (w.remaining ++ o.lost), o.each_part)

-- However the workers interleave and whatever the requests meet: when the upload returns without an
-- error, each part of the stream has been reported as sent, once, and the reported bytes are as many as
-- the stream has. There is one worker at least.
pub upload_chunks_from_stream_lem :
    (mode : UploadMode) (max_attempts concurrency part_size : ℕ) (source : List Bytes) (w : Pool)
    → 0 < part_size
    → 0 < concurrency
    → Reaches mode max_attempts (start_pool concurrency (repartition part_size source)) w
    → upload_end w ≡ succeeded
    → Perm w.sent (repartition part_size source) × (sent_bytes w.sent ≡ length (concat source))
upload_chunks_from_stream_lem mode max_attempts concurrency part_size source w wide staff r q =
    let parts : List Part = repartition part_size source in
    let o : Accounts parts w =
      Reaches-Accounts parts mode max_attempts r (start-Accounts concurrency parts staff) in
    let (clean, all) = succeeded_ends w q in
    let nothing_left : all_held w.workers ++ (w.remaining ++ o.lost) ≡ [] =
      ap (λ (h : List Part). h ++ (w.remaining ++ o.lost)) (finished_hold_none w.workers all)
      ∙ ap (λ (h : List Part). h ++ o.lost)
          (o.read_out 0 (first_finished w.workers all o.staffed) clean)
      ∙ o.none_lost clean in
    let all_sent : Perm w.sent parts =
      subst (λ (x : List Part). Perm x parts)
        (ap (λ (x : List Part). w.sent ++ x) nothing_left ∙ append-nil w.sent) o.each_part in
    (
      all_sent,
      sent_bytes-Perm w.sent parts all_sent
          ∙ sent_bytes-bodies parts
          ∙ ap length (repartition-IsPartition part_size source wide).1,
    )
