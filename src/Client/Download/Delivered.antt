-- ===== src/Client/Download/Delivered.antt =====
-- A download from its first request on.
use mathlib.Core.Path.{subst}
use anzdrop.Base.{
  sym, ap, ◌∙◌, by_test, by_option, ℕ, ◌*◌, ◌≤◌, ◌<◌, false, not, ◌&&◌, ◌≡◌, refl, Option, none,
  some, length, leb, ◌==◌, arith,
}
use anzdrop.Crypto.Bytes.{Bytes}
use anzdrop.Client.Windows.{OrderedArgs, WindowStream, file_gone, friendly, start_stream}
use anzdrop.Client.Windows.Steps.{Reaches}
use anzdrop.Client.Windows.Delivered.{IsWindow, Delivers, reached-Delivers}
use anzdrop.Client.Download.{
  max_request_attempts, Response, Attempt, responded, Fetched, got, fetch_failed, fetch_aborted,
  fetch_range_with_retry, window_args, parse_total_from_content_range, Opened, windowed,
  open_failed, open_aborted, single_response, single_chunk, open_partial, open_response, bytes_of,
  create_parallel_ciphertext_stream,
}
use anzdrop.Client.Download.Retried.{Outcome, fetch_range_with_retry_lem}

-- The windows of a download reach its end, and there is one at least.
pub window_args-Covers :
    (window_size concurrency total : ℕ)
    → 0 < total
    → let a = window_args window_size concurrency total in
      (a.total ≤ a.window_count * a.window_size) × (0 < a.window_count) × (0 < a.concurrency)
window_args-Covers window_size concurrency total h = (grind arith, grind arith, grind arith)

-- The responses of status 206 to the first request: they name the object's size and have its first window.
abbrev pub IsFaithful : Bytes → Bytes → (ℕ → Attempt) → Type 0
IsFaithful object first_window attempts =
    (k : ℕ) (r : Response)
    → attempts k ≡ responded r
    → r.status ≡ 206
    → (parse_total_from_content_range r.content_range ≡ some (length object))
      × (bytes_of r.body ≡ first_window)

-- A download in windows starts from them, and the object goes on behind the first.
record StartsFrom (window_size concurrency total : ℕ) (first : Bytes) (a : OrderedArgs)
    (start : WindowStream) : Type 0 where
  more : length first < total
  from_args : a ≡ window_args window_size concurrency total
  from_first : start ≡ start_stream (window_args window_size concurrency total) first

abbrev IsStartOf : (window_size concurrency total : ℕ) → Bytes → Opened → Type 0
IsStartOf window_size concurrency total first (open_failed e) = Unit {0}
IsStartOf window_size concurrency total first open_aborted = Unit {0}
IsStartOf window_size concurrency total first (single_response b) = Unit {0}
IsStartOf window_size concurrency total first (single_chunk b) = Unit {0}
IsStartOf window_size concurrency total first (windowed a start) =
    StartsFrom window_size concurrency total first a start

module _ (window_size concurrency : ℕ) (object : Bytes) (first : Bytes) where
  partial-IsStartOf :
      (total : Option ℕ) (bytes : Bytes)
      → total ≡ some (length object)
      → bytes ≡ first
      → IsStartOf window_size concurrency
          (length object)
          first
          (open_partial window_size concurrency total bytes)
  partial-IsStartOf none bytes e q = absurd (cc (e))
  partial-IsStartOf (some total) bytes e q =
      by_test (IsStartOf window_size concurrency (length object) first) (leb total (length bytes))
        (single_chunk bytes) _ (λ _. tt)
        (λ m. record {
          more = same_size total bytes e q m;
          from_args = ap (λ (n : ℕ). window_args window_size concurrency n) (some_eq e);
          from_first =
              ap (λ (n : ℕ). start_stream (window_args window_size concurrency n) bytes) (some_eq e)
              ∙ ap
                  (λ (b : Bytes).
                    start_stream (window_args window_size concurrency (length object)) b)
                  q;
        })
    where
      some_eq : {m n : ℕ} → some m ≡ some n → m ≡ n
      some_eq p = cc (p)

      same_size :
          (n : ℕ) (b : Bytes)
          → some n ≡ some (length object)
          → b ≡ first
          → leb n (length b) ≡ false
          → length first < length object
      same_size n b p q m =
          let size : n ≡ length object = cc (p) in
          let shorter : length b ≡ length first = ap (λ (x : Bytes). length x) q in
          ground (arith, size, shorter, m)

  response-IsStartOf :
      (r : Response)
      → (r.status ≡ 206
          → (parse_total_from_content_range r.content_range ≡ some (length object))
            × (bytes_of r.body ≡ first))
      → IsStartOf window_size concurrency
          (length object)
          first
          (open_response window_size concurrency r)
  response-IsStartOf r honest =
      by_test (IsStartOf window_size concurrency (length object) first) (r.status == 404)
        (open_failed file_gone) _ (λ _. tt)
        (λ _.
          by_test (IsStartOf window_size concurrency (length object) first)
            (not (leb 200 r.status && leb r.status 299)) (open_failed friendly) _ (λ _. tt)
            (λ _.
              by_test (IsStartOf window_size concurrency (length object) first)
                (not (r.status == 206)) _ _
                (λ _.
                  by_option (IsStartOf window_size concurrency (length object) first) r.body
                    (open_failed friendly) (λ bytes. single_response bytes) (λ _. tt) (λ _ _. tt))
                (λ e.
                  let (total, bytes) = honest (ground (arith, e)) in
                  partial-IsStartOf _ _ total bytes)))

  opened-IsStartOf :
      (attempts : ℕ → Attempt)
      → IsFaithful object first attempts
      → IsStartOf window_size concurrency
          (length object)
          first
          (create_parallel_ciphertext_stream window_size concurrency attempts)
  unfolding create_parallel_ciphertext_stream
  opened-IsStartOf attempts honest =
      from_fetched (fetch_range_with_retry attempts) (fetch_range_with_retry_lem attempts)
    where
      from_fetched :
          (f : Fetched)
          → Outcome attempts 1 max_request_attempts f
          → IsStartOf window_size concurrency (length object) first (elim f [
            | fetch_failed e ↦ open_failed e
            | fetch_aborted ↦ open_aborted
            | got r ↦ open_response window_size concurrency r
          ])
      from_fetched (fetch_failed e) h = tt
      from_fetched fetch_aborted h = tt
      from_fetched (got r) (k, d, e, at_last) = response-IsStartOf r (honest k r e)

-- A download of an object whose requests are answered with the ranges of the object that they ask
-- for and aborted by the download's own signal only, and that goes on in windows: in whatever order the requests end, whichever fail, and if the
-- consumer cancels, what has been handed over is the object's first bytes, as many windows as were handed
-- over; at most `concurrency` requests are open, and no more than that and two windows are open or
-- kept; while nothing has failed, the window that the consumer needs is at hand or being fetched;
-- and if the stream closes, all of the object has been handed over.
pub create_parallel_ciphertext_stream-Delivers :
    (window_size concurrency : ℕ) (object : Bytes) (attempts : ℕ → Attempt) (answers : ℕ → Bytes)
    (a : OrderedArgs) (start w : WindowStream)
    → IsFaithful object (answers 0) attempts
    → create_parallel_ciphertext_stream window_size concurrency attempts ≡ windowed a start
    → IsWindow a object answers
    → Reaches a answers start w
    → Delivers a object w
create_parallel_ciphertext_stream-Delivers window_size concurrency object attempts answers a start w
      honest opened ranges r =
    let s : StartsFrom window_size concurrency (length object) (answers 0) a start =
      subst (IsStartOf window_size concurrency (length object) (answers 0)) opened
        (opened-IsStartOf window_size concurrency object (answers 0) attempts honest) in
    let (covers, some_window, some_request) =
      window_args-Covers window_size concurrency (length object) (omega (arith, s.more)) in
    let args : OrderedArgs = window_args window_size concurrency (length object) in
    subst (λ (x : OrderedArgs). Delivers x object w) (sym s.from_args)
      (reached-Delivers args object answers w refl
        (subst (λ (x : OrderedArgs). IsWindow x object answers) s.from_args ranges) covers
        some_window some_request
        (subst (λ (x : WindowStream). Reaches args answers x w) s.from_first
          (subst (λ (x : OrderedArgs). Reaches x answers start w) s.from_args r)))
