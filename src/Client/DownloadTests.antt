-- ===== src/Client/DownloadTests.antt =====
-- lib/download/parallelFetch.ts on a concrete object.
use mathlib.Core.Path.{subst}
use mathlib.Core.List.{Memᴰ}
use anzdrop.Base.{arith, ap, ℕ, zero, suc, ◌≡◌, refl, List, [], ◌∷◌, some, none}
use anzdrop.Crypto.Bytes.{Bytes}
use anzdrop.Client.Windows.{
  OrderedArgs, ReaderState, WindowStream, delete_window, get_window, end_fetch, pump_rounds, pump,
  fetch_ended, stored, pull, start_stream, window_range,
}
use anzdrop.Client.Windows.Fetch.{fetch_window}
use anzdrop.Client.Windows.Steps.{Reaches, here, next, ended, pulled}
use anzdrop.Client.Windows.Delivered.{bytes_between, Delivers}
use anzdrop.Client.Download.{
  bytes_of, Response, Attempt, responded, network_error, got, attempt_rounds,
  fetch_range_with_retry, parse_total_from_content_range, match_total, match_number, match_digits,
  match_end, create_parallel_ciphertext_stream, windowed, window_args,
}
use anzdrop.Client.Download.Delivered.{IsFaithful, create_parallel_ciphertext_stream-Delivers}
use anzdrop.Client.Download.Retried.{Outcome, fetch_range_with_retry_lem}

abbrev object : Bytes
object = 1 ∷ 2 ∷ 3 ∷ 4 ∷ 5 ∷ []

abbrev args : OrderedArgs
args = record { total = 5; window_size = 2; window_count = 3; concurrency = 2 }

abbrev answers : ℕ → Bytes
answers i = bytes_between (window_range args i) object

abbrev started : WindowStream
started = start_stream args (answers 0)

-- The last window is there before the one in the middle.
abbrev last_first : WindowStream
last_first = fetch_ended args 2 (stored (answers 2)) started

abbrev one_taken : WindowStream
one_taken = pull args last_first

both_in_flight : started.in_flight ≡ 2 ∷ 1 ∷ []
unfolding start_stream pump pump_rounds
both_in_flight = refl

out_of_order : one_taken.enqueued ≡ (1 ∷ 2 ∷ []) ∷ []
unfolding start_stream pump pump_rounds fetch_ended end_fetch pull get_window delete_window
    window_range
out_of_order = refl

last_first_reading : last_first.reader ≡ ReaderState.reading
unfolding start_stream pump pump_rounds fetch_ended end_fetch
last_first_reading = refl

last_in_flight : Memᴰ 2 started.in_flight
unfolding start_stream pump pump_rounds
last_in_flight = Memᴰ.head refl

abbrev last_window : Response
last_window = record { status = 206; content_range = none; body = some (answers 2) }

one_taken_reached : Reaches args answers started one_taken
unfolding fetch_window
one_taken_reached =
    next (next here (ended started 2 (got last_window) last_in_flight (λ _ bytes e. cc (e))))
      (pulled last_first last_first_reading)

-- `bytes 0-1/5`
abbrev content_range : List ℕ
content_range = 98 ∷ 121 ∷ 116 ∷ 101 ∷ 115 ∷ 32 ∷ 48 ∷ 45 ∷ 49 ∷ 47 ∷ 53 ∷ []

total_of_five : parse_total_from_content_range (some content_range) ≡ some 5
unfolding parse_total_from_content_range match_total match_number match_digits match_end
total_of_five = refl

abbrev partial : Response
partial = record { status = 206; content_range = some content_range; body = some (1 ∷ 2 ∷ []) }

abbrev busy : Response
busy = record { status = 503; content_range = none; body = none }

-- An error of the network, a server that is busy, and the answer.
abbrev attempts : ℕ → Attempt
attempts (suc zero) = network_error
attempts (suc (suc zero)) = responded busy
attempts k = responded partial

third_attempt : fetch_range_with_retry attempts ≡ got partial
unfolding fetch_range_with_retry attempt_rounds
third_attempt = refl

in_windows :
    create_parallel_ciphertext_stream 2 2 attempts
    ≡ windowed (window_args 2 2 5) (start_stream (window_args 2 2 5) (1 ∷ 2 ∷ []))
unfolding create_parallel_ciphertext_stream fetch_range_with_retry attempt_rounds
    parse_total_from_content_range match_total match_number match_digits match_end
in_windows = refl

fetch_range_with_retry_lem_example : Outcome attempts 1 4 (fetch_range_with_retry attempts)
fetch_range_with_retry_lem_example = fetch_range_with_retry_lem attempts

same_answer :
    (r : Response)
    → partial ≡ r
    → (parse_total_from_content_range r.content_range ≡ some 5) × (bytes_of r.body ≡ answers 0)
unfolding parse_total_from_content_range match_total match_number match_digits match_end
    window_range
same_answer r e =
    subst
      (λ (x : Response).
        (parse_total_from_content_range x.content_range ≡ some 5) × (bytes_of x.body ≡ answers 0))
      e (refl, refl)

not_busy : (r : Response) → busy ≡ r → r.status ≡ 206 → ⊥
not_busy r e s = let q : 503 ≡ r.status = ap (λ (x : Response). x.status) e in omega (arith, q, s)

attempts-IsFaithful : IsFaithful object (answers 0) attempts
attempts-IsFaithful zero r e s = same_answer r (cc (e))
attempts-IsFaithful (suc zero) r e s = absurd (cc (e))
attempts-IsFaithful (suc (suc zero)) r e s = absurd (not_busy r (cc (e)) s)
attempts-IsFaithful (suc (suc (suc k))) r e s = same_answer r (cc (e))

create_parallel_ciphertext_stream-Delivers_example : Delivers args object one_taken
unfolding window_range
create_parallel_ciphertext_stream-Delivers_example =
    create_parallel_ciphertext_stream-Delivers 2 2 object attempts answers args started one_taken
      attempts-IsFaithful in_windows (λ i _. refl) one_taken_reached
