-- ===== src/Client/Download.antt =====
-- lib/download/parallelFetch.ts: a request with its retries, and how a download starts.
pub mod Retried
pub mod Delivered
use anzdrop.Base.{
  ℕ, zero, suc, ◌+◌, ◌-◌, ◌*◌, ◌/◌, ◌^◌, Bool, true, false, not, ◌&&◌, ◌||◌, Option, none, some,
  List, [], ◌∷◌, ◌++◌, exists, length, ltb, leb, ◌==◌, max, if◌then◌else◌,
}
use anzdrop.Crypto.Bytes.{Bytes}
use anzdrop.Client.Windows.{
  DownloadError, file_gone, friendly, OrderedArgs, WindowStream, start_stream,
}

abbrev pub max_request_attempts : ℕ
max_request_attempts = 4

abbrev pub retryable_statuses : List ℕ
retryable_statuses = 408 ∷ 425 ∷ 429 ∷ 500 ∷ 502 ∷ 503 ∷ 504 ∷ 520 ∷ 521 ∷ 522 ∷ 523 ∷ 524 ∷ []

abbrev pub is_retryable : ℕ → Bool
is_retryable status = exists (λ s. s == status) retryable_statuses

-- A response: its body is missing if it has none, and `content_range` has the header's codes.
pub record Response : Type 0 where
  pub status : ℕ
  pub content_range : Option (List ℕ)
  pub body : Option Bytes

-- How one attempt ends: with a response, by an error of the network, or by an abort.
pub data Attempt : Type 0 where
  responded : Response → Attempt
  network_error attempt_aborted : Attempt

pub data Fetched : Type 0 where
  got : Response → Fetched
  fetch_failed : DownloadError → Fetched
  fetch_aborted : Fetched

-- What follows an attempt: `next` is the rest of the loop, if there is an attempt left.
abbrev pub after_attempt : Attempt → Option Fetched → Fetched
after_attempt attempt_aborted next = fetch_aborted
after_attempt network_error none = fetch_failed friendly
after_attempt network_error (some next) = next
after_attempt (responded r) none = got r
after_attempt (responded r) (some next) = if is_retryable r.status then next else got r

-- The loop from one attempt on, with those that are left after it.
unfoldable pub attempt_rounds : (ℕ → Attempt) → (attempt left : ℕ) → Fetched
attempt_rounds answers attempt zero = after_attempt (answers attempt) none
attempt_rounds answers attempt (suc left) =
    after_attempt (answers attempt) (some (attempt_rounds answers (suc attempt) left))

unfoldable pub fetch_range_with_retry : (ℕ → Attempt) → Fetched
fetch_range_with_retry answers = attempt_rounds answers 1 (max_request_attempts - 1)

abbrev is_space : ℕ → Bool
is_space c = (c == 32 || c == 160) || (leb 9 c && leb c 13)

abbrev is_digit : ℕ → Bool
is_digit c = leb 48 c && leb c 57

-- The rest of the expression `\/\s*(\d+)\s*$` behind the slash, by where the match stands.
unfoldable pub match_end : List ℕ → Bool
match_end [] = true
match_end (c ∷ cs) = is_space c && match_end cs

unfoldable pub match_digits : ℕ → List ℕ → Option ℕ
match_digits n [] = some n
match_digits n (c ∷ cs) =
    let more : Option ℕ = match_digits (n * 10 + (c - 48)) cs in
    if is_digit c then more else if is_space c && match_end cs then some n else none

unfoldable pub match_number : List ℕ → Option ℕ
match_number [] = none
match_number (c ∷ cs) =
    let later : Option ℕ = match_number cs in
    if is_digit c then match_digits (c - 48) cs else if is_space c then later else none

abbrev pub or_else : Option ℕ → Option ℕ → Option ℕ
or_else none other = other
or_else (some n) other = some n

unfoldable pub match_total : List ℕ → Option ℕ
match_total [] = none
match_total (c ∷ cs) =
    let later : Option ℕ = match_total cs in
    if c == 47 then or_else (match_number cs) later else later

-- `Number.isSafeInteger`
unfoldable pub parse_total_from_content_range : Option (List ℕ) → Option ℕ
parse_total_from_content_range none = none
parse_total_from_content_range (some header) = elim (match_total header) [
  | none ↦ none
  | some total ↦ if ltb total (2 ^ 53) then some total else none
]

-- How a download starts: by an error, with the whole body as it comes, with bytes that are all there
-- is, or in windows.
pub data Opened : Type 0 where
  open_failed : DownloadError → Opened
  open_aborted : Opened
  single_response : Bytes → Opened
  single_chunk : Bytes → Opened
  windowed : OrderedArgs → WindowStream → Opened

abbrev pub bytes_of : Option Bytes → Bytes
bytes_of none = []
bytes_of (some bytes) = bytes

-- The options with their bounds.
abbrev pub at_least_one : ℕ → ℕ
at_least_one n = max 1 n

abbrev pub window_args : (window_size concurrency total : ℕ) → OrderedArgs
window_args window_size concurrency total = record {
  total = total;
  window_size = at_least_one window_size;
  window_count = (total + (at_least_one window_size - 1)) / at_least_one window_size;
  concurrency = at_least_one concurrency;
}

abbrev pub open_partial : (window_size concurrency : ℕ) → Option ℕ → Bytes → Opened
open_partial window_size concurrency none first_bytes = single_chunk first_bytes
open_partial window_size concurrency (some total) first_bytes =
    if leb total (length first_bytes)
    then single_chunk first_bytes
    else windowed (window_args window_size concurrency total)
        (start_stream (window_args window_size concurrency total) first_bytes)

abbrev pub open_response : (window_size concurrency : ℕ) → Response → Opened
open_response window_size concurrency r =
    if r.status == 404
    then open_failed file_gone
    else if not (leb 200 r.status && leb r.status 299)
    then open_failed friendly
    else if not (r.status == 206)
    then elim r.body [ none ↦ open_failed friendly | some bytes ↦ single_response bytes ]
    else open_partial window_size concurrency (parse_total_from_content_range r.content_range)
        (bytes_of r.body)

unfoldable pub create_parallel_ciphertext_stream :
    (window_size concurrency : ℕ) → (ℕ → Attempt) → Opened
create_parallel_ciphertext_stream window_size concurrency answers =
    elim (fetch_range_with_retry answers) [
      | fetch_failed e ↦ open_failed e
      | fetch_aborted ↦ open_aborted
      | got r ↦ open_response window_size concurrency r
    ]
