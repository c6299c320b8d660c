-- ===== src/Client/Uploader.antt =====
-- lib/upload/chunkUploader.ts, `uploadChunksFromStream`: workers that take the parts from one
-- iterator and send them, with the retries of each part. What a request meets is an argument, and so
-- is whether `firstError` is set where the code looks at it; times are left out.
pub mod Attempts
pub mod Steps
pub mod GivenUp
pub mod Held
pub mod Replaced
pub mod Accounted
pub mod Sent
use anzdrop.Base.{
  ℕ, zero, suc, ◌-◌, Bool, true, false, not, ◌&&◌, ◌||◌, Option, none, some, List, [], ◌∷◌, keep,
  leb, ◌==◌, if◌then◌else◌,
}
use anzdrop.Client.Repartition.{Part}
use anzdrop.Client.Download.{is_retryable}

abbrev pub part_upload_max_attempts : ℕ
part_upload_max_attempts = 6

abbrev pub is_ok : ℕ → Bool
is_ok status = leb 200 status && leb status 299

-- What one round of a loop meets: whether `firstError` is set before the request, the request's
-- answer (none if it threw), whether `firstError` is set after it, and whether the wait is aborted.
pub record Round (A : Type 0) : Type 0 where
  pub stopped_before : Bool
  pub answer : Option A
  pub stopped_after : Bool
  pub wait_aborted : Bool

-- How sending a part ends: reported as sent, given up since another part failed, or by an error.
pub data PartEnd : Type 0 where
  uploaded returned threw : PartEnd

-- After the wait comes the rest of the loop.
abbrev pub after_wait : {A B : Type 0} → Round A → B → B → B
after_wait round aborted rest = if round.wait_aborted then aborted else rest

-- One round of `uploadPartProxy`; `rest` is the loop's rest, if there is an attempt left.
abbrev pub proxy_round : Round ℕ → Option PartEnd → PartEnd
proxy_round round rest = if round.stopped_before then returned else elim round.answer [
  | none ↦ elim rest [
    | none ↦ threw
    | some r ↦ if round.stopped_after then threw else after_wait round threw r
  ]
  | some status ↦
      if round.stopped_after then returned else if is_ok status then uploaded else elim rest [
        | none ↦ threw
        | some r ↦ if is_retryable status then after_wait round threw r else threw
      ]
]

unfoldable pub proxy_rounds : (ℕ → Round ℕ) → (attempt left : ℕ) → PartEnd
proxy_rounds rounds attempt zero = proxy_round (rounds attempt) none
proxy_rounds rounds attempt (suc left) =
    proxy_round (rounds attempt) (some (proxy_rounds rounds (suc attempt) left))

unfoldable pub upload_part_proxy : ℕ → (ℕ → Round ℕ) → PartEnd
upload_part_proxy max_attempts rounds = proxy_rounds rounds 1 (max_attempts - 1)

-- An ETag is the codes of its characters.
unfoldable pub normalize_etag : Option (List ℕ) → Option (List ℕ)
normalize_etag none = none
normalize_etag (some []) = none
normalize_etag (some (c ∷ cs)) = some (keep (λ x. not (x == 34)) (c ∷ cs))

-- What a PUT answers, and how the loop of the PUTs ends.
pub record PutResponse : Type 0 where
  pub status : ℕ
  pub etag : Option (List ℕ)

pub data PutEnd : Type 0 where
  has_etag : List ℕ → PutEnd
  put_returned put_threw : PutEnd

abbrev pub accept_etag : Option (List ℕ) → PutEnd
accept_etag none = put_threw
accept_etag (some []) = put_threw
accept_etag (some (c ∷ cs)) = has_etag (c ∷ cs)

abbrev pub put_round : Round PutResponse → Option PutEnd → PutEnd
put_round round rest = if round.stopped_before then put_returned else elim round.answer [
  | none ↦ elim rest [
    | none ↦ put_threw
    | some r ↦ if round.stopped_after then put_threw else after_wait round put_threw r
  ]
  | some response ↦
      if round.stopped_after
      then put_returned
      else if is_ok response.status
      then accept_etag (normalize_etag response.etag)
      else elim rest [
        | none ↦ put_threw
        | some r ↦ if is_retryable response.status then after_wait round put_threw r else put_threw
      ]
]

unfoldable pub put_rounds : (ℕ → Round PutResponse) → (attempt left : ℕ) → PutEnd
put_rounds rounds attempt zero = put_round (rounds attempt) none
put_rounds rounds attempt (suc left) =
    put_round (rounds attempt) (some (put_rounds rounds (suc attempt) left))

-- `ackUploadedPart` throws unless the answer is a success.
abbrev pub ack_round : Round ℕ → Option PartEnd → PartEnd
ack_round round rest =
    if round.stopped_before
    then returned
    else if (elim round.answer [ none ↦ false | some status ↦ is_ok status ])
    then (if round.stopped_after then returned else uploaded)
    else elim rest [
      | none ↦ threw
      | some r ↦ if round.stopped_after then threw else after_wait round threw r
    ]

unfoldable pub ack_rounds : (ℕ → Round ℕ) → (attempt left : ℕ) → PartEnd
ack_rounds rounds attempt zero = ack_round (rounds attempt) none
ack_rounds rounds attempt (suc left) =
    ack_round (rounds attempt) (some (ack_rounds rounds (suc attempt) left))

-- What the acknowledgements meet may depend on the ETag.
unfoldable pub upload_part_direct : ℕ → (ℕ → Round PutResponse) → (List ℕ → ℕ → Round ℕ) → PartEnd
upload_part_direct max_attempts puts acks = elim (put_rounds puts 1 (max_attempts - 1)) [
  | has_etag etag ↦ ack_rounds (acks etag) 1 (max_attempts - 1)
  | put_returned ↦ returned
  | put_threw ↦ threw
]

pub data UploadMode : Type 0 where
  direct proxy : UploadMode

-- A worker waits for a part, sends one, or has left its loop.
pub data Worker : Type 0 where
  reading : Worker
  sending_direct sending_proxy : Part → Worker
  finished : Worker

pub data UploadError : Type 0 where
  source_error : UploadError
  part_error : ℕ → UploadError

-- The variables that the workers share; `sent` has the parts given to `onBytesUploaded`.
pub record Pool : Type 0 where
  pub remaining : List Part
  pub workers : List Worker
  pub first_error : Option UploadError
  pub direct_unavailable : Bool
  pub sent : List Part

unfoldable pub worker_at : ℕ → List Worker → Option Worker
worker_at i [] = none
worker_at zero (v ∷ workers) = some v
worker_at (suc i) (v ∷ workers) = worker_at i workers

unfoldable pub set_worker : ℕ → Worker → List Worker → List Worker
set_worker i v [] = []
set_worker zero v (u ∷ workers) = v ∷ workers
set_worker (suc i) v (u ∷ workers) = u ∷ set_worker i v workers

-- `while (firstError === null)`
abbrev pub loop_top : Option UploadError → Worker
loop_top none = reading
loop_top (some e) = finished

abbrev pub with_worker : ℕ → Worker → Pool → Pool
with_worker i v w = record {
  remaining = w.remaining;
  workers = set_worker i v w.workers;
  first_error = w.first_error;
  direct_unavailable = w.direct_unavailable;
  sent = w.sent;
}

abbrev pub keep_error : Option UploadError → UploadError → UploadError
keep_error none e = e
keep_error (some first) e = first

abbrev pub stop : UploadError → Pool → Pool
stop e w = record {
  remaining = w.remaining;
  workers = w.workers;
  first_error = some (keep_error w.first_error e);
  direct_unavailable = w.direct_unavailable;
  sent = w.sent;
}

abbrev pub report : Part → Pool → Pool
report p w = record {
  remaining = w.remaining;
  workers = w.workers;
  first_error = w.first_error;
  direct_unavailable = w.direct_unavailable;
  sent = p ∷ w.sent;
}

abbrev pub drop_direct : Pool → Pool
drop_direct w = record {
  remaining = w.remaining;
  workers = w.workers;
  first_error = w.first_error;
  direct_unavailable = true;
  sent = w.sent;
}

abbrev pub take_next : List Part → Pool → Pool
take_next rest w = record {
  remaining = rest;
  workers = w.workers;
  first_error = w.first_error;
  direct_unavailable = w.direct_unavailable;
  sent = w.sent;
}

abbrev pub route : UploadMode → Bool → Part → Worker
route proxy unavailable p = sending_proxy p
route direct true p = sending_proxy p
route direct false p = sending_direct p

-- `parts.next()` has resolved: a part that comes after an error is not sent.
unfoldable pub part_read : UploadMode → ℕ → Pool → Pool
part_read mode i w = elim w.remaining [
  | [] ↦ with_worker i finished w
  | p ∷ rest ↦ elim w.first_error [
    | some e ↦ with_worker i finished (take_next rest w)
    | none ↦ with_worker i (route mode w.direct_unavailable p) (take_next rest w)
  ]
]

-- `parts.next()` has thrown.
unfoldable pub read_failed : ℕ → Pool → Pool
read_failed i w = with_worker i finished (stop source_error w)

unfoldable pub direct_ended : ℕ → Part → PartEnd → Pool → Pool
direct_ended i p uploaded w = with_worker i (loop_top w.first_error) (report p w)
direct_ended i p returned w = with_worker i (loop_top w.first_error) w
direct_ended i p threw w = elim w.first_error [
  | some e ↦ with_worker i finished w
  | none ↦ with_worker i (sending_proxy p) (drop_direct w)
]

unfoldable pub proxy_ended : ℕ → Part → PartEnd → Pool → Pool
proxy_ended i p uploaded w = with_worker i (loop_top w.first_error) (report p w)
proxy_ended i p returned w = with_worker i (loop_top w.first_error) w
proxy_ended i p threw w = with_worker i finished (stop (part_error p.part_number) w)

unfoldable pub new_workers : ℕ → List Worker
new_workers zero = []
new_workers (suc n) = reading ∷ new_workers n

unfoldable pub start_pool : ℕ → List Part → Pool
start_pool concurrency parts = record {
  remaining = parts;
  workers = new_workers concurrency;
  first_error = none;
  direct_unavailable = false;
  sent = [];
}

unfoldable pub all_finished : List Worker → Bool
all_finished [] = true
all_finished (finished ∷ workers) = all_finished workers
all_finished (reading ∷ workers) = false
all_finished (sending_direct p ∷ workers) = false
all_finished (sending_proxy p ∷ workers) = false

pub data UploadEnd : Type 0 where
  running succeeded : UploadEnd
  failed : UploadError → UploadEnd

-- The race of the workers and the first error.
unfoldable pub upload_end : Pool → UploadEnd
upload_end w = elim w.first_error [
  | some e ↦ failed e
  | none ↦ if all_finished w.workers then succeeded else running
]
