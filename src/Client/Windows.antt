-- ===== src/Client/Windows.antt =====
-- lib/download/parallelFetch.ts: `orderedWindowStream`. A window is one range of the object; several are
-- fetched at a time, and the consumer gets them in order. What the requests answer, and in what
-- order they end, is not fixed: each piece of the code that runs without waiting is one step.
pub mod Fetch
pub mod Steps
pub mod Buffers
pub mod Pumped
pub mod Ordered
pub mod Started
pub mod Delivered
use anzdrop.Base.{
  ℕ, zero, suc, ◌+◌, ◌-◌, ◌*◌, String, Bool, true, false, not, ◌&&◌, ◌||◌, Option, none, some, List,
  [], ◌∷◌, ◌++◌, ltb, leb, ◌==◌, length, keep, find, min, if◌then◌else◌,
}
use anzdrop.Crypto.Bytes.{Bytes}

-- What the consumer is told; `body_failed` is what reading a response's body throws.
pub data DownloadError : Type 0 where
  file_gone friendly body_failed : DownloadError

pub record OrderedArgs : Type 0 where
  pub total : ℕ
  pub window_size : ℕ
  pub window_count : ℕ
  pub concurrency : ℕ

pub data ReaderState : Type 0 where
  reading closed : ReaderState
  errored : DownloadError → ReaderState

-- The variables of the closure. `in_flight` has the indices of the windows that are being fetched, of
-- which the code keeps the number; `enqueued` is what the consumer has got.
pub record WindowStream : Type 0 where
  pub buffers : List (ℕ × Bytes)
  pub next_to_enqueue : ℕ
  pub next_to_schedule : ℕ
  pub in_flight : List ℕ
  pub failure : Option DownloadError
  pub aborted : Bool
  pub enqueued : List Bytes
  pub reader : ReaderState

-- `Map.delete`, `Map.set` and `Map.get`.
unfoldable pub delete_window : ℕ → List (ℕ × Bytes) → List (ℕ × Bytes)
delete_window i [] = []
delete_window i (entry ∷ buffers) =
    if entry.0 == i then delete_window i buffers else entry ∷ delete_window i buffers

abbrev pub set_window : ℕ → Bytes → List (ℕ × Bytes) → List (ℕ × Bytes)
set_window i bytes buffers = (i, bytes) ∷ delete_window i buffers

unfoldable pub get_window : ℕ → List (ℕ × Bytes) → Option Bytes
get_window i [] = none
get_window i ((j, bytes) ∷ buffers) = if j == i then some bytes else get_window i buffers

-- One of the fetches of a window has ended.
unfoldable pub end_fetch : ℕ → List ℕ → List ℕ
end_fetch i [] = []
end_fetch i (j ∷ in_flight) = if j == i then in_flight else j ∷ end_fetch i in_flight

abbrev pub has_failed : Option DownloadError → Bool
has_failed none = false
has_failed (some e) = true

abbrev pub max_ahead : OrderedArgs → ℕ
max_ahead a = a.concurrency + 2

-- The condition of the loop in `pump`.
abbrev pub may_schedule : OrderedArgs → WindowStream → Bool
may_schedule a w =
    not (has_failed w.failure || w.aborted)
    && (ltb (length w.in_flight) a.concurrency
        && (ltb w.next_to_schedule a.window_count
            && ltb (w.next_to_schedule - w.next_to_enqueue) (max_ahead a)))

abbrev pub schedule : WindowStream → WindowStream
schedule w = record {
  buffers = w.buffers;
  next_to_enqueue = w.next_to_enqueue;
  next_to_schedule = suc w.next_to_schedule;
  in_flight = w.next_to_schedule ∷ w.in_flight;
  failure = w.failure;
  aborted = w.aborted;
  enqueued = w.enqueued;
  reader = w.reader;
}

-- The loop in `pump`, with the rounds left: each takes one of the windows that are left.
unfoldable pub pump_rounds : ℕ → OrderedArgs → WindowStream → WindowStream
pump_rounds zero a w = w
pump_rounds (suc rounds) a w =
    let next : WindowStream = pump_rounds rounds a (schedule w) in
    if may_schedule a w then next else w

unfoldable pub pump : OrderedArgs → WindowStream → WindowStream
pump a w = pump_rounds a.window_count a w

-- How `fetchWindow` ends: with the bytes of a 206, silently after an abort, or by an error.
pub data FetchEnd : Type 0 where
  stored : Bytes → FetchEnd
  dropped : FetchEnd
  threw : DownloadError → FetchEnd

abbrev pub keep_first : Option DownloadError → DownloadError → DownloadError
keep_first none e = e
keep_first (some first) e = first

abbrev pub settle : ℕ → FetchEnd → WindowStream → WindowStream
settle i (stored bytes) w = record {
  buffers = set_window i bytes w.buffers;
  next_to_enqueue = w.next_to_enqueue;
  next_to_schedule = w.next_to_schedule;
  in_flight = end_fetch i w.in_flight;
  failure = w.failure;
  aborted = w.aborted;
  enqueued = w.enqueued;
  reader = w.reader;
}
settle i dropped w = record {
  buffers = w.buffers;
  next_to_enqueue = w.next_to_enqueue;
  next_to_schedule = w.next_to_schedule;
  in_flight = end_fetch i w.in_flight;
  failure = w.failure;
  aborted = w.aborted;
  enqueued = w.enqueued;
  reader = w.reader;
}
settle i (threw e) w = record {
  buffers = [];
  next_to_enqueue = w.next_to_enqueue;
  next_to_schedule = w.next_to_schedule;
  in_flight = end_fetch i w.in_flight;
  failure = some (keep_first w.failure e);
  aborted = true;
  enqueued = w.enqueued;
  reader = w.reader;
}

unfoldable pub fetch_ended : OrderedArgs → ℕ → FetchEnd → WindowStream → WindowStream
fetch_ended a i outcome w = pump a (settle i outcome w)

abbrev pub set_reader : ReaderState → WindowStream → WindowStream
set_reader reader w = record {
  buffers = w.buffers;
  next_to_enqueue = w.next_to_enqueue;
  next_to_schedule = w.next_to_schedule;
  in_flight = w.in_flight;
  failure = w.failure;
  aborted = w.aborted;
  enqueued = w.enqueued;
  reader = reader;
}

abbrev pub take_next : Bytes → WindowStream → WindowStream
take_next bytes w = record {
  buffers = delete_window w.next_to_enqueue w.buffers;
  next_to_enqueue = suc w.next_to_enqueue;
  next_to_schedule = w.next_to_schedule;
  in_flight = w.in_flight;
  failure = w.failure;
  aborted = w.aborted;
  enqueued = w.enqueued ++ bytes ∷ [];
  reader = w.reader;
}

-- One round of the loop in `pull`; if the next window is not there, the consumer waits.
unfoldable pub pull : OrderedArgs → WindowStream → WindowStream
pull a w = elim w.failure [
  | some e ↦ set_reader (errored e) w
  | none ↦
      if w.aborted
      then w
      else if leb a.window_count w.next_to_enqueue
      then set_reader closed w
      else elim (get_window w.next_to_enqueue w.buffers) [
        | none ↦ w
        | some bytes ↦ pump a (take_next bytes w)
      ]
]

unfoldable pub cancel : WindowStream → WindowStream
cancel w = record {
  buffers = [];
  next_to_enqueue = w.next_to_enqueue;
  next_to_schedule = w.next_to_schedule;
  in_flight = w.in_flight;
  failure = w.failure;
  aborted = true;
  enqueued = w.enqueued;
  reader = w.reader;
}

-- `start`, with the first window at hand.
unfoldable pub start_stream : OrderedArgs → Bytes → WindowStream
start_stream a first_bytes = pump a (record {
  buffers = (0, first_bytes) ∷ [];
  next_to_enqueue = 0;
  next_to_schedule = 1;
  in_flight = [];
  failure = none;
  aborted = false;
  enqueued = [];
  reader = reading;
})

-- The range that is asked for: from the first byte to before the second number.
unfoldable pub window_range : OrderedArgs → ℕ → ℕ × ℕ
window_range a i = (i * a.window_size, min (i * a.window_size + a.window_size) a.total)
