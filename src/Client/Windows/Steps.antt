-- ===== src/Client/Windows/Steps.antt =====
-- The fetches and the consumer in any order, as a relation of steps, and what holds throughout.
use mathlib.Core.List.{Memᴰ}
use anzdrop.Base.{
  ℕ, zero, suc, ◌+◌, ◌≤◌, ◌<◌, true, false, ◌≡◌, ◌≢◌, ◌⊎◌, none, some, List, [], ◌∷◌, ◌++◌, length,
}
use anzdrop.Crypto.Bytes.{Bytes}
use anzdrop.Client.Download.{Fetched}
use anzdrop.Client.Windows.Fetch.{fetch_window, IsHonest}
use anzdrop.Client.Windows.{
  OrderedArgs, ReaderState, WindowStream, reading, get_window, has_failed, max_ahead, fetch_ended,
  pull, cancel,
}

pub data Step (a : OrderedArgs) (answers : ℕ → Bytes) : WindowStream → WindowStream → Type 0 where
  ended :
      (w : WindowStream) (i : ℕ) (fetched : Fetched)
      → Memᴰ i w.in_flight
      → IsHonest answers w i fetched
      → Step a answers w (fetch_ended a i (fetch_window w.aborted fetched) w)
  pulled : (w : WindowStream) → w.reader ≡ reading → Step a answers w (pull a w)
  cancelled : (w : WindowStream) → Step a answers w (cancel w)

pub data Reaches (a : OrderedArgs) (answers : ℕ → Bytes) (w : WindowStream)
    : WindowStream → Type 0 where
  here : Reaches a answers w w
  next : {u v : WindowStream} → Reaches a answers w u → Step a answers u v → Reaches a answers w v

-- The first windows, in order.
unfoldable pub windows : (ℕ → Bytes) → ℕ → List Bytes
windows answers zero = []
windows answers (suc n) = windows answers n ++ answers n ∷ []

-- A window that is scheduled and not handed over is at hand or on its way.
abbrev pub Awaited : WindowStream → ℕ → Type 0
Awaited w i = (get_window i w.buffers ≢ none) ⊎ Memᴰ i w.in_flight

pub record IsOrdered (a : OrderedArgs) (answers : ℕ → Bytes) (w : WindowStream) : Type 0 where
  pub delivered : w.enqueued ≡ windows answers w.next_to_enqueue
  pub buffered : (i : ℕ) (b : Bytes) → get_window i w.buffers ≡ some b → b ≡ answers i
  pub ahead : w.next_to_enqueue + (length w.buffers + length w.in_flight) ≤ w.next_to_schedule
  pub bounded : w.next_to_schedule ≤ w.next_to_enqueue + max_ahead a
  pub parallel : length w.in_flight ≤ a.concurrency
  pub within : w.next_to_schedule ≤ a.window_count
  pub awaited :
      w.aborted ≡ false → (i : ℕ) → w.next_to_enqueue ≤ i → i < w.next_to_schedule → Awaited w i
  pub failure_aborts : has_failed w.failure ≡ true → w.aborted ≡ true
  pub finished : w.reader ≡ ReaderState.closed → w.next_to_enqueue ≡ a.window_count

-- While the download runs, the window that the consumer needs is scheduled.
abbrev pub IsStarted : OrderedArgs → WindowStream → Type 0
IsStarted a w =
    w.aborted ≡ false → w.next_to_enqueue < a.window_count → w.next_to_enqueue < w.next_to_schedule
