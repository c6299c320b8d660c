-- ===== src/Client/Windows/Started.antt =====
-- The consumer never waits for a window that nobody fetches.
use anzdrop.Base.{
  ℕ, zero, suc, ◌+◌, ◌-◌, ◌≤◌, ◌<◌, Bool, true, false, not, ◌&&◌, ◌||◌, ◌≡◌, refl, ltb, leb, length,
  arith, by_test, by_option,
}
use anzdrop.Crypto.Bytes.{Bytes}
use anzdrop.Client.Windows.{
  OrderedArgs, ReaderState, WindowStream, get_window, has_failed, may_schedule, schedule,
  pump_rounds, pump, settle, fetch_ended, set_reader, take_next, pull, cancel, start_stream,
}
use anzdrop.Client.Windows.Fetch.{fetch_window, fetch_window-IsPossible}
use anzdrop.Client.Windows.Steps.{
  Step, ended, pulled, cancelled, Reaches, here, next, IsOrdered, IsStarted,
}
use anzdrop.Client.Windows.Ordered.{
  settle-IsOrdered, take_next-IsOrdered, Step-IsOrdered, start-IsOrdered,
}

module _ (a : OrderedArgs) (answers : ℕ → Bytes) (some_request : 0 < a.concurrency) where
  pump_rounds-IsStarted :
      (rounds : ℕ) (w : WindowStream) → IsStarted a w → IsStarted a (pump_rounds rounds a w)
  unfolding pump_rounds
  pump_rounds-IsStarted zero w s = s
  pump_rounds-IsStarted (suc rounds) w s =
      by_test (IsStarted a) (may_schedule a w) (pump_rounds rounds a (schedule w)) w
        (λ _. pump_rounds-IsStarted rounds (schedule w) (λ r lt. omega (arith, s r lt))) (λ _. s)

  -- With all that was scheduled handed over, nothing is in flight and the next window is scheduled.
  caught_up :
      (failed aborted : Bool) (flying conc sched count from : ℕ)
      → (failed ≡ true → aborted ≡ true)
      → aborted ≡ false
      → from < count
      → from + flying ≤ sched
      → 0 < conc
      → (not (failed || aborted)
          && (ltb flying conc && (ltb sched count && ltb (sched - from) (conc + 2))))
        ≡ false
      → from < sched
  caught_up failed aborted flying conc sched count from fa running lt ahead one h = ground arith

  first_round :
      (rounds : ℕ) (w : WindowStream)
      → IsOrdered a answers w
      → IsStarted a (pump_rounds (suc rounds) a w)
  unfolding pump_rounds
  first_round rounds w o =
      by_test (IsStarted a) (may_schedule a w) (pump_rounds rounds a (schedule w)) w
        (λ _. pump_rounds-IsStarted rounds (schedule w) (λ r lt. omega (arith, o.ahead)))
        (λ idle running lt.
          caught_up (has_failed w.failure) w.aborted (length w.in_flight) a.concurrency
            w.next_to_schedule a.window_count w.next_to_enqueue o.failure_aborts running lt
            (omega (arith, o.ahead)) some_request idle)

  pub pump-IsStarted : (w : WindowStream) → IsOrdered a answers w → IsStarted a (pump a w)
  unfolding pump pump_rounds
  pump-IsStarted w o = from_count a.window_count refl
    where
      from_count : (n : ℕ) → a.window_count ≡ n → IsStarted a (pump_rounds n a w)
      from_count zero e = λ running lt. absurd (omega (arith, e, lt))
      from_count (suc n) e = first_round n w o

  pull-IsStarted :
      (w : WindowStream)
      → w.reader ≡ ReaderState.reading
      → IsOrdered a answers w
      → IsStarted a w
      → IsStarted a (pull a w)
  unfolding pull
  pull-IsStarted w open_yet o s =
      by_option (IsStarted a) w.failure _ _
        (λ _.
          by_test (IsStarted a) w.aborted _ _ (λ _. s)
            (λ _.
              by_test (IsStarted a) (leb a.window_count w.next_to_enqueue)
                (set_reader ReaderState.closed w) _ (λ _. s)
                (λ _.
                  by_option (IsStarted a) (get_window w.next_to_enqueue w.buffers) _ _ (λ _. s)
                    (λ b found.
                      pump-IsStarted (take_next b w)
                        (take_next-IsOrdered a answers w b found (λ e. cc (open_yet, e)) o)))))
        (λ e _. s)

  Step-IsStarted :
      {v w : WindowStream}
      → Step a answers v w
      → IsOrdered a answers v
      → IsStarted a v
      → IsStarted a w
  unfolding fetch_ended cancel
  Step-IsStarted (ended w i fetched m honest) o s =
      pump-IsStarted (settle i (fetch_window w.aborted fetched) w) (
        settle-IsOrdered a answers w i (fetch_window w.aborted fetched) m
          (fetch_window-IsPossible answers w i fetched honest) o)
  Step-IsStarted (pulled w open_yet) o s = pull-IsStarted w open_yet o s
  Step-IsStarted (cancelled w) o s = λ running lt. absurd (cc (running))

  start-IsStarted : (first_bytes : Bytes) → IsStarted a (start_stream a first_bytes)
  unfolding start_stream pump
  start-IsStarted first_bytes = pump_rounds-IsStarted a.window_count _ (λ running lt. omega arith)

  steps-IsOrdered :
      {u w : WindowStream}
      → IsOrdered a answers u
      → IsStarted a u
      → Reaches a answers u w
      → IsOrdered a answers w × IsStarted a w
  steps-IsOrdered o s here = (o, s)
  steps-IsOrdered o s (next r st) =
      let (p, q) = steps-IsOrdered o s r in (Step-IsOrdered a answers st p, Step-IsStarted st p q)

  -- From the start on.
  pub Reaches-IsOrdered :
      (first_bytes : Bytes)
      → first_bytes ≡ answers 0
      → 0 < a.window_count
      → {w : WindowStream} → Reaches a answers (start_stream a first_bytes) w
      → IsOrdered a answers w × IsStarted a w
  Reaches-IsOrdered first_bytes e one r =
      steps-IsOrdered (start-IsOrdered a answers first_bytes e one) (start-IsStarted first_bytes) r
