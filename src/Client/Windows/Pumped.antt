-- ===== src/Client/Windows/Pumped.antt =====
-- Scheduling keeps the order of the windows and the bounds on what is fetched ahead.
use mathlib.Core.List.{Memᴰ}
use anzdrop.Base.{
  ℕ, zero, suc, ◌-◌, ◌<◌, true, not, ◌&&◌, ◌||◌, ◌≡◌, inl, inr, ltb, ◌==◌, ==_iff, length, arith,
  Bool-cases, by_test, and_left, and_right,
}
use anzdrop.Crypto.Bytes.{Bytes}
use anzdrop.Client.Windows.{
  OrderedArgs, WindowStream, has_failed, max_ahead, may_schedule, schedule, pump_rounds, pump,
}
use anzdrop.Client.Windows.Steps.{Awaited, IsOrdered}

ltb-true : (m n : ℕ) → ltb m n ≡ true → m < n
ltb-true m n h = ground (arith, h)

module _ (a : OrderedArgs) (answers : ℕ → Bytes) where
  schedule-IsOrdered :
      (w : WindowStream)
      → may_schedule a w ≡ true
      → IsOrdered a answers w
      → IsOrdered a answers (schedule w)
  schedule-IsOrdered w may o =
      let limits : (ltb (length w.in_flight) a.concurrency
            && (ltb w.next_to_schedule a.window_count
                && ltb (w.next_to_schedule - w.next_to_enqueue) (max_ahead a)))
          ≡ true =
        and_right (not (has_failed w.failure || w.aborted)) _ may in
      let rest : (ltb w.next_to_schedule a.window_count
            && ltb (w.next_to_schedule - w.next_to_enqueue) (max_ahead a))
          ≡ true =
        and_right (ltb (length w.in_flight) a.concurrency) _ limits in
      let few : length w.in_flight < a.concurrency = ltb-true _ _ (and_left _ _ limits) in
      let left : w.next_to_schedule < a.window_count = ltb-true _ _ (and_left _ _ rest) in
      let near : w.next_to_schedule - w.next_to_enqueue < max_ahead a =
        ltb-true _ _ (and_right (ltb w.next_to_schedule a.window_count) _ rest) in
      record {
        delivered = o.delivered;
        buffered = o.buffered;
        ahead = omega (arith, o.ahead);
        bounded = omega (arith, o.ahead);
        parallel = omega arith;
        within = omega arith;
        awaited = λ running i le lt. elim (Bool-cases (i == w.next_to_schedule)) [
          | inl e ↦ inr (Memᴰ.head ((==_iff i w.next_to_schedule).0 e))
          | inr e ↦ later (o.awaited running i le (ground (arith, lt, e)))
        ];
        failure_aborts = o.failure_aborts;
        finished = o.finished;
      }
    where
      later : {i : ℕ} → Awaited w i → Awaited (schedule w) i
      later (inl g) = inl g
      later (inr m) = inr (Memᴰ.tail m)

  pump_rounds-IsOrdered :
      (rounds : ℕ) (w : WindowStream)
      → IsOrdered a answers w
      → IsOrdered a answers (pump_rounds rounds a w)
  unfolding pump_rounds
  pump_rounds-IsOrdered zero w o = o
  pump_rounds-IsOrdered (suc rounds) w o =
      by_test (IsOrdered a answers) (may_schedule a w) (pump_rounds rounds a (schedule w)) w
        (λ may. pump_rounds-IsOrdered rounds (schedule w) (schedule-IsOrdered w may o)) (λ _. o)

  pub pump-IsOrdered : (w : WindowStream) → IsOrdered a answers w → IsOrdered a answers (pump a w)
  unfolding pump
  pump-IsOrdered w o = pump_rounds-IsOrdered a.window_count w o
