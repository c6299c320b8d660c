-- ===== src/Client/Windows/Ordered.antt =====
-- Every step keeps the order of the windows, the bounds on what is fetched ahead, and the window that the
-- consumer needs on its way.
use mathlib.Core.Path.{subst}
use mathlib.Core.List.{Memᴰ}
use anzdrop.Base.{
  ℕ, suc, ◌≤◌, ◌<◌, true, false, ◌≡◌, ◌≢◌, refl, sym, ap, ◌∙◌, inl, inr, some, List, [], ◌∷◌, ◌++◌,
  leb, ◌==◌, ==_iff, arith, Bool-cases, by_test, by_option,
}
use anzdrop.Crypto.Bytes.{Bytes}
use anzdrop.Client.Windows.{
  OrderedArgs, ReaderState, WindowStream, delete_window, get_window, FetchEnd, stored, dropped,
  threw, settle, fetch_ended, set_reader, take_next, pull, cancel, start_stream,
}
use anzdrop.Client.Windows.Fetch.{fetch_window, IsPossible, fetch_window-IsPossible}
use anzdrop.Client.Windows.Steps.{Step, ended, pulled, cancelled, windows, Awaited, IsOrdered}
use anzdrop.Client.Windows.Pumped.{pump-IsOrdered}
use anzdrop.Client.Windows.Buffers.{
  length-delete, length-delete_found, get-delete_ne, get-delete_self, length-end_fetch,
  Memᴰ-end_fetch, get-set_self, get-set_ne, get-nil, get-first, get-first_self,
}

windows-suc :
    (answers : ℕ → Bytes) (n : ℕ) → windows answers n ++ answers n ∷ [] ≡ windows answers (suc n)
unfolding windows
windows-suc answers n = refl

windows-zero : (answers : ℕ → Bytes) → [] ≡ windows answers 0
unfolding windows
windows-zero answers = refl

leb-true : (m n : ℕ) → leb m n ≡ true → m ≤ n
leb-true m n h = ground (arith, h)

module _ (a : OrderedArgs) (answers : ℕ → Bytes) where
  pub settle-IsOrdered :
      (w : WindowStream) (i : ℕ) (outcome : FetchEnd)
      → Memᴰ i w.in_flight
      → IsPossible answers w i outcome
      → IsOrdered a answers w
      → IsOrdered a answers (settle i outcome w)
  settle-IsOrdered w i (stored bytes) m e o = record {
    delivered = o.delivered;
    buffered = λ j b h. elim (Bool-cases (i == j)) [
      | inl q ↦
          some_eq (sym (get-set_self i j bytes w.buffers q) ∙ h) ∙ e ∙ ap answers ((==_iff i j).0 q)
      | inr q ↦ o.buffered j b (sym (get-set_ne i j bytes w.buffers q) ∙ h)
    ];
    ahead = omega (arith, o.ahead, length-end_fetch i w.in_flight m, length-delete i w.buffers);
    bounded = o.bounded;
    parallel = omega (arith, o.parallel, length-end_fetch i w.in_flight m);
    within = o.within;
    awaited = λ running j le lt. elim (Bool-cases (i == j)) [
      | inl q ↦ inl (λ none_there. cc (none_there, get-set_self i j bytes w.buffers q))
      | inr q ↦ kept j q (o.awaited running j le lt)
    ];
    failure_aborts = o.failure_aborts;
    finished = o.finished;
  }
    where
      some_eq : {x y : Bytes} → some x ≡ some y → y ≡ x
      some_eq p = cc (p)

      kept : (j : ℕ) → (i == j) ≡ false → Awaited w j → Awaited (settle i (stored bytes) w) j
      kept j q (inl g) = inl (λ none_there. g (sym (get-set_ne i j bytes w.buffers q) ∙ none_there))
      kept j q (inr n) = inr (Memᴰ-end_fetch i j w.in_flight (λ p. ground (arith, p, q)) n)
  settle-IsOrdered w i dropped m e o = record {
    delivered = o.delivered;
    buffered = o.buffered;
    ahead = omega (arith, o.ahead, length-end_fetch i w.in_flight m);
    bounded = o.bounded;
    parallel = omega (arith, o.parallel, length-end_fetch i w.in_flight m);
    within = o.within;
    awaited = λ running j le lt. absurd (cc (running, e));
    failure_aborts = o.failure_aborts;
    finished = o.finished;
  }
  settle-IsOrdered w i (threw x) m e o = record {
    delivered = o.delivered;
    buffered = λ j b h. absurd (get-nil j b h);
    ahead = omega (arith, o.ahead, length-end_fetch i w.in_flight m);
    bounded = o.bounded;
    parallel = omega (arith, o.parallel, length-end_fetch i w.in_flight m);
    within = o.within;
    awaited = λ running j le lt. absurd (cc (running));
    failure_aborts = λ _. refl;
    finished = o.finished;
  }

  pub take_next-IsOrdered :
      (w : WindowStream) (b : Bytes)
      → get_window w.next_to_enqueue w.buffers ≡ some b
      → w.reader ≢ ReaderState.closed
      → IsOrdered a answers w
      → IsOrdered a answers (take_next b w)
  take_next-IsOrdered w b h open_yet o = record {
    delivered =
        ap (λ (bs : List Bytes). bs ++ b ∷ []) o.delivered
        ∙ ap (λ (x : Bytes). windows answers w.next_to_enqueue ++ x ∷ [])
            (o.buffered w.next_to_enqueue b h)
        ∙ windows-suc answers w.next_to_enqueue;
    buffered = λ j x g. elim (Bool-cases (w.next_to_enqueue == j)) [
      | inl q ↦ absurd (gone j x ((==_iff w.next_to_enqueue j).0 q) g)
      | inr q ↦
          o.buffered j x
            (sym (get-delete_ne w.next_to_enqueue j w.buffers (λ p. ground (arith, p, q))) ∙ g)
    ];
    ahead = omega (arith, o.ahead, length-delete_found w.next_to_enqueue w.buffers b h);
    bounded = omega (arith, o.bounded);
    parallel = o.parallel;
    within = o.within;
    awaited = λ running j le lt.
        kept j (λ p. absurd (omega (arith, ap (λ (n : ℕ). n) p)))
          (o.awaited running j (omega arith) lt);
    failure_aborts = o.failure_aborts;
    finished = λ e. absurd (open_yet e);
  }
    where
      gone :
          (j : ℕ) (x : Bytes)
          → w.next_to_enqueue ≡ j
          → get_window j (delete_window w.next_to_enqueue w.buffers) ≡ some x
          → ⊥
      gone j x e g = cc (
        get-delete_self w.next_to_enqueue w.buffers,
        subst (λ (n : ℕ). get_window n (delete_window w.next_to_enqueue w.buffers) ≡ some x) (sym e)
            g,
      )

      kept : (j : ℕ) → (w.next_to_enqueue ≢ j) → Awaited w j → Awaited (take_next b w) j
      kept j ne (inl g) =
          inl (λ none_there. g (sym (get-delete_ne w.next_to_enqueue j w.buffers ne) ∙ none_there))
      kept j ne (inr m) = inr m

  set_reader-IsOrdered :
      (w : WindowStream) (reader : ReaderState)
      → (reader ≡ ReaderState.closed → w.next_to_enqueue ≡ a.window_count)
      → IsOrdered a answers w
      → IsOrdered a answers (set_reader reader w)
  set_reader-IsOrdered w reader at_end o = record {
    delivered = o.delivered;
    buffered = o.buffered;
    ahead = o.ahead;
    bounded = o.bounded;
    parallel = o.parallel;
    within = o.within;
    awaited = o.awaited;
    failure_aborts = o.failure_aborts;
    finished = at_end;
  }

  pull-IsOrdered :
      (w : WindowStream)
      → w.reader ≡ ReaderState.reading
      → IsOrdered a answers w
      → IsOrdered a answers (pull a w)
  unfolding pull
  pull-IsOrdered w open_yet o =
      by_option (IsOrdered a answers) w.failure _ _
        (λ _.
          by_test (IsOrdered a answers) w.aborted _ _ (λ _. o)
            (λ _.
              by_test (IsOrdered a answers) (leb a.window_count w.next_to_enqueue)
                (set_reader ReaderState.closed w) _
                (λ e.
                  set_reader-IsOrdered w ReaderState.closed
                    (λ _. omega (arith, o.ahead, o.within, leb-true _ _ e)) o)
                (λ _.
                  by_option (IsOrdered a answers) (get_window w.next_to_enqueue w.buffers) _ _
                    (λ _. o)
                    (λ b found.
                      pump-IsOrdered a answers (take_next b w)
                        (take_next-IsOrdered w b found (λ e. cc (open_yet, e)) o)))))
        (λ e _. set_reader-IsOrdered w (ReaderState.errored e) (λ q. absurd (cc (q))) o)

  cancel-IsOrdered : (w : WindowStream) → IsOrdered a answers w → IsOrdered a answers (cancel w)
  unfolding cancel
  cancel-IsOrdered w o = record {
    delivered = o.delivered;
    buffered = λ j b h. absurd (get-nil j b h);
    ahead = omega (arith, o.ahead);
    bounded = o.bounded;
    parallel = o.parallel;
    within = o.within;
    awaited = λ running j le lt. absurd (cc (running));
    failure_aborts = λ _. refl;
    finished = o.finished;
  }

  fetch_ended-IsOrdered :
      (w : WindowStream) (i : ℕ) (outcome : FetchEnd)
      → Memᴰ i w.in_flight
      → IsPossible answers w i outcome
      → IsOrdered a answers w
      → IsOrdered a answers (fetch_ended a i outcome w)
  unfolding fetch_ended
  fetch_ended-IsOrdered w i outcome m possible o =
      pump-IsOrdered a answers (settle i outcome w) (settle-IsOrdered w i outcome m possible o)

  pub Step-IsOrdered :
      {v w : WindowStream} → Step a answers v w → IsOrdered a answers v → IsOrdered a answers w
  Step-IsOrdered (ended w i fetched m honest) o =
      fetch_ended-IsOrdered w i (fetch_window w.aborted fetched) m
        (fetch_window-IsPossible answers w i fetched honest) o
  Step-IsOrdered (pulled w open_yet) o = pull-IsOrdered w open_yet o
  Step-IsOrdered (cancelled w) o = cancel-IsOrdered w o

  pub start-IsOrdered :
      (first_bytes : Bytes)
      → first_bytes ≡ answers 0
      → 0 < a.window_count
      → IsOrdered a answers (start_stream a first_bytes)
  unfolding start_stream
  start-IsOrdered first_bytes e some_window = pump-IsOrdered a answers _ (record {
    delivered = windows-zero answers;
    buffered = λ j b h.
        let (at_first, same_bytes) = get-first j first_bytes b h in
        same_bytes ∙ e ∙ ap answers at_first;
    ahead = omega arith;
    bounded = omega arith;
    parallel = omega arith;
    within = some_window;
    awaited = λ _ j le lt. inl (λ none_there. cc (none_there, get-first_self j first_bytes lt));
    failure_aborts = λ h. absurd (cc (h));
    finished = λ h. absurd (cc (h));
  })
