-- ===== src/Client/BufferAhead/Kept.antt =====
-- Nothing is lost, changed in order, or read ahead beyond the capacity.
use anzdrop.Base.{
  by_test, ℕ, suc, ◌≤◌, ◌<◌, Bool, true, false, ◌≡◌, refl, sym, ap, ◌∙◌, Option, none, some, List,
  [], ◌∷◌, ◌++◌, length, length-append, append-nil, append_assoc, leb, arith, if◌then◌else◌,
}
use anzdrop.Client.BufferAhead.{
  Producer, waiting, asking, ended, ConsumerEnd, exhausted, thrown, closed, Buffer, Answered,
  answered, source_threw, set_producer, producer_top, push, next_ended, stop_with, on_abort, close,
  shift, drained, consume, buffer_ahead,
}

-- The producer, the consumer and the abort signal in any order.
pub data Step {ℓ} {A : Type ℓ} (capacity : ℕ) : Buffer A → Buffer A → Type ℓ where
  resumed : (b : Buffer A) → b.producer ≡ waiting → Step capacity b (producer_top capacity b)
  asked :
      (b : Buffer A) (answer : Answered)
      → b.producer ≡ asking
      → Step capacity b (next_ended capacity answer b)
  was_consumed : (b : Buffer A) → b.consumer ≡ none → Step capacity b (consume b)
  was_closed : (b : Buffer A) → b.consumer ≡ none → Step capacity b (close b)
  was_aborted : (b : Buffer A) → Step capacity b (on_abort b)

pub data Reaches {ℓ} {A : Type ℓ} (capacity : ℕ) (b : Buffer A) : Buffer A → Type ℓ where
  here : Reaches capacity b b
  next : {c d : Buffer A} → Reaches capacity b c → Step capacity c d → Reaches capacity b d

pub record Keeps {ℓ} {A : Type ℓ} (capacity : ℕ) (items : List A) (b : Buffer A) : Type ℓ where
  pub rest : List A
  pub in_order : b.taken ++ rest ≡ items
  pub nothing_lost : b.stopped ≡ false → rest ≡ b.queue ++ b.source
  pub bounded : length b.queue ≤ capacity
  pub has_room : b.producer ≡ asking → length b.queue < capacity
  pub read_out : b.producer ≡ ended → b.producer_error ≡ false → b.stopped ≡ false → b.source ≡ []
  pub all_taken : b.consumer ≡ some exhausted → b.taken ≡ items

module _ {ℓ} {A : Type ℓ} (capacity : ℕ) (items : List A) where
  producer_top-Keeps :
      (b : Buffer A) (k : Keeps capacity items b) → Keeps capacity items (producer_top capacity b)
  unfolding producer_top
  producer_top-Keeps b k =
      by_test (Keeps capacity items) b.stopped _ _
        (λ stopped_now. record {
          rest = k.rest;
          in_order = k.in_order;
          nothing_lost = k.nothing_lost;
          bounded = k.bounded;
          has_room = λ q. absurd (cc (q));
          read_out = λ _ _ q. absurd (cc (q, stopped_now));
          all_taken = k.all_taken;
        })
        (λ _. record {
          rest = k.rest;
          in_order = k.in_order;
          nothing_lost = k.nothing_lost;
          bounded = k.bounded;
          has_room = room (leb capacity (length b.queue)) refl;
          read_out = λ q. absurd (busy (leb capacity (length b.queue)) q);
          all_taken = k.all_taken;
        })
    where
      room :
          (full : Bool)
          → leb capacity (length b.queue) ≡ full
          → ◌≡◌ {A = Producer} (if full then waiting else asking) asking
          → length b.queue < capacity
      room true e q = absurd (cc (q))
      room false e q = ground (arith, e)

      busy : (full : Bool) → ◌≡◌ {A = Producer} (if full then waiting else asking) ended → ⊥
      busy true q = cc (q)
      busy false q = cc (q)

  stop_with-Keeps :
      (b : Buffer A) (consumer : Option ConsumerEnd)
      → (consumer ≡ some exhausted → b.taken ≡ items)
      → Keeps capacity items b
      → Keeps capacity items (stop_with consumer b)
  stop_with-Keeps b consumer all k = record {
    rest = k.rest;
    in_order = k.in_order;
    nothing_lost = λ q. absurd (cc (q));
    bounded = omega arith;
    has_room = λ q. omega (arith, k.has_room q);
    read_out = λ _ _ q. absurd (cc (q));
    all_taken = all;
  }

  push-Keeps :
      (b : Buffer A) (value : A) (later : List A)
      → b.source ≡ value ∷ later
      → b.producer ≡ asking
      → b.stopped ≡ false
      → Keeps capacity items b
      → Keeps capacity items (producer_top capacity (push value later b))
  unfolding producer_top
  push-Keeps b value later e asks runs k =
      producer_top-Keeps (set_producer waiting (push value later b)) (record {
        rest = k.rest;
        in_order = k.in_order;
        nothing_lost = λ q.
            k.nothing_lost q
            ∙ ap (λ (s : List A). b.queue ++ s) e
            ∙ sym (append_assoc b.queue (value ∷ []) later);
        bounded = omega (arith, k.has_room asks, length-append b.queue (value ∷ []));
        has_room = λ q. absurd (cc (q));
        read_out = λ q. absurd (cc (q));
        all_taken = k.all_taken;
      })

  ended-Keeps :
      (b : Buffer A)
      → (b.stopped ≡ false → b.source ≡ [])
      → Keeps capacity items b
      → Keeps capacity items (set_producer ended b)
  ended-Keeps b all_read k = record {
    rest = k.rest;
    in_order = k.in_order;
    nothing_lost = k.nothing_lost;
    bounded = k.bounded;
    has_room = λ q. absurd (cc (q));
    read_out = λ _ _ q. all_read q;
    all_taken = k.all_taken;
  }

  next_ended-Keeps :
      (b : Buffer A) (answer : Answered)
      → b.producer ≡ asking
      → Keeps capacity items b
      → Keeps capacity items (next_ended capacity answer b)
  unfolding next_ended
  next_ended-Keeps b source_threw asks k = record {
    rest = k.rest;
    in_order = k.in_order;
    nothing_lost = k.nothing_lost;
    bounded = k.bounded;
    has_room = λ q. absurd (cc (q));
    read_out = λ _ q _. absurd (cc (q));
    all_taken = k.all_taken;
  }
  next_ended-Keeps b answered asks k = from_source b.source refl
    where
      from_source :
          (source : List A)
          → b.source ≡ source
          → Keeps capacity items (elim source [
            | [] ↦ set_producer ended b
            | value ∷ rest ↦
                if b.stopped
                then set_producer ended b
                else producer_top capacity (push value rest b)
          ])
      from_source [] e = ended-Keeps b (λ _. e) k
      from_source (value ∷ later) e =
          by_test (Keeps capacity items) b.stopped _ _
            (λ s. ended-Keeps b (λ q. absurd (cc (q, s))) k)
            (λ runs. push-Keeps b value later e asks runs k)

  consume-Keeps :
      (b : Buffer A) → b.consumer ≡ none → Keeps capacity items b → Keeps capacity items (consume b)
  unfolding consume
  consume-Keeps b goes_on k =
      by_test (Keeps capacity items) b.stopped _ _
        (λ _. stop_with-Keeps b (some closed) (λ q. absurd (cc (q))) k)
        (λ runs. from_queue runs b.queue refl)
    where
      from_drained :
          b.stopped ≡ false
          → b.queue ≡ []
          → (p : Producer) → b.producer ≡ p
          → Keeps capacity items (drained p b)
      from_drained runs empty waiting e = k
      from_drained runs empty asking e = k
      from_drained runs empty ended e =
          stop_with-Keeps b _ (at_end runs empty e b.producer_error refl) k
        where
          at_end :
              b.stopped ≡ false
              → b.queue ≡ []
              → b.producer ≡ ended
              → (x : Bool) → b.producer_error ≡ x
              → ◌≡◌ {A = Option ConsumerEnd}
                  (some (if x then thrown else exhausted))
                  (some exhausted)
              → b.taken ≡ items
          at_end runs empty e true x q = absurd (cc (q))
          at_end runs empty e false x q =
              sym (append-nil b.taken)
              ∙ ap (λ (r : List A). b.taken ++ r)
                  (sym (
                    k.nothing_lost runs
                    ∙ ap (λ (r : List A). r ++ b.source) empty
                    ∙ k.read_out e x runs))
              ∙ k.in_order

      from_queue :
          b.stopped ≡ false
          → (queue : List A) → b.queue ≡ queue
          → Keeps capacity items
              (elim queue [ [] ↦ drained b.producer b | item ∷ rest ↦ shift item rest b ])
      from_queue runs [] e = from_drained runs e b.producer refl
      from_queue runs (item ∷ later) e = record {
        rest = later ++ b.source;
        in_order =
            append_assoc b.taken (item ∷ []) (later ++ b.source)
            ∙ ap (λ (r : List A). b.taken ++ r)
                (sym (k.nothing_lost runs ∙ ap (λ (r : List A). r ++ b.source) e))
            ∙ k.in_order;
        nothing_lost = λ _. refl;
        bounded = shorter k.bounded;
        has_room = λ q. shorter_than (k.has_room q);
        read_out = k.read_out;
        all_taken = λ q. absurd (cc (q, goes_on));
      }
        where
          queue_length : length b.queue ≡ suc (length later)
          queue_length = ap (λ (r : List A). length r) e

          shorter : length b.queue ≤ capacity → length later ≤ capacity
          shorter h = omega (arith, queue_length, h)

          shorter_than : length b.queue < capacity → length later < capacity
          shorter_than h = omega (arith, queue_length, h)

  Step-Keeps :
      {b c : Buffer A} → Step capacity b c → Keeps capacity items b → Keeps capacity items c
  unfolding close on_abort
  Step-Keeps (resumed b waits) k = producer_top-Keeps b k
  Step-Keeps (asked b answer asks) k = next_ended-Keeps b answer asks k
  Step-Keeps (was_consumed b goes_on) k = consume-Keeps b goes_on k
  Step-Keeps (was_closed b goes_on) k = stop_with-Keeps b (some closed) (λ q. absurd (cc (q))) k
  Step-Keeps (was_aborted b) k = stop_with-Keeps b b.consumer k.all_taken k

  Reaches-Keeps :
      {b c : Buffer A} → Reaches capacity b c → Keeps capacity items b → Keeps capacity items c
  Reaches-Keeps here k = k
  Reaches-Keeps (next r s) k = Step-Keeps s (Reaches-Keeps r k)

  -- However the producer, the consumer and an abort interleave: the buffer has at most `capacity` items,
  -- and room for one more while the source is asked; what the consumer has got are the source's first
  -- items, in order, followed, unless it is stopped, by those in the buffer and those still to come;
  -- and if the consumer's loop ends by itself, it has got all of them.
  pub buffer_ahead-Keeps :
      (b : Buffer A) → Reaches capacity (buffer_ahead capacity items) b → Keeps capacity items b
  unfolding buffer_ahead
  buffer_ahead-Keeps b r = Reaches-Keeps r (
      producer_top-Keeps _ (record {
        rest = items;
        in_order = refl;
        nothing_lost = λ _. refl;
        bounded = omega arith;
        has_room = λ q. absurd (cc (q));
        read_out = λ q. absurd (cc (q));
        all_taken = λ q. absurd (cc (q));
      }))
