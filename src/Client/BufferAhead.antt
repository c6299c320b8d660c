-- ===== src/Client/BufferAhead.antt =====
-- lib/asyncBuffer.ts: a producer that reads ahead of its consumer. Each piece of the code that runs without
-- waiting is one operation; waking is left out, since whoever wakes tests its condition again.
pub mod Kept
use anzdrop.Base.{
  ℕ, Bool, true, false, Option, none, some, List, [], ◌∷◌, ◌++◌, length, leb, if◌then◌else◌,
}

-- The producer waits for room or for the source, or has left its loop.
pub data Producer : Type 0 where
  waiting asking ended : Producer

-- How the consumer's generator ends.
pub data ConsumerEnd : Type 0 where
  exhausted thrown closed : ConsumerEnd

-- The variables of the closure; `source` is what the source has not yielded, `taken` what the
-- consumer has got.
pub record Buffer {ℓ} (A : Type ℓ) : Type ℓ where
  pub source : List A
  pub queue : List A
  pub producer : Producer
  pub producer_error : Bool
  pub stopped : Bool
  pub taken : List A
  pub consumer : Option ConsumerEnd

-- What `iterator.next()` gives: an item or the end, or it throws. What is thrown is taken to be
-- truthy, as every Error is: `if (producerError)` would take another for the end.
pub data Answered : Type 0 where
  answered source_threw : Answered

module _ {ℓ} {A : Type ℓ} where
  abbrev pub set_producer : Producer → Buffer A → Buffer A
  set_producer producer b = record {
    source = b.source;
    queue = b.queue;
    producer = producer;
    producer_error = b.producer_error;
    stopped = b.stopped;
    taken = b.taken;
    consumer = b.consumer;
  }

  -- The top of the producer's loops.
  unfoldable pub producer_top : ℕ → Buffer A → Buffer A
  producer_top capacity b =
      if b.stopped
      then set_producer ended b
      else set_producer (if leb capacity (length b.queue) then waiting else asking) b

  abbrev pub push : A → List A → Buffer A → Buffer A
  push value rest b = record {
    source = rest;
    queue = b.queue ++ value ∷ [];
    producer = b.producer;
    producer_error = b.producer_error;
    stopped = b.stopped;
    taken = b.taken;
    consumer = b.consumer;
  }

  abbrev pub fail_producer : Buffer A → Buffer A
  fail_producer b = record {
    source = b.source;
    queue = b.queue;
    producer = ended;
    producer_error = true;
    stopped = b.stopped;
    taken = b.taken;
    consumer = b.consumer;
  }

  -- `iterator.next()` is over.
  unfoldable pub next_ended : ℕ → Answered → Buffer A → Buffer A
  next_ended capacity source_threw b = fail_producer b
  next_ended capacity answered b = elim b.source [
    | [] ↦ set_producer ended b
    | value ∷ rest ↦
        if b.stopped then set_producer ended b else producer_top capacity (push value rest b)
  ]

  -- `onAbort`, and the `finally` of the consumer with how it ends.
  abbrev pub stop_with : Option ConsumerEnd → Buffer A → Buffer A
  stop_with consumer b = record {
    source = b.source;
    queue = [];
    producer = b.producer;
    producer_error = b.producer_error;
    stopped = true;
    taken = b.taken;
    consumer = consumer;
  }

  unfoldable pub on_abort : Buffer A → Buffer A
  on_abort b = stop_with b.consumer b

  -- The consumer calls `return()` while it holds an item or before the first.
  unfoldable pub close : Buffer A → Buffer A
  close b = stop_with (some closed) b

  abbrev pub shift : A → List A → Buffer A → Buffer A
  shift item rest b = record {
    source = b.source;
    queue = rest;
    producer = b.producer;
    producer_error = b.producer_error;
    stopped = b.stopped;
    taken = b.taken ++ item ∷ [];
    consumer = b.consumer;
  }

  abbrev pub drained : Producer → Buffer A → Buffer A
  drained waiting b = b
  drained asking b = b
  drained ended b = stop_with (some (if b.producer_error then thrown else exhausted)) b

  -- The consumer's loop, up to an item, its end or a wait.
  unfoldable pub consume : Buffer A → Buffer A
  consume b =
      if b.stopped
      then stop_with (some closed) b
      else elim b.queue [ [] ↦ drained b.producer b | item ∷ rest ↦ shift item rest b ]

  unfoldable pub buffer_ahead : ℕ → List A → Buffer A
  buffer_ahead capacity source = producer_top capacity (record {
    source = source;
    queue = [];
    producer = waiting;
    producer_error = false;
    stopped = false;
    taken = [];
    consumer = none;
  })
