-- ===== src/Client/BufferTests.antt =====
-- lib/asyncBuffer.ts: two items read ahead of three, and one of them taken.
use anzdrop.Base.{ℕ, ◌≡◌, refl, List, [], ◌∷◌}
use anzdrop.Client.BufferAhead.{
  Buffer, waiting, answered, producer_top, next_ended, consume, buffer_ahead,
}
use anzdrop.Client.BufferAhead.Kept.{
  Reaches, here, next, asked, was_consumed, Keeps, buffer_ahead-Keeps,
}

abbrev items : List ℕ
items = 1 ∷ 2 ∷ 3 ∷ []

abbrev b0 : Buffer ℕ
b0 = buffer_ahead 2 items

abbrev b1 : Buffer ℕ
b1 = next_ended 2 answered b0

abbrev b2 : Buffer ℕ
b2 = next_ended 2 answered b1

abbrev b3 : Buffer ℕ
b3 = consume b2

full : b2.queue ≡ 1 ∷ 2 ∷ []
unfolding buffer_ahead producer_top next_ended
full = refl

waits : b2.producer ≡ waiting
unfolding buffer_ahead producer_top next_ended
waits = refl

one_taken : b3.taken ≡ 1 ∷ []
unfolding buffer_ahead producer_top next_ended consume
one_taken = refl

reached : Reaches 2 b0 b3
unfolding buffer_ahead producer_top next_ended
reached =
    next (next (next here (asked b0 answered refl)) (asked b1 answered refl)) (was_consumed b2 refl)

buffer_ahead-Keeps_example : Keeps 2 items b3
buffer_ahead-Keeps_example = buffer_ahead-Keeps 2 items b3 reached
