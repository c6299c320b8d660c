-- ===== src/Server/Download/Range/Served.antt =====
-- What a range request gets, when R2 gives the range it was asked for.
use anzdrop.Base.{
  ℕ, ◌+◌, ◌-◌, ◌≤◌, ◌<◌, ◌≡◌, refl, true, false, Option, none, some, min, arith, ◌==◌,
}
use anzdrop.Server.Download.Range.{
  SingleRange, from, between, last, R2Range, RangeResponse, parse_single_range,
  is_unsatisfiable_range, resolve_served_range, build_range_response, requested,
}

-- The first and the last byte that RFC 9110 gives to the numbers of the header.
pub Wanted : (start end : Option ℕ) → (size first final : ℕ) → Type 0
Wanted none none size first final = ⊥
Wanted none (some n) size first final = (first ≡ size - n) × (final + 1 ≡ size)
Wanted (some a) none size first final = (first ≡ a) × (final + 1 ≡ size)
Wanted (some a) (some b) size first final = (first ≡ a) × (final ≡ min b (size - 1))

-- A 206 answer that sends exactly the bytes from `first` to `final`, which the object has.
pub record Sends (response : RangeResponse) (start end : Option ℕ) (size : ℕ) : Type 0 where
  first : ℕ
  final : ℕ
  form : response ≡ record {
    status = 206;
    content_length = some (final - first + 1);
    content_range = some (first, final);
  }
  ordered : first ≤ final
  inside : final < size
  wanted : Wanted start end size first final

module _ (range : Option R2Range) (size offset count : ℕ)
    (served : resolve_served_range range size
      ≡ some (record { offset = offset; length = count })) where
  empty_answer : count ≡ 0 → (build_range_response range size).status ≡ 416
  unfolding build_range_response
  empty_answer e = rw (served, e, build_range_response) refl

  full_answer :
      0 < count
      → build_range_response range size ≡ record {
        status = 206;
        content_length = some (offset + count - 1 - offset + 1);
        content_range = some (offset, offset + count - 1);
      }
  unfolding build_range_response
  full_answer h =
      let filled : (count == 0) ≡ false = ground arith in
      let same_count : offset + count - 1 - offset + 1 ≡ count = omega arith in
      rw (served, filled, same_count, build_range_response) refl

  sends :
      (start end : Option ℕ)
      → 0 < count
      → offset + count ≤ size
      → Wanted start end size offset (offset + count - 1)
      → Sends (build_range_response range size) start end size
  sends start end h fits w = record {
    first = offset;
    final = offset + count - 1;
    form = full_answer h;
    ordered = omega arith;
    inside = omega arith;
    wanted = w;
  }

Answers : (start end : Option ℕ) → SingleRange → ℕ → Type 0
Answers start end range size =
    (is_unsatisfiable_range range size ≡ true
      → (build_range_response (some (requested range)) size).status ≡ 416)
    × (is_unsatisfiable_range range size ≡ false
        → Sends (build_range_response (some (requested range)) size) start end size)

served_from :
    (a size : ℕ)
    → resolve_served_range (some (requested (from a))) size
      ≡ some (record { offset = min a size; length = min (size - min a size) (size - min a size) })
unfolding resolve_served_range requested
served_from a size = refl

Answers-from : (a size : ℕ) → Answers (some a) none (from a) size
unfolding Answers Wanted is_unsatisfiable_range requested
Answers-from a size =
    let r : Option R2Range = some (requested (from a)) in
    let o : ℕ = min a size in
    let served : resolve_served_range r size
        ≡ some (record { offset = o; length = min (size - o) (size - o) }) =
      served_from a size in
    (
      λ h. empty_answer r size o (min (size - o) (size - o)) served (ground arith),
      λ h.
          sends r size o (min (size - o) (size - o)) served (some a) none (ground arith)
            (ground arith) (ground arith, ground arith),
    )

served_between :
    (a b size : ℕ)
    → resolve_served_range (some (requested (between a (b - a + 1)))) size
      ≡ some (record { offset = min a size; length = min (b - a + 1) (size - min a size) })
unfolding resolve_served_range requested
served_between a b size = refl

Answers-between : (a b size : ℕ) → a ≤ b → Answers (some a) (some b) (between a (b - a + 1)) size
unfolding Answers Wanted is_unsatisfiable_range requested
Answers-between a b size le =
    let r : Option R2Range = some (requested (between a (b - a + 1))) in
    let o : ℕ = min a size in
    let n : ℕ = min (b - a + 1) (size - o) in
    (
      λ h. empty_answer r size o n (served_between a b size) (ground arith),
      λ h.
          sends r size o n (served_between a b size) (some a) (some b) (ground arith) (ground arith)
            (ground arith, ground arith),
    )

served_last :
    (n size : ℕ)
    → resolve_served_range (some (requested (last n))) size
      ≡ some (record { offset = size - min n size; length = min n size })
unfolding resolve_served_range requested
served_last n size = refl

Answers-last : (n size : ℕ) → 0 < n → Answers none (some n) (last n) size
unfolding Answers Wanted is_unsatisfiable_range requested
Answers-last n size pos =
    let r : Option R2Range = some (requested (last n)) in
    let k : ℕ = min n size in
    (
      λ h. empty_answer r size (size - k) k (served_last n size) (ground arith),
      λ h.
          sends r size (size - k) k (served_last n size) none (some n) (ground arith) (ground arith)
            (ground arith, ground arith),
    )

-- When R2 gives the range that it was asked for: a parsed range that the object cannot satisfy is
-- answered with 416, and any other one with 206 and exactly the bytes asked for, cut at the end of
-- the object.
pub range_response_lem :
    (start end : Option ℕ) (range : SingleRange) (size : ℕ)
    → parse_single_range start end ≡ some range
    → (is_unsatisfiable_range range size ≡ true
        → (build_range_response (some (requested range)) size).status ≡ 416)
      × (is_unsatisfiable_range range size ≡ false
          → Sends (build_range_response (some (requested range)) size) start end size)
unfolding parse_single_range Answers
range_response_lem none none range size h = absurd cc
range_response_lem none (some n) range size h =
    let e : range ≡ last n = ground arith in rw e (Answers-last n size (ground arith))
range_response_lem (some a) none range size h =
    let e : range ≡ from a = ground arith in rw e (Answers-from a size)
range_response_lem (some a) (some b) range size h =
    let e : range ≡ between a (b - a + 1) = ground arith in
    rw e (Answers-between a b size (ground arith))
