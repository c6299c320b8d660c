-- ===== src/Server/Download/Range.antt =====
-- server/routes/file/[fileId]/route.ts: the bytes that a range request is answered with. The digits
-- of the header are read as natural numbers; `Number.isSafeInteger` bounds them.
pub mod Served
use anzdrop.Base.{
  ℕ, ◌+◌, ◌-◌, ◌^◌, Bool, true, false, not, Option, none, some, min, ltb, leb, ◌==◌, if◌then◌else◌,
}

pub data SingleRange : Type 0 where
  from : (offset : ℕ) → SingleRange
  between : (offset length : ℕ) → SingleRange
  last : (suffix : ℕ) → SingleRange

abbrev is_safe_integer : ℕ → Bool
is_safe_integer n = ltb n (2 ^ 53)

-- Of a header that matches `bytes=(\d*)-(\d*)`, its two numbers, `none` where there are no digits.
unfoldable pub parse_single_range : (start end : Option ℕ) → Option SingleRange
parse_single_range none none = none
parse_single_range none (some suffix) =
    if is_safe_integer suffix then if ltb 0 suffix then some (last suffix) else none else none
parse_single_range (some offset) none = if is_safe_integer offset then some (from offset) else none
parse_single_range (some offset) (some final) =
    if is_safe_integer offset
    then if is_safe_integer final
      then if ltb final offset then none else some (between offset (final - offset + 1))
      else none
    else none

unfoldable pub is_unsatisfiable_range : SingleRange → ℕ → Bool
is_unsatisfiable_range (last suffix) size = size == 0
is_unsatisfiable_range (from offset) size = leb size offset
is_unsatisfiable_range (between offset length) size = leb size offset

-- The fields of R2's `R2Range` that are there.
pub record R2Range : Type 0 where
  pub offset : Option ℕ
  pub length : Option ℕ
  pub suffix : Option ℕ

pub record ServedRange : Type 0 where
  pub offset : ℕ
  pub length : ℕ

-- From `offset`, at most `length` bytes, within an object of `size` bytes.
abbrev clamped : (offset length : Option ℕ) → ℕ → ServedRange
clamped raw_offset raw_length size =
    let offset : ℕ = min (elim raw_offset [ none ↦ 0 | some o ↦ o ]) size in
    record {
      offset = offset;
      length = min (elim raw_length [ none ↦ size - offset | some l ↦ l ]) (size - offset);
    }

unfoldable pub resolve_served_range : Option R2Range → ℕ → Option ServedRange
resolve_served_range none size = none
resolve_served_range (some raw) size = elim raw.suffix [
  | some s ↦
      let suffix : ℕ = min s size in some (record { offset = size - suffix; length = suffix })
  | none ↦ elim raw.offset [
    | some offset ↦ some (clamped (some offset) raw.length size)
    | none ↦ elim raw.length [ some length ↦ some (clamped none (some length) size) | none ↦ none ]
  ]
]

-- An answer's status with its `Content-Length` and the first and last byte of `Content-Range`; that
-- of a 416, which names the object's size alone, is left out.
pub record RangeResponse : Type 0 where
  pub status : ℕ
  pub content_length : Option ℕ
  pub content_range : Option (ℕ × ℕ)

unfoldable pub build_range_response : Option R2Range → ℕ → RangeResponse
build_range_response range size = elim (resolve_served_range range size) [
  | none ↦ record { status = 200; content_length = some size; content_range = none }
  | some served ↦
      if served.length == 0
      then record { status = 416; content_length = none; content_range = none }
      else record {
        status = 206;
        content_length = some served.length;
        content_range = some (served.offset, served.offset + served.length - 1);
      }
]

-- The range given to R2, as the fields that the object has.
unfoldable pub requested : SingleRange → R2Range
requested (from offset) = record { offset = some offset; length = none; suffix = none }
requested (between offset length) = record {
  offset = some offset;
  length = some length;
  suffix = none;
}
requested (last suffix) = record { offset = none; length = none; suffix = some suffix }
