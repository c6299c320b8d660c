-- ===== src/Client/Repartition.antt =====
-- lib/upload/chunkUploader.ts, `repartition`: a stream of pieces cut again into parts of one size.
-- The part size is a parameter; the caller's abort signal is not raised.
pub mod Parts
pub mod Admitted
pub mod Stored
use anzdrop.Base.{
  ℕ, zero, suc, ◌+◌, ◌-◌, Bool, true, false, List, [], ◌∷◌, ◌++◌, length, take, drop, ltb, leb,
  ◌==◌, if◌then◌else◌,
}
use anzdrop.Crypto.Bytes.{Bytes, zeros}

pub record Part : Type 0 where
  pub part_number : ℕ
  pub body : Bytes

-- `pending`, `pendingLength` and `partNumber`.
pub record Pending : Type 0 where
  pub pieces : List Bytes
  pub pending_length : ℕ
  pub part_number : ℕ

-- The loop of the inner `take`: a zero-filled array written from the pieces, and what they leave.
unfoldable pub take_pieces : List Bytes → ℕ → Bytes × List Bytes
take_pieces [] n = (zeros n, [])
take_pieces (piece ∷ pieces) n =
    let rest = take_pieces pieces (n - length piece) in
    if ltb 0 n
    then if leb (length piece) n
      then (piece ++ rest.0, rest.1)
      else (take n piece, drop n piece ∷ pieces)
    else ([], piece ∷ pieces)

-- `take(length)` with the number of the part that it is for.
abbrev pub take_part : ℕ → Pending → Part
take_part n p = record { part_number = p.part_number; body = (take_pieces p.pieces n).0 }

abbrev pub after_part : ℕ → Pending → Pending
after_part n p = record {
  pieces = (take_pieces p.pieces n).1;
  pending_length = p.pending_length - n;
  part_number = p.part_number + 1;
}

abbrev pub push_piece : Bytes → Pending → Pending
push_piece piece p = record {
  pieces = p.pieces ++ piece ∷ [];
  pending_length = p.pending_length + length piece;
  part_number = p.part_number;
}

module _ (part_size : ℕ) where
  -- `while (pendingLength >= partSize)`; a fuel of the pending length is enough.
  unfoldable pub drain : ℕ → Pending → List Part × Pending
  drain zero p = ([], p)
  drain (suc fuel) p =
      let rest = drain fuel (after_part part_size p) in
      if leb part_size p.pending_length then (take_part part_size p ∷ rest.0, rest.1) else ([], p)

  unfoldable pub repartition_from : List Bytes → Pending → List Part
  repartition_from [] p = if ltb 0 p.pending_length then take_part p.pending_length p ∷ [] else []
  repartition_from (piece ∷ source) p =
      let skipped = repartition_from source p in
      let pushed : Pending = push_piece piece p in
      let drained : List Part × Pending = drain pushed.pending_length pushed in
      let rest = repartition_from source drained.1 in
      if length piece == 0 then skipped else drained.0 ++ rest

  unfoldable pub repartition : List Bytes → List Part
  repartition source =
      repartition_from source (record { pieces = []; pending_length = 0; part_number = 1 })
