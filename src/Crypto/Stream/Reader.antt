-- ===== src/Crypto/Stream/Reader.antt =====
-- lib/crypto/stream.ts, the buffered reader inside `iterateDecryptedChunks`. `input` holds what the
-- underlying stream's reader has still to return; `pendingLength` and `streamDone` are kept as the
-- source keeps them.
pub mod Laws
use anzdrop.Base.{
  ℕ, zero, suc, Bool-cases, ◌+◌, ◌-◌, ◌≤◌, ◌<◌, ◌≡◌, refl, sym, ap, ◌∙◌, ◌⊎◌, inl, inr, Bool, true,
  false, not, ◌&&◌, List, [], ◌∷◌, ◌++◌, Option, none, some, arith, length, take, drop, concat, min,
  ltb, leb, if◌then◌else◌, append_assoc, append-nil, length-append, length-take, length-drop,
  concat-append, take-append, drop-append, lt→ltb, drop_all, leb→le, take-append_of_le,
  drop-append_of_le, take-append-drop,
}
use anzdrop.Crypto.Bytes.{Bytes, zeros}

pub record Reader : Type 0 where
  pub input : List Bytes
  pub pending : List Bytes
  pub pending_length : ℕ
  pub stream_done : Bool

-- One `read()` that returned a value; an empty value is not kept.
abbrev pub receive : Reader → Bytes → List Bytes → Reader
receive r value rest =
    if ltb 0 (length value)
    then record r {
      input = rest;
      pending = r.pending ++ value ∷ [];
      pending_length = r.pending_length + length value;
    }
    else record r { input = rest }

-- `fillTo`, over the values that are left in `input`.
fill_from : ℕ → List Bytes → Reader → Reader
fill_from min_bytes [] r =
    if ltb r.pending_length min_bytes && not r.stream_done
    then record r { input = []; stream_done = true }
    else record r { input = [] }
fill_from min_bytes (value ∷ rest) r =
    let next = fill_from min_bytes rest (receive r value rest) in
    if ltb r.pending_length min_bytes && not r.stream_done
    then next
    else record r { input = value ∷ rest }

unfoldable pub fill_to : ℕ → Reader → Reader
unfolding fill_from
fill_to min_bytes r = fill_from min_bytes r.input r

-- `peek`: a zero-filled array of `length` bytes, written from the pieces in turn.
unfoldable pub peek : List Bytes → ℕ → Bytes
peek [] n = zeros n
peek (piece ∷ pieces) n =
    take (min (length piece) n) piece ++ peek pieces (n - min (length piece) n)

-- The loop of `drop`. The source's callers hold at least `remaining` bytes.
unfoldable pub drop_pieces : List Bytes → ℕ → List Bytes
drop_pieces [] remaining = []
drop_pieces (piece ∷ pieces) remaining =
    let rest = drop_pieces pieces (remaining - length piece) in
    if ltb 0 remaining
    then (if leb (length piece) remaining then rest else drop remaining piece ∷ pieces)
    else piece ∷ pieces

unfoldable pub consume : Reader → ℕ → Reader
consume r n = record r { pending = drop_pieces r.pending n; pending_length = r.pending_length - n }

-- The bytes that the reader has not consumed.
abbrev pub content : Reader → Bytes
content r = concat r.pending ++ concat r.input
