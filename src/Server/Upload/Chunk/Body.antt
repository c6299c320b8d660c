-- ===== src/Server/Upload/Chunk/Body.antt =====
-- Reading a body under a limit, against the body's pieces joined.
use anzdrop.Base.{
  ℕ, ◌+◌, ◌≤◌, ◌≡◌, refl, true, false, Option, none, some, List, [], ◌∷◌, ◌++◌, length, concat, ltb,
  if◌then◌else◌, arith, Bool-cases, inl, inr, length-append, append-nil, append_assoc,
}
use anzdrop.Crypto.Bytes.{Bytes}
use anzdrop.Server.Upload.Chunk.{read_pieces, read_body_within_limit}

read_pieces_lem :
    (max_bytes : ℕ) (body : Bytes) (pieces : List Bytes)
    → length body ≤ max_bytes
    → read_pieces max_bytes body pieces ≡ (
        if ltb max_bytes (length (body ++ concat pieces))
        then none
        else some (body ++ concat pieces))
unfolding read_pieces
read_pieces_lem max_bytes body [] h =
    let small : ltb max_bytes (length body) ≡ false = ground arith in
    rw (append-nil body, small) refl
read_pieces_lem max_bytes body (value ∷ rest) h =
    elim (Bool-cases (ltb max_bytes (length body + length value))) [
      | inl b ↦
          let large : ltb max_bytes (length (body ++ (value ++ concat rest))) ≡ true = ground (
            arith,
            b,
            length-append body (value ++ concat rest),
            length-append value (concat rest),
          ) in
          rw (b, large) refl
      | inr b ↦
          let fits : length (body ++ value) ≤ max_bytes =
            ground (arith, b, length-append body value) in
          rw (b, ← append_assoc body value (concat rest))
            (read_pieces_lem max_bytes (body ++ value) rest fits)
    ]

-- However a body is cut into pieces, reading it gives the whole body if it fits the limit, and
-- nothing if it does not; a `Content-Length` above the limit gives nothing at once.
pub read_body_within_limit_lem :
    (content_length : Option ℕ) (pieces : List Bytes) (max_bytes : ℕ)
    → read_body_within_limit content_length pieces max_bytes ≡ (
        if ltb max_bytes (elim content_length [ none ↦ 0 | some n ↦ n ])
        then none
        else if ltb max_bytes (length (concat pieces))
        then none
        else some (concat pieces))
unfolding read_body_within_limit
read_body_within_limit_lem none pieces max_bytes =
    let low : ltb max_bytes 0 ≡ false = ground arith in
    rw low (read_pieces_lem max_bytes [] pieces (omega arith))
read_body_within_limit_lem (some n) pieces max_bytes = elim (Bool-cases (ltb max_bytes n)) [
  | inl b ↦ rw b refl
  | inr b ↦ rw b (read_pieces_lem max_bytes [] pieces (omega arith))
]
