-- ===== src/Server/Upload/Chunk/Accepts.antt =====
-- When a part is accepted.
use anzdrop.Base.{
  ℕ, ◌≤◌, ◌<◌, ◌≡◌, refl, ap, ◌∙◌, String, true, false, none, some, [], ◌∷◌, length, concat, ltb,
  truthy, arith,
}
use anzdrop.Auth.TimingSafeEqual.{token_matches, token_matches_iff}
use anzdrop.Crypto.Bytes.{Bytes}
use anzdrop.Server.State.{Server, answered}
use anzdrop.Server.Upload.Session.{
  UploadSessionRow, load_upload_session, verify_upload_session_token, is_part_number_allowed,
  upload_part_size,
}
use anzdrop.Server.Upload.Chunk.{
  ChunkContext, ChunkRequest, read_body_within_limit, upload_chunk, header, store_part, accept_part,
}
use anzdrop.Server.Upload.Chunk.Body.{read_body_within_limit_lem}
use anzdrop.Server.Upload.Chunk.Accepted.{declared}

-- A request that has all that a part needs, when the rate limiter and R2 let it pass.
pub record IsComplete (c : ChunkContext) (r : ChunkRequest) (s : Server) (n : ℕ) : Type 0 where
  pub row : UploadSessionRow
  pub etag : String
  pub within_rate : c.within_rate ≡ true
  pub uploaded : c.etag ≡ some etag
  pub stores : c.stores ≡ true
  pub named : truthy (header r.upload_session_id) ≡ true
  pub numbered : truthy (header r.part_number_header) ≡ true
  pub number : r.part_number ≡ some n
  pub has_token : truthy (header r.upload_token) ≡ true
  pub announced : elim r.content_length [ none ↦ 0 | some k ↦ k ] ≤ upload_part_size
  pub filled : 0 < length (concat r.pieces)
  pub fits : length (concat r.pieces) ≤ upload_part_size
  pub session : load_upload_session s (header r.upload_session_id) ≡ some row
  pub token : row.upload_token ≡ some (header r.upload_token)
  pub allowed : is_part_number_allowed (some n) (declared row) ≡ true

body_read :
    (r : ChunkRequest)
    → elim r.content_length [ none ↦ 0 | some k ↦ k ] ≤ upload_part_size
    → length (concat r.pieces) ≤ upload_part_size
    → read_body_within_limit r.content_length r.pieces upload_part_size ≡ some (concat r.pieces)
body_read r announced fits =
    let low : ltb upload_part_size (elim r.content_length [ none ↦ 0 | some k ↦ k ]) ≡ false =
      ground (arith, announced) in
    let small : ltb upload_part_size (length (concat r.pieces)) ≡ false = ground (arith, fits) in
    read_body_within_limit_lem r.content_length r.pieces upload_part_size ∙ rw (low, small) refl

not_empty : (body : Bytes) → 0 < length body → (byte : ℕ) × (bytes : Bytes) × (body ≡ byte ∷ bytes)
not_empty [] h = absurd (omega arith)
not_empty (x ∷ xs) h = (x, xs, refl)

allowed_pos : (n d : ℕ) → is_part_number_allowed (some n) d ≡ true → ltb n 1 ≡ false
unfolding is_part_number_allowed
allowed_pos n d h = ground (arith, h)

accept_part_accepts :
    (c : ChunkContext) (r : ChunkRequest) (s : Server) (n : ℕ) (body : Bytes)
    (h : IsComplete c r s n)
    → token_matches h.row.upload_token (header r.upload_token) ≡ true
    → (accept_part c (header r.upload_session_id) (header r.upload_token) n body s).1 ≡ answered n
unfolding verify_upload_session_token
accept_part_accepts c r s n body h matched =
    rw (h.session, accept_part)
      (rw (matched, h.allowed) (rw (h.uploaded, store_part) (rw h.stores refl)))

-- If the headers are there, the rate allows it, the body has from 1 byte to 8 MiB, the session and
-- its token match, the number is allowed and R2 takes the part, then the request is answered with
-- its part number.
pub upload_chunk_accepts :
    (c : ChunkContext) (r : ChunkRequest) (s : Server) (n : ℕ)
    → IsComplete c r s n
    → (upload_chunk c r s).1 ≡ answered n
unfolding upload_chunk verify_upload_session_token
upload_chunk_accepts c r s n h =
    let (byte, bytes, whole) = not_empty (concat r.pieces) h.filled in
    let body = body_read r h.announced h.fits ∙ ap some whole in
    let matched : token_matches h.row.upload_token (header r.upload_token) ≡ true =
      (token_matches_iff h.row.upload_token (header r.upload_token)).1 (h.token, h.has_token) in
    rw (h.named, h.numbered, h.has_token, h.number, allowed_pos n (declared h.row) h.allowed)
      (rw (h.within_rate, body) (accept_part_accepts c r s n (byte ∷ bytes) h matched))
