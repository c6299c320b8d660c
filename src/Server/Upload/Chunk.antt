-- ===== src/Server/Upload/Chunk.antt =====
-- server/routes/upload/chunk/route.ts, and readBodyWithinLimit of lib/api/body.ts.
pub mod Body
pub mod Accepted
pub mod Accepts
use anzdrop.Base.{
  ℕ, ◌+◌, String, Bool, true, false, not, ◌&&◌, Option, none, some, List, [], ◌∷◌, ◌++◌, keep, ltb,
  ◌==◌, same, truthy, length, if◌then◌else◌,
}
use anzdrop.Crypto.Bytes.{Bytes}
use anzdrop.Server.State.{
  UploadPart, Server, Reply, refused, answered, R2Call, upload_part, call_r2, set_upload_parts,
}
use anzdrop.Server.Upload.Session.{
  UploadSessionRow, load_upload_session, verify_upload_session_token, is_part_number_allowed,
  upload_part_size,
}

-- The pieces of the body's stream, kept while they fit; `none` once they do not.
unfoldable pub read_pieces : ℕ → Bytes → List Bytes → Option Bytes
read_pieces max_bytes body [] = some body
read_pieces max_bytes body (value ∷ rest) =
    let more = read_pieces max_bytes (body ++ value) rest in
    if ltb max_bytes (length body + length value) then none else more

-- `content_length` is the header's number, `none` if it has none.
unfoldable pub read_body_within_limit : Option ℕ → List Bytes → ℕ → Option Bytes
read_body_within_limit none pieces max_bytes = read_pieces max_bytes [] pieces
read_body_within_limit (some content_length) pieces max_bytes =
    if ltb max_bytes content_length then none else read_pieces max_bytes [] pieces

pub record ChunkRequest : Type 0 where
  pub upload_session_id : Option String
  pub part_number_header : Option String
  -- `Number` of the header, `none` if that is not a natural number.
  pub part_number : Option ℕ
  pub upload_token : Option String
  pub content_length : Option ℕ
  pub pieces : List Bytes

pub record ChunkContext : Type 0 where
  pub within_rate : Bool
  -- The ETag that R2 answers with, or `none` if it throws.
  pub etag : Option String
  -- Whether D1 stores the row.
  pub stores : Bool

-- `INSERT OR REPLACE INTO upload_parts`
abbrev pub put_part : UploadPart → List UploadPart → List UploadPart
put_part p parts =
    p
    ∷ keep
        (λ q.
          not (same q.upload_session_id p.upload_session_id && (q.part_number == p.part_number)))
        parts

abbrev pub store_part :
    ChunkContext → String → UploadSessionRow → ℕ → Bytes → Server → Server × Reply ℕ
store_part c session_id row part_number body s =
    let sent = call_r2 (upload_part row.storage_key row.upload_id part_number body) s in
    elim c.etag [
      | none ↦ (sent, refused 500)
      | some etag ↦
          if c.stores
          then (
            set_upload_parts
                (put_part
                  (record {
                    upload_session_id = session_id;
                    part_number = part_number;
                    etag = etag;
                  })
                  s.upload_parts)
                sent,
            answered part_number,
          )
          else (sent, refused 500)
    ]

-- From the session on: the row, the token and the part number.
abbrev pub accept_part :
    ChunkContext → (session_id token : String) → ℕ → Bytes → Server → Server × Reply ℕ
accept_part c session_id token part_number body s = elim (load_upload_session s session_id) [
  | none ↦ (s, refused 404)
  | some row ↦
      if verify_upload_session_token row.upload_token token
      then if is_part_number_allowed (some part_number)
          (elim row.file_size [ none ↦ 0 | some n ↦ n ])
        then store_part c session_id row part_number body s
        else (s, refused 400)
      else (s, refused 403)
]

abbrev pub read_part :
    ChunkContext → ChunkRequest → (session_id token : String) → ℕ → Server → Server × Reply ℕ
read_part c r session_id token part_number s =
    if c.within_rate
    then elim (read_body_within_limit r.content_length r.pieces upload_part_size) [
      | none ↦ (s, refused 413)
      | some [] ↦ (s, refused 400)
      | some (byte ∷ bytes) ↦ accept_part c session_id token part_number (byte ∷ bytes) s
    ]
    else (s, refused 429)

abbrev pub header : Option String → String
header none = ""
header (some text) = text

unfoldable pub upload_chunk : ChunkContext → ChunkRequest → Server → Server × Reply ℕ
upload_chunk c r s =
    if truthy (header r.upload_session_id)
      && (truthy (header r.part_number_header) && truthy (header r.upload_token))
    then elim r.part_number [
      | none ↦ (s, refused 400)
      | some part_number ↦
          if ltb part_number 1
          then (s, refused 400)
          else read_part c r (header r.upload_session_id) (header r.upload_token) part_number s
    ]
    else (s, refused 400)
