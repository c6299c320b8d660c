-- ===== src/Server/Upload/PartAck.antt =====
-- server/routes/upload/part-ack/route.ts: the ETags of parts that the client sent straight to R2.
pub mod Latest
use anzdrop.Base.{
  ℕ, String, Bool, true, false, not, ◌&&◌, Option, none, some, List, [], ◌∷◌, ◌++◌, map, exists,
  ◌==◌, length, if◌then◌else◌,
}
use anzdrop.Server.State.{UploadPart, Server, Reply, refused, answered, set_upload_parts}
use anzdrop.Server.Upload.Session.{
  UploadSessionRow, load_upload_session, verify_upload_session_token, is_part_number_allowed,
}
use anzdrop.Server.Upload.Chunk.{put_part}

pub record Part : Type 0 where
  pub part_number : ℕ
  pub etag : String

pub record UploadPartAckRequest : Type 0 where
  pub upload_session_id : String
  pub upload_token : String
  pub parts : List Part

abbrev pub has_number : ℕ → Part → Bool
has_number n p = p.part_number == n

-- `latestByPart.set(part.partNumber, part.etag)`, on the entries of the map in order.
unfoldable pub set_latest : Part → List Part → List Part
set_latest part entries =
    if exists (has_number part.part_number) entries
    then map (λ p. if has_number part.part_number p then part else p) entries
    else entries ++ part ∷ []

unfoldable pub latest_by_part : List Part → List Part → List Part
latest_by_part entries [] = entries
latest_by_part entries (part ∷ parts) = latest_by_part (set_latest part entries) parts

-- The batch of `INSERT OR REPLACE`.
unfoldable pub store_parts : String → List Part → List UploadPart → List UploadPart
store_parts session_id [] table = table
store_parts session_id (part ∷ parts) table = store_parts session_id parts (
    put_part
      (record { upload_session_id = session_id; part_number = part.part_number; etag = part.etag })
      table)

unfoldable pub all_allowed : List Part → ℕ → Bool
all_allowed [] declared_file_size = true
all_allowed (part ∷ parts) declared_file_size =
    if is_part_number_allowed (some part.part_number) declared_file_size
    then all_allowed parts declared_file_size
    else false

-- Once the parts are allowed: the answer is the number of parts stored.
abbrev pub acknowledge : UploadPartAckRequest → Server → Server × Reply ℕ
acknowledge r s =
    let latest : List Part = latest_by_part [] r.parts in
    (
      set_upload_parts (store_parts r.upload_session_id latest s.upload_parts) s,
      answered (length latest),
    )

unfoldable pub part_ack : Bool → UploadPartAckRequest → Server → Server × Reply ℕ
part_ack within_rate r s =
    if within_rate
    then elim (load_upload_session s r.upload_session_id) [
      | none ↦ (s, refused 404)
      | some row ↦
          if verify_upload_session_token row.upload_token r.upload_token
          then if all_allowed r.parts (elim row.file_size [ none ↦ 0 | some n ↦ n ])
            then acknowledge r s
            else (s, refused 400)
          else (s, refused 403)
    ]
    else (s, refused 429)
