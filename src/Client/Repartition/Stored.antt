-- ===== src/Client/Repartition/Stored.antt =====
-- The parts of an encrypted file, sent through the Worker: the client's cutting and the chunk route together.
use anzdrop.Base.{ℕ, ◌≡◌, String, true, some, [], ◌∷◌, length, truthy}
use anzdrop.Crypto.Bytes.{Bytes}
use anzdrop.Crypto.Cipher.{Cipher}
use anzdrop.Server.State.{Server, Reply, answered, upload_part}
use anzdrop.Server.Upload.Session.{UploadSessionRow, load_upload_session}
use anzdrop.Server.Upload.Chunk.{ChunkContext, ChunkRequest, put_part}
use anzdrop.Server.Upload.Chunk.Accepted.{declared}
use anzdrop.Client.Repartition.{Part}

-- The request of `uploadPartProxy`; `number_text` writes a number as the header does.
abbrev pub part_request :
    (number_text : ℕ → String) (session_id token : String) → Part → ChunkRequest
part_request number_text session_id token p = record {
  upload_session_id = some session_id;
  part_number_header = some (number_text p.part_number);
  part_number = some p.part_number;
  upload_token = some token;
  content_length = some (length p.body);
  pieces = p.body ∷ [];
}

-- An open session for a file of a size, whose token the client has.
pub record HasSession (s : Server) (session_id token : String) (size : ℕ) : Type 0 where
  pub row : UploadSessionRow
  pub found : load_upload_session s session_id ≡ some row
  pub of_token : row.upload_token ≡ some token
  pub of_size : declared row ≡ size
  pub named : truthy session_id ≡ true
  pub has_token : truthy token ≡ true

-- The rate limiter, R2 and D1 let the request pass.
pub record Passes (c : ChunkContext) (etag : String) : Type 0 where
  pub within_rate : c.within_rate ≡ true
  pub uploads : c.etag ≡ some etag
  pub stores : c.stores ≡ true

-- The part is answered with its number and stored: its row is there, and R2 was given its bytes.
pub record IsStored (s : Server) (session_id : String) (p : Part) (result : Server × Reply ℕ)
    : Type 0 where
  pub etag : String
  pub row : UploadSessionRow
  pub replied : result.1 ≡ answered p.part_number
  pub found : load_upload_session s session_id ≡ some row
  pub stored :
      result.0.upload_parts
      ≡ put_part
          (record { upload_session_id = session_id; part_number = p.part_number; etag = etag })
          s.upload_parts
  pub given :
      result.0.r2_calls
      ≡ upload_part row.storage_key row.upload_id p.part_number p.body ∷ s.r2_calls
