-- ===== src/Server/Upload/Session.antt =====
-- lib/upload/uploadSessionAuth.ts: the session that a part is sent to, and the part numbers it takes.
pub mod PartNumbers
use anzdrop.Base.{
  ℕ, ◌+◌, ◌-◌, ◌*◌, ◌/◌, String, Bool, true, false, Option, none, some, List, find, same, leb, max,
  if◌then◌else◌, ◌≤◌, ◌<◌, ◌≡◌, arith,
}
use anzdrop.Auth.TimingSafeEqual.{token_matches}
use anzdrop.Crypto.Types.{chunk_size}
use anzdrop.Server.State.{Share, Upload, Server}
use anzdrop.Server.ShareAuth.{find_share}

abbrev pub r2_multipart_min_part_size_bytes : ℕ
r2_multipart_min_part_size_bytes = 5 * 1024 * 1024

-- lib/upload/partSize.ts
abbrev pub upload_part_size : ℕ
upload_part_size = chunk_size

pub record UploadSessionRow : Type 0 where
  pub storage_key : String
  pub upload_id : String
  pub file_size : Option ℕ
  pub upload_token : Option String

-- `uploads JOIN shares ... WHERE uploads.id = ?`; ids are primary keys, so there is one row at most.
abbrev pub find_upload : String → Server → Option (Upload × Share)
find_upload session_id s = elim (find (λ u. same u.id session_id) s.uploads) [
  | none ↦ none
  | some upload ↦ elim (find_share upload.share_id s.shares) [
    | none ↦ none
    | some share ↦ some (upload, share)
  ]
]

unfoldable pub load_upload_session : Server → String → Option UploadSessionRow
load_upload_session s session_id = elim (find_upload session_id s) [
  | none ↦ none
  | some row ↦ some (record {
    storage_key = row.0.storage_key;
    upload_id = row.0.upload_id;
    file_size = row.0.file_size;
    upload_token = row.1.upload_token;
  })
]

unfoldable pub verify_upload_session_token : Option String → String → Bool
verify_upload_session_token session_token provided_token =
    token_matches session_token provided_token

-- `Math.ceil(n / d)` of natural numbers.
abbrev pub ceil_div : ℕ → ℕ → ℕ
ceil_div n d = (n + (d - 1)) / d

unfoldable pub max_part_number_for_declared_file_size : ℕ → ℕ
max_part_number_for_declared_file_size declared_file_size =
    max 1 (ceil_div declared_file_size r2_multipart_min_part_size_bytes)

-- `none` is a number that is not an integer, or is negative.
unfoldable pub is_part_number_allowed : Option ℕ → ℕ → Bool
is_part_number_allowed none declared_file_size = false
is_part_number_allowed (some part_number) declared_file_size =
    if leb 1 part_number
    then leb part_number (max_part_number_for_declared_file_size declared_file_size)
    else false
