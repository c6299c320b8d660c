-- ===== src/Server/Upload/Complete.antt =====
-- server/routes/upload/complete/route.ts. Other requests run while R2 joins the parts: what they do
-- to the tables is the argument `meanwhile`.
pub mod Registered
pub mod Accepts
pub mod Whole
pub mod Added
use anzdrop.Base.{
  ℕ, String, Bool, true, false, not, ◌&&◌, Option, none, some, List, [], ◌∷◌, keep, find, exists,
  ltb, leb, same, map, if◌then◌else◌,
}
use anzdrop.Auth.TimingSafeEqual.{token_matches}
use anzdrop.Crypto.Packet.{plaintext_size}
use anzdrop.Plan.Limits.{Plan, get_max_file_size_bytes}
use anzdrop.Server.State.{
  Share, Upload, UploadPart, File, Server, Reply, refused, answered, R2Call, complete_multipart,
  delete_object, call_r2, insert_file, delete_session,
}
use anzdrop.Server.ShareAuth.{check_share_accessible}
use anzdrop.Server.Upload.Session.{find_upload}

-- How R2 answers `complete`: the object's size, an error that says the upload is not there
-- (`isMissingMultipartUpload`), or another error.
pub data Completion : Type 0 where
  completed : (size : ℕ) → Completion
  missing_upload failed : Completion

pub record CompleteContext : Type 0 where
  pub now : ℕ
  pub signed_in : Bool
  pub same_origin : Bool
  pub plan : Plan
  pub completion : Completion
  pub meanwhile : Server → Server
  -- The id and the time that the route draws after R2's answer.
  pub file_id : String
  pub created_at : ℕ

pub record UploadCompleteRequest : Type 0 where
  pub upload_session_id : String
  pub upload_token : String

abbrev pub stored_under : (storage_key share_id : String) → File → Bool
stored_under storage_key share_id f = same f.storage_key storage_key && same f.share_id share_id

abbrev pub existing_file : Upload → Server → Option File
existing_file upload s = find (stored_under upload.storage_key upload.share_id) s.files

abbrev pub is_null : Option String → Bool
is_null none = true
is_null (some text) = false

-- The `WHERE` of the insertion.
abbrev pub may_commit : CompleteContext → Upload → Share → Server → Bool
may_commit c upload share s =
    ltb c.created_at share.expires_at
    && (is_null share.suspended_at
        && not (exists (λ f. same f.storage_key upload.storage_key) s.files))

-- The insertion, with the id that it returns if it inserts.
unfoldable pub insert_completed : CompleteContext → String → ℕ → Server → Server × Option String
insert_completed c session_id size s = elim (find_upload session_id s) [
  | none ↦ (s, none)
  | some row ↦
      if may_commit c row.0 row.1 s
      then (
        insert_file
            (record {
              id = c.file_id;
              share_id = row.0.share_id;
              storage_key = row.0.storage_key;
              encrypted_file_name = row.0.encrypted_file_name;
              size = size;
              max_downloads = row.0.max_downloads;
              download_count = 0;
              created_at = c.created_at;
            })
            s,
        some c.file_id,
      )
      else (s, none)
]

-- The two deletions of the batch, made if the object has a file of the share by then.
abbrev pub retire_session : String → Upload → Server → Server
retire_session session_id upload s =
    if exists (stored_under upload.storage_key upload.share_id) s.files
    then delete_session session_id s
    else s

abbrev pub committed_id : Upload → Server × Option String → Server × Reply String
committed_id upload (s, some id) = (s, answered id)
committed_id upload (s, none) = elim (existing_file upload s) [
  | none ↦ (s, refused 409)
  | some f ↦ (s, answered f.id)
]

unfoldable pub commit_file : CompleteContext → String → Upload → ℕ → Server → Server × Reply String
commit_file c session_id upload size s =
    let inserted : Server × Option String = insert_completed c session_id size s in
    committed_id upload (retire_session session_id upload inserted.0, inserted.1)

abbrev pub register :
    CompleteContext → String → Upload → (object_size : ℕ) → Server → Server × Reply String
register c session_id upload object_size s = elim (plaintext_size object_size) [
  | none ↦ (s, refused 500)
  | some size ↦
      if ltb (get_max_file_size_bytes c.plan) size
      then (delete_session session_id (call_r2 (delete_object upload.storage_key) s), refused 413)
      else commit_file c session_id upload size s
]

-- From R2's answer on.
unfoldable pub after_completion : CompleteContext → String → Upload → Server → Server × Reply String
after_completion c session_id upload s = elim c.completion [
  | failed ↦ (s, refused 500)
  | missing_upload ↦ elim (existing_file upload s) [
    | none ↦ (s, refused 409)
    | some f ↦ (s, answered f.id)
  ]
  | completed object_size ↦ register c session_id upload object_size s
]

-- `SELECT part_number, etag ... WHERE upload_session_id = ? ORDER BY part_number ASC`
unfoldable pub insert_part : UploadPart → List UploadPart → List UploadPart
insert_part p [] = p ∷ []
insert_part p (q ∷ parts) =
    let rest : List UploadPart = insert_part p parts in
    if leb p.part_number q.part_number then p ∷ q ∷ parts else q ∷ rest

unfoldable pub order_by_part_number : List UploadPart → List UploadPart
order_by_part_number [] = []
order_by_part_number (p ∷ parts) = insert_part p (order_by_part_number parts)

abbrev pub session_parts : String → Server → List UploadPart
session_parts session_id s =
    order_by_part_number (keep (λ p. same p.upload_session_id session_id) s.upload_parts)

abbrev pub numbered_etag : UploadPart → ℕ × String
numbered_etag p = (p.part_number, p.etag)

-- R2 is asked to join the parts, and other requests run.
abbrev pub joined : CompleteContext → String → Upload → Server → Server
joined c session_id upload s = c.meanwhile (
    call_r2
      (complete_multipart upload.storage_key upload.upload_id
        (map numbered_etag (session_parts session_id s)))
      s)

abbrev pub join_parts : CompleteContext → String → Upload → Server → Server × Reply String
join_parts c session_id upload s = elim (session_parts session_id s) [
  | [] ↦ (s, refused 400)
  | part ∷ parts ↦ after_completion c session_id upload (joined c session_id upload s)
]

unfoldable pub complete_upload :
    CompleteContext → UploadCompleteRequest → Server → Server × Reply String
complete_upload c r s =
    if c.signed_in && not c.same_origin
    then (s, refused 403)
    else elim (find_upload r.upload_session_id s) [
      | none ↦ (s, refused 404)
      | some row ↦
          if token_matches row.1.upload_token r.upload_token
          then elim (check_share_accessible c.now row.1.expires_at row.1.suspended_at) [
            | some status ↦ (s, refused status)
            | none ↦ join_parts c r.upload_session_id row.0 s
          ]
          else (s, refused 403)
    ]
