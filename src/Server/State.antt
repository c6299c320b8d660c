-- ===== src/Server/State.antt =====
-- What the routes read and write: the rows of the D1 tables, in the order of a query's result, and
-- the calls made of R2 so far. R2 itself and the clock are not here: what they answer is an argument
-- of the route. A time is a number of milliseconds.
use anzdrop.Base.{ℕ, String, not, Option, List, ◌∷◌, keep, same}
use anzdrop.Crypto.Bytes.{Bytes}

pub record Share : Type 0 where
  pub id : String
  pub created_at : ℕ
  pub expires_at : ℕ
  pub upload_token : Option String
  pub wrapped_key : Option String
  pub key_salt : Option String
  pub suspended_at : Option String
  pub preview_allowed : ℕ

pub record Upload : Type 0 where
  pub id : String
  pub share_id : String
  pub storage_key : String
  pub upload_id : String
  pub encrypted_file_name : String
  pub file_size : Option ℕ
  pub max_downloads : Option ℕ
  pub created_at : ℕ

pub record UploadPart : Type 0 where
  pub upload_session_id : String
  pub part_number : ℕ
  pub etag : String

pub record File : Type 0 where
  pub id : String
  pub share_id : String
  pub storage_key : String
  pub encrypted_file_name : String
  pub size : ℕ
  pub max_downloads : Option ℕ
  pub download_count : ℕ
  pub created_at : ℕ

pub data R2Call : Type 0 where
  create_multipart : (storage_key : String) → R2Call
  abort_multipart : (storage_key upload_id : String) → R2Call
  upload_part : (storage_key upload_id : String) (part_number : ℕ) (body : Bytes) → R2Call
  -- With the number and the ETag of each part.
  complete_multipart : (storage_key upload_id : String) (parts : List (ℕ × String)) → R2Call
  delete_object : (storage_key : String) → R2Call
  get_object : (storage_key : String) → R2Call

pub record Server : Type 0 where
  pub shares : List Share
  pub uploads : List Upload
  pub upload_parts : List UploadPart
  pub files : List File
  pub r2_calls : List R2Call

-- What a route answers: a refusal with its status, which is 500 if it throws (`withApiHandler`).
pub data Reply {ℓ} (A : Type ℓ) : Type ℓ where
  refused : (status : ℕ) → Reply A
  answered : A → Reply A

abbrev pub call_r2 : R2Call → Server → Server
call_r2 call s = record {
  shares = s.shares;
  uploads = s.uploads;
  upload_parts = s.upload_parts;
  files = s.files;
  r2_calls = call ∷ s.r2_calls;
}

abbrev pub insert_share : Share → Server → Server
insert_share row s = record {
  shares = row ∷ s.shares;
  uploads = s.uploads;
  upload_parts = s.upload_parts;
  files = s.files;
  r2_calls = s.r2_calls;
}

abbrev pub insert_upload : Upload → Server → Server
insert_upload row s = record {
  shares = s.shares;
  uploads = row ∷ s.uploads;
  upload_parts = s.upload_parts;
  files = s.files;
  r2_calls = s.r2_calls;
}

abbrev pub insert_file : File → Server → Server
insert_file row s = record {
  shares = s.shares;
  uploads = s.uploads;
  upload_parts = s.upload_parts;
  files = row ∷ s.files;
  r2_calls = s.r2_calls;
}

abbrev pub set_files : List File → Server → Server
set_files files s = record {
  shares = s.shares;
  uploads = s.uploads;
  upload_parts = s.upload_parts;
  files = files;
  r2_calls = s.r2_calls;
}

abbrev pub set_upload_parts : List UploadPart → Server → Server
set_upload_parts parts s = record {
  shares = s.shares;
  uploads = s.uploads;
  upload_parts = parts;
  files = s.files;
  r2_calls = s.r2_calls;
}

-- `DELETE FROM upload_parts WHERE upload_session_id = ?` and `DELETE FROM uploads WHERE id = ?`.
abbrev pub delete_session : String → Server → Server
delete_session session_id s = record {
  shares = s.shares;
  uploads = keep (λ u. not (same u.id session_id)) s.uploads;
  upload_parts = keep (λ p. not (same p.upload_session_id session_id)) s.upload_parts;
  files = s.files;
  r2_calls = s.r2_calls;
}
