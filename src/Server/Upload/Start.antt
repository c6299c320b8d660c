-- ===== src/Server/Upload/Start.antt =====
-- server/routes/upload/start/route.ts. The request has passed its schema. The ids that the route
-- draws, the session and the outcome of Turnstile, of the database and of R2 are arguments; the
-- transfer id for the statistics is left out of the answer.
pub mod Started
pub mod Chosen
use anzdrop.Base.{
  ℕ, String, Bool, true, false, not, ◌&&◌, Option, none, some, ltb, truthy, if◌then◌else◌,
}
use anzdrop.Plan.Retention.{calculate_expires_at, max_downloads_for_retention}
use anzdrop.Plan.Limits.{
  Plan, get_max_file_size_bytes, is_retention_allowed_for_plan, is_turnstile_required_for_plan,
  is_preview_allowed_for_plan,
}
use anzdrop.Server.State.{
  Share, Upload, Server, Reply, refused, answered, R2Call, create_multipart, abort_multipart,
  call_r2, insert_share, insert_upload,
}
use anzdrop.Server.ShareAuth.{verify_share_ownership}

pub record UploadStartRequest : Type 0 where
  pub encrypted_file_name : String
  pub file_size : ℕ
  pub retention : String
  pub share_id : Option String
  pub upload_token : Option String
  pub wrapped_key : Option String
  pub key_salt : Option String

-- Who asks, when, and what the route draws and is told.
pub record StartContext : Type 0 where
  pub now : ℕ
  pub signed_in : Bool
  pub same_origin : Bool
  -- The plan of `getAccountPlanInfo`.
  pub plan : Plan
  pub turnstile_ok : Bool
  pub new_share_id : String
  pub new_upload_token : String
  pub upload_session_id : String
  pub storage_key : String
  -- Whether D1 stores a new share.
  pub share_stored : Bool
  -- The upload id that R2 gives, or `none` if it throws.
  pub multipart : Option String
  -- Whether D1 stores the session.
  pub stored : Bool

pub record UploadStartResponse : Type 0 where
  pub share_id : String
  pub upload_token : String
  pub upload_session_id : String
  pub expires_at : ℕ

-- The share that the file goes to.
pub record Target : Type 0 where
  pub share_id : String
  pub upload_token : String
  pub expires_at : ℕ

-- A share of the caller's own, or a new one; `if (shareId)`.
abbrev pub join_share : StartContext → UploadStartRequest → String → Server → Server × Reply Target
join_share c r share_id s = elim (verify_share_ownership c.now s.shares share_id r.upload_token) [
  | refused status ↦ (s, refused status)
  | answered ownership ↦ (
    s,
    answered (record {
      share_id = share_id;
      upload_token = elim r.upload_token [ none ↦ "" | some token ↦ token ];
      expires_at = ownership.expires_at;
    }),
  )
]

abbrev pub create_share : StartContext → UploadStartRequest → Server → Server × Reply Target
create_share c r s =
    if is_turnstile_required_for_plan c.plan && not c.turnstile_ok
    then (s, refused 403)
    else elim (calculate_expires_at c.now r.retention) [
      | none ↦ (s, refused 500)
      | some expires_at ↦
          if c.share_stored
          then (
            insert_share
                (record {
                  id = c.new_share_id;
                  created_at = c.now;
                  expires_at = expires_at;
                  upload_token = some c.new_upload_token;
                  wrapped_key = r.wrapped_key;
                  key_salt = r.key_salt;
                  suspended_at = none;
                  preview_allowed = if is_preview_allowed_for_plan c.plan then 1 else 0;
                })
                s,
            answered (record {
              share_id = c.new_share_id;
              upload_token = c.new_upload_token;
              expires_at = expires_at;
            }),
          )
          else (s, refused 500)
    ]

unfoldable pub choose_share : StartContext → UploadStartRequest → Server → Server × Reply Target
choose_share c r s = elim r.share_id [
  | none ↦ create_share c r s
  | some share_id ↦ if truthy share_id then join_share c r share_id s else create_share c r s
]

-- R2's upload, then its row; R2's upload is given back if the row cannot be stored.
unfoldable pub open_session :
    StartContext → UploadStartRequest → Target → Server → Server × Reply UploadStartResponse
open_session c r target s =
    let created = call_r2 (create_multipart c.storage_key) s in
    elim c.multipart [
      | none ↦ (created, refused 500)
      | some upload_id ↦
          if c.stored
          then (
            insert_upload
                (record {
                  id = c.upload_session_id;
                  share_id = target.share_id;
                  storage_key = c.storage_key;
                  upload_id = upload_id;
                  encrypted_file_name = r.encrypted_file_name;
                  file_size = some r.file_size;
                  max_downloads = max_downloads_for_retention r.retention;
                  created_at = c.now;
                })
                created,
            answered (record {
              share_id = target.share_id;
              upload_token = target.upload_token;
              upload_session_id = c.upload_session_id;
              expires_at = target.expires_at;
            }),
          )
          else (call_r2 (abort_multipart c.storage_key upload_id) created, refused 500)
    ]

abbrev pub then_open :
    StartContext → UploadStartRequest → Server × Reply Target → Server × Reply UploadStartResponse
then_open c r (s, refused status) = (s, refused status)
then_open c r (s, answered target) = open_session c r target s

unfoldable pub start_upload :
    StartContext → UploadStartRequest → Server → Server × Reply UploadStartResponse
start_upload c r s =
    if c.signed_in && not c.same_origin
    then (s, refused 403)
    else if ltb (get_max_file_size_bytes c.plan) r.file_size
    then (s, refused 400)
    else if is_retention_allowed_for_plan r.retention c.plan
    then then_open c r (choose_share c r s)
    else (s, refused 403)
