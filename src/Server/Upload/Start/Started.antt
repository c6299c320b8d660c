-- ===== src/Server/Upload/Start/Started.antt =====
-- What a started upload has, and what a refused one leaves.
use anzdrop.Base.{
  ◌≤◌, ◌≡◌, refl, ap, ◌⊎◌, inl, inr, String, true, not, ◌&&◌, some, ◌∷◌, find-head, same, same_self,
  ltb, if◌then◌else◌, arith, by_test, by_option,
}
use anzdrop.Plan.Retention.{max_downloads_for_retention}
use anzdrop.Plan.Limits.{get_max_file_size_bytes, is_retention_allowed_for_plan}
use anzdrop.Server.State.{
  Share, Upload, Server, Reply, refused, answered, create_multipart, abort_multipart, call_r2,
  insert_upload,
}
use anzdrop.Server.ShareAuth.{find_share}
use anzdrop.Server.Upload.Session.{find_upload}
use anzdrop.Server.Upload.Start.{
  StartContext, UploadStartRequest, UploadStartResponse, Target, choose_share, open_session,
  then_open, start_upload,
}
use anzdrop.Server.Upload.Start.Chosen.{IsOpen, Origin, Chosen, Choice, choose_share-Choice}

-- An upload that was started: what the plan allowed, and the session that the answer names.
pub record Started (c : StartContext) (r : UploadStartRequest) (s after : Server)
    (a : UploadStartResponse) : Type 0 where
  upload : Upload
  share : Share
  small : r.file_size ≤ get_max_file_size_bytes c.plan
  allowed : is_retention_allowed_for_plan r.retention c.plan ≡ true
  session : find_upload a.upload_session_id after ≡ some (upload, share)
  declared : upload.file_size ≡ some r.file_size
  of_share : upload.share_id ≡ a.share_id
  named : find_share a.share_id after.shares ≡ some share
  is_open : IsOpen c.now share a.upload_token a.expires_at
  origin : Origin c r s after share
  uploads : after.uploads ≡ upload ∷ s.uploads
  begun : after.r2_calls ≡ create_multipart upload.storage_key ∷ s.r2_calls

-- A refusal registers no session, and makes no share either unless it is a 500.
pub Outcome :
    StartContext → UploadStartRequest → Server → Server × Reply UploadStartResponse → Type 0
Outcome c r s (after, refused status) = (after.uploads ≡ s.uploads) × ((after ≡ s) ⊎ (status ≡ 500))
Outcome c r s (after, answered a) = Started c r s after a

module _ (c : StartContext) (r : UploadStartRequest) (s : Server)
    (small : r.file_size ≤ get_max_file_size_bytes c.plan)
    (allowed : is_retention_allowed_for_plan r.retention c.plan ≡ true) where
  open_outcome :
      (t : Target) (chosen : Server)
      → Chosen c r s chosen t
      → Outcome c r s (open_session c r t chosen)
  unfolding open_session Outcome Origin
  open_outcome t chosen h =
      by_option (Outcome c r s) c.multipart (created, refused 500)
        (λ upload_id.
          if c.stored
          then (insert_upload (new_upload upload_id) created, answered response)
          else (call_r2 (abort_multipart c.storage_key upload_id) created, refused 500))
        (λ _. (h.uploads, inr refl))
        (λ upload_id _.
          by_test (Outcome c r s) c.stored
            (insert_upload (new_upload upload_id) created, answered response)
            (call_r2 (abort_multipart c.storage_key upload_id) created, refused 500)
            (λ _. record {
              upload = new_upload upload_id;
              share = h.share;
              small = small;
              allowed = allowed;
              session =
                  rw
                    (
                      find-head (λ u. same u.id c.upload_session_id) (new_upload upload_id)
                          chosen.uploads (same_self c.upload_session_id),
                      h.found,
                      find_upload,
                    )
                    refl;
              declared = refl;
              of_share = refl;
              named = h.found;
              is_open = h.is_open;
              origin = h.origin;
              uploads = ap (λ us. new_upload upload_id ∷ us) h.uploads;
              begun = ap (λ calls. create_multipart c.storage_key ∷ calls) h.calls;
            })
            (λ _. (h.uploads, inr refl)))
    where
      created : Server
      created = call_r2 (create_multipart c.storage_key) chosen

      new_upload : String → Upload
      new_upload upload_id = record {
        id = c.upload_session_id;
        share_id = t.share_id;
        storage_key = c.storage_key;
        upload_id = upload_id;
        encrypted_file_name = r.encrypted_file_name;
        file_size = some r.file_size;
        max_downloads = max_downloads_for_retention r.retention;
        created_at = c.now;
      }

      response : UploadStartResponse
      response = record {
        share_id = t.share_id;
        upload_token = t.upload_token;
        upload_session_id = c.upload_session_id;
        expires_at = t.expires_at;
      }

  then_outcome : (v : Server × Reply Target) → Choice c r s v → Outcome c r s (then_open c r v)
  unfolding Choice Outcome
  then_outcome (chosen, refused status) h = rw h (refl, inl refl)
  then_outcome (chosen, answered t) h = open_outcome t chosen h

-- An upload that is started is within the plan's size and retentions. The session of the answer is
-- the one new row, for the declared size, and of the share that the answer names. That share is open, with the token and the expiry of
-- the answer: a share that the caller owns, or a new one, made after Turnstile where the plan asks
-- for it and kept for the retention. A refusal leaves the state alone, and if it is a 500 it at
-- least registers no session.
pub start_upload_lem :
    (c : StartContext) (r : UploadStartRequest) (s : Server) → Outcome c r s (start_upload c r s)
unfolding start_upload Outcome
start_upload_lem c r s =
    by_test (Outcome c r s) (c.signed_in && not c.same_origin) (s, refused 403)
      (if ltb (get_max_file_size_bytes c.plan) r.file_size
        then (s, refused 400)
        else if is_retention_allowed_for_plan r.retention c.plan
        then then_open c r (choose_share c r s)
        else (s, refused 403))
      (λ _. (refl, inl refl))
      (λ _.
        by_test (Outcome c r s) (ltb (get_max_file_size_bytes c.plan) r.file_size) (s, refused 400)
          (if is_retention_allowed_for_plan r.retention c.plan
            then then_open c r (choose_share c r s)
            else (s, refused 403))
          (λ _. (refl, inl refl))
          (λ b.
            by_test (Outcome c r s) (is_retention_allowed_for_plan r.retention c.plan)
              (then_open c r (choose_share c r s)) (s, refused 403)
              (λ allowed.
                then_outcome c r s (ground (arith, b)) allowed (choose_share c r s)
                  (choose_share-Choice c r s allowed))
              (λ _. (refl, inl refl))))
