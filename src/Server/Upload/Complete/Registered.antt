-- ===== src/Server/Upload/Complete/Registered.antt =====
-- Which file a completed upload registers.
use anzdrop.Base.{
  ℕ, ◌≡◌, refl, ◌⊎◌, inl, inr, String, not, ◌&&◌, none, some, List, [], ◌∷◌, if◌then◌else◌, by_test,
  by_option,
}
use anzdrop.Auth.TimingSafeEqual.{token_matches, token_matches_iff}
use anzdrop.Server.State.{Share, Upload, UploadPart, Server, Reply, refused}
use anzdrop.Server.ShareAuth.{check_share_accessible}
use anzdrop.Server.Upload.Session.{find_upload}
use anzdrop.Server.Upload.Complete.{
  CompleteContext, UploadCompleteRequest, after_completion, join_parts, session_parts, joined,
  complete_upload,
}
use anzdrop.Server.Upload.Complete.Added.{Registered, after_completion-Goal}

-- Who may complete: the session is there, the token is its share's, and the share may be read.
pub record Authorized (c : CompleteContext) (r : UploadCompleteRequest) (s : Server)
    (upload : Upload) : Type 0 where
  pub share : Share
  pub found : find_upload r.upload_session_id s ≡ some (upload, share)
  pub token : share.upload_token ≡ some r.upload_token
  pub readable : check_share_accessible c.now share.expires_at share.suspended_at ≡ none

-- The state is untouched, or the request was authorised and R2 asked.
unfoldable pub Outcome :
    CompleteContext → UploadCompleteRequest → Server → Server × Reply String → Type 0
Outcome c r s result =
    ((result.0 ≡ s) × ((status : ℕ) × (result.1 ≡ refused status)))
    ⊎ ((upload : Upload) × Authorized c r s upload
        × Registered c r.upload_session_id upload (joined c r.upload_session_id upload s) result)

untouched :
    (c : CompleteContext) (r : UploadCompleteRequest) (s : Server) (status : ℕ)
    → Outcome c r s (s, refused status)
unfolding Outcome
untouched c r s status = inl (refl, (status, refl))

join_outcome :
    (c : CompleteContext) (r : UploadCompleteRequest) (s : Server) (upload : Upload)
    → Authorized c r s upload
    → Outcome c r s (join_parts c r.upload_session_id upload s)
unfolding Outcome
join_outcome c r s upload ok = go (session_parts r.upload_session_id s)
  where
    go :
        (ps : List UploadPart)
        → Outcome c r s (elim ps [
          | [] ↦ (s, refused 400)
          | part ∷ parts ↦
              after_completion c r.upload_session_id upload (joined c r.upload_session_id upload s)
        ])
    go [] = inl (refl, (400, refl))
    go (p ∷ ps) = inr (
      upload,
      ok,
      after_completion-Goal c r.upload_session_id upload (joined c r.upload_session_id upload s),
    )

-- Completing leaves the whole state alone, with a refusal, unless the session exists, its share's
-- token was given and the share is neither expired nor suspended. Then, whatever other requests did
-- while R2 joined the parts: a refusal adds no file; an answer names a file of the storage key that
-- was there, with no file added, or one new file, not yet downloaded, the only one of its storage
-- key, of the size that follows from R2's object and is within the plan's limit, added while the
-- share was neither expired nor suspended.
pub complete_upload_lem :
    (c : CompleteContext) (r : UploadCompleteRequest) (s : Server)
    → Outcome c r s (complete_upload c r s)
unfolding complete_upload
complete_upload_lem c r s =
    by_test (Outcome c r s) (c.signed_in && not c.same_origin) (s, refused 403)
      (elim (find_upload r.upload_session_id s) [
        | none ↦ (s, refused 404)
        | some row ↦ from_row row
      ])
      (λ _. untouched c r s 403)
      (λ _.
        by_option (Outcome c r s) (find_upload r.upload_session_id s) (s, refused 404) from_row
          (λ _. untouched c r s 404)
          (λ row found.
            by_test (Outcome c r s) (token_matches row.1.upload_token r.upload_token) (access row)
              (s, refused 403)
              (λ matched.
                by_option (Outcome c r s)
                  (check_share_accessible c.now row.1.expires_at row.1.suspended_at)
                  (join_parts c r.upload_session_id row.0 s) (λ status. (s, refused status))
                  (λ readable. join_outcome c r s row.0 (record {
                    share = row.1;
                    found = found;
                    token = ((token_matches_iff row.1.upload_token r.upload_token).0 matched).0;
                    readable = readable;
                  }))
                  (λ status _. untouched c r s status))
              (λ _. untouched c r s 403)))
  where
    access : Upload × Share → Server × Reply String
    access row = elim (check_share_accessible c.now row.1.expires_at row.1.suspended_at) [
      | some status ↦ (s, refused status)
      | none ↦ join_parts c r.upload_session_id row.0 s
    ]

    from_row : Upload × Share → Server × Reply String
    from_row row =
        if token_matches row.1.upload_token r.upload_token then access row else (s, refused 403)
