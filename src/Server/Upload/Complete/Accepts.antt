-- ===== src/Server/Upload/Complete/Accepts.antt =====
-- When an upload is completed.
use anzdrop.Base.{
  ℕ, ◌≤◌, ◌≡◌, refl, ap, String, true, false, not, ◌&&◌, none, some, List, ◌∷◌, ltb, truthy, arith,
}
use anzdrop.Auth.TimingSafeEqual.{token_matches, token_matches_iff}
use anzdrop.Crypto.Packet.{plaintext_size}
use anzdrop.Plan.Limits.{get_max_file_size_bytes}
use anzdrop.Server.State.{Share, Upload, UploadPart, Server, Reply, refused, answered}
use anzdrop.Server.ShareAuth.{check_share_accessible}
use anzdrop.Server.Upload.Session.{find_upload}
use anzdrop.Server.Upload.Complete.{
  Completion, completed, missing_upload, failed, existing_file, CompleteContext,
  UploadCompleteRequest, may_commit, insert_completed, commit_file, register, after_completion,
  join_parts, session_parts, joined, complete_upload,
}

-- A request that may complete its session, with what R2 answers, and what is there when it does.
pub record CompletesSession (c : CompleteContext) (r : UploadCompleteRequest) (s : Server)
    : Type 0 where
  pub upload : Upload
  pub share : Share
  pub part : UploadPart
  pub parts : List UploadPart
  pub later_upload : Upload
  pub later_share : Share
  pub object_size : ℕ
  pub size : ℕ
  pub origin : c.signed_in && not c.same_origin ≡ false
  pub session : find_upload r.upload_session_id s ≡ some (upload, share)
  pub token : share.upload_token ≡ some r.upload_token
  pub has_token : truthy r.upload_token ≡ true
  pub readable : check_share_accessible c.now share.expires_at share.suspended_at ≡ none
  pub uploaded : session_parts r.upload_session_id s ≡ part ∷ parts
  pub joins : c.completion ≡ completed object_size
  pub sized : plaintext_size object_size ≡ some size
  pub small : size ≤ get_max_file_size_bytes c.plan
  pub kept :
      find_upload r.upload_session_id (joined c r.upload_session_id upload s)
      ≡ some (later_upload, later_share)
  pub commits : may_commit c later_upload later_share (joined c r.upload_session_id upload s) ≡ true

inserted_id :
    (c : CompleteContext) (session_id : String) (size : ℕ) (s : Server) (row : Upload × Share)
    → find_upload session_id s ≡ some row
    → may_commit c row.0 row.1 s ≡ true
    → (insert_completed c session_id size s).1 ≡ some c.file_id
unfolding insert_completed
inserted_id c session_id size s row found commits = rw (found, insert_completed) (rw commits refl)

commits_file :
    (c : CompleteContext) (r : UploadCompleteRequest) (s : Server) (h : CompletesSession c r s)
    → (commit_file c r.upload_session_id h.upload h.size
        (joined c r.upload_session_id h.upload s)).1
      ≡ answered c.file_id
unfolding commit_file
commits_file c r s h =
    rw
      (
        inserted_id c r.upload_session_id h.size (joined c r.upload_session_id h.upload s)
            (h.later_upload, h.later_share) h.kept h.commits,
        commit_file,
      )
      refl

after_completed :
    (c : CompleteContext) (session_id : String) (upload : Upload) (n : ℕ) (s : Server)
    → c.completion ≡ completed n
    → after_completion c session_id upload s ≡ register c session_id upload n s
unfolding after_completion
after_completed c session_id upload n s e =
    ap
      (λ (x : Completion). elim x as (λ _. Server × Reply String) [
        | failed ↦ (s, refused 500)
        | missing_upload ↦ elim (existing_file upload s) [
          | none ↦ (s, refused 409)
          | some f ↦ (s, answered f.id)
        ]
        | completed size ↦ register c session_id upload size s
      ])
      e

-- If the session is there, its share's token given, the share readable, a part stored, R2's object
-- of a size within the plan, and the commit's conditions hold when R2 has answered, then the request
-- is answered with the new file's id.
pub complete_upload_accepts :
    (c : CompleteContext) (r : UploadCompleteRequest) (s : Server)
    → CompletesSession c r s
    → (complete_upload c r s).1 ≡ answered c.file_id
unfolding complete_upload
complete_upload_accepts c r s h =
    let matched : token_matches h.share.upload_token r.upload_token ≡ true =
      (token_matches_iff h.share.upload_token r.upload_token).1 (h.token, h.has_token) in
    let fits : ltb (get_max_file_size_bytes c.plan) h.size ≡ false = ground (arith, h.small) in
    let done =
      after_completed c r.upload_session_id h.upload h.object_size
        (joined c r.upload_session_id h.upload s) h.joins in
    rw (h.origin, h.session, matched, h.readable)
      (rw (h.uploaded, join_parts)
        (rw done (rw (h.sized, register) (rw fits (commits_file c r s h)))))
