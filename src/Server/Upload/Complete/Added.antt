-- ===== src/Server/Upload/Complete/Added.antt =====
-- What the route does once R2 has answered.
use anzdrop.Base.{
  ℕ, ◌≤◌, ◌<◌, ◌≡◌, refl, sym, ap, ◌∙◌, ◌⊎◌, inl, inr, String, true, false, Option, none, some, ◌∷◌,
  find, exists, same, ltb, if◌then◌else◌, arith, by_test, by_option,
}
use anzdrop.Crypto.Packet.{plaintext_size}
use anzdrop.Plan.Limits.{get_max_file_size_bytes}
use anzdrop.Server.State.{
  Share, Upload, File, Server, Reply, refused, answered, delete_object, call_r2, delete_session,
  insert_file,
}
use anzdrop.Server.Upload.Session.{find_upload}
use anzdrop.Server.Upload.Complete.{
  Completion, completed, missing_upload, failed, CompleteContext, stored_under, existing_file,
  is_null, may_commit, insert_completed, retire_session, committed_id, commit_file, register,
  after_completion,
}

-- The file that the commit adds to the table: its size is the one that R2's object has, and the
-- session's share is still open when it is added.
pub record Added (c : CompleteContext) (session_id : String) (base after : Server) (id : String)
    : Type 0 where
  pub file : File
  pub upload : Upload
  pub share : Share
  pub added : after.files ≡ file ∷ base.files
  pub named : file.id ≡ id
  pub object_size : ℕ
  pub measured : c.completion ≡ completed object_size
  pub sized : plaintext_size object_size ≡ some file.size
  pub within_plan : file.size ≤ get_max_file_size_bytes c.plan
  pub fresh : file.download_count ≡ 0
  pub session : find_upload session_id base ≡ some (upload, share)
  pub stored : (file.storage_key ≡ upload.storage_key) × (file.share_id ≡ upload.share_id)
  pub not_expired : c.created_at < share.expires_at
  pub not_suspended : share.suspended_at ≡ none
  pub only : exists (λ f. same f.storage_key upload.storage_key) base.files ≡ false

-- An answer for a file that was there before.
pub record Known (upload : Upload) (base after : Server) (id : String) : Type 0 where
  pub file : File
  pub found : existing_file upload base ≡ some file
  pub named : file.id ≡ id
  pub unchanged : after.files ≡ base.files

-- What holds after R2's answer, from the state that it finds.
unfoldable pub Registered :
    CompleteContext → String → Upload → Server → Server × Reply String → Type 0
Registered c session_id upload base (after, refused status) = after.files ≡ base.files
Registered c session_id upload base (after, answered id) =
    Added c session_id base after id ⊎ Known upload base after id

retire_session-files :
    (session_id : String) (upload : Upload) (s : Server)
    → (retire_session session_id upload s).files ≡ s.files
retire_session-files session_id upload s =
    by_test (λ t. t.files ≡ s.files)
      (exists (stored_under upload.storage_key upload.share_id) s.files)
      (delete_session session_id s) s (λ _. refl) (λ _. refl)

module _ (c : CompleteContext) (session_id : String) (upload : Upload) (base : Server) where
  abbrev Goal : Server × Reply String → Type 0
  Goal = Registered c session_id upload base

  known :
      (t : Server)
      → t.files ≡ base.files
      → (status : ℕ)
      → Goal (elim (existing_file upload t) [
        | none ↦ (t, refused status)
        | some f ↦ (t, answered f.id)
      ])
  unfolding Registered
  known t e status =
      by_option Goal (existing_file upload t) (t, refused status) (λ f. (t, answered f.id)) (λ _. e)
        (λ f found. inr (record {
          file = f;
          found = ap (find (stored_under upload.storage_key upload.share_id)) (sym e) ∙ found;
          named = refl;
          unchanged = e;
        }))

  module _ (object_size size : ℕ) (measured : c.completion ≡ completed object_size)
      (sized : plaintext_size object_size ≡ some size)
      (within_plan : size ≤ get_max_file_size_bytes c.plan) where
    commit_file-Goal : Goal (commit_file c session_id upload size base)
    unfolding commit_file insert_completed Registered
    commit_file-Goal =
        let finish : Server × Option String → Server × Reply String =
          λ ins. committed_id upload (retire_session session_id upload ins.0, ins.1) in
        let plain =
          known (retire_session session_id upload base)
            (retire_session-files session_id upload base) 409 in
        by_option (λ ins. Goal (finish ins)) (find_upload session_id base) (base, none)
          (λ row.
            if may_commit c row.0 row.1 base
            then (insert_file (new_file row) base, some c.file_id)
            else (base, none))
          (λ _. plain)
          (λ row found.
            by_test (λ ins. Goal (finish ins)) (may_commit c row.0 row.1 base)
              (insert_file (new_file row) base, some c.file_id) (base, none)
              (λ b.
                let null : is_null row.1.suspended_at ≡ true = ground (arith, b) in
                inl (record {
                  file = new_file row;
                  upload = row.0;
                  share = row.1;
                  added = retire_session-files session_id upload (insert_file (new_file row) base);
                  named = refl;
                  object_size = object_size;
                  measured = measured;
                  sized = sized;
                  within_plan = within_plan;
                  fresh = refl;
                  session = found;
                  stored = (refl, refl);
                  not_expired = ground (arith, b);
                  not_suspended = null_none row.1.suspended_at null;
                  only = ground (arith, b);
                }))
              (λ _. plain))
      where
        new_file : Upload × Share → File
        new_file row = record {
          id = c.file_id;
          share_id = row.0.share_id;
          storage_key = row.0.storage_key;
          encrypted_file_name = row.0.encrypted_file_name;
          size = size;
          max_downloads = row.0.max_downloads;
          download_count = 0;
          created_at = c.created_at;
        }

        null_none : (o : Option String) → is_null o ≡ true → o ≡ none
        null_none none h = refl
        null_none (some t) h = absurd cc

  register-Goal :
      (object_size : ℕ)
      → c.completion ≡ completed object_size
      → Goal (register c session_id upload object_size base)
  unfolding Registered
  register-Goal object_size measured =
      by_option Goal (plaintext_size object_size) (base, refused 500)
        (λ size.
          if ltb (get_max_file_size_bytes c.plan) size
          then (
            delete_session session_id (call_r2 (delete_object upload.storage_key) base),
            refused 413,
          )
          else commit_file c session_id upload size base)
        (λ _. refl)
        (λ size sized.
          by_test Goal (ltb (get_max_file_size_bytes c.plan) size)
            (
              delete_session session_id (call_r2 (delete_object upload.storage_key) base),
              refused 413,
            )
            (commit_file c session_id upload size base) (λ _. refl)
            (λ b. commit_file-Goal object_size size measured sized (ground (arith, b))))

  pub after_completion-Goal : Goal (after_completion c session_id upload base)
  unfolding after_completion Registered
  after_completion-Goal = go c.completion refl
    where
      go :
          (x : Completion)
          → c.completion ≡ x
          → Goal (elim x [
            | failed ↦ (base, refused 500)
            | missing_upload ↦ elim (existing_file upload base) [
              | none ↦ (base, refused 409)
              | some f ↦ (base, answered f.id)
            ]
            | completed object_size ↦ register c session_id upload object_size base
          ])
      go (completed n) e = register-Goal n e
      go missing_upload e = known base refl 409
      go failed e = refl
