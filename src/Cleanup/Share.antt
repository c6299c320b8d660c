-- ===== src/Cleanup/Share.antt =====
-- lib/cleanup.ts: how a share and an upload session are removed with what R2 holds of them.
pub mod Objects
pub mod Deleted
pub mod Tracked
pub mod Outcome
pub mod References
pub mod Removed
use anzdrop.Base.{
  ℕ, zero, suc, String, Bool, true, false, not, ◌&&◌, Option, none, some, List, [], ◌∷◌, map, keep,
  exists, find, length, take, drop, same, if◌then◌else◌,
}
use anzdrop.Server.State.{Share, Upload, UploadPart, File, Server, delete_session}
use anzdrop.Cleanup.World.{
  Storage, World, AbortAnswer, aborted, missing_upload, abort_failed, HeadAnswer, head_failed,
  object_found, mem, Result, done, thrown, CleanupError, storage_failure, deletion_deferred,
  needs_reconciliation, Job, pure, throw, ◌>>=◌, ◌>>◌, spend, query, batch, set_bucket, count_call,
}

abbrev pub r2_delete_batch_size : ℕ
r2_delete_batch_size = 1000

abbrev pub share_file_batch_size : ℕ
share_file_batch_size = 1000

abbrev pub share_upload_batch_size : ℕ
share_upload_batch_size = 20

-- `[...new Set(keys)]`
unfoldable pub distinct : List String → List String
distinct [] = []
distinct (key ∷ keys) = key ∷ keep (λ k. not (same k key)) (distinct keys)

abbrev pub of_share : String → File → Bool
of_share share_id f = same f.share_id share_id

abbrev pub upload_of_share : String → Upload → Bool
upload_of_share share_id u = same u.share_id share_id

-- `DELETE FROM files WHERE share_id = ? AND id IN (...)`
abbrev pub inspected_file : String → List String → File → Bool
inspected_file share_id file_ids f = same f.share_id share_id && mem f.id file_ids

abbrev pub inspected_upload : String → List String → Upload → Bool
inspected_upload share_id upload_ids u = same u.share_id share_id && mem u.id upload_ids

-- The four deletions of `deleteShare`, made in one transaction.
unfoldable pub delete_inspected : String → List String → List String → Server → Server
delete_inspected share_id file_ids upload_ids s =
    let files : List File = keep (λ f. not (inspected_file share_id file_ids f)) s.files in
    let uploads : List Upload =
      keep (λ u. not (inspected_upload share_id upload_ids u)) s.uploads in
    let in_use : Bool =
      if exists (of_share share_id) files
      then true
      else exists (upload_of_share share_id) uploads in
    record {
      shares = keep (λ share. not (same share.id share_id && not in_use)) s.shares;
      uploads = uploads;
      upload_parts = keep (λ p. not (mem p.upload_session_id upload_ids)) s.upload_parts;
      files = files;
      r2_calls = s.r2_calls;
    }

module _ {st : Storage} where
  abbrev pub aborted_with : AbortAnswer × st.Bucket → World st → Result (Unit {0}) × World st
  aborted_with (abort_failed, b) w = (thrown storage_failure, set_bucket b w)
  aborted_with (aborted, b) w = (done tt, set_bucket b w)
  aborted_with (missing_upload, b) w = (done tt, set_bucket b w)

  -- The call of `abort`, with the errors that `isMissingMultipartUpload` lets pass.
  unfoldable pub abort_call : String → String → Job st (Unit {0})
  abort_call storage_key upload_id w =
      aborted_with (st.abort storage_key upload_id w.bucket) (count_call w)

  abbrev pub head_with : HeadAnswer × st.Bucket → World st → Result Bool × World st
  head_with (head_failed, b) w = (thrown storage_failure, set_bucket b w)
  head_with (object_found found, b) w = (done found, set_bucket b w)

  unfoldable pub head_call : String → Job st Bool
  head_call storage_key w = head_with (st.head storage_key w.bucket) (count_call w)

  abbrev pub delete_with : Bool × st.Bucket → World st → Result (Unit {0}) × World st
  delete_with (true, b) w = (done tt, set_bucket b w)
  delete_with (false, b) w = (thrown storage_failure, set_bucket b w)

  unfoldable pub delete_call : List String → Job st (Unit {0})
  delete_call keys w = delete_with (st.delete keys w.bucket) (count_call w)

  abbrev pub require_file : Option File → Job st (Unit {0})
  require_file none = throw needs_reconciliation
  require_file (some f) = pure tt

  -- An object that is left must have its file.
  abbrev pub require_tracked : String → Bool → Job st (Unit {0})
  require_tracked storage_key false = pure tt
  require_tracked storage_key true = do
    file ← query (λ s. find (λ f. same f.storage_key storage_key) s.files)
    require_file file

  unfoldable pub abort_multipart_upload : String → String → Job st (Unit {0})
  abort_multipart_upload storage_key upload_id = do
    spend
    abort_call storage_key upload_id
    spend
    object ← head_call storage_key
    require_tracked storage_key object

  unfoldable pub abort_uploads : List Upload → Job st (Unit {0})
  abort_uploads [] = pure tt
  abort_uploads (u ∷ us) = do abort_multipart_upload u.storage_key u.upload_id; abort_uploads us

  -- The loop over the slices of the keys, with the rounds that are left.
  unfoldable pub delete_objects : ℕ → List String → Job st (Unit {0})
  delete_objects rounds [] = pure tt
  delete_objects zero (key ∷ keys) = pure tt
  delete_objects (suc rounds) (key ∷ keys) = do
    spend
    delete_call (take r2_delete_batch_size (key ∷ keys))
    delete_objects rounds (drop r2_delete_batch_size (key ∷ keys))

  abbrev pub refuse_reference : Option File → Job st (Unit {0})
  refuse_reference none = pure tt
  refuse_reference (some other) = throw needs_reconciliation

  -- No file outside the snapshot may name one of its objects.
  unfoldable pub check_references : List String → List String → Job st (Unit {0})
  check_references [] file_ids = pure tt
  check_references (key ∷ keys) file_ids = do
    other ←
        query (λ s. find (λ f. mem f.storage_key (key ∷ keys) && not (mem f.id file_ids)) s.files)
    refuse_reference other

  abbrev pub refuse_remaining : Option Share → Job st (Unit {0})
  refuse_remaining none = pure tt
  refuse_remaining (some share) = throw deletion_deferred

  abbrev pub delete_snapshot : String → List File → List Upload → Job st (Unit {0})
  delete_snapshot share_id files uploads =
      let file_ids : List String = map (λ f. f.id) files in
      let storage_keys : List String = distinct (map (λ f. f.storage_key) files) in
      let upload_ids : List String = map (λ u. u.id) uploads in
      do
        check_references storage_keys file_ids
        abort_uploads uploads
        delete_objects (length storage_keys) storage_keys
        batch 4 (delete_inspected share_id file_ids upload_ids)
        remaining ← query (λ s. find (λ share. same share.id share_id) s.shares)
        refuse_remaining remaining

  unfoldable pub delete_share : String → Job st (Unit {0})
  delete_share share_id = do
    files ← query (λ s. take share_file_batch_size (keep (of_share share_id) s.files))
    uploads ← query (λ s. take share_upload_batch_size (keep (upload_of_share share_id) s.uploads))
    delete_snapshot share_id files uploads

  unfoldable pub delete_stale_upload : Upload → Job st (Unit {0})
  delete_stale_upload u = do
    abort_multipart_upload u.storage_key u.upload_id
    batch 2 (delete_session u.id)
