-- ===== src/Cleanup/Budget/Jobs.antt =====
-- The jobs on shares and upload sessions stay within every ceiling in force.
use anzdrop.Base.{
  ℕ, zero, suc, String, Bool, true, false, Option, none, some, List, [], ◌∷◌, take, drop,
}
use anzdrop.Server.State.{File, Upload, Share}
use anzdrop.Cleanup.World.{
  Storage, World, AbortAnswer, aborted, missing_upload, abort_failed, HeadAnswer, head_failed,
  object_found, count_call,
}
use anzdrop.Cleanup.Triple.{Ends, Keeps, Triple, Triple-bind}
use anzdrop.Cleanup.Share.{
  abort_call, aborted_with, head_call, head_with, delete_call, delete_with, require_file,
  require_tracked, abort_multipart_upload, abort_uploads, delete_objects, refuse_reference,
  check_references, refuse_remaining, delete_share, delete_stale_upload, r2_delete_batch_size,
}
use anzdrop.Cleanup.Budget.Room.{
  Room, Paid, spend-Paid, pure-Room, throw-Room, bind-Room, query-Room, batch-Room,
}

module _ {st : Storage} (limit depth : ℕ) where
  abort_call-Room :
      (k u : String)
      → Triple {st = st}
          (Paid limit depth)
          (abort_call k u)
          (λ _. Room limit depth)
          (λ _. Room limit depth)
  unfolding abort_call
  abort_call-Room k u = record { at = λ w h. ends (st.abort k u w.bucket) (count_call w) h }
    where
      ends :
          (r : AbortAnswer × st.Bucket) (w : World st)
          → Room limit depth w
          → Ends (λ _. Room limit depth) (λ _. Room limit depth) (aborted_with r w)
      ends (abort_failed, b) w h = h
      ends (aborted, b) w h = h
      ends (missing_upload, b) w h = h

  head_call-Room :
      (k : String)
      → Triple {st = st}
          (Paid limit depth)
          (head_call k)
          (λ _. Room limit depth)
          (λ _. Room limit depth)
  unfolding head_call
  head_call-Room k = record { at = λ w h. ends (st.head k w.bucket) (count_call w) h }
    where
      ends :
          (r : HeadAnswer × st.Bucket) (w : World st)
          → Room limit depth w
          → Ends (λ _. Room limit depth) (λ _. Room limit depth) (head_with r w)
      ends (head_failed, b) w h = h
      ends (object_found x, b) w h = h

  delete_call-Room :
      (ks : List String)
      → Triple {st = st}
          (Paid limit depth)
          (delete_call ks)
          (λ _. Room limit depth)
          (λ _. Room limit depth)
  unfolding delete_call
  delete_call-Room ks = record { at = λ w h. ends (st.delete ks w.bucket) (count_call w) h }
    where
      ends :
          (r : Bool × st.Bucket) (w : World st)
          → Room limit depth w
          → Ends (λ _. Room limit depth) (λ _. Room limit depth) (delete_with r w)
      ends (true, b) w h = h
      ends (false, b) w h = h

  require_file-Room : (row : Option File) → Keeps {st = st} (Room limit depth) (require_file row)
  require_file-Room none = throw-Room limit depth _
  require_file-Room (some f) = pure-Room limit depth tt

  require_tracked-Room :
      (k : String) (x : Bool) → Keeps {st = st} (Room limit depth) (require_tracked k x)
  require_tracked-Room k false = pure-Room limit depth tt
  require_tracked-Room k true =
      bind-Room limit depth _ _ (query-Room limit depth _) require_file-Room

  abort_multipart_upload-Room :
      (k u : String) → Keeps {st = st} (Room limit depth) (abort_multipart_upload k u)
  unfolding abort_multipart_upload
  abort_multipart_upload-Room k u =
      Triple-bind (Room limit depth) (λ _. Paid limit depth) (λ _. Room limit depth) _ _
        (spend-Paid limit depth)
        λ _.
          Triple-bind (Paid limit depth) (λ _. Room limit depth) (λ _. Room limit depth) _ _
            (abort_call-Room k u)
            λ _.
              Triple-bind (Room limit depth) (λ _. Paid limit depth) (λ _. Room limit depth) _ _
                (spend-Paid limit depth)
                λ _.
                  Triple-bind (Paid limit depth) (λ _. Room limit depth) (λ _. Room limit depth) _ _
                    (head_call-Room k) (require_tracked-Room k)

  abort_uploads-Room : (us : List Upload) → Keeps {st = st} (Room limit depth) (abort_uploads us)
  unfolding abort_uploads
  abort_uploads-Room [] = pure-Room limit depth tt
  abort_uploads-Room (u ∷ us) =
      bind-Room limit depth _ _ (abort_multipart_upload-Room u.storage_key u.upload_id)
        (λ _. abort_uploads-Room us)

  delete_objects-Room :
      (rounds : ℕ) (ks : List String)
      → Keeps {st = st} (Room limit depth) (delete_objects rounds ks)
  unfolding delete_objects
  delete_objects-Room zero [] = pure-Room limit depth tt
  delete_objects-Room (suc rounds) [] = pure-Room limit depth tt
  delete_objects-Room zero (k ∷ ks) = pure-Room limit depth tt
  delete_objects-Room (suc rounds) (k ∷ ks) =
      Triple-bind (Room limit depth) (λ _. Paid limit depth) (λ _. Room limit depth) _ _
        (spend-Paid limit depth)
        λ _.
          Triple-bind (Paid limit depth) (λ _. Room limit depth) (λ _. Room limit depth) _ _
            (delete_call-Room (take r2_delete_batch_size (k ∷ ks)))
            λ _. delete_objects-Room rounds (drop r2_delete_batch_size (k ∷ ks))

  refuse_reference-Room :
      (row : Option File) → Keeps {st = st} (Room limit depth) (refuse_reference row)
  refuse_reference-Room none = pure-Room limit depth tt
  refuse_reference-Room (some f) = throw-Room limit depth _

  check_references-Room :
      (ks ids : List String) → Keeps {st = st} (Room limit depth) (check_references ks ids)
  unfolding check_references
  check_references-Room [] ids = pure-Room limit depth tt
  check_references-Room (k ∷ ks) ids =
      bind-Room limit depth _ _ (query-Room limit depth _) refuse_reference-Room

  refuse_remaining-Room :
      (row : Option Share) → Keeps {st = st} (Room limit depth) (refuse_remaining row)
  refuse_remaining-Room none = pure-Room limit depth tt
  refuse_remaining-Room (some f) = throw-Room limit depth _

  pub delete_share-Room :
      (share_id : String) → Keeps {st = st} (Room limit depth) (delete_share share_id)
  unfolding delete_share
  delete_share-Room share_id = bind-Room limit depth _ _ (query-Room limit depth _) λ files.
      bind-Room limit depth _ _ (query-Room limit depth _) λ uploads.
        bind-Room limit depth _ _ (check_references-Room _ _) λ _.
          bind-Room limit depth _ _ (abort_uploads-Room uploads) λ _.
            bind-Room limit depth _ _ (delete_objects-Room _ _) λ _.
              bind-Room limit depth _ _ (batch-Room limit depth 4 _)
                λ _. bind-Room limit depth _ _ (query-Room limit depth _) refuse_remaining-Room

  pub delete_stale_upload-Room :
      (u : Upload) → Keeps {st = st} (Room limit depth) (delete_stale_upload u)
  unfolding delete_stale_upload
  delete_stale_upload-Room u =
      bind-Room limit depth _ _ (abort_multipart_upload-Room u.storage_key u.upload_id)
        (λ _. batch-Room limit depth 2 _)
