-- ===== src/Server/Upload/Complete/Whole.antt =====
-- A file that was sent as a whole, and is completed in time.
use mathlib.Core.Path.{subst}
use anzdrop.Base.{
  ℕ, ◌≤◌, ◌<◌, ◌≡◌, ◌≢◌, refl, sym, Bool-cases, leb, ap, ◌∙◌, inl, inr, String, true, false, not,
  ◌&&◌, Option, none, some, List, [], ◌∷◌, find, exists, same, ltb, truthy, arith,
}
use anzdrop.Crypto.Packet.{plaintext_size, ciphertext_size}
use anzdrop.Crypto.Packet.Sizes.{plaintext_size-ciphertext_size}
use anzdrop.Plan.Limits.{get_max_file_size_bytes}
use anzdrop.Server.State.{Share, Upload, UploadPart, File, Server, Reply, refused, answered}
use anzdrop.Server.ShareAuth.{check_share_accessible}
use anzdrop.Server.Upload.Session.{find_upload}
use anzdrop.Server.Upload.Complete.{
  completed, CompleteContext, UploadCompleteRequest, is_null, may_commit, stored_under,
  session_parts, joined, complete_upload,
}
use anzdrop.Server.Upload.Complete.Added.{Registered}
use anzdrop.Server.Upload.Complete.Registered.{Outcome, complete_upload_lem}
use anzdrop.Server.Upload.Complete.Accepts.{complete_upload_accepts}

-- The client's request for a session all of whose bytes, of a file of `n`, R2 has joined, where no
-- other request has touched the session, its share or the storage key meanwhile.
pub record IsWhole (c : CompleteContext) (r : UploadCompleteRequest) (s : Server) (n : ℕ)
    : Type 0 where
  pub upload : Upload
  pub share : Share
  pub part : UploadPart
  pub parts : List UploadPart
  pub origin : c.signed_in && not c.same_origin ≡ false
  pub session : find_upload r.upload_session_id s ≡ some (upload, share)
  pub token : share.upload_token ≡ some r.upload_token
  pub has_token : truthy r.upload_token ≡ true
  pub before_expiry : c.now < share.expires_at
  pub still_before : c.created_at < share.expires_at
  pub not_suspended : share.suspended_at ≡ none
  pub sent : session_parts r.upload_session_id s ≡ part ∷ parts
  pub whole : c.completion ≡ completed (ciphertext_size n)
  pub some_bytes : 0 < n
  pub within_plan : n ≤ get_max_file_size_bytes c.plan
  pub untouched :
      find_upload r.upload_session_id (joined c r.upload_session_id upload s) ≡ some (upload, share)
  pub unused :
      exists
        (λ f. same f.storage_key upload.storage_key)
        (joined c r.upload_session_id upload s).files
      ≡ false

-- The file's row is there, new, of the file's size and under the session's key, and the answer names it.
pub record IsRegistered (c : CompleteContext) (upload : Upload) (base : Server) (n : ℕ)
    (result : Server × Reply String) : Type 0 where
  pub file : File
  pub replied : result.1 ≡ answered file.id
  pub added : result.0.files ≡ file ∷ base.files
  pub of_size : file.size ≡ n
  pub of_session : (file.storage_key ≡ upload.storage_key) × (file.share_id ≡ upload.share_id)
  pub not_downloaded : file.download_count ≡ 0

readable_now :
    (now expires_at : ℕ) (suspended_at : Option String)
    → now < expires_at
    → suspended_at ≡ none
    → check_share_accessible now expires_at suspended_at ≡ none
unfolding check_share_accessible
readable_now now expires_at suspended_at h e =
    let open_now : leb expires_at now ≡ false = ground (arith, h) in rw (e, open_now) refl

commits_then :
    (c : CompleteContext) (upload : Upload) (share : Share) (base : Server)
    → c.created_at < share.expires_at
    → share.suspended_at ≡ none
    → exists (λ f. same f.storage_key upload.storage_key) base.files ≡ false
    → may_commit c upload share base ≡ true
commits_then c upload share base h e unused =
    let open_share : is_null share.suspended_at ≡ true = rw e refl in
    let later : ltb c.created_at share.expires_at ≡ true = ground (arith, h) in
    rw (later, open_share, unused) refl

none_stored :
    (upload : Upload) (f : File) (files : List File)
    → exists (λ g. same g.storage_key upload.storage_key) files ≡ false
    → find (stored_under upload.storage_key upload.share_id) files ≢ some f
none_stored upload f [] unused found = absurd (cc (found))
none_stored upload f (g ∷ files) unused found =
    elim (Bool-cases (same g.storage_key upload.storage_key)) [
      | inl b ↦ absurd (ground (arith, unused, b))
      | inr b ↦ none_stored upload f files (ground (arith, unused, b)) (ground (arith, found, b))
    ]

-- A file that was sent whole, of a size within the plan, is registered: if its session and its token are
-- given, its share is open to the end, R2 has joined the ciphertext of `n` bytes, and no other request has
-- touched the session, the share or the storage key meanwhile, then the answer names a new row of
-- size `n`, the session's key and share.
pub complete_upload-IsRegistered :
    (c : CompleteContext) (r : UploadCompleteRequest) (s : Server) (n : ℕ) (h : IsWhole c r s n)
    → IsRegistered c h.upload (joined c r.upload_session_id h.upload s) n (complete_upload c r s)
unfolding Outcome Registered
complete_upload-IsRegistered c r s n h =
    from_outcome (complete_upload c r s)
      (complete_upload_accepts c r s (record {
        upload = h.upload;
        share = h.share;
        part = h.part;
        parts = h.parts;
        later_upload = h.upload;
        later_share = h.share;
        object_size = ciphertext_size n;
        size = n;
        origin = h.origin;
        session = h.session;
        token = h.token;
        has_token = h.has_token;
        readable =
            readable_now c.now h.share.expires_at h.share.suspended_at h.before_expiry
              h.not_suspended;
        uploaded = h.sent;
        joins = h.whole;
        sized = plaintext_size-ciphertext_size n h.some_bytes;
        small = h.within_plan;
        kept = h.untouched;
        commits =
            commits_then c h.upload h.share (joined c r.upload_session_id h.upload s) h.still_before
              h.not_suspended h.unused;
      }))
      (complete_upload_lem c r s)
  where
    base : Upload → Server
    base u = joined c r.upload_session_id u s

    from_registered :
        (after : Server) (id : String)
        → answered id ≡ answered c.file_id
        → Registered c r.upload_session_id h.upload (base h.upload) (after, answered id)
        → IsRegistered c h.upload (base h.upload) n (after, answered id)
    from_registered after id e (inr k) =
        absurd (none_stored h.upload k.file (base h.upload).files h.unused k.found)
    from_registered after id e (inl a) =
        let same_row : ◌≡◌ {A = Option (Upload × Share)} (some (a.upload, a.share))
            (some (h.upload, h.share)) =
          sym a.session ∙ h.untouched in
        let same_upload : a.upload ≡ h.upload = cc (same_row) in
        let measured : a.object_size ≡ ciphertext_size n =
          completed_size (sym a.measured ∙ h.whole) in
        let size : plaintext_size (ciphertext_size n) ≡ some a.file.size =
          subst (λ (k : ℕ). plaintext_size k ≡ some a.file.size) measured a.sized in
        record {
          file = a.file;
          replied = ap (λ (x : String). answered x) (sym a.named);
          added = a.added;
          of_size = some_size (sym size ∙ plaintext_size-ciphertext_size n h.some_bytes);
          of_session = (
            a.stored.0 ∙ ap (λ (u : Upload). u.storage_key) same_upload,
            a.stored.1 ∙ ap (λ (u : Upload). u.share_id) same_upload,
          );
          not_downloaded = a.fresh;
        }
      where
        completed_size : {i j : ℕ} → completed i ≡ completed j → i ≡ j
        completed_size q = cc (q)

        some_size : {i j : ℕ} → some i ≡ some j → i ≡ j
        some_size q = cc (q)

    from_outcome :
        (result : Server × Reply String)
        → result.1 ≡ answered c.file_id
        → Outcome c r s result
        → IsRegistered c h.upload (base h.upload) n result
    from_outcome (after, refused status) e o = absurd (cc (e))
    from_outcome (after, answered id) e (inl (same_state, (status, q))) = absurd (cc (q))
    from_outcome (after, answered id) e (inr (u, ok, registered)) =
        let same_row : ◌≡◌ {A = Option (Upload × Share)} (some (u, ok.share))
            (some (h.upload, h.share)) =
          sym ok.found ∙ h.session in
        let same_upload : u ≡ h.upload = cc (same_row) in
        from_registered after id e (
          subst (λ (x : Upload). Registered c r.upload_session_id x (base x) (after, answered id))
            same_upload registered)
