-- ===== src/Server/Download/Listing/Spent.antt =====
-- A file on its last download leaves the listing as soon as a request for it is counted.
use anzdrop.Base.{
  ℕ, ◌+◌, ◌≤◌, ◌≡◌, refl, ap, ◌∙◌, inl, inr, String, Bool, true, false, ◌&&◌, none, some, List, [],
  ◌∷◌, map, keep, keep-true, keep-false, exists, same, arith, All, Bool-cases, by_test, by_option,
  ◌==◌,
}
use anzdrop.Server.State.{Share, File, Server, Reply, refused, answered}
use anzdrop.Server.ShareAuth.{find_share, check_share_accessible}
use anzdrop.Server.Download.Listing.{
  DownloadResponse, DownloadResponseFile, has_downloads_left, response_file, list_share,
}
use anzdrop.Server.Download.File.{consumed, with_count, consume_download}

-- If the row is the file's, its limit is reached by one more download.
unfoldable pub OnLast : String → File → Type 0
OnLast file_id f =
    same f.id file_id ≡ true
    → (most : ℕ) × (f.max_downloads ≡ some most) × (most ≤ f.download_count + 1)

spent :
    (file_id : String) (f : File)
    → OnLast file_id f
    → same (consumed file_id f).id file_id ≡ true
    → has_downloads_left (consumed file_id f) ≡ false
unfolding OnLast
spent file_id f last =
    by_test (λ g. same g.id file_id ≡ true → has_downloads_left g ≡ false)
      (same f.id file_id && has_downloads_left f) (with_count f (f.download_count + 1)) f
      (λ b mine. let (most, limit, reached) = last mine in ground (arith, limit, reached))
      (λ b mine. ground (arith, b, mine))

abbrev listed : (share_id : String) → List File → List DownloadResponseFile
listed share_id files =
    map response_file (keep (λ f. same f.share_id share_id && has_downloads_left f) files)

exists-listed :
    (file_id share_id : String) (files : List File)
    → All (OnLast file_id) files
    → exists (λ e. same e.id file_id) (listed share_id (map (consumed file_id) files)) ≡ false
exists-listed file_id share_id [] h = refl
exists-listed file_id share_id (f ∷ fs) (h, hs) =
    let g : File = consumed file_id f in
    let test : File → Bool = λ f. same f.share_id share_id && has_downloads_left f in
    let rest = exists-listed file_id share_id fs hs in
    let found : List File → Bool =
      λ files. exists (λ e. same e.id file_id) (map response_file files) in
    elim (Bool-cases (test g)) [
      | inr out ↦ ap found (keep-false test g (map (consumed file_id) fs) out) ∙ rest
      | inl kept ↦ elim (Bool-cases (same g.id file_id)) [
        | inl mine ↦ absurd (ground (arith, kept, spent file_id f h mine))
        | inr other ↦
            ap found (keep-true test g (map (consumed file_id) fs) kept) ∙ (rw (other, exists) rest)
      ]
    ]

-- A reply that lists no such file; a refusal lists nothing.
pub Hides : String → Reply DownloadResponse → Type 0
Hides file_id (refused status) = Unit
Hides file_id (answered d) = exists (λ e. same e.id file_id) d.files ≡ false

-- Once a request for a file has been counted that was on its last download, no listing shows the
-- file, of whatever share and at whatever time, until its count is taken back.
pub list_share-consume_download :
    (now : ℕ) (within_rate : Bool) (share_id file_id : String) (s : Server)
    → All (OnLast file_id) s.files
    → Hides file_id (list_share now within_rate share_id (consume_download file_id s).0)
unfolding list_share consume_download Hides
list_share-consume_download now within_rate share_id file_id s h =
    by_test P within_rate
      (elim (find_share share_id s.shares) [ none ↦ refused 404 | some share ↦ shown share ])
      (refused 429)
      (λ _.
        by_option P (find_share share_id s.shares) (refused 404) shown (λ _. tt)
          (λ share _.
            by_option P (check_share_accessible now share.expires_at share.suspended_at)
              (answered (response share)) (λ status. refused status)
              (λ _. exists-listed file_id share_id s.files h) (λ status _. tt)))
      (λ _. tt)
  where
    P : Reply DownloadResponse → Type 0
    P = Hides file_id

    response : Share → DownloadResponse
    response share = record {
      share_id = share.id;
      expires_at = share.expires_at;
      wrapped_key = share.wrapped_key;
      key_salt = share.key_salt;
      preview_allowed = share.preview_allowed == 1;
      files = listed share_id (map (consumed file_id) s.files);
    }

    shown : Share → Reply DownloadResponse
    shown share = elim (check_share_accessible now share.expires_at share.suspended_at) [
      | some status ↦ refused status
      | none ↦ answered (response share)
    ]
