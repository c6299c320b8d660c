-- ===== src/Server/Download/Listing.antt =====
-- server/routes/download/[shareId]/route.ts: what a share shows to whoever has its address. The
-- transfer id for the statistics is left out of the answer.
pub mod Spent
use anzdrop.Base.{
  ℕ, String, Bool, true, false, ◌&&◌, Option, none, some, List, map, keep, same, ltb, ◌==◌,
  if◌then◌else◌,
}
use anzdrop.Server.State.{File, Server, Reply, refused, answered}
use anzdrop.Server.ShareAuth.{find_share, check_share_accessible}

pub record DownloadResponseFile : Type 0 where
  pub id : String
  pub name : String
  pub size : ℕ
  pub is_one_time : Bool

pub record DownloadResponse : Type 0 where
  pub share_id : String
  pub expires_at : ℕ
  pub wrapped_key : Option String
  pub key_salt : Option String
  pub preview_allowed : Bool
  pub files : List DownloadResponseFile

-- `max_downloads IS NULL OR download_count < max_downloads`
abbrev pub has_downloads_left : File → Bool
has_downloads_left f = elim f.max_downloads [ none ↦ true | some most ↦ ltb f.download_count most ]

abbrev pub is_counted : Option ℕ → Bool
is_counted none = false
is_counted (some most) = true

abbrev pub response_file : File → DownloadResponseFile
response_file f = record {
  id = f.id;
  name = f.encrypted_file_name;
  size = f.size;
  is_one_time = is_counted f.max_downloads;
}

unfoldable pub list_share : ℕ → Bool → String → Server → Reply DownloadResponse
list_share now within_rate share_id s =
    if within_rate
    then elim (find_share share_id s.shares) [
      | none ↦ refused 404
      | some share ↦ elim (check_share_accessible now share.expires_at share.suspended_at) [
        | some status ↦ refused status
        | none ↦ answered (record {
          share_id = share.id;
          expires_at = share.expires_at;
          wrapped_key = share.wrapped_key;
          key_salt = share.key_salt;
          preview_allowed = share.preview_allowed == 1;
          files =
              map response_file
                (keep (λ f. same f.share_id share_id && has_downloads_left f) s.files);
        })
      ]
    ]
    else refused 429
