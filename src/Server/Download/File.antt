-- ===== src/Server/Download/File.antt =====
-- server/routes/file/[fileId]/route.ts: the answer to one request, and what happens once the stream
-- of a counted download ends. What R2 answers, and whether a late write works, are arguments.

use anzdrop.Base.{
  ℕ, ◌+◌, ◌-◌, String, Bool, true, not, ◌&&◌, Option, none, some, List, map, keep, find, same, ltb,
  leb, if◌then◌else◌,
}
use anzdrop.Server.State.{
  File, Server, Reply, refused, answered, get_object, delete_object, call_r2, set_files,
}
use anzdrop.Server.ShareAuth.{find_share, check_share_accessible}
use anzdrop.Server.Download.Listing.{has_downloads_left, is_counted}
use anzdrop.Server.Download.Range.{
  SingleRange, R2Range, RangeResponse, parse_single_range, is_unsatisfiable_range,
  build_range_response,
}

-- What R2 answers: an object's size with the range it gives, no object, or an error.
pub data Fetched : Type 0 where
  object : (size : ℕ) (range : Option R2Range) → Fetched
  absent rejected : Fetched

pub record FileContext : Type 0 where
  pub now : ℕ
  pub within_rate : Bool
  pub is_head : Bool
  -- The numbers of a `Range` header of the right form.
  pub range_header : Option (Option ℕ × Option ℕ)
  -- R2's answers to `get`, and to `head`.
  pub fetched : Fetched
  pub metadata : Fetched
  -- Whether D1 takes the count back when asked to.
  pub restores : Bool

-- A file's bytes: all of them, a range, or all of them as a download that counts.
pub data FileResponse : Type 0 where
  headers_only : (size : ℕ) → FileResponse
  partial : RangeResponse → FileResponse
  whole : (size : ℕ) → FileResponse
  counted : (size : ℕ) (is_final : Bool) → FileResponse

abbrev pub with_count : File → ℕ → File
with_count f download_count = record {
  id = f.id;
  share_id = f.share_id;
  storage_key = f.storage_key;
  encrypted_file_name = f.encrypted_file_name;
  size = f.size;
  max_downloads = f.max_downloads;
  download_count = download_count;
  created_at = f.created_at;
}

abbrev pub find_file : String → List File → Option File
find_file id files = find (λ f. same f.id id) files

abbrev pub restored : String → File → File
restored id f =
    if same f.id id && ltb 0 f.download_count then with_count f (f.download_count - 1) else f

unfoldable pub restore_download_count : String → Server → Server
restore_download_count id s = set_files (map (restored id) s.files) s

-- `safeRestoreDownloadCount`: a failure is only recorded.
abbrev pub safe_restore_download_count : Bool → String → Server → Server
safe_restore_download_count restores id s = if restores then restore_download_count id s else s

abbrev pub consumed : String → File → File
consumed id f =
    if same f.id id && has_downloads_left f then with_count f (f.download_count + 1) else f

-- `UPDATE files SET download_count = download_count + 1 ... RETURNING`: the row's count and limit.
unfoldable pub consume_download : String → Server → Server × Option (ℕ × Option ℕ)
consume_download id s = (
  set_files (map (consumed id) s.files) s,
  elim (find (λ f. same f.id id && has_downloads_left f) s.files) [
    | none ↦ none
    | some f ↦ some (f.download_count + 1, f.max_downloads)
  ],
)

abbrev pub head_file : FileContext → File → Server → Server × Reply FileResponse
head_file c f s =
    if has_downloads_left f
    then elim c.metadata [
      | object size range ↦ (s, answered (headers_only size))
      | absent ↦ (s, refused 404)
      | rejected ↦ (s, refused 500)
    ]
    else (s, refused 404)

-- The error path of a range: 416 if R2 has the object and the range lies beyond it.
abbrev pub range_failed : FileContext → SingleRange → Server → Server × Reply FileResponse
range_failed c range s = elim c.metadata [
  | object size ranged ↦
      if is_unsatisfiable_range range size then (s, refused 416) else (s, refused 500)
  | absent ↦ (s, refused 500)
  | rejected ↦ (s, refused 500)
]

unfoldable pub range_file : FileContext → SingleRange → File → Server → Server × Reply FileResponse
range_file c range f s =
    let called : Server = call_r2 (get_object f.storage_key) s in
    elim c.fetched [
      | object size ranged ↦ (called, answered (partial (build_range_response ranged size)))
      | absent ↦ (called, refused 404)
      | rejected ↦ range_failed c range called
    ]

-- The count is taken back if it counts and no body can be sent.
abbrev pub give_back : FileContext → String → Option ℕ → Server → Server
give_back c id max_downloads s =
    if is_counted max_downloads then safe_restore_download_count c.restores id s else s

abbrev pub send_whole : FileContext → File → ℕ × Option ℕ → Server → Server × Reply FileResponse
send_whole c f (download_count, max_downloads) s =
    let called : Server = call_r2 (get_object f.storage_key) s in
    elim c.fetched [
      | rejected ↦ (give_back c f.id max_downloads called, refused 500)
      | absent ↦ (give_back c f.id max_downloads called, refused 404)
      | object size ranged ↦ elim max_downloads [
        | none ↦ (called, answered (whole size))
        | some most ↦ (called, answered (counted size (leb most download_count)))
      ]
    ]

unfoldable pub whole_file : FileContext → File → Server → Server × Reply FileResponse
whole_file c f s = elim (consume_download f.id s).1 [
  | none ↦ ((consume_download f.id s).0, refused 404)
  | some row ↦ send_whole c f row (consume_download f.id s).0
]

abbrev pub parsed_range : FileContext → Option SingleRange
parsed_range c = elim c.range_header [ none ↦ none | some ends ↦ parse_single_range ends.0 ends.1 ]

abbrev pub serve_file : FileContext → File → Server → Server × Reply FileResponse
serve_file c f s = if c.is_head then head_file c f s else elim (parsed_range c) [
  | none ↦ whole_file c f s
  | some range ↦ if is_counted f.max_downloads then whole_file c f s else range_file c range f s
]

unfoldable pub get_file : FileContext → String → Server → Server × Reply FileResponse
get_file c file_id s =
    if c.within_rate
    then elim (find_file file_id s.files) [
      | none ↦ (s, refused 404)
      | some f ↦ elim (find_share f.share_id s.shares) [
        | none ↦ (s, refused 404)
        | some share ↦ elim (check_share_accessible c.now share.expires_at share.suspended_at) [
          | some status ↦ (s, refused status)
          | none ↦ serve_file c f s
        ]
      ]
    ]
    else (s, refused 429)

-- How the stream of a counted download ended: `piped` if `pipeTo` resolved, the bytes that went
-- through, and whether R2 deletes the object and D1 takes the count back.
pub record StreamEnd : Type 0 where
  pub piped : Bool
  pub delivered_bytes : ℕ
  pub deletes : Bool
  pub restores : Bool

unfoldable pub delete_one_time_file : Bool → (file_id storage_key : String) → Server → Server
delete_one_time_file deletes file_id storage_key s =
    let called : Server = call_r2 (delete_object storage_key) s in
    if deletes then set_files (keep (λ f. not (same f.id file_id)) called.files) called else called

abbrev pub is_fully_delivered : StreamEnd → ℕ → Bool
is_fully_delivered e size = if e.piped then true else leb size e.delivered_bytes

unfoldable pub finish_download :
    StreamEnd → (file_id storage_key : String) → (size : ℕ) → (is_final : Bool) → Server → Server
finish_download e file_id storage_key size is_final s =
    if is_fully_delivered e size
    then if is_final then delete_one_time_file e.deletes file_id storage_key s else s
    else safe_restore_download_count e.restores file_id s
