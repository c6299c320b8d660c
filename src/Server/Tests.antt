-- ===== src/Server/Tests.antt =====
-- The routes on concrete inputs: one share with one upload and one file that may be had once.
use anzdrop.Base.{
  ℕ, ◌+◌, ◌-◌, ◌*◌, ◌≤◌, ◌<◌, ◌≡◌, refl, ◌↔◌, ◌⊎◌, true, false, ◌&&◌, none, some, List, [], ◌∷◌,
  All, arith, same, ltb, length, concat, if◌then◌else◌,
}
use anzdrop.Crypto.Bytes.{Bytes}
use anzdrop.Crypto.Packet.{ciphertext_size}
use anzdrop.Plan.Limits.{free, get_max_file_size_bytes}
use anzdrop.Server.State.{Share, Upload, File, Server}
use anzdrop.Server.ShareAuth.{verify_share_ownership, check_share_accessible}
use anzdrop.Server.ShareAuth.Ownership.{Verdict, verify_share_ownership_lem}
use anzdrop.Server.Upload.Session.{
  ceil_div, upload_part_size, is_part_number_allowed, r2_multipart_min_part_size_bytes,
}
use anzdrop.Server.Upload.Session.PartNumbers.{
  is_part_number_allowed_iff, is_part_number_allowed-ciphertext,
}
use anzdrop.Server.Upload.Start.{StartContext, UploadStartRequest, start_upload}
use anzdrop.Server.Upload.Start.Started
use anzdrop.Server.Upload.Chunk.{ChunkContext, ChunkRequest, upload_chunk, read_body_within_limit}
use anzdrop.Server.Upload.Chunk.Body.{read_body_within_limit_lem}
use anzdrop.Server.Upload.Chunk.Accepted
use anzdrop.Server.Upload.PartAck.{UploadPartAckRequest, part_ack}
use anzdrop.Server.Upload.PartAck.Latest.{Acknowledged, part_ack_lem}
use anzdrop.Server.Upload.Complete.Whole.{IsWhole, IsRegistered, complete_upload-IsRegistered}
use anzdrop.Server.Upload.Complete.{
  completed, CompleteContext, UploadCompleteRequest, complete_upload, session_parts, joined,
  order_by_part_number, insert_part,
}
use anzdrop.Server.Upload.Complete.Registered
use anzdrop.Server.Download.Listing.{list_share}
use anzdrop.Server.Download.Listing.Spent.{Hides, OnLast, list_share-consume_download}
use anzdrop.Server.Download.Range.{
  parse_single_range, is_unsatisfiable_range, build_range_response, requested, between,
}
use anzdrop.Server.Download.Range.Served.{Sends, range_response_lem}
use anzdrop.Server.Download.File.{
  FileContext, object, absent, StreamEnd, get_file, finish_download, whole_file, consume_download,
  is_fully_delivered,
}
use anzdrop.Server.Download.Counting.{
  Downloads, Reaches, done, next, request, stream_end, IsRow, opens, one_if,
}
use anzdrop.Server.Download.Counting.Deliveries.{delivered_at_most}

abbrev a_share : Share
a_share = record {
  id = "share";
  created_at = 0;
  expires_at = 1000;
  upload_token = some "token";
  wrapped_key = none;
  key_salt = none;
  suspended_at = none;
  preview_allowed = 0;
}

abbrev an_upload : Upload
an_upload = record {
  id = "session";
  share_id = "share";
  storage_key = "key";
  upload_id = "r2";
  encrypted_file_name = "name";
  file_size = some 5;
  max_downloads = some 1;
  created_at = 0;
}

abbrev a_file : File
a_file = record {
  id = "file";
  share_id = "share";
  storage_key = "other";
  encrypted_file_name = "name";
  size = 5;
  max_downloads = some 1;
  download_count = 0;
  created_at = 0;
}

abbrev a_server : Server
a_server = record {
  shares = a_share ∷ [];
  uploads = an_upload ∷ [];
  upload_parts = record { upload_session_id = "session"; part_number = 1; etag = "tag" } ∷ [];
  files = a_file ∷ [];
  r2_calls = [];
}

verify_share_ownership_lem_example :
    Verdict 10
      (a_share ∷ [])
      "share"
      (some "token")
      (verify_share_ownership 10 (a_share ∷ []) "share" (some "token"))
verify_share_ownership_lem_example =
    verify_share_ownership_lem 10 (a_share ∷ []) "share" (some "token")

second_part_allowed :
    (is_part_number_allowed (some 2) 9000000 ≡ true)
    ↔ ((1 ≤ 2) × (◌≡◌ {A = ℕ} 2 1 ⊎ ((2 - 1) * r2_multipart_min_part_size_bytes < 9000000)))
second_part_allowed = is_part_number_allowed_iff 2 9000000

two_parts : 2 ≤ ceil_div (ciphertext_size 9000000) upload_part_size
unfolding ciphertext_size
two_parts = omega arith

is_part_number_allowed-ciphertext_example : is_part_number_allowed (some 2) 9000000 ≡ true
is_part_number_allowed-ciphertext_example =
    is_part_number_allowed-ciphertext 9000000 2 (omega arith) (omega arith) two_parts

abbrev start_context : StartContext
start_context = record {
  now = 10;
  signed_in = false;
  same_origin = true;
  plan = free;
  turnstile_ok = true;
  new_share_id = "new";
  new_upload_token = "secret";
  upload_session_id = "next";
  storage_key = "place";
  share_stored = true;
  multipart = some "r2-2";
  stored = true;
}

abbrev start_request : UploadStartRequest
start_request = record {
  encrypted_file_name = "name";
  file_size = 5;
  retention = "once";
  share_id = some "share";
  upload_token = some "token";
  wrapped_key = none;
  key_salt = none;
}

start_upload_lem_example :
    Started.Outcome start_context start_request a_server
      (start_upload start_context start_request a_server)
start_upload_lem_example = Started.start_upload_lem start_context start_request a_server

abbrev chunk_context : ChunkContext
chunk_context = record { within_rate = true; etag = some "tag"; stores = true }

abbrev chunk_request : ChunkRequest
chunk_request = record {
  upload_session_id = some "session";
  part_number_header = some "1";
  part_number = some 1;
  upload_token = some "token";
  content_length = none;
  pieces = (1 ∷ 2 ∷ []) ∷ (3 ∷ []) ∷ [];
}

upload_chunk_lem_example :
    Accepted.Outcome chunk_request a_server (upload_chunk chunk_context chunk_request a_server)
upload_chunk_lem_example = Accepted.upload_chunk_lem chunk_context chunk_request a_server

abbrev two_pieces : List Bytes
two_pieces = (1 ∷ 2 ∷ []) ∷ (3 ∷ []) ∷ []

read_body_within_limit_lem_example : read_body_within_limit (some 3) two_pieces 2 ≡ (
    if ltb 2 3
    then none
    else if ltb 2 (length (concat two_pieces))
    then none
    else some (concat two_pieces))
read_body_within_limit_lem_example = read_body_within_limit_lem (some 3) two_pieces 2

abbrev complete_context : CompleteContext
complete_context = record {
  now = 10;
  signed_in = false;
  same_origin = true;
  plan = free;
  completion = completed 49;
  meanwhile = λ s. s;
  file_id = "made";
  created_at = 11;
}

abbrev complete_request : UploadCompleteRequest
complete_request = record { upload_session_id = "session"; upload_token = "token" }

complete_upload_lem_example :
    Registered.Outcome complete_context complete_request a_server
      (complete_upload complete_context complete_request a_server)
complete_upload_lem_example =
    Registered.complete_upload_lem complete_context complete_request a_server

parsed : parse_single_range (some 2) (some 9) ≡ some (between 2 8)
unfolding parse_single_range
parsed = refl

range_response_lem_example :
    (is_unsatisfiable_range (between 2 8) 5 ≡ true
      → (build_range_response (some (requested (between 2 8))) 5).status ≡ 416)
    × (is_unsatisfiable_range (between 2 8) 5 ≡ false
        → Sends (build_range_response (some (requested (between 2 8))) 5) (some 2) (some 9) 5)
range_response_lem_example = range_response_lem (some 2) (some 9) (between 2 8) 5 parsed

abbrev file_context : FileContext
file_context = record {
  now = 10;
  within_rate = true;
  is_head = false;
  range_header = none;
  fetched = object 49 none;
  metadata = absent;
  restores = true;
}

abbrev at_first : Downloads
at_first = record { server = a_server; open_streams = 0; delivered = 0 }

abbrev requested_once : Downloads
requested_once = record {
  server = (get_file file_context "file" a_server).0;
  open_streams = 0 + opens "file" "file" (get_file file_context "file" a_server).1;
  delivered = 0;
}

abbrev requested_twice : Downloads
requested_twice = record {
  server = (get_file file_context "file" requested_once.server).0;
  open_streams =
      requested_once.open_streams
      + opens "file" "file" (get_file file_context "file" requested_once.server).1;
  delivered = 0;
}

abbrev ended : StreamEnd
ended = record { piped = true; delivered_bytes = 49; deletes = true; restores = true }

abbrev delivered_once : Downloads
delivered_once = record {
  server = finish_download ended "file" "other" 49 true requested_twice.server;
  open_streams = requested_twice.open_streams - one_if (same "file" "file");
  delivered = 0 + one_if (same "file" "file" && is_fully_delivered ended 49);
}

one_open : one_if (same "file" "file") ≤ requested_twice.open_streams
unfolding get_file whole_file consume_download check_share_accessible
one_open = omega arith

once_delivered : delivered_once.delivered ≡ 1
once_delivered = refl

-- Two requests, of which the second is refused, and the end of the stream.
one_delivery : Reaches "file" at_first delivered_once
unfolding get_file check_share_accessible whole_file consume_download
one_delivery = next at_first requested_once delivered_once (request file_context "file" at_first) (
    next requested_once requested_twice delivered_once (request file_context "file" requested_once)
      (next requested_twice delivered_once delivered_once
        (stream_end ended "file" "other" 49 true requested_twice one_open) (done delivered_once)))

delivered_at_most_example :
    (delivered_once.open_streams + delivered_once.delivered ≤ 1)
    × All
        (IsRow "file" 1 (delivered_once.open_streams + delivered_once.delivered))
        delivered_once.server.files
delivered_at_most_example =
    delivered_at_most "file" 1 a_server delivered_once
      (record { limit = λ h. refl; used = λ h. omega arith; bounded = λ h. omega arith }, tt)
      one_delivery

abbrev ack_request : UploadPartAckRequest
ack_request = record {
  upload_session_id = "session";
  upload_token = "token";
  parts = record { part_number = 1; etag = "old" } ∷ record { part_number = 1; etag = "new" } ∷ [];
}

part_ack_lem_example : Acknowledged ack_request a_server (part_ack true ack_request a_server)
part_ack_lem_example = part_ack_lem true ack_request a_server

list_share-consume_download_example :
    Hides "file" (list_share 10 true "share" (consume_download "file" a_server).0)
unfolding OnLast
list_share-consume_download_example =
    list_share-consume_download 10 true "share" "file" a_server (λ h. (1, refl, omega arith), tt)

sent_part :
    session_parts "session" a_server
    ≡ (record { upload_session_id = "session"; part_number = 1; etag = "tag" } ∷ [])
unfolding order_by_part_number insert_part
sent_part = refl

abbrev complete_request-IsWhole : IsWhole complete_context complete_request a_server 5
unfolding ciphertext_size get_max_file_size_bytes
complete_request-IsWhole = record {
  upload = an_upload;
  share = a_share;
  part = record { upload_session_id = "session"; part_number = 1; etag = "tag" };
  parts = [];
  origin = refl;
  session = refl;
  token = refl;
  has_token = refl;
  before_expiry = omega arith;
  still_before = omega arith;
  not_suspended = refl;
  sent = sent_part;
  whole = refl;
  some_bytes = omega arith;
  within_plan = omega arith;
  untouched = refl;
  unused = refl;
}

complete_upload-IsRegistered_example :
    IsRegistered complete_context an_upload
      (joined complete_context "session" an_upload a_server)
      5
      (complete_upload complete_context complete_request a_server)
unfolding complete_request-IsWhole
complete_upload-IsRegistered_example =
    complete_upload-IsRegistered complete_context complete_request a_server 5
      complete_request-IsWhole
