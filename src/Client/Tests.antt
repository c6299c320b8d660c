-- ===== src/Client/Tests.antt =====
-- lib/upload/chunkUploader.ts on a concrete stream.
use anzdrop.Base.{ℕ, ◌≡◌, refl, List, [], ◌∷◌, ◌++◌, some, none, true, All, concat, arith}
use anzdrop.Crypto.Bytes.{Bytes, zeros}
use anzdrop.Crypto.Types.{chunk_size}
use anzdrop.Crypto.Packet.{pack_chunk}
use anzdrop.Crypto.Aad.{build_chunk_aad}
use anzdrop.Crypto.Stream.Encrypt.{
  iterate_encrypted_chunks, encrypt_from, encrypted_packet, iterate_file_chunks, total_chunks,
}
use anzdrop.Crypto.Tests.{toy_cipher}
use anzdrop.Server.State.{Server}
use anzdrop.Server.Upload.Session.{UploadSessionRow, upload_part_size}
use anzdrop.Server.Upload.Chunk.{ChunkContext}
use anzdrop.Client.Repartition.Admitted.{Taken, encrypted_parts_allowed}
use anzdrop.Client.Repartition.{repartition, repartition_from, drain, take_pieces}
use anzdrop.Client.Repartition.Parts.{IsPartition, bodies, repartition-IsPartition}

abbrev stream : List Bytes
stream = (1 ∷ 2 ∷ 3 ∷ []) ∷ [] ∷ (4 ∷ 5 ∷ 6 ∷ 7 ∷ []) ∷ []

parts_of_three : bodies (repartition 3 stream) ≡ (1 ∷ 2 ∷ 3 ∷ []) ∷ (4 ∷ 5 ∷ 6 ∷ []) ∷ (7 ∷ []) ∷ []
unfolding repartition repartition_from drain take_pieces
parts_of_three = refl

repartition-IsPartition_example :
    IsPartition 3 1 (repartition 3 stream)
    × (concat (bodies (repartition 3 stream)) ≡ concat stream)
repartition-IsPartition_example = repartition-IsPartition 3 stream (omega arith)

abbrev salt_of_zeros : Bytes
salt_of_zeros = zeros 16

abbrev ivs_of_zeros : ℕ → Bytes
ivs_of_zeros i = zeros 12

abbrev small_file : Bytes
small_file = 10 ∷ 20 ∷ 30 ∷ []

-- One packet: the salt, the IV, the three bytes and sixteen zeros.
abbrev small_packets : List Bytes
small_packets = (zeros 28 ++ (small_file ++ zeros 16)) ∷ []

small_file_encrypted :
    iterate_encrypted_chunks toy_cipher salt_of_zeros ivs_of_zeros chunk_size small_file
    ≡ some small_packets
unfolding iterate_encrypted_chunks encrypt_from encrypted_packet pack_chunk build_chunk_aad
    iterate_file_chunks total_chunks
small_file_encrypted = refl

encrypted_parts_allowed_example : All (Taken 3) (repartition upload_part_size small_packets)
encrypted_parts_allowed_example =
    encrypted_parts_allowed toy_cipher salt_of_zeros ivs_of_zeros refl (λ i. refl) small_file
      small_packets (omega arith) small_file_encrypted

abbrev small_row : UploadSessionRow
small_row = record {
  storage_key = "key";
  upload_id = "r2";
  file_size = some 3;
  upload_token = some "token";
}

abbrev small_server : Server
small_server = record {
  shares =
      record {
        id = "share";
        created_at = 0;
        expires_at = 1000;
        upload_token = some "token";
        wrapped_key = none;
        key_salt = none;
        suspended_at = none;
        preview_allowed = 0;
      }
      ∷ [];
  uploads =
      record {
        id = "session";
        share_id = "share";
        storage_key = "key";
        upload_id = "r2";
        encrypted_file_name = "name";
        file_size = some 3;
        max_downloads = none;
        created_at = 0;
      }
      ∷ [];
  upload_parts = [];
  files = [];
  r2_calls = [];
}

abbrev lucky : ChunkContext
lucky = record { within_rate = true; etag = some "tag"; stores = true }
