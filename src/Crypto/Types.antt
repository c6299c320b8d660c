-- ===== src/Crypto/Types.antt =====
-- lib/crypto/types.ts: the sizes of the encrypted format, and an encrypted chunk.
use anzdrop.Base.{ℕ, ◌+◌, ◌*◌}
use anzdrop.Crypto.Bytes.{Bytes}

abbrev pub chunk_size : ℕ
chunk_size = 8 * 1024 * 1024

abbrev pub iv_length : ℕ
iv_length = 12

abbrev pub gcm_tag_length : ℕ
gcm_tag_length = 16

abbrev pub file_salt_length : ℕ
file_salt_length = 16

abbrev pub packed_chunk_size : ℕ
packed_chunk_size = chunk_size + iv_length + gcm_tag_length

pub record EncryptionResult : Type 0 where
  pub iv : Bytes
  pub ciphertext : Bytes
