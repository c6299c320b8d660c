-- ===== src/Crypto/Stream/Encrypt.antt =====
-- lib/crypto/stream.ts, `iterateFileChunks` and `iterateEncryptedChunks`.
pub mod Chunks
use anzdrop.Base.{
  ℕ, zero, suc, ◌+◌, ◌-◌, ◌/◌, ◌==◌, Bool, List, [], ◌∷◌, ◌++◌, Option, none, some, length, take,
  drop, min, max, ltb, if◌then◌else◌,
}
use anzdrop.Crypto.Bytes.{Bytes}
use anzdrop.Crypto.Cipher.{Cipher, encrypt_chunk}
use anzdrop.Crypto.Packet.{pack_chunk}
use anzdrop.Crypto.Aad.{build_chunk_aad}

-- `file.slice(start, end)`
abbrev pub slice : Bytes → ℕ → ℕ → Bytes
slice file start end = take (end - start) (drop start file)

infixl 5 ◌>>=◌
abbrev ◌>>=◌ {ℓ κ} : {A : Type ℓ} {B : Type κ} → Option A → (A → Option B) → Option B
none >>= k = none
some a >>= k = k a

module _ (chunk_size : ℕ) where
  -- The loop of `iterateFileChunks` from `offset`; a fuel of the file's size is enough.
  file_chunks_from : ℕ → Bytes → ℕ → List Bytes
  file_chunks_from zero file offset = []
  file_chunks_from (suc fuel) file offset =
      let end = min (offset + chunk_size) (length file) in
      let rest = file_chunks_from fuel file end in
      if ltb offset (length file) then slice file offset end ∷ rest else []

  unfoldable pub iterate_file_chunks : Bytes → List Bytes
  unfolding file_chunks_from
  iterate_file_chunks file = file_chunks_from (length file) file 0

  unfoldable pub total_chunks : ℕ → ℕ
  total_chunks size = max 1 ((size + chunk_size - 1) / chunk_size)

-- The random choices: the file's salt, and the IV of each chunk by its index.
module _ (c : Cipher) (file_salt : Bytes) (ivs : ℕ → Bytes) where
  -- One round of `iterateEncryptedChunks`.
  unfoldable pub encrypted_packet : Bytes → ℕ → Bool → Option Bytes
  encrypted_packet chunk index is_last = do
    aad ← build_chunk_aad file_salt index is_last
    packed ← pack_chunk (encrypt_chunk c (ivs index) chunk (some aad))
    some (if index == 0 then file_salt ++ packed else packed)

  -- The loop over the chunks; `none` is a thrown error.
  unfoldable pub encrypt_from : ℕ → ℕ → List Bytes → Option (List Bytes)
  encrypt_from total index [] = some []
  encrypt_from total index (chunk ∷ chunks) = do
    packet ← encrypted_packet chunk index (index == total - 1)
    rest ← encrypt_from total (index + 1) chunks
    some (packet ∷ rest)

  unfoldable pub iterate_encrypted_chunks : ℕ → Bytes → Option (List Bytes)
  iterate_encrypted_chunks chunk_size file =
      encrypt_from (total_chunks chunk_size (length file)) 0 (iterate_file_chunks chunk_size file)
