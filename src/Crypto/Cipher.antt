-- ===== src/Crypto/Cipher.antt =====
-- AES-GCM of WebCrypto under one key, as lib/crypto/encrypt.ts and decrypt.ts call it: a parameter
-- of the development, with the two laws that the program relies on.
use anzdrop.Base.{◌+◌, ◌≡◌, Option, some, length}
use anzdrop.Crypto.Bytes.{Bytes}
use anzdrop.Crypto.Types.{EncryptionResult, gcm_tag_length}

-- The arguments are the IV, the additional data and the text. A rejected `decrypt` is `none`.
pub record Cipher : Type 0 where
  pub encrypt : Bytes → Option Bytes → Bytes → Bytes
  pub decrypt : Bytes → Option Bytes → Bytes → Option Bytes
  pub decrypt-encrypt :
      (iv : Bytes) (aad : Option Bytes) (text : Bytes)
      → decrypt iv aad (encrypt iv aad text) ≡ some text
  pub length-encrypt :
      (iv : Bytes) (aad : Option Bytes) (text : Bytes)
      → length (encrypt iv aad text) ≡ length text + gcm_tag_length

-- The random IV that `encryptChunk` draws is an argument.
abbrev pub encrypt_chunk : Cipher → Bytes → Bytes → Option Bytes → EncryptionResult
encrypt_chunk c iv text aad = record { iv = iv; ciphertext = c.encrypt iv aad text }

abbrev pub decrypt_chunk : Cipher → EncryptionResult → Option Bytes → Option Bytes
decrypt_chunk c e aad = c.decrypt e.iv aad e.ciphertext
