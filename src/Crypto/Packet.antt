-- ===== src/Crypto/Packet.antt =====
-- lib/crypto/packet.ts: the packed form of an encrypted chunk, and the sizes of a stored object.
-- Sizes are whole numbers below 2^53, where JavaScript's division and `Math.ceil` are exact, so
-- `Math.ceil(n / d)` is (n + d - 1) / d.
pub mod Sizes
pub mod RoundTrip
use anzdrop.Base.{
  ℕ, zero, suc, ◌+◌, ◌-◌, ◌*◌, ◌/◌, Option, none, some, length, take, drop, leb, ltb, ◌==◌,
  if◌then◌else◌,
}
use anzdrop.Crypto.Bytes.{Bytes, zeros, set_bytes}
use anzdrop.Crypto.Types.{
  EncryptionResult, chunk_size, iv_length, gcm_tag_length, file_salt_length, packed_chunk_size,
}

infixl 5 ◌>>=◌
abbrev ◌>>=◌ {ℓ κ} : {A : Type ℓ} {B : Type κ} → Option A → (A → Option B) → Option B
none >>= k = none
some a >>= k = k a

unfoldable pub pack_chunk : EncryptionResult → Option Bytes
unfolding set_bytes
pack_chunk encrypted = do
  let result = zeros (iv_length + length encrypted.ciphertext)
  with_iv ← set_bytes result encrypted.iv 0
  set_bytes with_iv encrypted.ciphertext iv_length

-- `none` is the thrown "Invalid encrypted chunk."
unfoldable pub unpack_chunk : Bytes → Option EncryptionResult
unpack_chunk input =
    if ltb (length input) iv_length
    then none
    else some (record { iv = take iv_length input; ciphertext = drop iv_length input })

-- `none` is the thrown "Invalid ciphertext size."
unfoldable pub plaintext_size : ℕ → Option ℕ
plaintext_size ciphertext_size =
    if ltb ciphertext_size file_salt_length
    then none
    else (let packet_stream_size = ciphertext_size - file_salt_length in
        let packet_overhead = iv_length + gcm_tag_length in
        let full_packets = packet_stream_size / packed_chunk_size in
        let remainder = packet_stream_size - full_packets * packed_chunk_size in
        if remainder == 0
        then some (full_packets * chunk_size)
        else if leb remainder packet_overhead
        then none
        else some (full_packets * chunk_size + (remainder - packet_overhead)))

-- A negative size, which the source refuses, is no natural number.
unfoldable pub ciphertext_size : ℕ → ℕ
ciphertext_size n =
    if n == 0
    then 0
    else (let packet_count = (n + chunk_size - 1) / chunk_size in
        let packet_overhead = iv_length + gcm_tag_length in
        file_salt_length + n + packet_count * packet_overhead)
