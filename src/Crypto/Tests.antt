-- ===== src/Crypto/Tests.antt =====
-- lib/crypto on concrete inputs, with a cipher that appends sixteen zeros.
use anzdrop.Base.{
  ℕ, ◌+◌, ◌*◌, ◌-◌, ◌≡◌, refl, ap, List, [], ◌∷◌, ◌++◌, Option, some, true, arith, length, take,
  concat, length-append, take-append_of_eq,
}
use anzdrop.Crypto.Bytes.{Bytes, zeros, length-zeros}
use anzdrop.Crypto.Types.{EncryptionResult}
use anzdrop.Crypto.Packet.{pack_chunk, unpack_chunk, plaintext_size, ciphertext_size}
use anzdrop.Crypto.Packet.Sizes.{plaintext_size-ciphertext_size, ciphertext_size-plaintext_size}
use anzdrop.Crypto.Packet.RoundTrip.{unpack_chunk-pack_chunk, pack_chunk-unpack_chunk}
use anzdrop.Crypto.Cipher.{Cipher}
use anzdrop.Crypto.Aad.{build_chunk_aad, build_chunk_aad_injective}
use anzdrop.Crypto.Stream.Encrypt.{iterate_file_chunks, iterate_encrypted_chunks, total_chunks}
use anzdrop.Crypto.Stream.Encrypt.Chunks.{
  IsChunked, iterate_file_chunks-concat, iterate_file_chunks-IsChunked, total_chunks-length,
}
use anzdrop.Crypto.Stream.Decrypt.{finished, iterate_decrypted_chunks}
use anzdrop.Crypto.Stream.Decrypt.Refines.{decrypt_bytes, iterate_decrypted_chunks-decrypt_bytes}
use anzdrop.Crypto.Stream.RoundTrip.{decrypt-encrypt}

pub toy_decrypt-encrypt :
    (text : Bytes)
    → ◌≡◌ {A = Option Bytes}
        (some (take (length (text ++ zeros 16) - 16) (text ++ zeros 16)))
        (some text)
toy_decrypt-encrypt text =
    let n : length (text ++ zeros 16) - 16 ≡ length text =
      omega (arith, length-append text (zeros 16), length-zeros 16) in
    rw n (ap some (take-append_of_eq (length text) text (zeros 16) refl))

abbrev pub toy_cipher : Cipher
toy_cipher = record {
  encrypt = λ iv aad text. text ++ zeros 16;
  decrypt = λ iv aad text. some (take (length text - 16) text);
  decrypt-encrypt = λ iv aad text. toy_decrypt-encrypt text;
  length-encrypt = λ iv aad text. omega (arith, length-append text (zeros 16), length-zeros 16);
}

abbrev file_of_five : Bytes
file_of_five = 10 ∷ 20 ∷ 30 ∷ 40 ∷ 50 ∷ []

abbrev twelve : ℕ → Bytes
twelve i = zeros 12

-- Packets of two bytes: three of them.
decrypt-encrypt_example :
    (packets : List Bytes) × (iterate_encrypted_chunks toy_cipher (zeros 16) twelve 2 file_of_five
      ≡ some packets)
    × (iterate_decrypted_chunks 2 toy_cipher (some 5) packets
        ≡ record { yielded = iterate_file_chunks 2 file_of_five; outcome = finished })
    × (concat (iterate_file_chunks 2 file_of_five) ≡ file_of_five)
    × (length (concat packets) ≡ 16 + 5 + total_chunks 2 5 * 28)
decrypt-encrypt_example =
    decrypt-encrypt toy_cipher (zeros 16) twelve refl (λ i. refl) 2 file_of_five (omega arith)
      (omega arith)

file_chunks : iterate_file_chunks 2 file_of_five ≡ (10 ∷ 20 ∷ []) ∷ (30 ∷ 40 ∷ []) ∷ (50 ∷ []) ∷ []
unfolding iterate_file_chunks
file_chunks = refl

abbrev pieces : List Bytes
pieces = (1 ∷ 2 ∷ 3 ∷ []) ∷ [] ∷ zeros 60 ∷ []

iterate_decrypted_chunks-decrypt_bytes_example :
    iterate_decrypted_chunks 2 toy_cipher (some 5) pieces
    ≡ decrypt_bytes 2 toy_cipher (some 5) (concat pieces)
iterate_decrypted_chunks-decrypt_bytes_example =
    iterate_decrypted_chunks-decrypt_bytes 2 toy_cipher (some 5) pieces

abbrev bound : Option Bytes
bound = some (zeros 16 ++ (0 ∷ 0 ∷ 0 ∷ 1 ∷ 1 ∷ []))

aad_of_one : build_chunk_aad (zeros 16) 1 true ≡ bound
unfolding build_chunk_aad
aad_of_one = refl

build_chunk_aad_injective_example : (zeros 16 ≡ zeros 16) × ◌≡◌ {A = ℕ} 1 1 × (true ≡ true)
build_chunk_aad_injective_example =
    build_chunk_aad_injective (zeros 16) (zeros 16) 1 1 true true (omega arith) (omega arith)
      aad_of_one aad_of_one

abbrev packet : EncryptionResult
packet = record { iv = zeros 12; ciphertext = 1 ∷ 2 ∷ [] }

unpack_chunk-pack_chunk_example :
    (p : Bytes) × (pack_chunk packet ≡ some p) × (unpack_chunk p ≡ some packet)
unpack_chunk-pack_chunk_example = unpack_chunk-pack_chunk packet refl

unpacked : unpack_chunk (zeros 12 ++ (1 ∷ 2 ∷ [])) ≡ some packet
unfolding unpack_chunk
unpacked = refl

packed_again : pack_chunk packet ≡ some (zeros 12 ++ (1 ∷ 2 ∷ []))
packed_again = pack_chunk-unpack_chunk (zeros 12 ++ (1 ∷ 2 ∷ [])) packet unpacked

plaintext_size-ciphertext_size_example : plaintext_size (ciphertext_size 10000000) ≡ some 10000000
plaintext_size-ciphertext_size_example = plaintext_size-ciphertext_size 10000000 (omega arith)

plaintext_of_49 : plaintext_size 49 ≡ some 5
unfolding plaintext_size
plaintext_of_49 = refl

ciphertext_size-plaintext_size_example : ciphertext_size 5 ≡ 49
ciphertext_size-plaintext_size_example =
    ciphertext_size-plaintext_size 49 5 plaintext_of_49 (omega arith)

iterate_file_chunks-concat_example : concat (iterate_file_chunks 2 file_of_five) ≡ file_of_five
iterate_file_chunks-concat_example = iterate_file_chunks-concat 2 (omega arith) file_of_five

chunks_of_five-IsChunked : IsChunked 2 (iterate_file_chunks 2 file_of_five)
chunks_of_five-IsChunked = iterate_file_chunks-IsChunked 2 (omega arith) file_of_five

total_chunks_of_five : total_chunks 2 5 ≡ length (iterate_file_chunks 2 file_of_five)
total_chunks_of_five = total_chunks-length 2 (omega arith) file_of_five (omega arith)
