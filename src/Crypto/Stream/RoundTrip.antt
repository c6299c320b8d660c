-- ===== src/Crypto/Stream/RoundTrip.antt =====
-- A file that was encrypted to a stream of packets is decrypted to the same file.
pub mod Steps
pub mod Packets
use anzdrop.Base.{
  ℕ, zero, suc, ◌*◌, ◌+◌, ◌-◌, ◌≤◌, ◌<◌, ◌≡◌, refl, sym, ap, ◌∙◌, Bool, true, false, List, [], ◌∷◌,
  ◌++◌, Option, none, some, arith, ◌⊎◌, inl, inr, length, take, drop, concat, ◌==◌, leb, ltb,
  if◌then◌else◌, length-append, take-append_of_length, drop-append_of_length, append-nil,
  append_assoc, take_all, take-append_of_eq, drop-append_of_eq,
}
use anzdrop.Crypto.Bytes.{Bytes}
use anzdrop.Crypto.Types.{iv_length, gcm_tag_length, file_salt_length}
use anzdrop.Crypto.Cipher.{Cipher, encrypt_chunk}
use anzdrop.Crypto.Packet.{pack_chunk, unpack_chunk}
use anzdrop.Crypto.Packet.RoundTrip.{unpack_chunk-pack_chunk, pack_chunk_lem}
use anzdrop.Crypto.Aad.{build_chunk_aad, build_chunk_aad_lem}
use anzdrop.Crypto.Stream.Encrypt.{
  encrypted_packet, encrypt_from, iterate_encrypted_chunks, iterate_file_chunks, total_chunks,
}
use anzdrop.Crypto.Stream.Encrypt.Chunks.{
  IsChunked, iterate_file_chunks-concat, iterate_file_chunks-IsChunked, total_chunks-length,
}
use anzdrop.Crypto.Stream.Decrypt.{
  Run, Bounds, finished, yield_then, ending, check_total, with_aad, packed_size, bounds_of,
  iterate_decrypted_chunks,
}
use anzdrop.Crypto.Stream.Decrypt.Refines.{
  decrypt_rest, decrypt_first, decrypt_bytes, iterate_decrypted_chunks-decrypt_bytes,
}
use anzdrop.Crypto.Stream.RoundTrip.Steps.{
  yield_all, yield_all-finished, bounds_more, bounds_last, rest_end, rest_more, rest_last,
}
use anzdrop.Crypto.Stream.RoundTrip.Packets.{
  chunked_pos, chunks-le, Sealed, encrypted_packet-Sealed, Continues, continues,
}

module _ (c : Cipher) (salt : Bytes) (ivs : ℕ → Bytes) where
  module _ (salted : length salt ≡ file_salt_length)
      (drawn : (i : ℕ) → length (ivs i) ≡ iv_length) where
    first_opens :
        (chunk_size : ℕ) (expected : Option ℕ) (fuel : ℕ) (body rest text : Bytes) (is_last : Bool)
        → bounds_of chunk_size file_salt_length (length (salt ++ (body ++ rest)))
          ≡ some (record { size = length body; is_last = is_last })
        → with_aad c (some salt) 0 is_last body ≡ some text
        → decrypt_first chunk_size c expected fuel (salt ++ (body ++ rest))
          ≡ yield_then text
              (decrypt_rest chunk_size c expected fuel (some salt) 1 (length text) rest)
    unfolding decrypt_first
    first_opens chunk_size expected fuel body rest text is_last b d =
        let both : length (salt ++ body) ≡ file_salt_length + length body =
          omega (arith, length-append salt body, salted) in
        let regroup = sym (append_assoc salt body rest) in
        let t1 = take-append_of_eq file_salt_length salt (body ++ rest) salted in
        let t2 =
          ap (take (file_salt_length + length body)) regroup
          ∙ take-append_of_eq (file_salt_length + length body) (salt ++ body) rest both in
        let t3 = drop-append_of_eq file_salt_length salt body salted in
        let t4 =
          ap (drop (file_salt_length + length body)) regroup
          ∙ drop-append_of_eq (file_salt_length + length body) (salt ++ body) rest both in
        rw (b, decrypt_first) (rw (t1, t2, t3, d) (rw (t1, t4)))

    record Encrypts (chunk_size : ℕ) (chunks packets : List Bytes) : Type 0 where
      written : encrypt_from c salt ivs (length chunks) 0 chunks ≡ some packets
      size :
          length (concat packets)
          ≡ file_salt_length + length (concat chunks) + length chunks * (iv_length + gcm_tag_length)
      opens :
          (expected : Option ℕ) (fuel : ℕ)
          → length chunks < fuel
          → decrypt_first chunk_size c expected fuel (concat packets)
            ≡ yield_all chunks (check_total expected (length (concat chunks)))

    encrypts :
        (chunk_size : ℕ) (x : Bytes) (xs : List Bytes)
        → 0 < chunk_size
        → IsChunked chunk_size (x ∷ xs)
        → (packets : List Bytes) × Encrypts chunk_size (x ∷ xs) packets
    unfolding encrypt_from
    encrypts chunk_size x [] wide (low, high) =
        let (body, p) = encrypted_packet-Sealed c salt ivs salted drawn x 0 true in
        let whole = append_assoc salt body [] in
        let total : length (salt ++ (body ++ [])) ≡ file_salt_length + length body =
          omega (arith, length-append salt (body ++ []), length-append body [], salted) in
        (
          (salt ++ body) ∷ [],
          record {
            written = rw p.written;
            size = rw whole (omega (arith, total, p.size, length-append x []));
            opens = λ expected fuel h.
                ap (decrypt_first chunk_size c expected fuel) whole
                ∙ first_opens chunk_size expected fuel body [] x true
                    (bounds_last chunk_size file_salt_length (length (salt ++ (body ++ [])))
                      (length body) (omega arith) (omega (arith, p.size)) (omega (arith, p.size)))
                    p.opens
                ∙ ap (yield_then x) (
                    rest_end chunk_size c expected (some salt) fuel 1 (length x) (omega arith)
                    ∙ ap (check_total expected) (omega (arith, length-append x [])));
          },
        )
    encrypts chunk_size x (y ∷ ys) wide (full, chunked) =
        let (body, p) = encrypted_packet-Sealed c salt ivs salted drawn x 0 false in
        let (packets, q) =
          continues c salt ivs salted drawn chunk_size (length (x ∷ y ∷ ys)) 1 y ys (omega arith)
            (omega arith) wide chunked in
        let inner : (0 == length (x ∷ y ∷ ys) - 1) ≡ false = ground arith in
        let some_left = chunked_pos chunk_size y ys wide chunked in
        let whole = append_assoc salt body (concat packets) in
        let total : length (salt ++ (body ++ concat packets))
            ≡ file_salt_length + length body + length (concat packets) =
          omega (
            arith,
            length-append salt (body ++ concat packets),
            length-append body (concat packets),
            salted,
          ) in
        let exact : length body ≡ packed_size chunk_size = omega (arith, p.size, full) in
        (
          (salt ++ body) ∷ packets,
          record {
            written = rw (inner, p.written, q.written);
            size =
                rw whole (omega (arith, total, p.size, q.size, length-append x (concat (y ∷ ys))));
            opens = λ expected fuel h.
                ap (decrypt_first chunk_size c expected fuel) whole
                ∙ first_opens chunk_size expected fuel body (concat packets) x false
                    (bounds_more chunk_size file_salt_length
                        (length (salt ++ (body ++ concat packets)))
                        (omega (arith, total, q.size, some_left))
                      ∙ ap (λ k. some (record { size = k; is_last = false })) (sym exact))
                    p.opens
                ∙ ap (yield_then x) (
                    q.opens expected fuel (length x) (omega arith)
                    ∙ ap (λ n. yield_all (y ∷ ys) (check_total expected n))
                        (sym (length-append x (concat (y ∷ ys)))));
          },
        )

    decrypts :
        (chunk_size : ℕ) (chunks : List Bytes)
        → 0 < chunk_size
        → 0 < length (concat chunks)
        → IsChunked chunk_size chunks
        → (packets : List Bytes) × (encrypt_from c salt ivs (length chunks) 0 chunks ≡ some packets)
          × (decrypt_bytes chunk_size c (some (length (concat chunks))) (concat packets)
              ≡ record { yielded = chunks; outcome = finished })
          × (length (concat packets)
              ≡ file_salt_length
                + length (concat chunks)
                + length chunks * (iv_length + gcm_tag_length))
    unfolding decrypt_bytes check_total
    decrypts chunk_size [] wide some_bytes chunked = absurd (omega arith)
    decrypts chunk_size (x ∷ xs) wide some_bytes chunked =
        let (packets, e) = encrypts chunk_size x xs wide chunked in
        let n = length (concat packets) in
        let filled : (n == 0) ≡ false = ground (arith, e.size) in
        let salted_long : leb file_salt_length n ≡ true = ground (arith, e.size) in
        let fuelled : length (x ∷ xs) < suc n =
          omega (arith, e.size, chunks-le chunk_size (x ∷ xs) wide chunked) in
        let same : (length (concat (x ∷ xs)) == length (concat (x ∷ xs))) ≡ true = ground arith in
        (
          packets,
          e.written,
          rw (filled, salted_long)
              (e.opens (some (length (concat (x ∷ xs)))) (suc n) fuelled
                ∙ rw same (yield_all-finished (x ∷ xs))),
          e.size,
        )

    -- With a 16-byte salt and 12-byte IVs, whatever they are, encrypting a file that is not empty
    -- never throws, and decrypting what it yields, with the file's size expected, yields exactly
    -- the file's chunks and ends normally; the chunks joined are the file, and the stream has 16
    -- bytes and 28 for each chunk more than the file. Any packet size above 0.
    pub decrypt-encrypt :
        (chunk_size : ℕ) (file : Bytes)
        → 0 < chunk_size
        → 0 < length file
        → (packets : List Bytes) × (iterate_encrypted_chunks c salt ivs chunk_size file
            ≡ some packets)
          × (iterate_decrypted_chunks chunk_size c (some (length file)) packets
              ≡ record { yielded = iterate_file_chunks chunk_size file; outcome = finished })
          × (concat (iterate_file_chunks chunk_size file) ≡ file)
          × (length (concat packets)
              ≡ file_salt_length
                + length file
                + total_chunks chunk_size (length file) * (iv_length + gcm_tag_length))
    unfolding iterate_encrypted_chunks
    decrypt-encrypt chunk_size file wide some_bytes =
        let chunks = iterate_file_chunks chunk_size file in
        let joined = iterate_file_chunks-concat chunk_size wide file in
        let size = ap length joined in
        let (packets, written, opened, long) =
          decrypts chunk_size chunks wide (omega (arith, size))
            (iterate_file_chunks-IsChunked chunk_size wide file) in
        (
          packets,
          rw (total_chunks-length chunk_size wide file some_bytes) written,
          rw
              (
                iterate_decrypted_chunks-decrypt_bytes chunk_size c (some (length file)) packets,
                ← size,
              )
              opened,
          joined,
          rw (total_chunks-length chunk_size wide file some_bytes, ← size) long,
        )
