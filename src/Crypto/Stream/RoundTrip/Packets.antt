-- ===== src/Crypto/Stream/RoundTrip/Packets.antt =====
-- The packets after the first, and how they decrypt.
use anzdrop.Base.{
  ℕ, ◌*◌, ◌+◌, ◌-◌, ◌≤◌, ◌<◌, ◌≡◌, ap, ◌∙◌, Bool, true, false, List, [], ◌∷◌, ◌++◌, Option, some,
  arith, length, concat, ◌==◌, if◌then◌else◌, length-append, append-nil,
}
use anzdrop.Crypto.Bytes.{Bytes}
use anzdrop.Crypto.Types.{iv_length, gcm_tag_length, file_salt_length}
use anzdrop.Crypto.Cipher.{Cipher, encrypt_chunk}
use anzdrop.Crypto.Packet.RoundTrip.{unpack_chunk-pack_chunk, pack_chunk_lem}
use anzdrop.Crypto.Aad.{build_chunk_aad_lem}
use anzdrop.Crypto.Stream.Encrypt.{encrypted_packet, encrypt_from}
use anzdrop.Crypto.Stream.Encrypt.Chunks.{IsChunked}
use anzdrop.Crypto.Stream.Decrypt.{yield_then, check_total, with_aad}
use anzdrop.Crypto.Stream.Decrypt.Refines.{decrypt_rest}
use anzdrop.Crypto.Stream.RoundTrip.Steps.{yield_all, rest_more, rest_last}

pub chunked_pos :
    (chunk_size : ℕ) (y : Bytes) (ys : List Bytes)
    → 0 < chunk_size
    → IsChunked chunk_size (y ∷ ys)
    → 0 < length (concat (y ∷ ys))
chunked_pos chunk_size y [] wide (low, high) = omega (arith, length-append y [])
chunked_pos chunk_size y (z ∷ zs) wide (full, rest) =
    omega (arith, full, length-append y (concat (z ∷ zs)))

pub chunks-le :
    (chunk_size : ℕ) (chunks : List Bytes)
    → 0 < chunk_size
    → IsChunked chunk_size chunks
    → length chunks ≤ length (concat chunks)
chunks-le chunk_size [] wide chunked = omega arith
chunks-le chunk_size (x ∷ []) wide (low, high) = omega (arith, length-append x [])
chunks-le chunk_size (x ∷ y ∷ ys) wide (full, chunked) =
    omega
      (arith, full, chunks-le chunk_size (y ∷ ys) wide chunked, length-append x (concat (y ∷ ys)))

module _ (c : Cipher) (salt : Bytes) (ivs : ℕ → Bytes) where
  -- What one round of the encrypting loop writes: a body that decrypts under its own place.
  pub record Sealed (chunk : Bytes) (index : ℕ) (is_last : Bool) (body : Bytes) : Type 0 where
    pub written :
        encrypted_packet c salt ivs chunk index is_last
        ≡ some (if index == 0 then salt ++ body else body)
    pub size : length body ≡ length chunk + (iv_length + gcm_tag_length)
    pub opens : with_aad c (some salt) index is_last body ≡ some chunk

  module _ (salted : length salt ≡ file_salt_length)
      (drawn : (i : ℕ) → length (ivs i) ≡ iv_length) where
    pub encrypted_packet-Sealed :
        (chunk : Bytes) (index : ℕ) (is_last : Bool)
        → (body : Bytes) × Sealed chunk index is_last body
    unfolding encrypted_packet with_aad
    encrypted_packet-Sealed chunk index is_last =
        let (aad, bound) = build_chunk_aad_lem salt index is_last salted in
        let e = encrypt_chunk c (ivs index) chunk (some aad) in
        let (body, packed, unpacked) = unpack_chunk-pack_chunk e (drawn index) in
        let form : body ≡ ivs index ++ e.ciphertext = cc (packed, pack_chunk_lem e (drawn index)) in
        (
          body,
          record {
            written = rw (bound, packed);
            size = omega (
              arith,
              ap length form,
              length-append (ivs index) e.ciphertext,
              drawn index,
              c.length-encrypt (ivs index) (some aad) chunk,
            );
            opens = rw (with_aad, unpacked, bound) (c.decrypt-encrypt (ivs index) (some aad) chunk);
          },
        )

    -- The packets after the first, and how they decrypt.
    pub record Continues (chunk_size total index : ℕ) (chunks packets : List Bytes) : Type 0 where
      pub written : encrypt_from c salt ivs total index chunks ≡ some packets
      pub size :
          length (concat packets)
          ≡ length (concat chunks) + length chunks * (iv_length + gcm_tag_length)
      pub opens :
          (expected : Option ℕ) (fuel sum : ℕ)
          → length chunks < fuel
          → decrypt_rest chunk_size c expected fuel (some salt) index sum (concat packets)
            ≡ yield_all chunks (check_total expected (sum + length (concat chunks)))

    continue_last :
        (chunk_size total index : ℕ) (x : Bytes)
        → total ≡ index + 1
        → 0 < index
        → 0 < length x
        → length x ≤ chunk_size
        → (packets : List Bytes) × Continues chunk_size total index (x ∷ []) packets
    unfolding encrypt_from
    continue_last chunk_size total index x e pos low high =
        let (body, p) = encrypted_packet-Sealed x index true in
        let final : (index == total - 1) ≡ true = ground arith in
        let later : (index == 0) ≡ false = ground arith in
        (
          body ∷ [],
          record {
            written = rw (final, p.written, later);
            size = rw (append-nil x, append-nil body) (omega (arith, p.size));
            opens = λ expected fuel sum h.
                rw (append-nil x, append-nil body)
                  (rest_last chunk_size c expected (some salt) fuel index sum body x (omega arith)
                    (omega (arith, p.size)) (omega (arith, p.size)) p.opens);
          },
        )

    pub continues :
        (chunk_size total index : ℕ) (x : Bytes) (xs : List Bytes)
        → total ≡ index + length (x ∷ xs)
        → 0 < index
        → 0 < chunk_size
        → IsChunked chunk_size (x ∷ xs)
        → (packets : List Bytes) × Continues chunk_size total index (x ∷ xs) packets
    unfolding encrypt_from
    continues chunk_size total index x [] e pos _ (low, high) =
        continue_last chunk_size total index x (omega arith) pos low high
    continues chunk_size total index x (y ∷ ys) e pos wide (full, chunked) =
        let (body, p) = encrypted_packet-Sealed x index false in
        let (packets, q) =
          continues chunk_size total (index + 1) y ys (omega arith) (omega arith) wide chunked in
        let some_left = chunked_pos chunk_size y ys wide chunked in
        let inner : (index == total - 1) ≡ false = ground arith in
        let later : (index == 0) ≡ false = ground arith in
        (
          body ∷ packets,
          record {
            written = rw (inner, p.written, later, q.written);
            size = omega (
              arith,
              p.size,
              q.size,
              length-append x (concat (y ∷ ys)),
              length-append body (concat packets),
            );
            opens = λ expected fuel sum h.
                rest_more chunk_size c expected (some salt) fuel index sum body (concat packets) x
                  (omega arith) (omega (arith, p.size, full)) (omega (arith, q.size, some_left))
                  p.opens
                ∙ ap (yield_then x) (
                    q.opens expected (fuel - 1) (sum + length x) (omega arith)
                    ∙ ap (λ n. yield_all (y ∷ ys) (check_total expected n))
                        (omega (arith, length-append x (concat (y ∷ ys)))));
          },
        )
