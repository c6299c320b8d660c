-- ===== src/Crypto/Stream/Decrypt/Refines.antt =====
-- The decrypting generator depends on the bytes of its stream alone.
use anzdrop.Base.{
  ℕ, zero, suc, ◌+◌, ◌≤◌, ◌≡◌, refl, ap, ◌∙◌, inl, inr, false, List, [], Option, none, some, arith,
  length, take, drop, concat, leb, ◌==◌, if◌then◌else◌, Option-cases, Bool-cases, leb→le,
}
use anzdrop.Crypto.Bytes.{Bytes}
use anzdrop.Crypto.Types.{file_salt_length}
use anzdrop.Crypto.Cipher.{Cipher}
use anzdrop.Crypto.Stream.Reader.{Reader, fill_to, consume, content}
use anzdrop.Crypto.Stream.Reader.Laws.{
  IsSound, fill_to-content, fill_to-IsSound, fill_to_length, peek-content, consume-content,
  consume-IsSound,
}
use anzdrop.Crypto.Stream.Decrypt.{
  Run, Bounds, finished, truncated, corrupted, unfinished, yield_then, ending, check_total,
  with_aad, packed_size, bounds_of, fill_packet, decrypt_loop, first_packet, decrypt_pieces,
  iterate_decrypted_chunks,
}

module _ (chunk_size : ℕ) where
  -- The look-ahead settles where a packet ends as the whole rest would.
  bounds_of_filled :
      (offset : ℕ) (r : Reader)
      → IsSound r
      → bounds_of chunk_size offset (fill_packet chunk_size offset r).pending_length
        ≡ bounds_of chunk_size offset (length (content r))
  unfolding bounds_of
  bounds_of_filled offset r s =
      let n = fill_to_length (offset + packed_size chunk_size + 1) r s in ground (arith, n)

  bounds_of_le :
      (offset n : ℕ) (b : Bounds) → bounds_of chunk_size offset n ≡ some b → offset + b.size ≤ n
  unfolding bounds_of
  bounds_of_le offset n b e = ground arith

module _ (chunk_size : ℕ) (c : Cipher) (expected : Option ℕ) where
  -- Part 2 over the bytes that are left.
  unfoldable pub decrypt_rest : ℕ → Option Bytes → ℕ → ℕ → Bytes → Run
  decrypt_rest zero salt index total bytes = ending unfinished
  decrypt_rest (suc fuel) salt index total bytes = elim (bounds_of chunk_size 0 (length bytes)) [
    | none ↦ check_total expected total
    | some b ↦ elim (with_aad c salt index b.is_last (take b.size bytes)) [
      | none ↦ ending corrupted
      | some text ↦
          let rest = decrypt_rest fuel salt (index + 1) (total + length text) (drop b.size bytes) in
          yield_then text (if b.is_last then check_total expected (total + length text) else rest)
    ]
  ]

  decrypt_loop-decrypt_rest :
      (fuel : ℕ) (salt : Option Bytes) (index total : ℕ) (r : Reader)
      → IsSound r
      → decrypt_loop chunk_size c expected fuel salt index total r
        ≡ decrypt_rest fuel salt index total (content r)
  unfolding decrypt_loop decrypt_rest
  decrypt_loop-decrypt_rest zero salt index total r s = refl
  decrypt_loop-decrypt_rest (suc fuel) salt index total r s =
      let f = fill_packet chunk_size 0 r in
      let sound = fill_to-IsSound (0 + packed_size chunk_size + 1) r s in
      let same = fill_to-content (0 + packed_size chunk_size + 1) r s in
      rw (bounds_of_filled chunk_size 0 r s, decrypt_loop)
        (elim (Option-cases (bounds_of chunk_size 0 (length (content r)))) [
          | inl e ↦ rw (e, decrypt_loop, decrypt_rest)
          | inr (b, e) ↦
              rw (e, decrypt_loop, decrypt_rest)
                (let le : b.size ≤ f.pending_length = omega (
                  arith,
                  bounds_of_le chunk_size 0 f.pending_length b
                      (bounds_of_filled chunk_size 0 r s ∙ e),
                ) in
                  let packet = peek-content f b.size sound le ∙ ap (take b.size) same in
                  let left = consume-content f b.size sound le ∙ ap (drop b.size) same in
                  rw packet
                    (elim (Option-cases
                      (with_aad c salt index b.is_last (take b.size (content r)))) [
                        | inl bad ↦ rw bad
                        | inr (text, good) ↦
                            let tail =
                              decrypt_loop-decrypt_rest fuel salt (index + 1) (total + length text)
                                (consume f b.size) (consume-IsSound f b.size sound le)
                              ∙ ap (decrypt_rest fuel salt (index + 1) (total + length text))
                                  left in
                            rw (good, tail)
                      ]))
        ])

  -- The whole computation over the bytes of the stream.
  unfoldable pub decrypt_first : ℕ → Bytes → Run
  decrypt_first fuel bytes = elim (bounds_of chunk_size file_salt_length (length bytes)) [
    | none ↦ decrypt_rest fuel none 0 0 bytes
    | some b ↦
        elim (with_aad c (some (take file_salt_length bytes)) 0 b.is_last
          (drop file_salt_length (take (file_salt_length + b.size) bytes))) [
            | none ↦ decrypt_rest fuel none 0 0 bytes
            | some text ↦ yield_then text (
                decrypt_rest fuel (some (take file_salt_length bytes)) 1 (length text)
                  (drop (file_salt_length + b.size) bytes))
          ]
  ]

  unfoldable pub decrypt_bytes : Bytes → Run
  decrypt_bytes bytes =
      if length bytes == 0
      then (elim expected [
        | none ↦ ending finished
        | some zero ↦ ending finished
        | some (suc n) ↦ ending truncated
      ])
      else if leb file_salt_length (length bytes)
      then decrypt_first (suc (length bytes)) bytes
      else decrypt_rest (suc (length bytes)) none 0 0 bytes

  first_packet-decrypt_first :
      (fuel : ℕ) (r : Reader)
      → IsSound r
      → file_salt_length ≤ r.pending_length
      → first_packet chunk_size c expected fuel r ≡ decrypt_first fuel (content r)
  unfolding first_packet decrypt_first
  first_packet-decrypt_first fuel r s h =
      let f = fill_packet chunk_size file_salt_length r in
      let sound = fill_to-IsSound (file_salt_length + packed_size chunk_size + 1) r s in
      let same = fill_to-content (file_salt_length + packed_size chunk_size + 1) r s in
      rw (bounds_of_filled chunk_size file_salt_length r s, first_packet)
        (elim (Option-cases (bounds_of chunk_size file_salt_length (length (content r)))) [
          | inl e ↦
              rw (e, first_packet, decrypt_first)
                (decrypt_loop-decrypt_rest fuel none 0 0 f sound
                  ∙ ap (decrypt_rest fuel none 0 0) same)
          | inr (b, e) ↦
              rw (e, first_packet, decrypt_first)
                (let le =
                    bounds_of_le chunk_size file_salt_length f.pending_length b
                      (bounds_of_filled chunk_size file_salt_length r s ∙ e) in
                  let salt = peek-content r file_salt_length s h in
                  let packet =
                    peek-content f (file_salt_length + b.size) sound le
                    ∙ ap (take (file_salt_length + b.size)) same in
                  let left =
                    consume-content f (file_salt_length + b.size) sound le
                    ∙ ap (drop (file_salt_length + b.size)) same in
                  rw (packet, salt)
                    (elim (Option-cases (
                      with_aad c (some (take file_salt_length (content r))) 0 b.is_last
                        (drop file_salt_length (take (file_salt_length + b.size) (content r))))) [
                          | inl bad ↦ rw bad (
                              decrypt_loop-decrypt_rest fuel none 0 0 f sound
                              ∙ ap (decrypt_rest fuel none 0 0) same)
                          | inr (text, good) ↦
                              let tail =
                                decrypt_loop-decrypt_rest fuel
                                  (some (take file_salt_length (content r))) 1 (length text)
                                  (consume f (file_salt_length + b.size))
                                  (consume-IsSound f (file_salt_length + b.size) sound le)
                                ∙ ap
                                    (decrypt_rest fuel (some (take file_salt_length (content r))) 1
                                      (length text))
                                    left in
                              rw (good, salt, tail)
                        ]))
        ])

  start : List Bytes → Reader
  start stream = record { input = stream; pending = []; pending_length = 0; stream_done = false }

  start-IsSound : (stream : List Bytes) → IsSound (start stream)
  unfolding start
  start-IsSound stream = record { counted = refl; ended = λ d. cc }

  -- The generator computes what `decrypt_bytes` does on the joined bytes of its stream: how the
  -- stream cuts the bytes into pieces, empty ones included, makes no difference.
  pub iterate_decrypted_chunks-decrypt_bytes :
      (stream : List Bytes)
      → iterate_decrypted_chunks chunk_size c expected stream ≡ decrypt_bytes (concat stream)
  unfolding iterate_decrypted_chunks decrypt_bytes start decrypt_pieces
  iterate_decrypted_chunks-decrypt_bytes stream =
      let r = fill_to file_salt_length (start stream) in
      let ready = start-IsSound stream in
      let sound = fill_to-IsSound file_salt_length (start stream) ready in
      let same = fill_to-content file_salt_length (start stream) ready in
      let n = fill_to_length file_salt_length (start stream) ready in
      let fuel = suc (length (concat stream)) in
      let none_left : (r.pending_length == 0) ≡ (length (concat stream) == 0) = ground (arith, n) in
      let salted : leb file_salt_length r.pending_length
          ≡ leb file_salt_length (length (concat stream)) =
        ground (arith, n) in
      rw (none_left, salted)
        (elim (Bool-cases (leb file_salt_length (length (concat stream)))) [
          | inl long ↦
              rw (long, first_packet-decrypt_first fuel r sound (leb→le _ _ (salted ∙ long)), same)
          | inr short ↦ rw (short, decrypt_loop-decrypt_rest fuel none 0 0 r sound, same)
        ])
