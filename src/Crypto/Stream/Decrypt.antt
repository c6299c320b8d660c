-- ===== src/Crypto/Stream/Decrypt.antt =====
-- lib/crypto/stream.ts, `iterateDecryptedChunks`: the decrypting generator over the buffered reader,
-- and the same computation over one run of bytes, which is what it is meant to do.
pub mod Refines
use anzdrop.Base.{
  ℕ, zero, suc, ◌+◌, ◌-◌, Bool, true, false, List, [], ◌∷◌, Option, none, some, length, take, drop,
  concat, leb, ltb, ◌==◌, if◌then◌else◌,
}
use anzdrop.Crypto.Bytes.{Bytes}
use anzdrop.Crypto.Types.{iv_length, gcm_tag_length, file_salt_length}
use anzdrop.Crypto.Cipher.{Cipher, decrypt_chunk}
use anzdrop.Crypto.Packet.{unpack_chunk}
use anzdrop.Crypto.Aad.{build_chunk_aad}
use anzdrop.Crypto.Stream.Reader.{Reader, fill_to, peek, consume}

-- How the generator ends: it returns, it throws that the transfer was cut off, or it throws that
-- the content is damaged. `unfinished` stands for a run that is out of fuel.
pub data Outcome : Type 0 where
  finished truncated corrupted unfinished : Outcome

pub record Run : Type 0 where
  pub yielded : List Bytes
  pub outcome : Outcome

abbrev pub yield_then : Bytes → Run → Run
yield_then chunk run = record { yielded = chunk ∷ run.yielded; outcome = run.outcome }

abbrev pub ending : Outcome → Run
ending o = record { yielded = []; outcome = o }

-- The final check of the number of bytes against `expectedTotalBytes`.
unfoldable pub check_total : Option ℕ → ℕ → Run
check_total none total = ending finished
check_total (some expected) total = if total == expected then ending finished else ending truncated

pub record Bounds : Type 0 where
  pub size : ℕ
  pub is_last : Bool

unfoldable pub with_aad : Cipher → Option Bytes → ℕ → Bool → Bytes → Option Bytes
with_aad c none index is_last packet = elim (unpack_chunk packet) [
  | none ↦ none
  | some e ↦ decrypt_chunk c e none
]
with_aad c (some salt) index is_last packet = elim (unpack_chunk packet) [
  | none ↦ none
  | some e ↦ elim (build_chunk_aad salt index is_last) [
    | none ↦ none
    | some aad ↦ decrypt_chunk c e (some aad)
  ]
]

module _ (chunk_size : ℕ) where
  abbrev pub packed_size : ℕ
  packed_size = chunk_size + iv_length + gcm_tag_length

  -- `nextPacketBounds`, after its `fillTo`.
  unfoldable pub bounds_of : ℕ → ℕ → Option Bounds
  bounds_of offset pending_length =
      let available = pending_length - offset in
      if leb pending_length offset
      then none
      else if ltb packed_size available
      then some (record { size = packed_size; is_last = false })
      else some (record { size = available; is_last = true })

  abbrev pub fill_packet : ℕ → Reader → Reader
  fill_packet offset r = fill_to (offset + packed_size + 1) r

module _ (chunk_size : ℕ) (c : Cipher) (expected : Option ℕ) where
  -- The `while (true)` of part 2. `after` is what follows a packet that was decrypted.
  pub decrypt_loop : ℕ → Option Bytes → ℕ → ℕ → Reader → Run
  decrypt_loop zero salt index total r = ending unfinished
  decrypt_loop (suc fuel) salt index total r =
      let f = fill_packet chunk_size 0 r in
      elim (bounds_of chunk_size 0 f.pending_length) [
        | none ↦ check_total expected total
        | some b ↦ elim (with_aad c salt index b.is_last (peek f.pending b.size)) [
          | none ↦ ending corrupted
          | some text ↦
              let rest =
                decrypt_loop fuel salt (index + 1) (total + length text) (consume f b.size) in
              yield_then text
                (if b.is_last then check_total expected (total + length text) else rest)
        ]
      ]

  -- Part 1 on a full candidate salt: the new format, or else part 2 from the start.
  unfoldable pub first_packet : ℕ → Reader → Run
  first_packet fuel r =
      let salt = peek r.pending file_salt_length in
      let f = fill_packet chunk_size file_salt_length r in
      elim (bounds_of chunk_size file_salt_length f.pending_length) [
        | none ↦ decrypt_loop fuel none 0 0 f
        | some b ↦
            elim (with_aad c (some salt) 0 b.is_last
              (drop file_salt_length (peek f.pending (file_salt_length + b.size)))) [
                | none ↦ decrypt_loop fuel none 0 0 f
                | some text ↦ yield_then text (
                    decrypt_loop fuel (some salt) 1 (length text)
                      (consume f (file_salt_length + b.size)))
              ]
      ]

  unfoldable pub decrypt_pieces : ℕ → Reader → Run
  decrypt_pieces fuel start =
      let r = fill_to file_salt_length start in
      if r.pending_length == 0
      then (elim expected [
        | none ↦ ending finished
        | some zero ↦ ending finished
        | some (suc n) ↦ ending truncated
      ])
      else if leb file_salt_length r.pending_length
      then first_packet fuel r
      else decrypt_loop fuel none 0 0 r

  -- A fuel above the number of bytes is enough, since each round takes a byte or ends.
  unfoldable pub iterate_decrypted_chunks : List Bytes → Run
  unfolding decrypt_pieces first_packet decrypt_loop
  iterate_decrypted_chunks stream =
      decrypt_pieces (suc (length (concat stream)))
        (record { input = stream; pending = []; pending_length = 0; stream_done = false })
