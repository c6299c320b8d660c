-- ===== src/Crypto/Packet/RoundTrip.antt =====
-- Packing and unpacking undo one another.
use anzdrop.Base.{
  ℕ, ◌+◌, ◌≤◌, ◌≡◌, ap, ◌++◌, some, arith, length, take, drop, append-nil, take-append-drop,
  take-append_of_length, drop-append_of_length, length-take, length-append, le→leb, le→ltb_false,
  drop_all, ◌∙◌,
}
use anzdrop.Crypto.Bytes.{Bytes, zeros, set_bytes, length-zeros, drop-zeros}
use anzdrop.Crypto.Types.{EncryptionResult, iv_length}
use anzdrop.Crypto.Packet.{pack_chunk, unpack_chunk}

set_iv :
    (iv : Bytes) (n : ℕ)
    → length iv ≡ iv_length
    → set_bytes (zeros (iv_length + n)) iv 0 ≡ some (iv ++ zeros n)
unfolding set_bytes
set_iv iv n e =
    let fits : 0 + length iv ≤ length (zeros (iv_length + n)) =
      omega (arith, length-zeros (iv_length + n)) in
    let start : 0 + length iv ≡ iv_length = omega arith in
    rw (le→leb _ _ fits, start) (rw (drop-zeros iv_length n))

set_ciphertext :
    (iv c : Bytes)
    → length iv ≡ iv_length
    → set_bytes (iv ++ zeros (length c)) c iv_length ≡ some (iv ++ c)
unfolding set_bytes
set_ciphertext iv c e =
    let total : length (iv ++ zeros (length c)) ≡ iv_length + length c =
      omega (arith, length-append iv (zeros (length c)), length-zeros (length c)) in
    let fits : iv_length + length c ≤ length (iv ++ zeros (length c)) = omega arith in
    rw (
      le→leb _ _ fits,
      drop_all (iv_length + length c) (iv ++ zeros (length c)) (omega arith),
      ← e,
      take-append_of_length iv (zeros (length c)),
      append-nil c,
    )

pub pack_chunk_lem :
    (e : EncryptionResult) → length e.iv ≡ iv_length → pack_chunk e ≡ some (e.iv ++ e.ciphertext)
unfolding pack_chunk
pack_chunk_lem e h = rw (set_iv e.iv (length e.ciphertext) h) (set_ciphertext e.iv e.ciphertext h)

-- Unpacking a packed chunk gives back the chunk, whenever its IV has the format's length.
pub unpack_chunk-pack_chunk :
    (e : EncryptionResult)
    → length e.iv ≡ iv_length
    → (p : Bytes) × (pack_chunk e ≡ some p) × (unpack_chunk p ≡ some e)
unfolding unpack_chunk
unpack_chunk-pack_chunk e h = (
  e.iv ++ e.ciphertext,
  pack_chunk_lem e h,
  (let long : iv_length ≤ length (e.iv ++ e.ciphertext) =
        omega (arith, length-append e.iv e.ciphertext) in
      rw (
        le→ltb_false _ _ long,
        ← h,
        take-append_of_length e.iv e.ciphertext,
        drop-append_of_length e.iv e.ciphertext,
      )),
)

-- Whatever unpacks is packed again to the same bytes.
pub pack_chunk-unpack_chunk :
    (p : Bytes) (e : EncryptionResult) → unpack_chunk p ≡ some e → pack_chunk e ≡ some p
unfolding unpack_chunk
pack_chunk-unpack_chunk p e u =
    let parts : (e.iv ≡ take iv_length p)
        × (e.ciphertext ≡ drop iv_length p)
        × (iv_length ≤ length p) =
      ground arith in
    pack_chunk_lem e (omega (arith, ap length parts.0, length-take iv_length p))
    ∙ (rw (parts.0, parts.1, take-append-drop iv_length p))
