-- ===== src/Server/Upload/Session/PartNumbers.antt =====
-- Which part numbers a session takes, against the parts that a client sends.
use anzdrop.Base.{ℕ, ◌-◌, ◌*◌, ◌≤◌, ◌<◌, ◌≡◌, ◌↔◌, ◌⊎◌, true, some, arith}
use anzdrop.Crypto.Packet.{ciphertext_size}
use anzdrop.Server.Upload.Session.{
  upload_part_size, r2_multipart_min_part_size_bytes, ceil_div, is_part_number_allowed,
  max_part_number_for_declared_file_size,
}

-- A part number is taken exactly if it is 1, or at least 1 and the parts before it could not hold
-- the declared size even at R2's smallest part size.
pub is_part_number_allowed_iff :
    (part_number declared_file_size : ℕ)
    → (is_part_number_allowed (some part_number) declared_file_size ≡ true) ↔ (
        (1 ≤ part_number)
        × ((part_number ≡ 1)
            ⊎ ((part_number - 1) * r2_multipart_min_part_size_bytes < declared_file_size)))
unfolding is_part_number_allowed max_part_number_for_declared_file_size
is_part_number_allowed_iff part_number declared_file_size = (λ h. ground arith, λ h. ground arith)

-- Every part of the encrypted file is taken: the stream of a file of n bytes, cut into parts of
-- 8 MiB, has no part number that the session of a declared size n refuses.
pub is_part_number_allowed-ciphertext :
    (n part_number : ℕ)
    → 0 < n
    → 1 ≤ part_number
    → part_number ≤ ceil_div (ciphertext_size n) upload_part_size
    → is_part_number_allowed (some part_number) n ≡ true
unfolding is_part_number_allowed max_part_number_for_declared_file_size ciphertext_size
is_part_number_allowed-ciphertext n part_number filled low high = ground arith
