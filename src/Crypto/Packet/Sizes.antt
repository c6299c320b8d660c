-- ===== src/Crypto/Packet/Sizes.antt =====
-- The two size computations are inverse to one another.
use anzdrop.Base.{ℕ, ◌<◌, ◌≡◌, some, arith}
use anzdrop.Crypto.Packet.{plaintext_size, ciphertext_size}

-- The size of a file that is not empty is recovered from the size of its encrypted stream.
pub plaintext_size-ciphertext_size : (n : ℕ) → 0 < n → plaintext_size (ciphertext_size n) ≡ some n
unfolding plaintext_size ciphertext_size
plaintext_size-ciphertext_size n h = ground arith

-- A stored size that is accepted with a plaintext above 0 is the one that its plaintext would have.
pub ciphertext_size-plaintext_size :
    (c n : ℕ) → plaintext_size c ≡ some n → 0 < n → ciphertext_size n ≡ c
unfolding plaintext_size ciphertext_size
ciphertext_size-plaintext_size c n e h = ground arith
