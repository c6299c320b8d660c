-- ===== src/Crypto/Aad.antt =====
-- lib/crypto/aad.ts: the additional data that ties a packet to its file and place.
use anzdrop.Base.{
  ℕ, ◌/◌, ◌%◌, ◌^◌, ◌<◌, ◌≡◌, sym, ◌∙◌, Bool, [], ◌∷◌, ◌++◌, Option, none, some, arith, length,
  take-append_of_length, drop-append_of_length, ◌==◌, if◌then◌else◌,
}
use anzdrop.Crypto.Bytes.{Bytes}
use anzdrop.Crypto.Types.{file_salt_length}

-- `DataView.setUint32(offset, n, false)`: four bytes, the highest first, of n modulo 2^32.
uint32_be : ℕ → Bytes
uint32_be n = (n / 2 ^ 24 % 256) ∷ (n / 2 ^ 16 % 256) ∷ (n / 2 ^ 8 % 256) ∷ (n % 256) ∷ []

last_flag : Bool → ℕ
last_flag is_last = if is_last then 1 else 0

-- `none` is the thrown "Invalid file salt length."
unfoldable pub build_chunk_aad : Bytes → ℕ → Bool → Option Bytes
unfolding uint32_be last_flag
build_chunk_aad file_salt index is_last =
    if length file_salt == file_salt_length
    then some (file_salt ++ (uint32_be index ++ last_flag is_last ∷ []))
    else none

pub build_chunk_aad_lem :
    (salt : Bytes) (index : ℕ) (is_last : Bool)
    → length salt ≡ file_salt_length
    → (aad : Bytes) × (build_chunk_aad salt index is_last ≡ some aad)
unfolding build_chunk_aad
build_chunk_aad_lem salt index is_last h =
    (salt ++ (uint32_be index ++ last_flag is_last ∷ []), ground arith)

tail_injective :
    (i j : ℕ) (a b : Bool)
    → i < 2 ^ 32
    → j < 2 ^ 32
    → ◌≡◌ {A = Bytes} (uint32_be i ++ last_flag a ∷ []) (uint32_be j ++ last_flag b ∷ [])
    → (i ≡ j) × (a ≡ b)
unfolding uint32_be last_flag
tail_injective i j a b hi hj e = ground arith

-- Two packets with indices below 2^32 share their additional data only if file salt, index and last
-- flag all agree.
pub build_chunk_aad_injective :
    (s t : Bytes) (i j : ℕ) (a b : Bool) {x : Bytes}
    → i < 2 ^ 32
    → j < 2 ^ 32
    → build_chunk_aad s i a ≡ some x
    → build_chunk_aad t j b ≡ some x
    → (s ≡ t) × (i ≡ j) × (a ≡ b)
unfolding build_chunk_aad
build_chunk_aad_injective s t i j a b {x} hi hj p q =
    let left : (length s ≡ file_salt_length) × (s ++ (uint32_be i ++ last_flag a ∷ []) ≡ x) =
      ground arith in
    let right : (length t ≡ file_salt_length) × (t ++ (uint32_be j ++ last_flag b ∷ []) ≡ x) =
      ground arith in
    let n : length t ≡ length s = omega arith in
    let heads : s ≡ t =
      sym (take-append_of_length s (uint32_be i ++ last_flag a ∷ []))
      ∙ (rw (left.1, ← right.1, ← n) (take-append_of_length t (uint32_be j ++ last_flag b ∷ []))) in
    let tails : uint32_be i ++ last_flag a ∷ [] ≡ uint32_be j ++ last_flag b ∷ [] =
      sym (drop-append_of_length s (uint32_be i ++ last_flag a ∷ []))
      ∙ (rw (left.1, ← right.1, ← n) (drop-append_of_length t (uint32_be j ++ last_flag b ∷ []))) in
    let rest = tail_injective i j a b hi hj tails in (heads, rest.0, rest.1)
