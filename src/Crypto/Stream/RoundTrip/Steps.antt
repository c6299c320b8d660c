-- ===== src/Crypto/Stream/RoundTrip/Steps.antt =====
-- One round of the decrypting loop on a stream whose next packet is known.
use anzdrop.Base.{
  ℕ, zero, suc, ◌+◌, ◌-◌, ◌≤◌, ◌<◌, ◌≡◌, refl, ap, true, false, List, [], ◌∷◌, ◌++◌, Option, some,
  arith, length, length-append, take_all, take-append_of_eq, drop-append_of_eq,
}
use anzdrop.Crypto.Bytes.{Bytes}
use anzdrop.Crypto.Cipher.{Cipher}
use anzdrop.Crypto.Stream.Decrypt.{
  Run, finished, yield_then, ending, check_total, with_aad, packed_size, bounds_of,
}
use anzdrop.Crypto.Stream.Decrypt.Refines.{decrypt_rest}

-- A run that yields all the chunks and goes on as `last`.
abbrev pub yield_all : List Bytes → Run → Run
yield_all [] last = last
yield_all (x ∷ xs) last = yield_then x (yield_all xs last)

pub yield_all-finished :
    (chunks : List Bytes)
    → yield_all chunks (ending finished) ≡ record { yielded = chunks; outcome = finished }
yield_all-finished [] = refl
yield_all-finished (x ∷ xs) = ap (yield_then x) (yield_all-finished xs)

module _ (chunk_size : ℕ) where
  pub bounds_more :
      (offset n : ℕ)
      → offset + packed_size chunk_size < n
      → bounds_of chunk_size offset n
        ≡ some (record { size = packed_size chunk_size; is_last = false })
  unfolding bounds_of
  bounds_more offset n h = ground arith

  pub bounds_last :
      (offset n k : ℕ)
      → offset + k ≡ n
      → 0 < k
      → k ≤ packed_size chunk_size
      → bounds_of chunk_size offset n ≡ some (record { size = k; is_last = true })
  unfolding bounds_of
  bounds_last offset n k e p h = ground arith

module _ (chunk_size : ℕ) (c : Cipher) (expected : Option ℕ) (salt : Option Bytes) where
  pub rest_end :
      (fuel index sum : ℕ)
      → 0 < fuel
      → decrypt_rest chunk_size c expected fuel salt index sum [] ≡ check_total expected sum
  unfolding decrypt_rest bounds_of
  rest_end zero index sum h = absurd (omega arith)
  rest_end (suc fuel) index sum h = refl

  pub rest_more :
      (fuel index sum : ℕ) (body rest text : Bytes)
      → 0 < fuel
      → length body ≡ packed_size chunk_size
      → 0 < length rest
      → with_aad c salt index false body ≡ some text
      → decrypt_rest chunk_size c expected fuel salt index sum (body ++ rest)
        ≡ yield_then text (
            decrypt_rest chunk_size c expected (fuel - 1) salt (index + 1) (sum + length text) rest)
  unfolding decrypt_rest
  rest_more zero index sum body rest text f e h d = absurd (omega arith)
  rest_more (suc fuel) index sum body rest text f e h d =
      let long : 0 + packed_size chunk_size < length (body ++ rest) =
        omega (arith, length-append body rest) in
      let less : suc fuel - 1 ≡ fuel = omega arith in
      rw (bounds_more chunk_size 0 (length (body ++ rest)) long, decrypt_rest)
        (rw (
          take-append_of_eq (packed_size chunk_size) body rest e,
          d,
          drop-append_of_eq (packed_size chunk_size) body rest e,
          less,
        ))

  pub rest_last :
      (fuel index sum : ℕ) (body text : Bytes)
      → 0 < fuel
      → 0 < length body
      → length body ≤ packed_size chunk_size
      → with_aad c salt index true body ≡ some text
      → decrypt_rest chunk_size c expected fuel salt index sum body
        ≡ yield_then text (check_total expected (sum + length text))
  unfolding decrypt_rest
  rest_last zero index sum body text f low high d = absurd (omega arith)
  rest_last (suc fuel) index sum body text f low high d =
      rw (bounds_last chunk_size 0 (length body) (length body) (omega arith) low high, decrypt_rest)
        (rw (take_all (length body) body (omega arith), d))
